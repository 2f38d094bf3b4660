-- ===== src/Fsm/Quiet.antt =====
-- What the calls of the handlers leave alone.
use criu_migration_operator.Base.{String, List, [], ◌∷◌, some, any, str_eq, ◌<>◌, arith}
use criu_migration_operator.Kube.{Pod, OwnerReference}
use criu_migration_operator.Cluster.{Env, World, Result, ok, err}
use criu_migration_operator.Cluster.Trace.{
  IsIdle, IsIdle-SameView, SameView-refl, SameView-trans, IsQuiet, IsQuiet-pure, IsQuiet-bind,
  IsQuiet-then, IsQuiet-if, IsQuiet-read, IsQuiet-delete_pod, IsQuiet-update_deployment,
}
use criu_migration_operator.Kube.{Deployment}
use criu_migration_operator.AgentClient.{new_agent_client}
use criu_migration_operator.Pods.{keys_of, pod_builder}
use criu_migration_operator.Fsm.Quiesce.{
  owner_in, find_deployment, scale_down, scale_owners_to_zero, delete_all, quiesce_action,
}

module _ (env : Env) where
  delete_all-IsQuiet : (pods : List Pod) → IsQuiet (delete_all env pods)
  unfolding delete_all
  delete_all-IsQuiet [] = IsQuiet-pure tt
  delete_all-IsQuiet (p ∷ r) = IsQuiet-bind (IsQuiet-delete_pod env p) (λ a. delete_all-IsQuiet r)

  find_deployment-IsQuiet :
      (namespace : String) (owners : List OwnerReference)
      → IsQuiet (find_deployment env namespace owners)
  unfolding find_deployment
  find_deployment-IsQuiet namespace [] = IsQuiet-pure ""
  find_deployment-IsQuiet namespace (o ∷ r) =
      let rest = find_deployment-IsQuiet namespace r in
      IsQuiet-if (str_eq o.kind "ReplicaSet")
        (IsQuiet-bind (IsQuiet-read env (λ n. env.get_replica_set n namespace o.name)) (λ owners.
          IsQuiet-if (str_eq (owner_in owners) "") rest (IsQuiet-pure (owner_in owners))))
        rest

  scale_down-IsQuiet : (d : Result Deployment) → IsQuiet (scale_down env d)
  unfolding scale_down
  scale_down-IsQuiet (ok d) =
      IsQuiet-bind (IsQuiet-update_deployment env (record d { replicas = some 0 }))
        (λ a. IsQuiet-pure tt)
  scale_down-IsQuiet (err e) = IsQuiet-pure tt

  scale_owners_to_zero-IsQuiet :
      (handled : List String) (pods : List Pod) → IsQuiet (scale_owners_to_zero env handled pods)
  unfolding scale_owners_to_zero
  scale_owners_to_zero-IsQuiet handled [] = IsQuiet-pure tt
  scale_owners_to_zero-IsQuiet handled (p ∷ r) =
      IsQuiet-bind (find_deployment-IsQuiet p.meta.namespace p.meta.owner_references) (λ name.
        let key = p.meta.namespace <> "/" <> name in
        IsQuiet-if (str_eq name "") (scale_owners_to_zero-IsQuiet handled r) (
          IsQuiet-if (any (str_eq key) handled) (scale_owners_to_zero-IsQuiet handled r) (
            IsQuiet-bind (IsQuiet-read env (λ n. env.get_deployment n p.meta.namespace name)) (λ d.
              IsQuiet-then (scale_down-IsQuiet d)
                (scale_owners_to_zero-IsQuiet (key ∷ handled) r)))))

  pub quiesce_action-IsQuiet :
      (action : String) (pods : List Pod) → IsQuiet (quiesce_action env action pods)
  unfolding quiesce_action
  quiesce_action-IsQuiet action pods =
      IsQuiet-if (str_eq action "scale-zero") (scale_owners_to_zero-IsQuiet [] pods)
        (delete_all-IsQuiet pods)

  pub new_agent_client-IsIdle : (pod : Pod) (w : World) → IsIdle w (new_agent_client env pod w).1
  unfolding new_agent_client
  new_agent_client-IsIdle pod w = ground arith

  pub new_agent_client-IsQuiet : (pod : Pod) → IsQuiet (new_agent_client env pod)
  new_agent_client-IsQuiet pod = record {
    at = λ w. IsIdle-SameView (new_agent_client-IsIdle pod w);
  }

  pub pod_builder-IsQuiet : IsQuiet (pod_builder env)
  unfolding pod_builder
  pod_builder-IsQuiet = record {
    at = λ w.
        SameView-trans
          ((IsQuiet-if (str_eq w.app.spec.storage.credentials_secret "") (IsQuiet-pure _) (
              IsQuiet-bind
                (IsQuiet-read env
                  (λ n. env.get_secret n "migration-system" w.app.spec.storage.credentials_secret))
                (λ a. IsQuiet-pure (keys_of a)))).at
            w)
          (SameView-refl _);
  }
