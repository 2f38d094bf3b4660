-- ===== src/Fsm/Quiesce.antt =====
-- pkg/controller/migration_fsm.go: the stage Quiescing, which drains the load generators.
use criu_migration_operator.Base.{
  ℕ, zero, suc, ◌+◌, ◌*◌, String, Bool, true, false, not, ◌&&◌, List, [], ◌∷◌, Option, none, some,
  leb, str_eq, ◌<>◌, itoa, length, keep, any, if◌then◌else◌,
}
use criu_migration_operator.Base.Int.{ℤ, pos, negsuc}
use criu_migration_operator.Base.Duration.{second}
use criu_migration_operator.Kube.{Pod, OwnerReference, Deployment, is_running}
use criu_migration_operator.Api.{PreDumpQuiesce, quiescing, dumping}
use criu_migration_operator.Cluster.{
  Env, M, Result, ok, err, Outcome, requeue, requeue_after, ◌>>=◌, ◌>>◌, pure, the_app, clock,
  list_pods, delete_pod, get_replica_set, get_deployment, update_deployment,
}
use criu_migration_operator.Pods.{is_deleting}
use criu_migration_operator.Fsm.Transition.{set_stage, move_to}

-- The drain budget: DrainSeconds, or five seconds where that is not positive.
unfoldable pub drain_budget : ℤ → ℕ
drain_budget (pos zero) = 5 * second
drain_budget (pos (suc n)) = suc n * second
drain_budget (negsuc n) = 5 * second

abbrev pub is_live : Pod → Bool
is_live p = not (is_deleting p.meta.deletion_timestamp) && is_running p.phase

abbrev pub live_pods : Result (List Pod) → Result (List Pod)
live_pods (ok pods) = ok (keep is_live pods)
live_pods (err e) = err e

-- The name of the first owner of a ReplicaSet that is a Deployment.
unfoldable pub deployment_owner : List OwnerReference → String
deployment_owner [] = ""
deployment_owner (o ∷ r) = if str_eq o.kind "Deployment" then o.name else deployment_owner r

unfoldable pub owner_in : Result (List OwnerReference) → String
unfolding deployment_owner
owner_in (ok owners) = deployment_owner owners
owner_in (err e) = ""

abbrev pub is_nil {ℓ} : {A : Type ℓ} → List A → Bool
is_nil [] = true
is_nil (x ∷ r) = false

module _ (env : Env) where
  -- fsmAdvanceToDumping
  unfoldable pub advance_to_dumping : M Outcome
  unfolding move_to
  advance_to_dumping = move_to env dumping (λ m. record m { last_error = "" }) requeue

  -- listQuiesceTargets
  unfoldable pub list_quiesce_targets : List (String × String) → M (Result (List Pod))
  list_quiesce_targets selector = do
    app ← the_app
    pods ← list_pods env app.meta.namespace selector
    pure (live_pods pods)

  -- The inner loops of quiesceScaleOwnersToZero: the Deployment of a pod, through its ReplicaSets.
  unfoldable pub find_deployment : (namespace : String) → List OwnerReference → M String
  unfolding owner_in
  find_deployment namespace [] = pure ""
  find_deployment namespace (o ∷ r) =
      let rest = find_deployment namespace r in
      if str_eq o.kind "ReplicaSet"
      then (do
        owners ← get_replica_set env namespace o.name
        let name = owner_in owners
        if str_eq name "" then rest else pure name)
      else rest

  unfoldable pub scale_down : Result Deployment → M Unit
  scale_down (ok d) = do answer ← update_deployment env (record d { replicas = some 0 }); pure tt
  scale_down (err e) = pure tt

  -- The loop of quiesceScaleOwnersToZero over the pods, with the Deployments it has handled. What
  -- fails is logged and skipped, and the function returns no error.
  unfoldable pub scale_owners_to_zero : List String → List Pod → M Unit
  unfolding find_deployment scale_down
  scale_owners_to_zero handled [] = pure tt
  scale_owners_to_zero handled (p ∷ r) = do
    let next = λ (h : List String). scale_owners_to_zero h r
    name ← find_deployment p.meta.namespace p.meta.owner_references
    let key = p.meta.namespace <> "/" <> name
    if str_eq name ""
        then next handled
        else if any (str_eq key) handled
        then next handled
        else do d ← get_deployment env p.meta.namespace name; scale_down d; next (key ∷ handled)

  -- The deletion of every matched pod; an error is logged.
  unfoldable pub delete_all : List Pod → M Unit
  delete_all [] = pure tt
  delete_all (p ∷ r) = do answer ← delete_pod env p; delete_all r

  -- The action of the first entry: scale to zero, or the default, deletion.
  unfoldable pub quiesce_action : String → List Pod → M Unit
  unfolding scale_owners_to_zero delete_all
  quiesce_action action pods =
      if str_eq action "scale-zero" then scale_owners_to_zero [] pods else delete_all pods

  -- LastError is the latch that says that the action has been taken. The result of the update that
  -- sets it is dropped.
  unfoldable pub poll_or_act : PreDumpQuiesce → List Pod → M Outcome
  poll_or_act q pods = do
    app ← the_app
    if str_eq app.status.migration.last_error ""
        then (do
          quiesce_action q.action pods
          answer ←
              set_stage env quiescing
                (λ m. record m { last_error = "quiescing " <> itoa (length pods) <> " pods" })
          pure (requeue_after second))
        else pure (requeue_after second)

  unfoldable pub drain : PreDumpQuiesce → (expired : Bool) → Result (List Pod) → M Outcome
  unfolding advance_to_dumping poll_or_act
  drain q expired (err e) = advance_to_dumping
  drain q expired (ok []) = advance_to_dumping
  drain q expired (ok (p ∷ r)) = if expired then advance_to_dumping else poll_or_act q (p ∷ r)

  -- What the handler does where there is a selector.
  unfoldable pub drain_targets : PreDumpQuiesce → M Outcome
  unfolding drain list_quiesce_targets
  drain_targets q = do
    app ← the_app
    now ← clock
    pods ← list_quiesce_targets q.target_pod_selector
    drain q (leb (app.status.migration.last_transition_time + drain_budget q.drain_seconds) now)
        pods

  unfoldable pub quiesce_with : Option PreDumpQuiesce → M Outcome
  unfolding drain_targets
  quiesce_with none = advance_to_dumping
  quiesce_with (some q) =
      if is_nil q.target_pod_selector then advance_to_dumping else drain_targets q

  -- fsmQuiescingHandler
  unfoldable pub quiescing_handler : M Outcome
  unfolding quiesce_with
  quiescing_handler = do app ← the_app; quiesce_with app.spec.migration_policy.pre_dump_quiesce
