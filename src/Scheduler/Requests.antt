-- ===== src/Scheduler/Requests.antt =====
-- The requests that a round of the scheduler may make, apart from how it makes them.
use criu_migration_operator.Base.{
  ℕ, ◌≡◌, ◌⊎◌, String, Bool, true, false, List, [], ◌∷◌, none, some, keep, arith,
}
use criu_migration_operator.Kube.{Pod, pod_running}
use criu_migration_operator.Api.{MigratableApp, Phase}
use criu_migration_operator.Cluster.{Env, World, Call, pre_checkpointed, Result, ok}
use criu_migration_operator.AgentClient.{dialled}
use criu_migration_operator.Scheduler.{should_checkpoint, first_running}

abbrev pub is_request : Call → Bool
is_request (pre_checkpointed ip parent r) = true
is_request _ = false

-- The checkpoints that were asked for, newest first.
abbrev pub requests : World → List Call
requests w = keep is_request w.trace

-- A pod with this address is listed, runs and is not being deleted.
abbrev pub IsListed : String → List Pod → Type 0
IsListed ip [] = ⊥
IsListed ip (p ∷ rest) =
    ((p.pod_ip ≡ ip) × (p.phase ≡ pod_running) × (p.meta.deletion_timestamp ≡ none))
    ⊎ IsListed ip rest

-- The call is a request of the application's own: to one of the pods that the API server lists for it, on
-- top of the application's last checkpoint.
pub record Asks (env : Env) (app : MigratableApp) (call : Call) : Type 0 where
  pub ip : String
  pub answer : Result String
  pub step : ℕ
  pub pods : List Pod
  pub listed :
      env.list_pods step app.meta.namespace (("migration.io/app", app.meta.name) ∷ []) ≡ ok pods
  pub there : IsListed ip pods
  pub request : call ≡ pre_checkpointed ip app.status.checkpoint_status.last_checkpoint_id answer

-- The requests of a round, application by application in their order: none, or one of the application's own
-- where its phase is Running.
abbrev pub Round : Env → List MigratableApp → (past later : List Call) → Type 0
Round env [] past later = later ≡ past
Round env (app ∷ rest) past later =
    Round env rest past later
    ⊎ ((app.status.phase ≡ Phase.running)
        × ((request : Call) × (Asks env app request × Round env rest (request ∷ past) later)))

pub first_running-IsListed :
    (pods : List Pod) (pod : Pod) → first_running pods ≡ some pod → IsListed pod.pod_ip pods
unfolding first_running
first_running-IsListed [] pod q = cc
first_running-IsListed (p ∷ rest) pod q = ground (arith, q, first_running-IsListed rest pod)

pub dialled-ok : (ip found : String) (r : Result Unit) → dialled ip r ≡ ok found → ip ≡ found
unfolding dialled
dialled-ok ip found r q = ground (arith, q)

pub should_checkpoint-running :
    (app : MigratableApp) (now : ℕ)
    → should_checkpoint app now ≡ true
    → app.status.phase ≡ Phase.running
unfolding should_checkpoint
should_checkpoint-running app now q = ground (arith, q)
