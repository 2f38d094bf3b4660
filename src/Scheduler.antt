-- ===== src/Scheduler.antt =====
-- pkg/scheduler/scheduler.go: the periodic checkpoints of all applications.
mod Requests
mod Rounds
mod Examples
use criu_migration_operator.Base.{
  ℕ, zero, suc, ◌+◌, ◌*◌, String, Bool, true, false, not, ◌&&◌, List, [], ◌∷◌, Option, none, some,
  leb, ◌==◌, str_eq, ◌<>◌, if◌then◌else◌,
}
use criu_migration_operator.Base.Int.{ℤ, pos, negsuc}
use criu_migration_operator.Base.Duration.{second}
use criu_migration_operator.Base.Interval.{parse_duration}
use criu_migration_operator.Kube.{Pod, is_running}
use criu_migration_operator.Api.{MigratableApp, CheckpointStatus, Phase}
use criu_migration_operator.Cluster.{
  Env, M, Result, ok, err, other, ◌>>=◌, ◌>>◌, pure, the_app, clock, set_app, modify_status,
  update_status, list_apps, list_pods,
}
use criu_migration_operator.AgentClient.{new_agent_client, pre_checkpoint}
use criu_migration_operator.Pods.{is_deleting}
use criu_migration_operator.Reconciler.{same_phase}
use criu_migration_operator.Reconciler.Checkpoint.{has_elapsed, prefixed}

-- The interval, or thirty seconds where the text is none.
unfoldable pub interval_or_default : Option ℤ → ℤ
interval_or_default none = pos (30 * second)
interval_or_default (some i) = i

-- n >= limit, of an int
unfoldable pub reaches : ℕ → ℤ → Bool
reaches n (pos limit) = leb limit n
reaches n (negsuc limit) = true

-- shouldCheckpoint
unfoldable pub should_checkpoint : MigratableApp → ℕ → Bool
unfolding interval_or_default reaches has_elapsed
should_checkpoint app now =
    let c = app.status.checkpoint_status in
    let interval = interval_or_default (parse_duration app.spec.checkpoint_policy.interval) in
    same_phase app.status.phase Phase.running
    && (if c.last_checkpoint_time == 0
        then true
        else has_elapsed interval c.last_checkpoint_time now
          && not (reaches c.chain_depth app.spec.checkpoint_policy.max_chain_depth))

-- The first pod that runs and is not being deleted.
unfoldable pub first_running : List Pod → Option Pod
first_running [] = none
first_running (p ∷ rest) =
    if not (is_deleting p.meta.deletion_timestamp) && is_running p.phase
    then some p
    else first_running rest

-- The status after a checkpoint. The root of a chain is set once.
unfoldable pub extended : String → ℕ → CheckpointStatus → CheckpointStatus
extended dump_id now c = record c {
  last_checkpoint_id = dump_id;
  last_checkpoint_time = now;
  chain_depth = c.chain_depth + 1;
  chain_root = if str_eq c.chain_root "" then dump_id else c.chain_root;
}

abbrev after_status : Result Unit → Result Unit
after_status (ok u) = ok tt
after_status (err e) = err (prefixed "failed to update status: " e)

module _ (env : Env) where
  unfoldable pub after_checkpoint : Result String → M (Result Unit)
  unfolding extended
  after_checkpoint (err e) = pure (err (prefixed "pre-checkpoint failed: " e))
  after_checkpoint (ok dump_id) = do
    now ← clock
    modify_status (λ s. record s {
      checkpoint_status = extended dump_id now s.checkpoint_status;
      last_update_time = now;
    })
    answer ← update_status env
    pure (after_status answer)

  unfoldable pub checkpoint_with : Result String → M (Result Unit)
  unfolding after_checkpoint
  checkpoint_with (err e) = pure (err (prefixed "failed to connect to agent: " e))
  checkpoint_with (ok ip) = do
    app ← the_app
    answer ← pre_checkpoint env ip app.status.checkpoint_status.last_checkpoint_id
    after_checkpoint answer

  unfoldable pub checkpoint_pod : Option Pod → M (Result Unit)
  unfolding checkpoint_with
  checkpoint_pod none = do
    app ← the_app
    pure (err (record { code = other; text = "no running pod found for app " <> app.meta.name }))
  checkpoint_pod (some pod) = do agent ← new_agent_client env pod; checkpoint_with agent

  unfoldable pub checkpoint_listed : Result (List Pod) → M (Result Unit)
  unfolding checkpoint_pod first_running
  checkpoint_listed (err e) = pure (err (prefixed "failed to list pods: " e))
  checkpoint_listed (ok pods) = checkpoint_pod (first_running pods)

  -- triggerCheckpoint, of the application in hand.
  unfoldable pub trigger_checkpoint : M (Result Unit)
  unfolding checkpoint_listed
  trigger_checkpoint = do
    app ← the_app
    pods ← list_pods env app.meta.namespace (("migration.io/app", app.meta.name) ∷ [])
    checkpoint_listed pods

  -- The body of the loop over the applications. An error is logged.
  unfoldable pub evaluate_app : MigratableApp → M Unit
  unfolding trigger_checkpoint should_checkpoint
  evaluate_app app = do
    set_app app
    now ← clock
    if should_checkpoint app now then (do answer ← trigger_checkpoint; pure tt) else pure tt

  unfoldable pub evaluate_all : List MigratableApp → M Unit
  unfolding evaluate_app
  evaluate_all [] = pure tt
  evaluate_all (app ∷ rest) = do evaluate_app app; evaluate_all rest

  unfoldable pub evaluate_listed : Result (List MigratableApp) → M (Result Unit)
  unfolding evaluate_all
  evaluate_listed (err e) = pure (err (prefixed "failed to list MigratableApps: " e))
  evaluate_listed (ok apps) = do evaluate_all apps; pure (ok tt)

  -- evaluateAndSchedule
  unfoldable pub evaluate_and_schedule : M (Result Unit)
  unfolding evaluate_listed
  evaluate_and_schedule = do apps ← list_apps env; evaluate_listed apps
