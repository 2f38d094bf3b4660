-- ===== src/Reconciler.antt =====
-- pkg/controller/reconciler.go: the reconciliation of one application.
mod Observed
pub mod Cleanup
pub mod Checkpoint
mod Batches
mod Deletion
mod Decisions
mod Chain
mod InFlight
mod Examples
use criu_migration_operator.Base.{
  ℕ, zero, suc, ◌*◌, String, Bool, true, false, not, ◌&&◌, ◌||◌, List, [], ◌∷◌, ◌++◌, Option, none,
  some, index, str_eq, if◌then◌else◌,
}
use criu_migration_operator.Base.Int.{ℤ, pos, negsuc}
use criu_migration_operator.Base.Duration.{second}
use criu_migration_operator.Base.Interval.{parse_duration}
use criu_migration_operator.Kube.{Pod, PodPhase, pod_running, pod_failed, is_running, is_failed}
use criu_migration_operator.Api.{MigratableApp, MigratableAppStatus, Phase, is_idle}
use criu_migration_operator.Cluster.{
  Env, M, Error, Result, ok, err, Outcome, done, requeue, requeue_after, fail, ◌>>=◌, ◌>>◌, pure,
  the_app, clock, set_app, modify_status, update_status, update_app, get_app, create_pod,
  delete_pod, get_node,
}
use criu_migration_operator.PodBuilder.Agent.{PodBuilder}
use criu_migration_operator.PodBuilder.{build_normal_pod}
use criu_migration_operator.Pods.{get_current_pod, pod_builder, is_deleting}
use criu_migration_operator.Fsm.Transition.{after_update}
use criu_migration_operator.Fsm.Retry.{is_not_found, check_retry_annotation}
use criu_migration_operator.Fsm.{start_migration, advance_migration_fsm}
use Cleanup.{contains_string, remove_string, cleanup_s3_checkpoints}
use Checkpoint.{should_perform_checkpoint, perform_pre_checkpoint}
unfoldable pub use Observed.*

module _ (env : Env) where
  unfoldable pub after_initial : Result Pod → M Outcome
  unfolding or_fail
  after_initial (err e) = pure (fail e)
  after_initial (ok pod) = do
    now ← clock
    modify_status (λ s. record s {
      phase = Phase.pending;
      generation = 0;
      current_pod_name = pod.meta.name;
      last_update_time = now;
    })
    answer ← update_status env
    pure (or_fail answer requeue)

  unfoldable pub create_initial_pod : M Outcome
  unfolding after_initial
  create_initial_pod = do
    builder ← pod_builder env
    created ← create_pod env (build_normal_pod builder 0)
    after_initial created

  unfoldable pub after_recreation : Result Pod → M Outcome
  unfolding or_fail
  after_recreation (err e) = pure (fail e)
  after_recreation (ok pod) = do
    now ← clock
    modify_status (λ s. record s {
      phase = Phase.pending;
      current_pod_name = pod.meta.name;
      last_update_time = now;
    })
    answer ← update_status env
    pure (or_fail answer requeue)

  -- NewPodBuilder
  abbrev pub plain_builder : MigratableApp → PodBuilder
  plain_builder app = record {
    app = app;
    aws_access_key = "";
    aws_secret_key = "";
    getenv = env.getenv;
  }

  unfoldable pub after_removal : Result Unit → M Outcome
  unfolding after_recreation
  after_removal (err e) = pure (fail e)
  after_removal (ok u) = do
    app ← the_app
    created ← create_pod env (build_normal_pod (plain_builder app) app.status.generation)
    after_recreation created

  unfoldable pub recreate_pod : Pod → M Outcome
  unfolding after_removal
  recreate_pod pod = do answer ← delete_pod env pod; after_removal answer

  -- needsMigration: the reason, where a migration is to start.
  unfoldable pub needs_migration : Pod → M (Option String)
  unfolding reason_of cordoned
  needs_migration pod = do
    app ← the_app
    if not (is_idle app.status.migration.stage) || not app.spec.migration_policy.auto_migrate
        then pure none
        else if str_eq (index pod.meta.annotations "migration.io/trigger") "requested"
        then pure (some (reason_of (index pod.meta.annotations "migration.io/reason")))
        else if str_eq pod.spec.node_name ""
        then pure none
        else do node ← get_node env pod.spec.node_name; pure (cordoned node)

  -- The controller's own checkpoint by time, whose error is only logged.
  unfoldable pub periodic_checkpoint : Pod → M Unit
  periodic_checkpoint pod = do
    app ← the_app
    now ← clock
    if is_running pod.phase
          && not (same_phase app.status.phase Phase.migrating)
          && not app.spec.checkpoint_policy.auto_adjust
          && should_perform_checkpoint app now
        then (do answer ← perform_pre_checkpoint env pod; pure tt)
        else pure tt

  unfoldable pub checkpoint_and_wait : Pod → M Outcome
  unfolding periodic_checkpoint requeue_interval
  checkpoint_and_wait pod = do
    periodic_checkpoint pod
    app ← the_app
    pure (requeue_after (requeue_interval (parse_duration app.spec.checkpoint_policy.interval)))

  unfoldable pub after_observed : Pod → Result Unit → M Outcome
  unfolding checkpoint_and_wait
  after_observed pod (ok u) = checkpoint_and_wait pod
  after_observed pod (err e) = pure (after_update (err e) requeue)

  -- The status follows the pod, and is sent only if it has changed.
  unfoldable pub observe : Pod → M Outcome
  unfolding observed after_observed
  observe pod = do
    app ← the_app
    now ← clock
    modify_status (observed pod now)
    if node_changed pod app.status || phase_changed pod app.status
        then (do answer ← update_status env; after_observed pod answer)
        else checkpoint_and_wait pod

  unfoldable pub run_idle : Pod → Option String → M Outcome
  unfolding observe recreate_pod
  run_idle pod (some reason) = start_migration env pod reason
  run_idle pod none = if is_failed pod.phase then recreate_pod pod else observe pod

  unfoldable pub with_pod : Result Pod → M Outcome
  unfolding run_idle create_initial_pod needs_migration
  with_pod (err e) = if is_not_found e.code then create_initial_pod else pure (fail e)
  with_pod (ok pod) = do
    app ← the_app
    if is_idle app.status.migration.stage
        then (do reason ← needs_migration pod; run_idle pod reason)
        else advance_migration_fsm env pod

  unfoldable pub run_managed_idle : Pod → Option String → M Outcome
  run_managed_idle pod (some reason) = start_migration env pod reason
  run_managed_idle pod none = checkpoint_and_wait pod

  unfoldable pub run_managed : Pod → M Outcome
  unfolding run_managed_idle
  run_managed pod = do
    app ← the_app
    if not (is_idle app.status.migration.stage)
        then advance_migration_fsm env pod
        else if same_phase app.status.phase Phase.migrating
        then pure (requeue_after (5 * second))
        else do reason ← needs_migration pod; run_managed_idle pod reason

  unfoldable pub after_first_sight : Pod → Result Unit → M Outcome
  unfolding run_managed
  after_first_sight pod (ok u) = run_managed pod
  after_first_sight pod (err e) = pure (after_update (err e) requeue)

  unfoldable pub managed_pod : Result Pod → M Outcome
  unfolding after_first_sight
  managed_pod (err e) = pure (if is_not_found e.code then requeue_after (5 * second) else fail e)
  managed_pod (ok pod) = do
    app ← the_app
    now ← clock
    if same_phase app.status.phase Phase.none_yet || same_phase app.status.phase Phase.pending
        then (do
          modify_status (λ s. record s {
            phase = Phase.running;
            current_node = pod.spec.node_name;
            current_pod_name = pod.meta.name;
            last_update_time = now;
          })
          answer ← update_status env
          after_first_sight pod answer)
        else run_managed pod

  unfoldable pub reconcile_webhook_managed : M Outcome
  unfolding managed_pod
  reconcile_webhook_managed = do pod ← get_current_pod env; managed_pod pod

  -- What follows the retry annotation.
  unfoldable pub after_retry : Option Outcome → M Outcome
  unfolding with_pod reconcile_webhook_managed
  after_retry (some outcome) = pure outcome
  after_retry none = do
    app ← the_app
    if str_eq (index app.meta.labels "migration.io/webhook-managed") "true"
        then reconcile_webhook_managed
        else do pod ← get_current_pod env; with_pod pod

  -- The update of the finalizers, which changes the object in hand as well.
  unfoldable pub set_finalizers : List String → M (Result Unit)
  set_finalizers finalizers = do
    app ← the_app
    let changed = record app { meta = record app.meta { finalizers = finalizers } }
    set_app changed
    update_app env changed

  unfoldable pub release_app : M Outcome
  unfolding set_finalizers or_fail
  release_app = do
    app ← the_app
    if contains_string app.meta.finalizers finalizer_name
        then (do
          cleanup_s3_checkpoints env
          answer ← set_finalizers (remove_string app.meta.finalizers finalizer_name)
          pure (or_fail answer done))
        else pure done

  unfoldable pub reconcile_app : M Outcome
  unfolding release_app after_retry
  reconcile_app = do
    app ← the_app
    if is_deleting app.meta.deletion_timestamp
        then release_app
        else if not (contains_string app.meta.finalizers finalizer_name)
        then (do
          answer ← set_finalizers (app.meta.finalizers ++ finalizer_name ∷ [])
          pure (or_fail answer requeue))
        else do handled ← check_retry_annotation env; after_retry handled

  unfoldable pub fetched : Result MigratableApp → M Outcome
  unfolding reconcile_app
  fetched (err e) = pure (if is_not_found e.code then done else fail e)
  fetched (ok app) = do set_app app; reconcile_app

  -- Reconcile
  unfoldable pub reconcile : (namespace name : String) → M Outcome
  unfolding fetched
  reconcile namespace name = do app ← get_app env namespace name; fetched app
