-- ===== src/Fsm/Retry.antt =====
-- pkg/controller/migration_fsm.go: the stage RestoreFailed, and the user's way out of a terminal
-- stage, the annotation migration.io/retry.
use criu_migration_operator.Base.{
  ℕ, suc, ◌+◌, ◌-◌, ◌*◌, Bool, not, ◌||◌, Option, none, some, ltb, leb, index, delete, str_eq, ◌<>◌,
  itoa, if◌then◌else◌,
}
use criu_migration_operator.Base.Duration.{second}
use criu_migration_operator.Kube.{Pod}
use criu_migration_operator.Api.{Stage, uploaded, MigratableApp, MigratableAppStatus, Phase}
use criu_migration_operator.Cluster.{
  Env, M, Result, ok, err, ErrorCode, not_found, Outcome, requeue, requeue_after, ◌>>=◌, ◌>>◌, pure,
  the_app, clock, modify_status, get_pod, delete_pod, update_status, update_app,
}
use criu_migration_operator.Pods.{get_current_pod}
use criu_migration_operator.Fsm.Transition.{
  backoff_duration, is_terminal_stage, reset_migration, append_history, failure_record, move_to,
  after_update,
}

abbrev pub is_not_found : ErrorCode → Bool
is_not_found not_found = Bool.true
is_not_found _ = Bool.false

module _ (env : Env) where
  -- The next attempt: back to Uploaded, with the target pod forgotten.
  unfoldable pub try_again : M Outcome
  unfolding move_to
  try_again =
      move_to env uploaded
        (λ m. record m { retry_count = suc m.retry_count; current_target_pod = "" }) requeue

  -- The budget is used up.
  unfoldable pub give_up : M Outcome
  unfolding move_to
  give_up = do
    app ← the_app
    now ← clock
    let m = app.status.migration
    modify_status (
        append_history (
          failure_record m.previous_node now
            ("RestoreFailed after " <> itoa m.retry_count <> " retries: " <> m.last_error)))
    move_to env Stage.failed (λ m. m) (requeue_after (60 * second))

  unfoldable pub after_stale_delete : Result Unit → Outcome
  after_stale_delete (ok u) = requeue_after (2 * second)
  after_stale_delete (err e) = requeue_after ((if is_not_found e.code then 2 else 3) * second)

  unfoldable pub remove_stale : Result Pod → M Outcome
  unfolding after_stale_delete try_again
  remove_stale (ok pod) = do answer ← delete_pod env pod; pure (after_stale_delete answer)
  remove_stale (err e) =
      if is_not_found e.code then try_again else pure (requeue_after (3 * second))

  -- What follows the back-off: the stale target pod has to be gone before the next attempt.
  unfoldable pub retry_or_clean : M Outcome
  unfolding remove_stale
  retry_or_clean = do
    app ← the_app
    let name = app.status.migration.current_target_pod
    if str_eq name ""
        then try_again
        else do pod ← get_pod env app.meta.namespace name; remove_stale pod

  -- fsmRestoreFailedHandler. `elapsed < backoff` is written without the subtraction.
  unfoldable pub restore_failed_handler : M Outcome
  unfolding give_up retry_or_clean
  restore_failed_handler = do
    app ← the_app
    now ← clock
    let m = app.status.migration
    let due = m.last_transition_time + backoff_duration m.retry_count
    if leb m.max_retries m.retry_count
        then give_up
        else if ltb now due
        then pure (requeue_after (due - now))
        else retry_or_clean

  -- Best effort: the source pod is deleted so that a fresh one is created.
  unfoldable pub delete_source : Result Pod → M Unit
  delete_source (ok pod) = do answer ← delete_pod env pod; pure tt
  delete_source (err e) = pure tt

  abbrev pub without_retry : MigratableApp → MigratableApp
  without_retry app = record app {
    meta = record app.meta { annotations = delete "migration.io/retry" app.meta.annotations };
  }

  unfoldable pub after_reset : Result Unit → M Outcome
  unfolding after_update
  after_reset (err e) = pure (after_update (err e) requeue)
  after_reset (ok u) = do
    app ← the_app
    answer ← update_app env (without_retry app)
    pure (after_update answer requeue)

  abbrev pub restarted : ℕ → MigratableAppStatus → MigratableAppStatus
  restarted now s = record (reset_migration s) { phase = Phase.pending; last_update_time = now }

  unfoldable pub reset_terminal : M Outcome
  unfolding delete_source after_reset
  reset_terminal = do
    pod ← get_current_pod env
    delete_source pod
    now ← clock
    modify_status (restarted now)
    answer ← update_status env
    after_reset answer

  -- checkRetryAnnotation: `none` means that the request was not handled.
  unfoldable pub check_retry_annotation : M (Option Outcome)
  check_retry_annotation = do
    app ← the_app
    if not (str_eq (index app.meta.annotations "migration.io/retry") "requested")
          || not (is_terminal_stage app.status.migration.stage)
        then pure none
        else do outcome ← reset_terminal; pure (some outcome)
