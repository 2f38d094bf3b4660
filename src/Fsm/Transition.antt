-- ===== src/Fsm/Transition.antt =====
-- pkg/controller/migration_fsm.go: stages, back-off, the single place where a transition is
-- persisted, and the two transitions into failure.
use criu_migration_operator.Base.{
  ℕ, zero, suc, String, Bool, true, false, [], ◌∷◌, ◌++◌, ◌==◌, ◌*◌, ◌<>◌, if◌then◌else◌,
}
use criu_migration_operator.Base.Duration.{second}
use criu_migration_operator.Api.{
  Stage, idle, pre_checkpointing, final_dump_failed, restore_failed, MigrationStatusInfo,
  MigrationRecord, Phase, MigratableAppStatus, no_migration,
}
use criu_migration_operator.Cluster.{
  Env, M, Result, ok, err, ErrorCode, conflict, Outcome, requeue, requeue_after, fail, ◌>>=◌, ◌>>◌,
  pure, the_app, clock, modify_status, update_status,
}

abbrev pub default_max_retries : ℕ
default_max_retries = 3

-- backoffDuration
unfoldable pub backoff_duration : ℕ → ℕ
backoff_duration zero = 0
backoff_duration (suc zero) = 2 * second
backoff_duration (suc (suc n)) = 5 * second

unfoldable pub is_terminal_stage : Stage → Bool
is_terminal_stage final_dump_failed = true
is_terminal_stage Stage.failed = true
is_terminal_stage _ = false

unfoldable pub phase_for_stage : Stage → Phase
phase_for_stage idle = Phase.running
phase_for_stage pre_checkpointing = Phase.running
phase_for_stage final_dump_failed = Phase.failed
phase_for_stage Stage.failed = Phase.failed
phase_for_stage _ = Phase.migrating

-- The assignments of setStage, before the update is sent.
unfoldable pub staged :
    Stage
    → (MigrationStatusInfo → MigrationStatusInfo)
    → ℕ
    → MigratableAppStatus
    → MigratableAppStatus
unfolding phase_for_stage
staged stage mutate now s =
    let m = mutate s.migration in
    record s {
      phase = phase_for_stage stage;
      migration = record m {
        stage = stage;
        max_retries = if m.max_retries == 0 then default_max_retries else m.max_retries;
        last_transition_time = now;
      };
      last_update_time = now;
    }

abbrev pub is_conflict : ErrorCode → Bool
is_conflict conflict = true
is_conflict _ = false

-- The check after each status update: a conflict is retried, another error returned.
unfoldable pub after_update : Result Unit → Outcome → Outcome
after_update (ok u) next = next
after_update (err e) next = if is_conflict e.code then requeue else fail e

-- resetMigrationFSM
abbrev pub reset_migration : MigratableAppStatus → MigratableAppStatus
reset_migration s = record s { migration = no_migration }

abbrev pub append_history : MigrationRecord → MigratableAppStatus → MigratableAppStatus
append_history r s = record s { migration_history = s.migration_history ++ r ∷ [] }

-- The history entry of a failed migration.
abbrev pub failure_record : String → ℕ → String → MigrationRecord
failure_record from_node now message = record {
  from_node = from_node;
  to_node = "";
  timestamp = now;
  reason = "migration-failed";
  duration = 0;
  success = false;
  message = message;
}

module _ (env : Env) where
  unfoldable pub set_stage : Stage → (MigrationStatusInfo → MigrationStatusInfo) → M (Result Unit)
  unfolding staged
  set_stage stage mutate = do
    now ← clock
    modify_status (staged stage mutate now)
    update_status env

  -- A transition whose update decides the outcome.
  unfoldable pub move_to : Stage → (MigrationStatusInfo → MigrationStatusInfo) → Outcome → M Outcome
  unfolding set_stage after_update
  move_to stage mutate next = do answer ← set_stage stage mutate; pure (after_update answer next)

  -- fsmTransitionToFinalDumpFailed
  unfoldable pub transition_to_final_dump_failed : String → M Outcome
  unfolding move_to
  transition_to_final_dump_failed message = do
    app ← the_app
    now ← clock
    modify_status (
        append_history
          (failure_record app.status.migration.previous_node now ("FinalDumpFailed: " <> message)))
    move_to final_dump_failed (λ m. record m { last_error = message }) (requeue_after (60 * second))

  -- fsmTransitionToRestoreFailed
  unfoldable pub transition_to_restore_failed : String → M Outcome
  unfolding move_to
  transition_to_restore_failed message =
      move_to restore_failed (λ m. record m { last_error = message }) requeue
