-- ===== src/Fsm/Restore.antt =====
-- pkg/controller/migration_fsm.go: the stage Restoring, the restore on the target and the end of a
-- successful migration.
use criu_migration_operator.Base.{
  ℕ, ◌+◌, ◌-◌, ◌*◌, String, Bool, true, ◌||◌, insert, index, str_eq, ◌<>◌, itoa, keep,
  if◌then◌else◌,
}
use criu_migration_operator.Base.Duration.{second, format_duration}
use criu_migration_operator.Base.Timestamp.{format_rfc3339}
use criu_migration_operator.Kube.{Pod}
use criu_migration_operator.Api.{MigratableApp, MigratableAppStatus, MigrationRecord, Phase}
use criu_migration_operator.Cluster.{
  Env, M, Result, ok, err, Outcome, requeue, requeue_after, ◌>>=◌, ◌>>◌, pure, the_app, clock,
  modify_status, get_pod, update_pod, delete_pod, update_status,
}
use criu_migration_operator.AgentClient.{new_agent_client, restore}
use criu_migration_operator.Pods.{wait_for_lazy_pages}
use criu_migration_operator.Fsm.Transition.{
  reset_migration, append_history, after_update, transition_to_restore_failed,
}
use criu_migration_operator.Fsm.Dump.{strategy_of}

-- The history entry of a successful migration.
unfoldable pub success_record : MigratableApp → Pod → ℕ → MigrationRecord
success_record app target now =
    let m = app.status.migration in
    let duration = now - m.last_transition_time in
    record {
      from_node = m.previous_node;
      to_node = target.spec.node_name;
      timestamp = now;
      reason = m.migration_reason;
      duration = duration;
      success = true;
      message =
          "Migration completed in "
          <> format_duration duration
          <> " (retries="
          <> itoa m.retry_count
          <> ")";
    }

-- The assignments that finish a migration.
unfoldable pub finished : MigratableApp → Pod → ℕ → MigratableAppStatus → MigratableAppStatus
finished app target now s =
    let t = append_history (success_record app target now) s in
    record (reset_migration t) {
      phase = Phase.running;
      generation = s.generation + 1;
      current_node = target.spec.node_name;
      current_pod_name = target.meta.name;
      checkpoint_status = record s.checkpoint_status { chain_depth = 1 };
      last_update_time = now;
    }

abbrev is_kept_label : String × String → Bool
is_kept_label (k, v) = str_eq k "migration.io/app" || str_eq k "migration.io/generation"

-- The source pod without the labels of the workload's services.
unfoldable pub detached : ℕ → Pod → Pod
detached now pod = record pod {
  meta = record pod.meta {
    labels = keep is_kept_label pod.meta.labels;
    annotations = insert "migration.io/post-migration" (format_rfc3339 now) pod.meta.annotations;
  };
}

module _ (env : Env) (source : Pod) where
  -- The source pod is deleted, or detached for debugging. An error is only logged.
  unfoldable pub clean_up_source : M Unit
  unfolding detached
  clean_up_source = do
    app ← the_app
    now ← clock
    if str_eq (index app.meta.annotations "migration.io/debug-preserve-source-pod") "true"
        then (do answer ← update_pod env (detached now source); pure tt)
        else (do answer ← delete_pod env source; pure tt)

  unfoldable pub after_finish : Result Unit → M Outcome
  unfolding clean_up_source after_update
  after_finish (err e) = pure (after_update (err e) requeue)
  after_finish (ok u) = do clean_up_source; pure (requeue_after (10 * second))

  -- What follows a restore that the agent reports as done.
  unfoldable pub finish : Pod → String → M Outcome
  unfolding finished after_finish
  finish target ip = do
    wait_for_lazy_pages env ip
    app ← the_app
    now ← clock
    modify_status (finished app target now)
    answer ← update_status env
    after_finish answer

  unfoldable pub after_restore : Pod → String → Result Unit → M Outcome
  unfolding finish
  after_restore target ip (ok u) = finish target ip
  after_restore target ip (err e) =
      transition_to_restore_failed env ("Restore RPC failed: " <> e.text)

  unfoldable pub restore_through : Pod → Result String → M Outcome
  unfolding after_restore
  restore_through target (err e) =
      transition_to_restore_failed env ("failed to connect to target agent: " <> e.text)
  restore_through target (ok ip) = do
    app ← the_app
    let m = app.status.migration
    answer ←
        restore env ip m.uploaded_dump_id app.spec.storage.bucket m.uploaded_s3_prefix
          m.page_server_addr (strategy_of app) m.uploaded_pipe_inodes
    after_restore target ip answer

  unfoldable pub restore_on : String → Result Pod → M Outcome
  unfolding restore_through
  restore_on name (err e) =
      transition_to_restore_failed env ("target pod \"" <> name <> "\" not found: " <> e.text)
  restore_on name (ok target) = do agent ← new_agent_client env target; restore_through target agent

  -- fsmRestoringHandler
  unfoldable pub restoring_handler : M Outcome
  unfolding restore_on
  restoring_handler = do
    app ← the_app
    let name = app.status.migration.current_target_pod
    target ← get_pod env app.meta.namespace name
    restore_on name target
