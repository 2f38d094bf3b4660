-- ===== src/Fsm.antt =====
-- pkg/controller/migration_fsm.go: the start of a migration and the dispatch on its stage.
pub mod Transition
pub mod Quiesce
pub mod Dump
pub mod Upload
pub mod Restore
pub mod Retry
pub mod Quiet
pub mod Spec
pub mod Refines
pub mod Runs
pub mod Stale
pub mod Retrying
pub mod Draining
pub mod Release
mod Examples
use criu_migration_operator.Base.{
  ◌*◌, String, Bool, true, false, List, [], ◌∷◌, Option, none, some, if◌then◌else◌,
}
use criu_migration_operator.Base.Duration.{second}
use criu_migration_operator.Kube.{Pod}
use criu_migration_operator.Api.{
  Stage, idle, pre_checkpointing, quiescing, dumping, uploaded, restoring, restore_failed,
  final_dump_failed, PreDumpQuiesce, MigrationStatusInfo,
}
use criu_migration_operator.Cluster.{Env, M, Outcome, requeue, requeue_after, ◌>>=◌, pure, the_app}
use Transition.{move_to}
use Quiesce.{quiescing_handler}
use Dump.{dumping_handler}
use Upload.{uploaded_handler}
use Restore.{restoring_handler}
use Retry.{restore_failed_handler}

-- The first stage drains the load generators where the policy selects any.
unfoldable pub first_stage : Option PreDumpQuiesce → Stage
first_stage none = dumping
first_stage (some q) = elim q.target_pod_selector [ [] ↦ dumping | l ∷ r ↦ quiescing ]

-- What a new migration starts from.
unfoldable pub begin_migration : Pod → String → MigrationStatusInfo → MigrationStatusInfo
begin_migration source reason m = record m {
  previous_node = source.spec.node_name;
  migration_reason = reason;
  retry_count = 0;
  last_error = "";
  uploaded_dump_id = "";
  uploaded_s3_prefix = "";
  current_target_pod = "";
  page_server_addr = "";
  page_server_port = 0;
}

module _ (env : Env) (source : Pod) where
  -- startMigration
  unfoldable pub start_migration : String → M Outcome
  unfolding move_to first_stage begin_migration
  start_migration reason = do
    app ← the_app
    move_to env (first_stage app.spec.migration_policy.pre_dump_quiesce)
        (begin_migration source reason) requeue

  unfoldable pub dispatch : Stage → M Outcome
  dispatch quiescing = quiescing_handler env
  dispatch dumping = dumping_handler env source
  dispatch uploaded = uploaded_handler env
  dispatch restoring = restoring_handler env source
  dispatch restore_failed = restore_failed_handler env
  dispatch final_dump_failed = pure (requeue_after (60 * second))
  dispatch Stage.failed = pure (requeue_after (60 * second))
  dispatch pre_checkpointing = pure (requeue_after (5 * second))
  dispatch idle = pure (requeue_after (30 * second))

  -- advanceMigrationFSM
  unfoldable pub advance_migration_fsm : M Outcome
  unfolding dispatch
  advance_migration_fsm = do app ← the_app; dispatch app.status.migration.stage
