-- ===== src/Fsm/Refines.antt =====
-- The handlers of pkg/controller/migration_fsm.go against the specification in Fsm.Spec.
mod Quiesce
mod Dump
mod Upload
mod Restore
mod Retry
use criu_migration_operator.Base.{◌<◌, ◌≡◌, refl}
use criu_migration_operator.Kube.{Pod}
use criu_migration_operator.Api.{
  Stage, idle, pre_checkpointing, quiescing, dumping, uploaded, restoring, restore_failed,
  final_dump_failed,
}
use criu_migration_operator.Cluster.{Env, World}
use criu_migration_operator.Fsm.{dispatch, advance_migration_fsm}
use criu_migration_operator.Fsm.Spec.{view, Step}
use Quiesce.{quiescing_handler-Step}
use Dump.{dumping_handler-Step}
use Upload.{uploaded_handler-Step}
use Restore.{restoring_handler-Step}
use Retry.{restore_failed_handler-Step}

module _ (env : Env) (source : Pod) where
  pub dispatch-Step :
      (s : Stage) (w : World)
      → w.app.status.migration.stage ≡ s
      → 0 < w.app.status.migration.max_retries
      → Step (view w) (view (dispatch env source s w).1)
  unfolding dispatch
  dispatch-Step quiescing w h b = quiescing_handler-Step env w h b
  dispatch-Step dumping w h b = dumping_handler-Step env source w h b
  dispatch-Step uploaded w h b = uploaded_handler-Step env w h b
  dispatch-Step restoring w h b = restoring_handler-Step env source w h b
  dispatch-Step restore_failed w h b = restore_failed_handler-Step env w h b
  dispatch-Step final_dump_failed w h b = Step.stay refl
  dispatch-Step Stage.failed w h b = Step.stay refl
  dispatch-Step pre_checkpointing w h b = Step.stay refl
  dispatch-Step idle w h b = Step.stay refl

  -- Whatever the API server, the agents and the clock answer, one call of the dispatcher on an object
  -- with a retry limit takes at most one edge of the state machine's diagram, with the dumps, target
  -- pods and restore requests that the edge allows.
  pub advance-Step :
      (w : World)
      → 0 < w.app.status.migration.max_retries
      → Step (view w) (view (advance_migration_fsm env source w).1)
  unfolding advance_migration_fsm
  advance-Step w b = dispatch-Step w.app.status.migration.stage w refl b
