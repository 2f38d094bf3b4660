-- ===== src/Fsm/Upload.antt =====
-- pkg/controller/migration_fsm.go: the stage Uploaded, which creates the target pod.
use criu_migration_operator.Base.{◌+◌, insert, ◌<>◌, if◌then◌else◌}
use criu_migration_operator.Base.Int.{ℤ, pos, negsuc}
use criu_migration_operator.Base.{zero, suc}
use criu_migration_operator.Kube.{Pod}
use criu_migration_operator.Api.{MigratableApp, restoring, is_uploaded}
use criu_migration_operator.Cluster.{
  Env, M, Result, ok, err, Outcome, requeue, ◌>>=◌, pure, the_app, read_app, create_pod, delete_pod,
}
use criu_migration_operator.PodBuilder.Agent.{PodBuilder}
use criu_migration_operator.PodBuilder.{build_restore_pod}
use criu_migration_operator.Pods.{pod_builder, wait_for_pod_running}
use criu_migration_operator.Fsm.Transition.{move_to, transition_to_restore_failed}
use criu_migration_operator.Fsm.Dump.{has_moved_on}

-- The timeout in seconds, five minutes where none is set.
unfoldable pub timeout_or_default : ℤ → ℤ
timeout_or_default (pos zero) = pos 300
timeout_or_default (pos (suc n)) = pos (suc n)
timeout_or_default (negsuc n) = negsuc n

-- The pod that takes over, with what it restores from.
unfoldable pub target_pod : PodBuilder → MigratableApp → Pod
target_pod builder app =
    let m = app.status.migration in
    let pod =
      build_restore_pod builder (app.status.generation + 1) m.uploaded_dump_id m.previous_node
        m.uploaded_s3_prefix m.page_server_addr in
    record pod {
      meta = record pod.meta {
        annotations =
            insert "migration.io/s3-prefix" m.uploaded_s3_prefix
              (insert "migration.io/checkpoint-id" m.uploaded_dump_id pod.meta.annotations);
      };
    }

module _ (env : Env) where
  unfoldable pub after_wait : Result Unit × Pod → M Outcome
  after_wait (err e, pod) = do
    answer ← delete_pod env pod
    transition_to_restore_failed env ("target pod failed to reach Running: " <> e.text)
  after_wait (ok u, pod) =
      move_to env restoring (λ m. record m { current_target_pod = pod.meta.name; last_error = "" })
        requeue

  unfoldable pub after_create : Result Pod → M Outcome
  unfolding after_wait timeout_or_default
  after_create (err e) =
      transition_to_restore_failed env ("failed to create target pod: " <> e.text)
  after_create (ok pod) = do
    app ← the_app
    result ←
        wait_for_pod_running env pod
          (timeout_or_default app.spec.migration_policy.migration_timeout_seconds)
    after_wait result

  -- The body of the handler behind its guard.
  unfoldable pub create_target : M Outcome
  unfolding after_create
  create_target = do
    app ← the_app
    builder ← pod_builder env
    created ← create_pod env (target_pod builder app)
    after_create created

  -- fsmUploadedHandler
  unfoldable pub uploaded_handler : M Outcome
  uploaded_handler = do
    app ← the_app
    fresh ← read_app env app.meta.namespace app.meta.name
    if has_moved_on is_uploaded fresh then pure requeue else create_target
