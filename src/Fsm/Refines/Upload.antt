-- ===== src/Fsm/Refines/Upload.antt =====
-- The handler of the stage Uploaded (pkg/controller/migration_fsm.go) against the specification.
use criu_migration_operator.Base.{suc, ◌<◌, ◌≡◌, refl, ◌∙◌, arith}
use criu_migration_operator.Kube.{Pod}
use criu_migration_operator.Api.{uploaded, is_uploaded}
use criu_migration_operator.Cluster.{
  Env, World, Result, ok, err, pure, requeue, read_app, create_pod,
}
use criu_migration_operator.Pods.{pod_builder, wait_for_pod_running}
use criu_migration_operator.Pods.Wait.{wait_for_pod_running-IsQuiet}
use criu_migration_operator.Fsm.Transition.{move_to, transition_to_restore_failed}
use criu_migration_operator.Fsm.Upload.{
  timeout_or_default, target_pod, after_wait, after_create, create_target, uploaded_handler,
}
use criu_migration_operator.Fsm.Dump.{has_moved_on}
use criu_migration_operator.Fsm.Quiet.{pod_builder-IsQuiet}
use criu_migration_operator.Fsm.Spec.{View, view, Step, view-SameView, Step-from, Step-if}

module _ (env : Env) where
  -- `v` is the view before the pod was created, and `w` a world after it.
  after_wait-Step :
      (v : View) (result : Result Unit × Pod) (w : World)
      → view w ≡ record v { creates = suc v.creates }
      → v.stage ≡ uploaded
      → 0 < w.app.status.migration.max_retries
      → Step v (view (after_wait env result w).1)
  unfolding after_wait move_to transition_to_restore_failed
  after_wait-Step v (err e, pod) w c h b = Step.create_failed h (ground arith)
  after_wait-Step v (ok u, pod) w c h b = Step.created h (ground arith)

  after_create-Step :
      (v : View) (created : Result Pod) (w : World)
      → view w ≡ record v { creates = suc v.creates }
      → v.stage ≡ uploaded
      → 0 < w.app.status.migration.max_retries
      → Step v (view (after_create env created w).1)
  unfolding after_create move_to transition_to_restore_failed
  after_create-Step v (err e) w c h b = Step.create_failed h (ground arith)
  after_create-Step v (ok pod) w c h b =
      let timeout = timeout_or_default w.app.spec.migration_policy.migration_timeout_seconds in
      let q = (wait_for_pod_running-IsQuiet env pod timeout).at w in
      let u = (wait_for_pod_running env pod timeout w).1 in
      let result = (wait_for_pod_running env pod timeout w).0 in
      after_wait-Step v result u (view-SameView q ∙ c) h (rw q.app b)

  create_target-Step :
      (w : World)
      → w.app.status.migration.stage ≡ uploaded
      → 0 < w.app.status.migration.max_retries
      → Step (view w) (view (create_target env w).1)
  unfolding create_target
  create_target-Step w h b =
      let q = (pod_builder-IsQuiet env).at w in
      let builder = (pod_builder env w).0 in
      let u = (pod_builder env w).1 in
      let (created, v) = create_pod env (target_pod builder w.app) u in
      Step-from q (after_create-Step (view u) created v refl (rw (q.app, view) h) (rw q.app b))

  pub uploaded_handler-Step :
      (w : World)
      → w.app.status.migration.stage ≡ uploaded
      → 0 < w.app.status.migration.max_retries
      → Step (view w) (view (uploaded_handler env w).1)
  unfolding uploaded_handler
  uploaded_handler-Step w h b =
      let (fresh, u) = read_app env w.app.meta.namespace w.app.meta.name w in
      Step-if (has_moved_on is_uploaded fresh) (pure requeue) (create_target env) u (Step.stay refl)
        (create_target-Step u h b)
