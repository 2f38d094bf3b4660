-- ===== src/Fsm/Refines/Restore.antt =====
-- The handler of the stage Restoring (pkg/controller/migration_fsm.go) against the specification.
use criu_migration_operator.Base.{String, suc, ◌<◌, ◌≡◌, ◌∙◌, refl, ap, index, str_eq, arith}
use criu_migration_operator.Kube.{Pod}
use criu_migration_operator.Api.{idle, restoring}
use criu_migration_operator.Cluster.{Env, World, Result, ok, err, get_pod, update_status}
use criu_migration_operator.Cluster.Trace.{
  SameView, SameView-refl, IsQuiet-pure, IsQuiet-bind, IsQuiet-if, IsQuiet-update_pod,
  IsQuiet-delete_pod,
}
use criu_migration_operator.AgentClient.{new_agent_client, restore}
use criu_migration_operator.Pods.{wait_for_lazy_pages}
use criu_migration_operator.Pods.Wait.{wait_for_lazy_pages-IsQuiet}
use criu_migration_operator.Fsm.Transition.{move_to, transition_to_restore_failed}
use criu_migration_operator.Fsm.Restore.{
  finished, detached, clean_up_source, after_finish, finish, after_restore, restore_through,
  restore_on, restoring_handler,
}
use criu_migration_operator.Fsm.Dump.{strategy_of}
use criu_migration_operator.Fsm.Quiet.{new_agent_client-IsQuiet}
use criu_migration_operator.Fsm.Spec.{View, view, Step, view-SameView, Step-from}

module _ (env : Env) (source : Pod) where
  clean_up_source-SameView : (w : World) → SameView w (clean_up_source env source w).1
  unfolding clean_up_source
  clean_up_source-SameView w =
      (IsQuiet-if
          (str_eq (index w.app.meta.annotations "migration.io/debug-preserve-source-pod") "true")
          (IsQuiet-bind (IsQuiet-update_pod env (detached w.now source)) (λ a. IsQuiet-pure tt))
          (IsQuiet-bind (IsQuiet-delete_pod env source) (λ a. IsQuiet-pure tt))).at
        w

  after_finish-SameView : (r : Result Unit) (w : World) → SameView w (after_finish env source r w).1
  unfolding after_finish
  after_finish-SameView (ok u) w = clean_up_source-SameView w
  after_finish-SameView (err e) w = SameView-refl w

  finish-Step :
      (v : View) (target : Pod) (ip : String) (w : World)
      → view w ≡ record v { restores = suc v.restores }
      → v.stage ≡ restoring
      → Step v (view (finish env source target ip w).1)
  unfolding finish finished
  finish-Step v target ip w c h =
      let q = (wait_for_lazy_pages-IsQuiet env ip).at w in
      let u = (wait_for_lazy_pages env ip w).1 in
      let t : World = record u {
        app = record u.app { status = finished u.app target u.now u.app.status };
      } in
      let (r, x) = update_status env t in
      Step.restored h (
        view-SameView (after_finish-SameView r x)
        ∙ ap {B = View} (λ (z : View). record z { stage = idle; retries = 0; budget = 0 })
            (view-SameView q ∙ c))

  after_restore-Step :
      (v : View) (target : Pod) (ip : String) (r : Result Unit) (w : World)
      → view w ≡ record v { restores = suc v.restores }
      → v.stage ≡ restoring
      → 0 < w.app.status.migration.max_retries
      → Step v (view (after_restore env source target ip r w).1)
  unfolding after_restore move_to transition_to_restore_failed
  after_restore-Step v target ip (ok u) w c h b = finish-Step v target ip w c h
  after_restore-Step v target ip (err e) w c h b =
      Step.restore_failed_at (suc v.restores) (omega arith) (omega arith) h (ground arith)

  restore_through-Step :
      (target : Pod) (agent : Result String) (w : World)
      → w.app.status.migration.stage ≡ restoring
      → 0 < w.app.status.migration.max_retries
      → Step (view w) (view (restore_through env source target agent w).1)
  unfolding restore_through restore move_to transition_to_restore_failed
  restore_through-Step target (err e) w h b =
      Step.restore_failed_at (view w).restores (omega arith) (omega arith) h (ground arith)
  restore_through-Step target (ok ip) w h b =
      let m = w.app.status.migration in
      let (r, u) =
        restore env ip m.uploaded_dump_id w.app.spec.storage.bucket m.uploaded_s3_prefix
          m.page_server_addr (strategy_of w.app) m.uploaded_pipe_inodes w in
      after_restore-Step (view w) target ip r u refl h b

  restore_on-Step :
      (name : String) (r : Result Pod) (w : World)
      → w.app.status.migration.stage ≡ restoring
      → 0 < w.app.status.migration.max_retries
      → Step (view w) (view (restore_on env source name r w).1)
  unfolding restore_on move_to transition_to_restore_failed
  restore_on-Step name (err e) w h b =
      Step.restore_failed_at (view w).restores (omega arith) (omega arith) h (ground arith)
  restore_on-Step name (ok target) w h b =
      let q = (new_agent_client-IsQuiet env target).at w in
      let u = (new_agent_client env target w).1 in
      let agent = (new_agent_client env target w).0 in
      Step-from q (restore_through-Step target agent u (rw q.app h) (rw q.app b))

  pub restoring_handler-Step :
      (w : World)
      → w.app.status.migration.stage ≡ restoring
      → 0 < w.app.status.migration.max_retries
      → Step (view w) (view (restoring_handler env source w).1)
  unfolding restoring_handler
  restoring_handler-Step w h b =
      let name = w.app.status.migration.current_target_pod in
      let (r, u) = get_pod env w.app.meta.namespace name w in restore_on-Step name r u h b
