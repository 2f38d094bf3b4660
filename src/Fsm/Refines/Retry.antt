-- ===== src/Fsm/Refines/Retry.antt =====
-- The handler of the stage RestoreFailed (pkg/controller/migration_fsm.go) against the specification.
use criu_migration_operator.Base.{
  ◌+◌, ◌-◌, ◌*◌, ◌<◌, ◌≤◌, ◌≡◌, refl, Bool-cases, inl, inr, leb, ltb, str_eq, arith,
}
use criu_migration_operator.Base.Duration.{second}
use criu_migration_operator.Kube.{Pod}
use criu_migration_operator.Api.{restore_failed}
use criu_migration_operator.Cluster.{
  Env, World, Result, ok, err, pure, requeue_after, ◌>>=◌, get_pod,
}
use criu_migration_operator.Fsm.Transition.{move_to, backoff_duration}
use criu_migration_operator.Fsm.Retry.{
  try_again, give_up, is_not_found, remove_stale, retry_or_clean, restore_failed_handler,
}
use criu_migration_operator.Fsm.Spec.{view, Step, Step-if}

module _ (env : Env) (w : World) (h : w.app.status.migration.stage ≡ restore_failed)
    (b : 0 < w.app.status.migration.max_retries) where
  give_up-Step :
      w.app.status.migration.max_retries ≤ w.app.status.migration.retry_count
      → Step (view w) (view (give_up env w).1)
  unfolding give_up move_to
  give_up-Step l = Step.gave_up h l (ground arith)

  try_again-Step :
      w.app.status.migration.retry_count < w.app.status.migration.max_retries
      → Step (view w) (view (try_again env w).1)
  unfolding try_again move_to
  try_again-Step l = Step.retried h l (ground arith)

module _ (env : Env) where
  remove_stale-Step :
      (r : Result Pod) (w : World)
      → w.app.status.migration.stage ≡ restore_failed
      → w.app.status.migration.retry_count < w.app.status.migration.max_retries
      → Step (view w) (view (remove_stale env r w).1)
  unfolding remove_stale
  remove_stale-Step (ok pod) w h l = Step.stay refl
  remove_stale-Step (err e) w h l =
      Step-if (is_not_found e.code) (try_again env) (pure (requeue_after (3 * second))) w
        (try_again-Step env w h (omega arith) l) (Step.stay refl)

  retry_or_clean-Step :
      (w : World)
      → w.app.status.migration.stage ≡ restore_failed
      → w.app.status.migration.retry_count < w.app.status.migration.max_retries
      → Step (view w) (view (retry_or_clean env w).1)
  unfolding retry_or_clean
  retry_or_clean-Step w h l =
      let name = w.app.status.migration.current_target_pod in
      let (r, u) = get_pod env w.app.meta.namespace name w in
      Step-if (str_eq name "") (try_again env)
        (get_pod env w.app.meta.namespace name >>= remove_stale env) w
        (try_again-Step env w h (omega arith) l) (remove_stale-Step r u h l)

  pub restore_failed_handler-Step :
      (w : World)
      → w.app.status.migration.stage ≡ restore_failed
      → 0 < w.app.status.migration.max_retries
      → Step (view w) (view (restore_failed_handler env w).1)
  unfolding restore_failed_handler
  restore_failed_handler-Step w h b =
      let m = w.app.status.migration in
      let due = m.last_transition_time + backoff_duration m.retry_count in
      elim (Bool-cases (leb m.max_retries m.retry_count)) [
        | inl spent ↦ rw spent (give_up-Step env w h b (ground arith))
        | inr more ↦ rw more (
            Step-if (ltb w.now due) (pure (requeue_after (due - w.now))) (retry_or_clean env) w
              (Step.stay refl) (retry_or_clean-Step w h (ground arith)))
      ]
