-- ===== src/Reconciler/InFlight.antt =====
-- A whole reconcile while a migration is in flight.
use criu_migration_operator.Base.{
  suc, ◌<◌, ◌≡◌, ◌≢◌, eq_iff, inl, inr, refl, ◌∙◌, true, false, not, ◌||◌, none, Bool-cases, str_eq,
  index, arith,
}
use criu_migration_operator.Kube.{Pod}
use criu_migration_operator.Api.{idle, is_idle, Phase}
use criu_migration_operator.Cluster.{
  Env, World, Result, ok, err, create_pod, update_status, modify_status,
}
use criu_migration_operator.Pods.{get_current_pod, pod_builder, is_deleting}
use criu_migration_operator.Fsm.Transition.{is_terminal_stage}
use criu_migration_operator.Fsm.Quiet.{pod_builder-IsQuiet}
use criu_migration_operator.Fsm.Retry.{
  check_retry_annotation, reset_terminal, delete_source, after_reset, restarted, is_not_found,
}
use criu_migration_operator.Fsm.Retrying.{IsGone}
use criu_migration_operator.Fsm.Spec.{View, view, Step}
use criu_migration_operator.Fsm.Refines.{advance-Step}
use criu_migration_operator.PodBuilder.{build_normal_pod}
use criu_migration_operator.Reconciler.{
  finalizer_name, same_phase, after_initial, create_initial_pod, with_pod, managed_pod, run_managed,
  after_first_sight, reconcile_webhook_managed, set_finalizers, after_retry, reconcile_app,
}
use criu_migration_operator.Reconciler.Cleanup.{contains_string}

-- What a reconcile may do to a migration in flight, seen from outside.
pub data InFlight (Requested Missing : Type 0) (v u : View) : Type 0 where
  advanced : Step v u → InFlight Requested Missing v u
  -- The user's annotation took it out of a terminal stage.
  reset :
      Requested
      → is_terminal_stage v.stage ≡ true
      → u ≡ record v { stage = idle; retries = 0; budget = 0 }
      → InFlight Requested Missing v u
  -- There was no pod, and a fresh one was created.
  replaced : Missing → u ≡ record v { creates = suc v.creates } → InFlight Requested Missing v u

-- The user's annotation asks for a new start.
abbrev pub IsRequested : World → Type 0
IsRequested w = index w.app.meta.annotations "migration.io/retry" ≡ "requested"

-- The application's pods are not the webhook's, and the controller finds that none of them is left.
abbrev pub IsMissing : Env → World → Type 0
IsMissing env w =
    (index w.app.meta.labels "migration.io/webhook-managed" ≢ "true")
    × IsGone (get_current_pod env w).0

module _ (env : Env) where
  after_initial-view : (r : Result Pod) (w : World) → view (after_initial env r w).1 ≡ view w
  unfolding after_initial
  after_initial-view (ok pod) w = refl
  after_initial-view (err e) w = refl

  create_initial_pod-view :
      (w : World)
      → view (create_initial_pod env w).1 ≡ record (view w) { creates = suc (view w).creates }
  unfolding create_initial_pod after_initial
  create_initial_pod-view w =
      let q = (pod_builder-IsQuiet env).at w in
      let (builder, u) = pod_builder env w in
      let (r, v) = create_pod env (build_normal_pod builder 0) u in
      after_initial-view r v ∙ (ground (arith, q))

  with_pod-InFlight :
      {Requested Missing : Type 0} (r : Result Pod) (w : World)
      → (IsGone r → Missing)
      → is_idle w.app.status.migration.stage ≡ false
      → 0 < w.app.status.migration.max_retries
      → InFlight Requested Missing (view w) (view (with_pod env r w).1)
  unfolding with_pod
  with_pod-InFlight (ok pod) w gone s b = rw s (InFlight.advanced (advance-Step env pod w b))
  with_pod-InFlight (err e) w gone s b = elim (Bool-cases (is_not_found e.code)) [
    | inl k ↦ rw k (InFlight.replaced (gone k) (create_initial_pod-view w))
    | inr k ↦ rw k (InFlight.advanced (Step.stay refl))
  ]

  run_managed-InFlight :
      (pod : Pod) (w : World)
      → is_idle w.app.status.migration.stage ≡ false
      → 0 < w.app.status.migration.max_retries
      → Step (view w) (view (run_managed env pod w).1)
  unfolding run_managed
  run_managed-InFlight pod w s b = rw s (advance-Step env pod w b)

  after_first_sight-InFlight :
      (pod : Pod) (r : Result Unit) (w : World)
      → is_idle w.app.status.migration.stage ≡ false
      → 0 < w.app.status.migration.max_retries
      → Step (view w) (view (after_first_sight env pod r w).1)
  unfolding after_first_sight
  after_first_sight-InFlight pod (ok u) w s b = run_managed-InFlight pod w s b
  after_first_sight-InFlight pod (err e) w s b = Step.stay refl

  managed_pod-InFlight :
      {Requested Missing : Type 0} (r : Result Pod) (w : World)
      → is_idle w.app.status.migration.stage ≡ false
      → 0 < w.app.status.migration.max_retries
      → InFlight Requested Missing (view w) (view (managed_pod env r w).1)
  unfolding managed_pod after_first_sight
  managed_pod-InFlight (err e) w s b = InFlight.advanced (Step.stay refl)
  managed_pod-InFlight (ok pod) w s b =
      let now = w.now in
      let p = w.app.status.phase in
      let seen =
        modify_status
          (λ t. record t {
            phase = Phase.running;
            current_node = pod.spec.node_name;
            current_pod_name = pod.meta.name;
            last_update_time = now;
          })
          w in
      let (r, v) = update_status env seen.1 in
      elim (Bool-cases (same_phase p Phase.none_yet || same_phase p Phase.pending)) [
        | inl e ↦ rw e (InFlight.advanced (after_first_sight-InFlight pod r v s b))
        | inr e ↦ rw e (InFlight.advanced (run_managed-InFlight pod w s b))
      ]

  after_reset-view : (r : Result Unit) (w : World) → view (after_reset env r w).1 ≡ view w
  unfolding after_reset
  after_reset-view (ok u) w = refl
  after_reset-view (err e) w = refl

  delete_source-view : (r : Result Pod) (w : World) → view (delete_source env r w).1 ≡ view w
  unfolding delete_source
  delete_source-view (ok pod) w = refl
  delete_source-view (err e) w = refl

  reset_terminal-view :
      (w : World)
      → view (reset_terminal env w).1 ≡ record (view w) { stage = idle; retries = 0; budget = 0 }
  unfolding reset_terminal get_current_pod
  reset_terminal-view w =
      let (pod, u) = get_current_pod env w in
      let v = (delete_source env pod u).1 in
      let t = modify_status (restarted env v.now) v in
      let (r, x) = update_status env t.1 in
      after_reset-view r x ∙ ground (arith, delete_source-view pod u)

  after_retry-InFlight :
      {Requested : Type 0} (w : World)
      → is_idle w.app.status.migration.stage ≡ false
      → 0 < w.app.status.migration.max_retries
      → InFlight Requested (IsMissing env w) (view w) (view (after_retry env none w).1)
  unfolding after_retry reconcile_webhook_managed get_current_pod
  after_retry-InFlight w s b =
      let (pod, u) = get_current_pod env w in
      elim (Bool-cases (str_eq (index w.app.meta.labels "migration.io/webhook-managed") "true")) [
        | inl e ↦ rw e (managed_pod-InFlight pod u s b)
        | inr e ↦ rw e (
            with_pod-InFlight pod u
              (λ g. (
                ground (
                  arith,
                  e,
                  eq_iff (index w.app.meta.labels "migration.io/webhook-managed") "true",
                ),
                g,
              ))
              s b)
      ]

  checked-InFlight :
      (w : World)
      → is_idle w.app.status.migration.stage ≡ false
      → 0 < w.app.status.migration.max_retries
      → let (handled, u) = check_retry_annotation env w in
        InFlight (IsRequested w) (IsMissing env w) (view w) (view (after_retry env handled u).1)
  unfolding check_retry_annotation after_retry
  checked-InFlight w s b =
      let refused =
        not (str_eq (index w.app.meta.annotations "migration.io/retry") "requested")
        || not (is_terminal_stage w.app.status.migration.stage) in
      elim (Bool-cases refused) [
        | inl e ↦ rw e (after_retry-InFlight w s b)
        | inr e ↦ rw e (
            InFlight.reset
              (ground
                (arith, eq_iff (index w.app.meta.annotations "migration.io/retry") "requested"))
              (ground arith) (reset_terminal-view w))
      ]

  -- A reconcile of an application that is not being deleted, with a migration in flight, advances that
  -- migration by at most one step of the state machine, takes it out of a terminal stage to Idle, where
  -- the user's annotation asks for it, or creates one pod, where the webhook does not manage the pods and
  -- the lookup of the current one says that there is none. It starts no other migration.
  pub reconcile_app-InFlight :
      (w : World)
      → is_deleting w.app.meta.deletion_timestamp ≡ false
      → is_idle w.app.status.migration.stage ≡ false
      → 0 < w.app.status.migration.max_retries
      → InFlight (IsRequested w) (IsMissing env w) (view w) (view (reconcile_app env w).1)
  unfolding reconcile_app set_finalizers
  reconcile_app-InFlight w d s b =
      elim (Bool-cases (contains_string w.app.meta.finalizers finalizer_name)) [
        | inl e ↦ rw (d, e) (checked-InFlight w s b)
        | inr e ↦ rw (d, e) (InFlight.advanced (Step.stay refl))
      ]
