-- ===== src/Fsm/Retrying.antt =====
-- When a failed restore is tried again, and what the user's annotation does.
use criu_migration_operator.Base.{
  String, ◌+◌, ◌<◌, ◌≤◌, ◌≡◌, ◌≢◌, ◌⊎◌, inl, inr, refl, sym, ap, subst, not, ◌||◌, true, none, List,
  ◌∷◌, index, str_eq, lookup-delete, Bool-cases, eq_iff, arith,
}
use criu_migration_operator.Kube.{Pod}
use criu_migration_operator.Api.{
  Stage, uploaded, restore_failed, final_dump_failed, MigratableApp, no_migration, Phase,
}
use criu_migration_operator.Cluster.{
  Env, World, Result, ok, err, Error, Call, pod_deleted, status_updated, app_updated, modify_status,
  update_status,
}
use criu_migration_operator.Pods.{get_current_pod}
use criu_migration_operator.Fsm.Transition.{move_to, backoff_duration, is_terminal_stage}
use criu_migration_operator.Fsm.Retry.{
  is_not_found, try_again, give_up, remove_stale, retry_or_clean, restore_failed_handler,
  check_retry_annotation, delete_source, without_retry, after_reset, restarted, reset_terminal,
}

-- The API server says that there is no such pod.
abbrev pub IsGone : Result Pod → Type 0
IsGone (ok pod) = ⊥
IsGone (err e) = is_not_found e.code ≡ true

module _ (env : Env) (w : World) where
  -- The handler of RestoreFailed goes back to Uploaded only with retries left, when the back-off since
  -- the last transition is over, and when no target pod is recorded or the recorded one is gone.
  pub restore_failed-uploaded_needs :
      w.app.status.migration.stage ≡ restore_failed
      → (restore_failed_handler env w).1.app.status.migration.stage ≡ uploaded
      → let m = w.app.status.migration in
        (m.retry_count < m.max_retries)
        × (m.last_transition_time + backoff_duration m.retry_count ≤ w.now)
        × ((m.current_target_pod ≡ "")
            ⊎ IsGone (env.get_pod w.step w.app.meta.namespace m.current_target_pod))
  unfolding restore_failed_handler retry_or_clean remove_stale give_up try_again move_to
  restore_failed-uploaded_needs h u =
      ground (arith, eq_iff w.app.status.migration.current_target_pod "")

-- The user's request has been made, in a terminal stage.
abbrev pub IsAsked : World → Type 0
IsAsked w =
    (index w.app.meta.annotations "migration.io/retry" ≡ "requested")
    × ((w.app.status.migration.stage ≡ final_dump_failed)
        ⊎ (w.app.status.migration.stage ≡ Stage.failed))

-- The source pod that was found has been asked to be deleted.
abbrev pub Deletes : Result Pod → (past later : List Call) → Type 0
Deletes (err e) past later = later ≡ past
Deletes (ok pod) past later = (answer : Result Unit) × (later ≡ pod_deleted pod answer ∷ past)

-- The application without the request, which keeps its other annotations and its status.
pub record IsAnswered (app changed : MigratableApp) : Type 0 where
  pub gone : index changed.meta.annotations "migration.io/retry" ≡ ""
  pub others :
      (key : String)
      → key ≢ "migration.io/retry"
      → index changed.meta.annotations key ≡ index app.meta.annotations key
  pub spec : changed.spec ≡ app.spec
  pub status : changed.status ≡ app.status

-- The status is sent, and, once it is accepted, the application without the request.
pub data Sends (app : MigratableApp) (past : List Call) : List Call → Type 0 where
  refused : (e : Error) → Sends app past (status_updated app (err e) ∷ past)
  accepted :
      (changed : MigratableApp) (answer : Result Unit)
      → IsAnswered app changed
      → Sends app past (app_updated changed answer ∷ status_updated app (ok tt) ∷ past)

-- The application waits for a fresh pod, with no migration.
pub record Restarted (found : Result Pod) (w u : World) : Type 0 where
  pub migration : u.app.status.migration ≡ no_migration
  pub phase : u.app.status.phase ≡ Phase.pending
  pub deleted : List Call
  pub deletes : Deletes found w.trace deleted
  pub sends : Sends u.app deleted u.trace

module _ (env : Env) where
  delete_source-Deletes :
      (found : Result Pod) (w : World) → Deletes found w.trace (delete_source env found w).1.trace
  unfolding delete_source
  delete_source-Deletes (ok pod) w = (env.delete_pod w.step pod, refl)
  delete_source-Deletes (err e) w = refl

  delete_source-app : (found : Result Pod) (w : World) → (delete_source env found w).1.app ≡ w.app
  unfolding delete_source
  delete_source-app (ok pod) w = refl
  delete_source-app (err e) w = refl

  without_retry-IsAnswered : (app : MigratableApp) → IsAnswered app (without_retry env app)
  unfolding index
  without_retry-IsAnswered app =
      let left = λ (key : String). lookup-delete "migration.io/retry" key app.meta.annotations in
      record {
        gone = rw (left "migration.io/retry") refl;
        others = λ key n. rw (left key) (ground (arith, n, eq_iff "migration.io/retry" key));
        spec = refl;
        status = refl;
      }

  after_reset-Sends :
      (answer : Result Unit) (past : List Call) (w : World)
      → w.trace ≡ status_updated w.app answer ∷ past
      → Sends w.app past (after_reset env answer w).1.trace
  unfolding after_reset
  after_reset-Sends (err e) past w q = subst (Sends w.app past) (sym q) (Sends.refused e)
  after_reset-Sends (ok u) past w q =
      let changed = without_retry env w.app in
      let a = env.update_app w.step changed in
      subst (λ t. Sends w.app past (app_updated changed a ∷ t)) (sym q)
        (Sends.accepted changed a (without_retry-IsAnswered w.app))

  after_reset-app : (answer : Result Unit) (w : World) → (after_reset env answer w).1.app ≡ w.app
  unfolding after_reset
  after_reset-app (ok u) w = refl
  after_reset-app (err e) w = refl

  reset_terminal-Restarted :
      (w : World) → Restarted (get_current_pod env w).0 w (reset_terminal env w).1
  unfolding reset_terminal get_current_pod
  reset_terminal-Restarted w =
      let (pod, u) = get_current_pod env w in
      let v = (delete_source env pod u).1 in
      let t = modify_status (restarted env v.now) v in
      let (answer, x) = update_status env t.1 in
      let same = after_reset-app answer x in
      record {
        migration = ap (λ (a : MigratableApp). a.status.migration) same;
        phase = ap (λ (a : MigratableApp). a.status.phase) same;
        deleted = v.trace;
        deletes = delete_source-Deletes pod u;
        sends =
            subst (λ a. Sends a v.trace (after_reset env answer x).1.trace) (sym same)
              (after_reset-Sends answer v.trace x refl);
      }

  -- Where the user's request has been made and the stage is a terminal one, it is handled: the migration
  -- is reset, the phase is Pending, the source pod, if it is found, is asked to be deleted, the new status
  -- is sent, and, once that is accepted, the application without the request. Otherwise it is not handled
  -- and nothing has changed.
  pub check_retry_annotation-Restarted :
      (w : World)
      → let (handled, u) = check_retry_annotation env w in
        (IsAsked w × (handled ≢ none) × Restarted (get_current_pod env w).0 w u)
        ⊎ ((¬ IsAsked w) × (handled ≡ none) × (u ≡ w))
  unfolding check_retry_annotation is_terminal_stage
  check_retry_annotation-Restarted w =
      let r = reset_terminal-Restarted w in
      let refused =
        not (str_eq (index w.app.meta.annotations "migration.io/retry") "requested")
        || not (is_terminal_stage w.app.status.migration.stage) in
      let same = eq_iff (index w.app.meta.annotations "migration.io/retry") "requested" in
      elim (Bool-cases refused) [
        | inl e ↦ rw e (inr (ground (arith, e, same), refl, refl))
        | inr e ↦ rw e (inl (ground (arith, e, same), ground arith, r))
      ]
