-- ===== src/Fsm/Release.antt =====
-- When the source pod is given up: the calls of the handler of Restoring, in their order.
use criu_migration_operator.Base.{
  String, List, ◌∷◌, ◌≡◌, refl, ap, subst, ◌∙◌, ◌⊎◌, inl, inr, Bool, true, false, index, str_eq,
  ◌<>◌, if◌then◌else◌,
}
use criu_migration_operator.Kube.{Pod}
use criu_migration_operator.Api.{idle, MigratableApp}
use criu_migration_operator.Cluster.{
  Env, World, Call, status_updated, restored, pod_deleted, pod_updated, Result, ok, err, Error,
  RestoreRequest, get_pod, update_pod, delete_pod, update_status, ◌>>=◌, pure,
}
use criu_migration_operator.AgentClient.{new_agent_client, restore}
use criu_migration_operator.Pods.{wait_for_lazy_pages}
use criu_migration_operator.Pods.Wait.{wait_for_lazy_pages-IsIdle}
use criu_migration_operator.Fsm.Quiet.{new_agent_client-IsIdle}
use criu_migration_operator.Fsm.Transition.{move_to, transition_to_restore_failed}
use criu_migration_operator.Fsm.Dump.{strategy_of}
use criu_migration_operator.Fsm.Restore.{
  finished, detached, clean_up_source, after_finish, finish, after_restore, restore_through,
  restore_on, restoring_handler,
}

-- The calls that a run of the handler may add to `before`, which ends in `after`.
pub data Released (source : Pod) (before after : List Call) : Type 0 where
  -- The restore was not requested.
  unreachable :
      (app : MigratableApp) (r : Result Unit)
      → after ≡ status_updated app r ∷ before
      → Released source before after
  -- It was requested, and failed.
  refused :
      (app : MigratableApp) (r : Result Unit) (ip : String) (request : RestoreRequest) (e : Error)
      → after ≡ status_updated app r ∷ restored ip request (err e) ∷ before
      → Released source before after
  -- It succeeded, and its record was not accepted.
  unrecorded :
      (app : MigratableApp) (e : Error) (ip : String) (request : RestoreRequest) (u : Unit {0})
      → after ≡ status_updated app (err e) ∷ restored ip request (ok u) ∷ before
      → Released source before after
  -- It succeeded and was recorded as finished; then the source is deleted or detached.
  recorded :
      (last : Call) (app : MigratableApp) (u v : Unit {0}) (ip : String) (request : RestoreRequest)
      → ((r : Result Unit) × (last ≡ pod_deleted source r))
        ⊎ ((pod : Pod) × (r : Result Unit) × (last ≡ pod_updated pod r))
      → (app.status.migration.stage ≡ idle)
      → after ≡ last ∷ status_updated app (ok u) ∷ restored ip request (ok v) ∷ before
      → Released source before after

-- The same list under another name.
Released-from :
    {source : Pod} {before start after : List Call}
    → start ≡ before
    → Released source start after
    → Released source before after
Released-from {source} {after = after} e r = subst (λ l. Released source l after) e r

module _ (env : Env) (source : Pod) where
  -- Either way the source is given up, one call is added.
  given_up :
      (b : Bool) (pod : Pod) (w : World)
      → let u =
          ((if b
              then (do answer ← update_pod env pod; pure tt)
              else (do answer ← delete_pod env source; pure tt))
            w).1 in
        (last : Call) × (((r : Result Unit) × (last ≡ pod_deleted source r))
          ⊎ ((p : Pod) × (r : Result Unit) × (last ≡ pod_updated p r)))
        × (u.trace ≡ last ∷ w.trace)
  given_up true pod w = (_, inr (pod, _, refl), refl)
  given_up false pod w = (_, inl (_, refl), refl)

  after_finish-Released :
      (r : Result Unit) (app : MigratableApp) (ip : String) (request : RestoreRequest)
      (v : Unit {0}) (before : List Call) (w : World)
      → w.trace ≡ status_updated app r ∷ restored ip request (ok v) ∷ before
      → app.status.migration.stage ≡ idle
      → Released source before (after_finish env source r w).1.trace
  unfolding after_finish clean_up_source
  after_finish-Released (err x) app ip request v before w e h =
      Released.unrecorded app x ip request v e
  after_finish-Released (ok u) app ip request v before w e h =
      let preserve =
        str_eq (index w.app.meta.annotations "migration.io/debug-preserve-source-pod") "true" in
      let (last, given, t) = given_up preserve (detached w.now source) w in
      Released.recorded last app u v ip request given h (t ∙ ap (λ l. last ∷ l) e)

  -- `w` is the world after the agent has reported the restore as done.
  finish-Released :
      (target : Pod) (ip : String) (request : RestoreRequest) (v : Unit {0}) (before : List Call)
      (w : World)
      → w.trace ≡ restored ip request (ok v) ∷ before
      → Released source before (finish env source target ip w).1.trace
  unfolding finish finished
  finish-Released target ip request v before w e =
      let i = wait_for_lazy_pages-IsIdle env ip w in
      let u = (wait_for_lazy_pages env ip w).1 in
      let t : World = record u {
        app = record u.app { status = finished u.app target u.now u.app.status };
      } in
      let (r, x) = update_status env t in
      after_finish-Released r t.app ip request v before x
        (ap (λ l. status_updated t.app r ∷ l) (i.trace ∙ e)) refl

  failure_trace :
      (message : String) (w : World)
      → (app : MigratableApp) × (r : Result Unit) × ((transition_to_restore_failed env message
            w).1.trace
          ≡ status_updated app r ∷ w.trace)
  unfolding transition_to_restore_failed move_to
  failure_trace message w = (_, _, refl)

  after_restore-Released :
      (target : Pod) (ip : String) (request : RestoreRequest) (r : Result Unit) (before : List Call)
      (w : World)
      → w.trace ≡ restored ip request r ∷ before
      → Released source before (after_restore env source target ip r w).1.trace
  unfolding after_restore
  after_restore-Released target ip request (ok v) before w e =
      finish-Released target ip request v before w e
  after_restore-Released target ip request (err x) before w e =
      let (app, r, t) = failure_trace ("Restore RPC failed: " <> x.text) w in
      Released.refused app r ip request x (t ∙ ap (λ l. status_updated app r ∷ l) e)

  restore_through-Released :
      (target : Pod) (agent : Result String) (w : World)
      → Released source w.trace (restore_through env source target agent w).1.trace
  unfolding restore_through restore transition_to_restore_failed move_to
  restore_through-Released target (err e) w = Released.unreachable _ _ refl
  restore_through-Released target (ok ip) w =
      let m = w.app.status.migration in
      let (r, u) =
        restore env ip m.uploaded_dump_id w.app.spec.storage.bucket m.uploaded_s3_prefix
          m.page_server_addr (strategy_of w.app) m.uploaded_pipe_inodes w in
      after_restore-Released target ip _ r w.trace u refl

  restore_on-Released :
      (name : String) (r : Result Pod) (w : World)
      → Released source w.trace (restore_on env source name r w).1.trace
  unfolding restore_on transition_to_restore_failed move_to
  restore_on-Released name (err e) w = Released.unreachable _ _ refl
  restore_on-Released name (ok target) w =
      Released-from (new_agent_client-IsIdle env target w).trace (
        restore_through-Released target (new_agent_client env target w).0
          (new_agent_client env target w).1)

  -- The handler of Restoring deletes or detaches the source pod only as its last call, after the agent
  -- has reported the restore as done and the API server has accepted the record with the stage Idle.
  -- Otherwise it makes no call but the status update and, if the target was reached, the request.
  pub restoring_handler-Released :
      (w : World) → Released source w.trace (restoring_handler env source w).1.trace
  unfolding restoring_handler
  restoring_handler-Released w =
      let name = w.app.status.migration.current_target_pod in
      let (r, u) = get_pod env w.app.meta.namespace name w in restore_on-Released name r u
