-- ===== src/Fsm/Stale.antt =====
-- The guard of the stage Dumping against a stale cache. The controller may hold an old snapshot of
-- the object, and reads it afresh before it dumps.
use native.Mathlib.Nat.{add-zero}
use criu_migration_operator.Base.{
  ℕ, ◌+◌, ◌*◌, ◌≤◌, ◌≡◌, true, false, String, List, [], ◌∷◌, refl, ◌<>◌, inl, inr, Bool-cases,
  arith, if◌then◌else◌,
}
use criu_migration_operator.Base.Duration.{second}
use criu_migration_operator.Kube.{Pod}
use criu_migration_operator.Api.{
  Stage, uploaded, final_dump_failed, MigratableApp, MigrationStatusInfo, is_dumping,
}
use criu_migration_operator.Cluster.{
  Env, World, Call, status_updated, Result, ok, err, is_ok, Outcome, requeue, requeue_after,
  FinalDumpResponse, read_app,
}
use criu_migration_operator.Cluster.Trace.{dumps}
use criu_migration_operator.AgentClient.{new_agent_client}
use criu_migration_operator.Fsm.Transition.{
  failure_record, append_history, move_to, set_stage, transition_to_final_dump_failed,
}
use criu_migration_operator.Fsm.Quiet.{new_agent_client-IsQuiet}
use criu_migration_operator.Fsm.Dump.{
  dump_call, record_dump, after_dump, dump_through, dump, dumping_handler,
}

-- The stage that the API server holds, after the status updates that it accepted.
abbrev pub stored : Stage → List Call → Stage
stored first [] = first
stored first (status_updated app (ok u) ∷ rest) = app.status.migration.stage
stored first (c ∷ rest) = stored first rest

abbrev pub hold : MigratableApp → World → World
hold app w = record w { app = app }

-- The handler on one snapshot after another.
unfoldable pub dump_all : Env → Pod → List MigratableApp → World → World
dump_all env source [] w = w
dump_all env source (app ∷ rest) w =
    dump_all env source rest (dumping_handler env source (hold app w)).1

-- Every fresh read succeeds and has the stage that the API server holds then.
abbrev pub ReadsFresh : Env → Pod → Stage → List MigratableApp → World → Type 0
ReadsFresh env source first [] w = Unit
ReadsFresh env source first (app ∷ rest) w =
    ((fresh : MigratableApp) × (env.read_app w.step app.meta.namespace app.meta.name ≡ ok fresh)
      × (fresh.status.migration.stage ≡ stored first w.trace))
    × ReadsFresh env source first rest (dumping_handler env source (hold app w)).1

stored-ok :
    (first : Stage) (app : MigratableApp) (r : Result Unit) (rest : List Call)
    → is_ok r ≡ true
    → stored first (status_updated app r ∷ rest) ≡ app.status.migration.stage
stored-ok first app (ok u) rest h = refl
stored-ok first app (err e) rest h = cc

module _ (env : Env) (source : Pod) (first : Stage)
    (accepts : (n : ℕ) (app : MigratableApp) → is_ok (env.update_status n app) ≡ true) where
  -- What may still be dumped.
  abbrev potential : World → ℕ
  potential w = dumps w.trace + (if is_dumping (stored first w.trace) then 1 else 0)

  move_to-stored :
      (stage : Stage) (mutate : MigrationStatusInfo → MigrationStatusInfo) (next : Outcome)
      (w : World)
      → stored first (move_to env stage mutate next w).1.trace ≡ stage
  unfolding move_to
  move_to-stored stage mutate next w =
      stored-ok first (set_stage env stage mutate w).1.app
        (env.update_status w.step (set_stage env stage mutate w).1.app) w.trace
        (accepts w.step (set_stage env stage mutate w).1.app)

  dumps-move_to :
      (stage : Stage) (mutate : MigrationStatusInfo → MigrationStatusInfo) (next : Outcome)
      (w : World)
      → dumps (move_to env stage mutate next w).1.trace ≡ dumps w.trace
  unfolding move_to
  dumps-move_to stage mutate next w = refl

  move_to-potential :
      (stage : Stage) (mutate : MigrationStatusInfo → MigrationStatusInfo) (next : Outcome)
      (w : World)
      → is_dumping stage ≡ false
      → potential (move_to env stage mutate next w).1 ≡ dumps w.trace
  move_to-potential stage mutate next w h =
      rw (move_to-stored stage mutate next w, h, dumps-move_to stage mutate next w)
        (add-zero (dumps w.trace))

  failure-potential :
      (message : String) (w : World)
      → potential (transition_to_final_dump_failed env message w).1 ≡ dumps w.trace
  unfolding transition_to_final_dump_failed
  failure-potential message w =
      let s = w.app.status in
      let r = failure_record s.migration.previous_node w.now ("FinalDumpFailed: " <> message) in
      let u : World = record w { app = record w.app { status = append_history r s } } in
      move_to-potential final_dump_failed (λ m. record m { last_error = message })
        (requeue_after (60 * second)) u refl

  after_dump-potential :
      (r : Result FinalDumpResponse) (w : World)
      → potential (after_dump env source r w).1 ≡ dumps w.trace
  unfolding after_dump
  after_dump-potential (ok response) w =
      move_to-potential uploaded (record_dump w.app source response) requeue w refl
  after_dump-potential (err e) w = failure-potential e.text w

  dump_through-potential :
      (agent : Result String) (w : World)
      → potential (dump_through env source agent w).1 ≤ dumps w.trace + 1
  unfolding dump_through dump_call
  dump_through-potential (ok ip) w =
      let (r, u) = dump_call env source w.app ip w in omega (arith, after_dump-potential r u)
  dump_through-potential (err e) w =
      omega (arith, failure-potential ("failed to connect to source agent: " <> e.text) w)

  dump-potential : (w : World) → potential (dump env source w).1 ≤ dumps w.trace + 1
  unfolding dump
  dump-potential w =
      let q = (new_agent_client-IsQuiet env source).at w in
      omega (
        arith,
        q.dumps,
        dump_through-potential (new_agent_client env source w).0 (new_agent_client env source w).1,
      )

  dumping_handler-potential :
      (w : World)
      → ((fresh : MigratableApp) × (env.read_app w.step w.app.meta.namespace w.app.meta.name
            ≡ ok fresh)
          × (fresh.status.migration.stage ≡ stored first w.trace))
      → potential (dumping_handler env source w).1 ≤ potential w
  unfolding dumping_handler
  dumping_handler-potential w (fresh, e, s) =
      let u = (read_app env w.app.meta.namespace w.app.meta.name w).1 in
      elim (Bool-cases (is_dumping (stored first w.trace))) [
        | inl now ↦ rw (e, s, now) (dump-potential u)
        | inr moved ↦ rw (e, s, moved) (rw moved (omega arith))
      ]

  dump_all-potential :
      (apps : List MigratableApp) (w : World)
      → ReadsFresh env source first apps w
      → potential (dump_all env source apps w) ≤ potential w
  unfolding dump_all
  dump_all-potential [] w r = omega arith
  dump_all-potential (app ∷ rest) w (r, more) = omega (
    arith,
    dumping_handler-potential (hold app w) r,
    dump_all-potential rest (dumping_handler env source (hold app w)).1 more,
  )

  -- However stale the snapshots are with which the handler of Dumping is called again and again, the
  -- source is dumped at most once, and not at all if another stage is stored: under the hypotheses
  -- that each uncached read succeeds and returns the stored stage, and that status updates succeed.
  pub dump_all_once :
      (apps : List MigratableApp) (w : World)
      → ReadsFresh env source first apps w
      → (dumps (dump_all env source apps w).trace ≤ dumps w.trace + 1)
        × (is_dumping (stored first w.trace) ≡ false
            → dumps (dump_all env source apps w).trace ≤ dumps w.trace)
  dump_all_once apps w r = ground (arith, dump_all-potential apps w r)
