-- ===== src/Fsm/Spec.antt =====
-- The migration state machine without its data: the stage, the retry counters, and how often a
-- process was dumped, a target pod created and a restore requested. docs/migration_fsm_plan.md has
-- the diagram.
use criu_migration_operator.Base.{
  ℕ, suc, ◌+◌, ◌-◌, ◌≤◌, ◌<◌, ◌≡◌, ◌≢◌, Bool, true, false, subst, if◌then◌else◌, arith,
}
use criu_migration_operator.Api.{
  Stage, idle, quiescing, dumping, uploaded, restoring, restore_failed, final_dump_failed,
}
use criu_migration_operator.Cluster.{World, M}
use criu_migration_operator.Cluster.Trace
use criu_migration_operator.Cluster.Trace.{SameView}

pub record View : Type 0 where
  pub stage : Stage
  pub retries : ℕ
  pub budget : ℕ
  pub dumps : ℕ
  pub creates : ℕ
  pub restores : ℕ

abbrev pub view : World → View
view w =
    let m = w.app.status.migration in
    record {
      stage = m.stage;
      retries = m.retry_count;
      budget = m.max_retries;
      dumps = Trace.dumps w.trace;
      creates = Trace.creates w.trace;
      restores = Trace.restores w.trace;
    }

-- One reconcile of a migration in flight.
pub data Step (v u : View) : Type 0 where
  stay : u ≡ v → Step v u
  drained : v.stage ≡ quiescing → u ≡ record v { stage = dumping } → Step v u
  dumped : v.stage ≡ dumping → u ≡ record v { stage = uploaded; dumps = suc v.dumps } → Step v u
  dump_failed :
      (n : ℕ)
      → v.dumps ≤ n
      → n ≤ suc v.dumps
      → v.stage ≡ dumping
      → u ≡ record v { stage = final_dump_failed; dumps = n }
      → Step v u
  created :
      v.stage ≡ uploaded → u ≡ record v { stage = restoring; creates = suc v.creates } → Step v u
  create_failed :
      v.stage ≡ uploaded
      → u ≡ record v { stage = restore_failed; creates = suc v.creates }
      → Step v u
  restored :
      v.stage ≡ restoring
      → u ≡ record v { stage = idle; retries = 0; budget = 0; restores = suc v.restores }
      → Step v u
  restore_failed_at :
      (n : ℕ)
      → v.restores ≤ n
      → n ≤ suc v.restores
      → v.stage ≡ restoring
      → u ≡ record v { stage = restore_failed; restores = n }
      → Step v u
  retried :
      v.stage ≡ restore_failed
      → v.retries < v.budget
      → u ≡ record v { stage = uploaded; retries = suc v.retries }
      → Step v u
  gave_up :
      v.stage ≡ restore_failed
      → v.budget ≤ v.retries
      → u ≡ record v { stage = Stage.failed }
      → Step v u

-- The invariant of a migration in flight.
pub record IsSane (v : View) : Type 0 where
  pub in_budget : v.retries ≤ v.budget
  pub has_budget : v.stage ≢ idle → 0 < v.budget

-- How many target pods, restores and dumps may still follow.
abbrev pub creates_left : Stage → ℕ → ℕ
creates_left quiescing left = suc left
creates_left dumping left = suc left
creates_left uploaded left = suc left
creates_left restoring left = left
creates_left restore_failed left = left
creates_left _ left = 0

abbrev pub restores_left : Stage → ℕ → ℕ
restores_left quiescing left = suc left
restores_left dumping left = suc left
restores_left uploaded left = suc left
restores_left restoring left = suc left
restores_left restore_failed left = left
restores_left _ left = 0

abbrev pub dumps_left : Stage → ℕ
dumps_left quiescing = 1
dumps_left dumping = 1
dumps_left _ = 0

abbrev pub left : View → ℕ
left v = v.budget - v.retries

pub Step-IsSane : {v u : View} → Step v u → IsSane v → IsSane u
Step-IsSane (stay e) s = ground arith
Step-IsSane (drained h e) s = ground arith
Step-IsSane (dumped h e) s = ground arith
Step-IsSane (dump_failed n l k h e) s = ground arith
Step-IsSane (created h e) s = ground arith
Step-IsSane (create_failed h e) s = ground arith
Step-IsSane (restored h e) s = ground arith
Step-IsSane (restore_failed_at n l k h e) s = ground arith
Step-IsSane (retried h l e) s = ground arith
Step-IsSane (gave_up h l e) s = ground arith

-- A step spends what it uses.
pub record Spends (v u : View) : Type 0 where
  pub dumps : u.dumps + dumps_left u.stage ≤ v.dumps + dumps_left v.stage
  pub creates :
      u.creates + creates_left u.stage (left u) ≤ v.creates + creates_left v.stage (left v)
  pub restores :
      u.restores + restores_left u.stage (left u) ≤ v.restores + restores_left v.stage (left v)

pub Step-Spends : {v u : View} → Step v u → Spends v u
Step-Spends (stay e) = ground arith
Step-Spends (drained h e) = ground arith
Step-Spends (dumped h e) = ground arith
Step-Spends (dump_failed n l k h e) = ground arith
Step-Spends (created h e) = ground arith
Step-Spends (create_failed h e) = ground arith
Step-Spends (restored h e) = ground arith
Step-Spends (restore_failed_at n l k h e) = ground arith
Step-Spends (retried h l e) = ground arith
Step-Spends (gave_up h l e) = ground arith

-- A step from the view of a world is one from any other world with the same view.
pub view-SameView : {w u : World} → SameView w u → view u ≡ view w
view-SameView q = ground arith

pub Step-from : {w u : World} {x : View} → SameView w u → Step (view u) x → Step (view w) x
Step-from {x = x} q s = subst (λ v. Step v x) (view-SameView q) s

pub Step-quiet : {w u : World} → SameView w u → Step (view w) (view u)
Step-quiet q = stay (view-SameView q)

pub Step-if :
    {A : Type 0} (b : Bool) (m n : M A) (w : World) {v : View}
    → Step v (view (m w).1)
    → Step v (view (n w).1)
    → Step v (view ((if b then m else n) w).1)
Step-if true m n w s t = s
Step-if false m n w s t = t

pub Spends-trans : {u v w : View} → Spends u v → Spends v w → Spends u w
Spends-trans a b = omega arith
