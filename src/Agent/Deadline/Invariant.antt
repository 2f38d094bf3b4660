-- ===== src/Agent/Deadline/Invariant.antt =====
-- pkg/agent/deadline_scheduler.go: the state of the scheduler, the invariant and the score of feasibility. A
-- float64 is a fraction here, and is compared exactly.
use criu_migration_operator.Base.{
  ℕ, zero, suc, ◌+◌, ◌-◌, ◌*◌, ◌/◌, Bool, true, false, ◌||◌, List, [], ◌∷◌, Option, none, some, leb,
  ◌==◌, if◌then◌else◌,
}
use criu_migration_operator.Base.Int.{ℤ, pos, negsuc}
use criu_migration_operator.Host.{Act, modify, zoom}
use criu_migration_operator.Profiler.Areas.{sub64}
use criu_migration_operator.Profiler.Heat.{HotRegion}
use criu_migration_operator.Profiler.Lifecycle.{Profiler, DirtyVolume}
use criu_migration_operator.Agent.Manager.{ExcludeArgs}
use criu_migration_operator.Agent.State.{Agent}
use criu_migration_operator.Agent.Dumping.{hot_ranges}

pub record SchedulerConfig : Type 0 where
  pub deadline_seconds : ℕ
  pub bandwidth : ℕ × ℕ  -- megabytes per second
  pub scan_interval_ms : ℕ
  pub t_freeze_ms : ℕ
  pub t_margin_ms : ℕ
  pub dry_run : Bool

abbrev pub positive_or : ℕ → ℤ → ℕ
positive_or default (pos zero) = default
positive_or default (pos (suc n)) = suc n
positive_or default (negsuc n) = default

-- The configuration of NewInvariantScheduler: what is not positive gets its default.
unfoldable pub scheduler_config :
    (deadline scan freeze margin : ℤ) → (bandwidth : ℕ × ℕ) → (dry_run : Bool) → SchedulerConfig
scheduler_config deadline scan freeze margin bandwidth dry_run = record {
  deadline_seconds = positive_or 120 deadline;
  bandwidth = bandwidth;
  scan_interval_ms = positive_or 5000 scan;
  t_freeze_ms = positive_or 50 freeze;
  t_margin_ms = positive_or 5000 margin;
  dry_run = dry_run;
}

pub record InvariantState : Type 0 where
  pub t_remain : ℕ × ℕ  -- milliseconds
  pub deadline_ms : ℕ
  pub current_pages : ℕ
  pub current_bytes : ℕ
  pub upload_bytes_ms : ℕ × ℕ
  pub violated : Bool

pub record FeasibilityScore : Type 0 where
  pub f_op : ℕ × ℕ
  pub alpha : ℕ × ℕ
  pub d_min_bytes : ℕ
  pub d_hot_bytes : ℕ
  pub d_cold_bytes : ℕ
  pub is_feasible : Bool  -- no warning

pub record Scheduler : Type 0 where
  pub config : SchedulerConfig
  pub uses_profiler : Bool
  pub initial_dump_done : Bool
  pub last_pre_dump_time : ℕ
  pub pre_dump_count : ℕ
  pub last_fop_check : ℕ
  pub last_fop : FeasibilityScore

abbrev pub no_score : FeasibilityScore
no_score = record {
  f_op = (0, 1);
  alpha = (0, 1);
  d_min_bytes = 0;
  d_hot_bytes = 0;
  d_cold_bytes = 0;
  is_feasible = true;
}

-- NewInvariantScheduler
unfoldable pub new_scheduler : SchedulerConfig → (uses_profiler : Bool) → Scheduler
new_scheduler config uses_profiler = record {
  config = config;
  uses_profiler = uses_profiler;
  initial_dump_done = false;
  last_pre_dump_time = 0;
  pre_dump_count = 0;
  last_fop_check = 0;
  last_fop = no_score;
}

-- Megabytes per second in bytes per millisecond. The fallback is an integer constant of Go: the quotient
-- 104857600 / 1000 is cut.
unfoldable pub upload_rate : ℕ × ℕ → ℕ × ℕ
upload_rate (n, d) = if n == 0 then (104857, 1) else (n * 1048576, d * 1000)

-- evaluateInvariant, of the volume that the profiler reports
unfoldable pub evaluate : SchedulerConfig → DirtyVolume → InvariantState
unfolding upload_rate
evaluate c v =
    let (bytes, per) = upload_rate c.bandwidth in
    let remain = (c.t_freeze_ms + c.t_margin_ms) * bytes + v.cumulative_dirty_bytes * per in
    record {
      t_remain = (remain, bytes);
      deadline_ms = c.deadline_seconds * 1000;
      current_pages = v.cumulative_dirty_bytes / 4096;
      current_bytes = v.cumulative_dirty_bytes;
      upload_bytes_ms = (bytes, per);
      violated = leb (c.deadline_seconds * 1000 * bytes) remain;
    }

abbrev pub no_state : InvariantState
no_state = record {
  t_remain = (0, 1);
  deadline_ms = 0;
  current_pages = 0;
  current_bytes = 0;
  upload_bytes_ms = (0, 1);
  violated = false;
}

unfoldable pub hot_bytes : List HotRegion → ℕ
unfolding sub64
hot_bytes [] = 0
hot_bytes (r ∷ rest) = sub64 r.end_addr r.start_addr + hot_bytes rest

abbrev pub score : ℕ × ℕ → Bool → FeasibilityScore
score f ok_score = record no_score { f_op = f; is_feasible = ok_score }

-- The least volume, and the score of the time that is left against its transfer.
unfoldable pub score_of : (available bytes per hot cold : ℕ) → (alpha : ℕ × ℕ) → FeasibilityScore
score_of available bytes per hot cold alpha =
    let least = hot + cold in
    record {
      f_op = if least == 0 then (999, 1) else (available * bytes, least * per);
      alpha = alpha;
      d_min_bytes = least;
      d_hot_bytes = hot;
      d_cold_bytes = cold;
      is_feasible = least == 0 || leb (least * per) (available * bytes);
    }

-- evaluateFeasibility. The quotient alpha / (1 - alpha) of the fraction a / b is a / (b - a), and the
-- volume that stays dirty is rounded up.
unfoldable pub evaluate_feasibility :
    SchedulerConfig → DirtyVolume → List HotRegion → FeasibilityScore
unfolding hot_bytes score_of
evaluate_feasibility c v hot =
    let (n, d) = c.bandwidth in
    let bytes = n * 1048576 in
    let per = d * 1000 in
    let (dirty, in_ms) = v.dirty_rate_per_sec in
    let taken = c.t_freeze_ms + c.t_margin_ms in
    let num = dirty * per in
    let den = in_ms * 1000 * bytes in
    if n == 0
    then score (999, 1) true
    else if leb (c.deadline_seconds * 1000) taken
    then score (0, 1) false
    else if leb den num
    then record (score (0, 1) false) { alpha = (num, den); d_hot_bytes = hot_bytes hot }
    else score_of (c.deadline_seconds * 1000 - taken) bytes per (hot_bytes hot)
        ((dirty * c.scan_interval_ms * num + (in_ms * 1000 * (den - num) - 1))
          / (in_ms * 1000 * (den - num)))
        (num, den)

-- The scheduler with the agent that it works on.
pub record Pair : Type 0 where
  pub agent : Agent
  pub scheduler : Scheduler

abbrev pub set_agent : Agent → Pair → Pair
set_agent a p = record p { agent = a }

abbrev pub on_agent : {A : Type 0} → Act Agent A → Act Pair A
on_agent m = zoom (λ (p : Pair). p.agent) set_agent m

abbrev pub change : (Scheduler → Scheduler) → Act Pair Unit
change f = modify (λ (p : Pair). record p { scheduler = f p.scheduler })

-- The profiler behind the scheduler's pointer.
abbrev pub profiler_of : Pair → Option Profiler
profiler_of p = if p.scheduler.uses_profiler then p.agent.profiler else none

abbrev pub counted : ℕ → Scheduler → Scheduler
counted now s = record s { last_pre_dump_time = now; pre_dump_count = suc s.pre_dump_count }

abbrev pub state_of : SchedulerConfig → Option Profiler → InvariantState
state_of c none = no_state
state_of c (some p) = evaluate c p.dirty_volume

abbrev pub feasibility_of : SchedulerConfig → Option Profiler → FeasibilityScore
feasibility_of c none = score (999, 1) true
feasibility_of c (some p) = evaluate_feasibility c p.dirty_volume p.hot_regions

unfoldable pub ranges_or_none : List HotRegion → Option ExcludeArgs
unfolding hot_ranges
ranges_or_none [] = none
ranges_or_none (r ∷ rest) =
    some (record { exclude_ranges = hot_ranges (r ∷ rest); no_parent_ranges = [] })
