-- ===== src/Agent/Deadline/Keeping.antt =====
-- What a pre-dump of the scheduler leaves: the invariant, and a process that CRIU can dump.
use criu_migration_operator.Base.{
  ℕ, ◌+◌, ◌*◌, ◌<◌, ◌==◌, String, true, false, List, none, some, ◌≡◌, refl, ap, ◌∙◌, arith, subst,
  leb,
}
use criu_migration_operator.Cluster.{Result, ok, err, is_ok}
use criu_migration_operator.Host.{Host, World, zoom, Event}
use criu_migration_operator.Host.Trace.{open_uffds, IsClean}
use criu_migration_operator.Profiler.Lifecycle.{
  Profiler, DirtyVolume, VmaHotDetail, no_volume, reinit_after_criu, cleanup_before_criu,
}
use criu_migration_operator.Profiler.Lifecycle.Counting.{attached}
use criu_migration_operator.Profiler.Lifecycle.Resetting.{CanSetUp, reinit-IsReset}
use criu_migration_operator.Agent.Profiling.{volume_of}
use criu_migration_operator.Agent.PreDump.Running.{CanDump, pre_checkpoint-ok}
use criu_migration_operator.Agent.Manager.{Manager, CheckpointResult}
use criu_migration_operator.Agent.PreDump.{pre_checkpoint}
use criu_migration_operator.Agent.PreDump.Dirty.{CanMake, pre_checkpoint-dirty}
use criu_migration_operator.Agent.State.{Agent, on_manager}
use criu_migration_operator.Agent.Dumping.Releasing.{wait_untraced-Leaves}
use criu_migration_operator.Agent.Deadline.{
  SchedulerConfig, Scheduler, Pair, evaluate, upload_rate, on_agent, profiler_of, exclude_before,
  ranges_or_none, reinit_after, after_triggered, trigger_pre_dump, start_profiler, after_initial,
  perform_initial_pre_dump, start_scheduler,
}

-- A scheduler whose pointer to the agent's profiler is set, as StartProfiling makes it.
abbrev pub watching : Profiler → (pid : ℕ) → World Pair → World Pair
watching p pid w = record w {
  self = record {
    agent = record w.self.agent { profiler = some p; main_pid = pid };
    scheduler = record w.self.scheduler {
      uses_profiler = true;
      config = record w.self.scheduler.config { dry_run = false };
    };
  };
}

module _ (host : Host) (vma_json : List VmaHotDetail → String) where
  after_initial-trace :
      (r : Result CheckpointResult) (w : World Pair)
      → w.self.scheduler.uses_profiler ≡ true
      → (after_initial host vma_json r w).1.trace ≡ w.trace
  unfolding after_initial start_profiler zoom
  after_initial-trace (err e) w h = refl
  after_initial-trace (ok r) w h =
      let l =
        wait_untraced-Leaves host vma_json w.self.agent.main_pid
          (record { self = w.self.agent; now = w.now; step = w.step; trace = w.trace }) in
      rw h l.trace

  -- The scheduler that StartProfiling starts beside a profiler that runs takes its first dump while the
  -- profiler's userfaultfd is open in the target, on whatever other answers, where the directory of the
  -- dump can be made.
  pub start_scheduler-dirty :
      (p : Profiler) (fd pid : ℕ) (w : World Pair)
      → CanMake host
      → p.target_fd ≡ some fd
      → 0 < pid
      → open_uffds w.trace ≡ attached p.target_fd
      → ¬ IsClean (start_scheduler host vma_json (watching p pid w)).1.trace
  unfolding start_scheduler perform_initial_pre_dump zoom
  start_scheduler-dirty p fd pid w can e positive balance c =
      let known : (pid == 0) ≡ false = ground arith in
      let start_world : World Manager = record {
        self = w.self.agent.manager;
        now = w.now;
        step = w.step;
        trace = w.trace;
      } in
      let (answer, u) =
        on_agent (on_manager (pre_checkpoint host pid "" none)) (watching p pid w) in
      pre_checkpoint-dirty host pid "" none start_world can (balance ∙ ap attached e)
        (subst IsClean (after_initial-trace answer u refl) (rw known at c))

leb-false : (a b : ℕ) → b < a → leb a b ≡ false
leb-false a b h = ground arith

scaled : (a d n q : ℕ) → a < d → 0 < n → a * n + 0 * q < d * n
scaled a d n q h p = grind arith

upload_rate-pos : (r : ℕ × ℕ) → 0 < (upload_rate r).0
unfolding upload_rate
upload_rate-pos (n, d) = ground arith

-- A volume of nothing fits, if the freeze and the margin do.
evaluate-no_volume :
    (c : SchedulerConfig) (v : DirtyVolume)
    → v ≡ no_volume
    → c.t_freeze_ms + c.t_margin_ms < c.deadline_seconds * 1000
    → (evaluate c v).violated ≡ false
unfolding evaluate
evaluate-no_volume c v e h =
    let positive = upload_rate-pos c.bandwidth in
    let none_dirty : v.cumulative_dirty_bytes ≡ 0 =
      ap (λ (x : DirtyVolume). x.cumulative_dirty_bytes) e in
    rw none_dirty (
      leb-false _ _ (
        scaled (c.t_freeze_ms + c.t_margin_ms) (c.deadline_seconds * 1000)
          (upload_rate c.bandwidth).0 (upload_rate c.bandwidth).1 h positive))

-- A scheduler whose pointer to the agent's profiler is set.
abbrev holding : Profiler → Agent → Scheduler → Pair
holding p a s = record {
  agent = record a { profiler = some p };
  scheduler = record s { uses_profiler = true };
}

-- The invariant, as the scheduler sees it.
abbrev pub Holds : World Pair → Type 0
Holds w = (evaluate w.self.scheduler.config (volume_of (profiler_of w.self))).violated ≡ false

-- The freeze and the margin leave time for an upload.
abbrev IsPossible : SchedulerConfig → Type 0
IsPossible c = c.t_freeze_ms + c.t_margin_ms < c.deadline_seconds * 1000

module _ (host : Host) (vma_json : List VmaHotDetail → String) (can : CanSetUp host) where
  after_triggered-Holds :
      (p : Profiler) (a : Agent) (s : Scheduler) (now step : ℕ) (trace : List Event)
      (r : Result CheckpointResult)
      → is_ok r ≡ true
      → IsPossible s.config
      → Holds
          (after_triggered host vma_json r
            (record { self = holding p a s; now = now; step = step; trace = trace })).1
  unfolding after_triggered reinit_after zoom
  after_triggered-Holds p a s now step trace (err e) h possible = cc h
  after_triggered-Holds p a s now step trace (ok r) h possible =
      let w : World Profiler = record { self = p; now = now; step = step; trace = trace } in
      let (answer, u) = reinit_after_criu host w in
      evaluate-no_volume s.config u.self.dirty_volume (reinit-IsReset host can w) possible

  -- A pre-dump that the scheduler triggers brings the invariant back, whatever the volume was: where CRIU
  -- and the profiler's set-up succeed, and the freeze and the margin alone fit before the deadline, the
  -- scheduler sees no violation after it.
  pub trigger_pre_dump-Holds :
      (dump : CanDump host) (p : Profiler) (pid : ℕ) (w : World Pair)
      → 0 < pid
      → IsPossible w.self.scheduler.config
      → Holds (trigger_pre_dump host vma_json (watching p pid w)).1
  unfolding trigger_pre_dump exclude_before zoom
  trigger_pre_dump-Holds dump p pid w positive possible =
      let known : (pid == 0) ≡ false = ground arith in
      let a = (watching p pid w).self.agent in
      let start_world : World Profiler = record {
        self = p;
        now = w.now;
        step = w.step;
        trace = w.trace;
      } in
      let cleaned = (cleanup_before_criu host start_world).1 in
      let exclude = ranges_or_none p.hot_regions in
      let manager_world : World Manager = record {
        self = a.manager;
        now = cleaned.now;
        step = cleaned.step;
        trace = cleaned.trace;
      } in
      let last = a.manager.last_checkpoint_id in
      let (answer, u) = pre_checkpoint host pid last exclude manager_world in
      rw known (
        after_triggered-Holds cleaned.self (record a { manager = u.self })
          (watching p pid w).self.scheduler u.now u.step u.trace answer
          (pre_checkpoint-ok host dump pid last exclude manager_world) possible)
