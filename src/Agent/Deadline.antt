-- ===== src/Agent/Deadline.antt =====
-- pkg/agent/deadline_scheduler.go: the scheduler that keeps the volume of dirty pages small enough for a
-- final dump before the cloud's deadline. A float64 is a fraction here, and is compared exactly. The
-- scheduler's pointer to a profiler is the agent's own, which holds as long as StopProfiling is not
-- called beside it: a flag says whether the pointer is set.
mod Invariant
pub mod Keeping
use criu_migration_operator.Base.{
  ℕ, zero, suc, ◌+◌, ◌-◌, ◌*◌, ◌/◌, String, Bool, true, false, not, ◌&&◌, ◌||◌, List, [], ◌∷◌,
  Option, none, some, ltb, leb, ◌==◌, if◌then◌else◌,
}
use criu_migration_operator.Base.Int.{ℤ, pos, negsuc}
use criu_migration_operator.Base.Duration.{millisecond, second}
use criu_migration_operator.Cluster.{Result, ok, err}
use criu_migration_operator.Host.{Host, Act, pure, self, modify, clock, zoom, ◌>>=◌, ◌>>◌}
use criu_migration_operator.Profiler.Areas.{sub64}
use criu_migration_operator.Profiler.Heat.{HotRegion}
use criu_migration_operator.Profiler.Lifecycle.{
  Profiler, DirtyVolume, VmaHotDetail, default_config, cleanup_before_criu, reinit_after_criu,
}
use criu_migration_operator.Agent.Manager.{ExcludeArgs, CheckpointResult}
use criu_migration_operator.Agent.PreDump.{pre_checkpoint}
use criu_migration_operator.Agent.State.{Agent, on_manager, on_profiler}
use criu_migration_operator.Agent.Dumping.{hot_ranges, wait_untraced}
use criu_migration_operator.Agent.Profiling.{start_new}
unfoldable pub use Invariant.*

module _ (host : Host) (vma_json : List VmaHotDetail → String) where
  exclude_before : Option Profiler → Act Agent (Option ExcludeArgs)
  unfolding ranges_or_none
  exclude_before none = pure none
  exclude_before (some p) = do
    on_profiler p (cleanup_before_criu host)
    pure (ranges_or_none p.hot_regions)

  reinit_after : Option Profiler → Act Agent Unit
  reinit_after none = pure tt
  reinit_after (some p) = do answer ← on_profiler p (reinit_after_criu host); pure tt

  -- A pre-dump that failed leaves the profiler stopped.
  after_triggered : Result CheckpointResult → Act Pair Unit
  unfolding reinit_after
  after_triggered (err e) = pure tt
  after_triggered (ok r) = do
    now ← clock
    change (counted now)
    p ← self
    on_agent (reinit_after (profiler_of p))

  -- triggerPreDump
  unfoldable pub trigger_pre_dump : Act Pair Unit
  unfolding after_triggered exclude_before
  trigger_pre_dump = do
    p ← self
    if p.agent.main_pid == 0 then pure tt else (do
      exclude ← on_agent (exclude_before (profiler_of p))
      answer ← on_agent (
          on_manager
            (pre_checkpoint host p.agent.main_pid p.agent.manager.last_checkpoint_id exclude))
      after_triggered answer)

  after_new : Result ℕ → Act Pair Unit
  after_new (err e) = pure tt
  after_new (ok vmas) = change (λ s. record s { uses_profiler = true })

  -- The profiler starts after the first dump, where it does not run yet.
  start_profiler : Act Pair Unit
  unfolding after_new
  start_profiler = do
    p ← self
    if not p.scheduler.uses_profiler && not (p.agent.main_pid == 0)
        then (do
          answer ← on_agent (start_new host p.agent.main_pid default_config)
          after_new answer)
        else pure tt

  after_initial : Result CheckpointResult → Act Pair Unit
  unfolding start_profiler
  after_initial (err e) = change (λ s. record s { initial_dump_done = true })
  after_initial (ok r) = do
    now ← clock
    change (λ s. counted now (record s { initial_dump_done = true }))
    p ← self
    on_agent (wait_untraced host vma_json p.agent.main_pid)
    start_profiler

  -- performInitialPreDump
  unfoldable pub perform_initial_pre_dump : Act Pair Unit
  unfolding after_initial
  perform_initial_pre_dump = do
    p ← self
    if p.agent.main_pid == 0 then change (λ s. record s { initial_dump_done = true }) else (do
      answer ← on_agent (on_manager (pre_checkpoint host p.agent.main_pid "" none))
      after_initial answer)

  check_feasibility : Act Pair Unit
  check_feasibility = do
    now ← clock
    p ← self
    if leb (p.scheduler.last_fop_check + 60 * second) now
        then change (λ s. record s {
          last_fop = feasibility_of s.config (profiler_of p);
          last_fop_check = now;
        })
        else pure tt

  -- One tick of the loop of Start
  unfoldable pub tick : Act Pair Unit
  unfolding trigger_pre_dump check_feasibility
  tick = do
    p ← self
    if not p.scheduler.initial_dump_done then pure tt else (do
      if (state_of p.scheduler.config (profiler_of p)).violated && not p.scheduler.config.dry_run
          then trigger_pre_dump
          else pure tt
      check_feasibility)

  -- The beginning of Start
  unfoldable pub start_scheduler : Act Pair Unit
  unfolding perform_initial_pre_dump
  start_scheduler = do
    p ← self
    if p.scheduler.config.dry_run
        then change (λ s. record s { initial_dump_done = true })
        else perform_initial_pre_dump
