-- ===== src/Agent/Dumping/Leaking.antt =====
-- StopProfiling closes the agent's descriptors only: the userfaultfd stays open in the target.
use criu_migration_operator.Base.{
  ℕ, ◌==◌, String, false, List, none, some, ◌≡◌, ◌<◌, ap, ◌∙◌, arith,
}
use criu_migration_operator.Cluster.{ok}
use criu_migration_operator.Host.{Host, World, zoom}
use criu_migration_operator.Host.Trace.{open_uffds, IsClean}
use criu_migration_operator.Profiler.Lifecycle.{Profiler, VmaHotDetail, close}
use criu_migration_operator.Agent.PreDump.Dirty.{CanMake, pre_checkpoint-dirty}
use criu_migration_operator.Agent.State.{Agent, ensure_main_pid}
use criu_migration_operator.Agent.Dumping.{pre_checkpoint_process, pre_checkpoint_rpc}
use criu_migration_operator.Profiler.Lifecycle.Counting.{attached}
use criu_migration_operator.Agent.Dumping.Sane.{IsSane}
use criu_migration_operator.Agent.Profiling.{stop_profiling}

-- The world with a profiler of a known process, and no lazy pages.
abbrev pub profiled : Profiler → (pid : ℕ) → World Agent → World Agent
profiled p pid w = record w {
  self = record w.self { profiler = some p; main_pid = pid; lazy_pages_active = false };
}

module _ (host : Host) (vma_json : List VmaHotDetail → String) where
  process-dirty :
      (parent_id : String) (pid : ℕ) (w : World Agent)
      → CanMake host
      → open_uffds w.trace ≡ 1
      → ¬ IsClean
          (pre_checkpoint_process host vma_json parent_id
            (ok pid)
            (record w { self = record w.self { profiler = none } })).1.trace
  unfolding pre_checkpoint_process zoom
  process-dirty parent_id pid w can h c =
      pre_checkpoint-dirty host pid parent_id none
        (record { self = w.self.manager; now = w.now; step = w.step; trace = w.trace }) can h c

  -- After StopProfiling of a profiler that has its userfaultfd in the target, the next PreCheckpoint runs
  -- CRIU into that descriptor, which CRIU cannot dump, on whatever other answers, where the directory of
  -- the dump can be made.
  pub stop_profiling-pre_checkpoint_dirty :
      (parent_id : String) (p : Profiler) (fd pid : ℕ) (w : World Agent)
      → CanMake host
      → p.target_fd ≡ some fd
      → 0 < pid
      → IsSane (profiled p pid w)
      → ¬ IsClean
          (pre_checkpoint_rpc host vma_json parent_id
            (stop_profiling host (profiled p pid w)).1).1.trace
  unfolding pre_checkpoint_rpc stop_profiling ensure_main_pid zoom close
  stop_profiling-pre_checkpoint_dirty parent_id p fd pid w can e positive s c =
      let known : (pid == 0) ≡ false = ground arith in
      process-dirty parent_id pid (stop_profiling host (profiled p pid w)).1 can
        (s.balance ∙ ap attached e) (rw known at c)
