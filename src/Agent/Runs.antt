-- ===== src/Agent/Runs.antt =====
-- The agent's server over a run: the requests that it serves, one after the other, with the profiler's
-- ticks between them.
use criu_migration_operator.Base.{ℕ, String, List, ◌≡◌, true}
use criu_migration_operator.Cluster.{is_ok}
use criu_migration_operator.Host.{Host, World}
use criu_migration_operator.Profiler.Lifecycle.{VmaHotDetail}
use criu_migration_operator.Profiler.Lifecycle.Counting.{CanClose}
use criu_migration_operator.Agent.State.{Agent}
use criu_migration_operator.Agent.Dumping.{pre_checkpoint_rpc, final_dump_rpc}
use criu_migration_operator.Agent.Profiling.{StartProfilingRequest, start_profiling}
use criu_migration_operator.Agent.Profiling.Starting.{tick_of}
use criu_migration_operator.Agent.Status.{get_status}

module _ (host : Host) (vma_json : List VmaHotDetail → String) (can : CanClose host) where
  -- One request, or one tick. A StartProfiling is one that succeeds.
  pub data Serves (w : World Agent) : World Agent → Type 0 where
    pre_checkpoint :
        (parent_id : String) → Serves w (pre_checkpoint_rpc host vma_json parent_id w).1
    final_dump :
        (port : ℕ) (parent_id strategy : String)
        → Serves w (final_dump_rpc host vma_json port parent_id strategy w).1
    status : Serves w (get_status host w).1
    tick : Serves w (tick_of host w.self.profiler w).1
    start_profiler :
        (request : StartProfilingRequest)
        → is_ok (start_profiling host request w).0 ≡ true
        → Serves w (start_profiling host request w).1

  pub data Reaches (w : World Agent) : World Agent → Type 0 where
    here : Reaches w w
    next : {u v : World Agent} → Reaches w u → Serves u v → Reaches w v
