-- ===== src/Agent/Examples.antt =====
-- The properties of the agent on the objects of Samples.
use criu_migration_operator.Base.{true, false, [], ◌∷◌, none, refl, arith, ◌≡◌, ◌<>◌, ◌*◌, join}
use criu_migration_operator.Base.Int.{pos}
use criu_migration_operator.Base.Duration.{second}
use criu_migration_operator.Host.{World, uffd_opened}
use criu_migration_operator.Host.Trace.{IsClean}
use criu_migration_operator.Profiler.Lifecycle.Counting.{CanClose}
use criu_migration_operator.Profiler.Lifecycle.Resetting.{CanSetUp}
use criu_migration_operator.Agent.Storage.{chain_base, local_name}
use criu_migration_operator.Base.Splitting.{split_on, trim_suffix, trim_prefix}
use criu_migration_operator.Agent.Storage.Chain.{local_name-s3_prefix_of}
use criu_migration_operator.Agent.Manager.{Manager, s3_prefix_of}
use criu_migration_operator.Agent.FinalDump.{uploads_directly, final_dump}
use criu_migration_operator.Agent.FinalDump.Uploading.{IsStored, final_dump-IsStored}
use criu_migration_operator.Agent.Dumping.{pre_checkpoint_rpc, final_dump_rpc}
use criu_migration_operator.Agent.Dumping.Sane.{IsSane}
use criu_migration_operator.Agent.Dumping.Clean.{pre_checkpoint_rpc-IsSane}
use criu_migration_operator.Agent.Dumping.Releasing.{final_dump_rpc-IsSane}
use criu_migration_operator.Agent.Dumping.Leaking.{profiled, stop_profiling-pre_checkpoint_dirty}
use criu_migration_operator.Agent.Profiling.{stop_profiling}
use criu_migration_operator.Agent.PreDump.{pre_checkpoint}
use criu_migration_operator.Agent.PreDump.Chaining.{Chains, pre_checkpoint-Chains}
use criu_migration_operator.Agent.PreDump.Running.{CanDump}
use criu_migration_operator.Agent.Deadline.{
  Pair, scheduler_config, new_scheduler, start_scheduler, trigger_pre_dump,
}
use criu_migration_operator.Agent.Deadline.Keeping.{
  watching, Holds, start_scheduler-dirty, trigger_pre_dump-Holds,
}
use criu_migration_operator.Agent.Samples.{host, vma_json, manager, profiler, agent, profiling}

profiling-IsSane : IsSane profiling
profiling-IsSane = record { balance = refl; clean = tt }

host-CanClose : CanClose host
host-CanClose n pid fd = refl

pre_checkpoint_rpc-IsSane_example : IsSane (pre_checkpoint_rpc host vma_json "" profiling).1
pre_checkpoint_rpc-IsSane_example =
    pre_checkpoint_rpc-IsSane host vma_json host-CanClose "" profiling profiling-IsSane

final_dump_rpc-IsSane_example : IsSane (final_dump_rpc host vma_json 9999 "" "uffd" profiling).1
final_dump_rpc-IsSane_example =
    final_dump_rpc-IsSane host vma_json 9999 "" "uffd" profiling host-CanClose profiling-IsSane

stop_profiling-pre_checkpoint_dirty_example :
    ¬ IsClean
      (pre_checkpoint_rpc host vma_json ""
        (stop_profiling host (profiled profiler 1234 profiling)).1).1.trace
stop_profiling-pre_checkpoint_dirty_example =
    stop_profiling-pre_checkpoint_dirty host vma_json "" profiler 7 1234 profiling (λ n path. refl)
      refl (omega arith) profiling-IsSane

-- Two minutes, five seconds of margin and 50 MB/s, beside the agent.
abbrev pair : World Pair
pair = record {
  self = record {
    agent = agent;
    scheduler =
        new_scheduler (scheduler_config (pos 120) (pos 5000) (pos 50) (pos 5000) (50, 1) false)
          true;
  };
  now = second;
  step = 3;
  trace = uffd_opened 1234 7 ∷ [];
}

start_scheduler-dirty_example :
    ¬ IsClean (start_scheduler host vma_json (watching profiler 1234 pair)).1.trace
start_scheduler-dirty_example =
    start_scheduler-dirty host vma_json profiler 7 1234 pair (λ n path. refl) refl (omega arith)
      refl

host-CanDump : CanDump host
host-CanDump = record { makes = λ n path. refl; runs = λ n args. refl }

host-CanSetUp : CanSetUp host
host-CanSetUp = record {
  parses = λ n pid. refl;
  opens = λ n pid. refl;
  injects = λ n pid vmas. refl;
  protects = λ n vmas. refl;
}

trigger_pre_dump-Holds_example :
    Holds (trigger_pre_dump host vma_json (watching profiler 1234 pair)).1
unfolding scheduler_config new_scheduler
trigger_pre_dump-Holds_example =
    trigger_pre_dump-Holds host vma_json host-CanSetUp host-CanDump profiler 1234 pair (omega arith)
      (omega arith)

final_dump-IsStored_example :
    let (final, u) =
      final_dump host 1234 9999 "" "full" none
        (record { self = manager; now = second; step = 0; trace = [] }) in
    IsStored "/checkpoints" u final
unfolding uploads_directly
final_dump-IsStored_example =
    final_dump-IsStored host "full" 1234 9999 "" none
      (record { self = manager; now = second; step = 0; trace = [] }) (refl, refl)

-- The second checkpoint of a chain is asked for, a file of the first one is fetched.
local_name-s3_prefix_of_example :
    local_name
      (chain_base (s3_prefix_of manager "0a1b2c3d-60"))
      (s3_prefix_of manager "99887766-30" <> "/" <> "core-1234.img")
    ≡ "99887766-30" <> "/" <> "core-1234.img"
local_name-s3_prefix_of_example =
    local_name-s3_prefix_of manager "0a1b2c3d-60" "99887766-30" "core-1234.img"
      (record { filled = refl; no_slash = refl }) (record { filled = refl; no_slash = refl })
      (record { filled = refl; no_slash = refl })

chain_base_test : chain_base "my-app/0/node1/abc-1" ≡ "my-app/0/node1/"
unfolding chain_base join split_on trim_suffix
chain_base_test = refl

local_name_test :
    local_name "my-app/0/node1/" "my-app/0/node1/abc-1/core-1.img" ≡ "abc-1/core-1.img"
unfolding local_name trim_prefix
local_name_test = refl

-- The second pre-dump of a chain.
abbrev chaining : World Manager
chaining = record {
  self = record manager {
    last_checkpoint_id = "99887766-30";
    chain_root = "99887766-30";
    chain_depth = 1;
  };
  now = 30 * second;
  step = 0;
  trace = [];
}

pre_checkpoint-Chains_example :
    let (result, u) = pre_checkpoint host 1234 "99887766-30" none chaining in
    Chains chaining.self u.self result
pre_checkpoint-Chains_example = pre_checkpoint-Chains host 1234 "99887766-30" none chaining
