-- ===== src/Profiler/Lifecycle/Data.antt =====
-- pkg/profiler/profiler.go: the state of the profiler, and the parts of its operations that make no call.
use criu_migration_operator.Base.{
  ℕ, suc, ◌+◌, ◌-◌, ◌*◌, ◌/◌, ◌%◌, ◌^◌, String, Bool, false, List, [], ◌∷◌, Option, none, some, ltb,
  ◌==◌, any, map, if◌then◌else◌,
}
use criu_migration_operator.Base.Duration.{millisecond, second}
use criu_migration_operator.Host.{UffdSetup, Act, modify}
use criu_migration_operator.Profiler.Areas.{
  AddrRange, VmaType, heap, stack, anonymous, code_area, data_area, vdso, unknown, page_size,
}
use criu_migration_operator.Profiler.Heat.{
  Classifier, ChunkKey, ChunkHeat, HotRegion, new_heat_classifier, last_ratio, update, hot_vmas,
}
use criu_migration_operator.Profiler.Scan.{Scanned}

pub record Config : Type 0 where
  pub interval_ms : ℕ
  pub hot_threshold : ℕ × ℕ  -- a fraction
  pub hot_consecutive : ℕ

-- DefaultConfig
abbrev pub default_config : Config
default_config = record { interval_ms = 5000; hot_threshold = (3, 10); hot_consecutive = 3 }

-- A rate is a number of bytes, and of the time that they took.
pub record DirtyVolume : Type 0 where
  pub dirty_pages : ℕ
  pub dirty_bytes : ℕ
  pub dirty_rate_per_sec : ℕ × ℕ  -- bytes per milliseconds
  pub cumulative_dirty_bytes : ℕ
  pub avg_dirty_rate : ℕ × ℕ  -- bytes per nanoseconds
  pub timestamp_ms : ℕ

abbrev pub no_volume : DirtyVolume
no_volume = record {
  dirty_pages = 0;
  dirty_bytes = 0;
  dirty_rate_per_sec = (0, 1);
  cumulative_dirty_bytes = 0;
  avg_dirty_rate = (0, 1);
  timestamp_ms = 0;
}

-- stopCh and doneCh: no loop was started, one runs, or it was stopped.
pub data LoopState : Type 0 where
  no_loop running stopped : LoopState

pub record Profiler : Type 0 where
  pub pid : ℕ
  pub config : Config
  pub tracker_fd : Option ℕ
  pub target_fd : Option ℕ
  pub pagemap_open : Bool
  pub registered : List AddrRange
  pub heat : Classifier
  pub hot_regions : List HotRegion
  pub dirty_volume : DirtyVolume
  pub total_vmas : ℕ
  pub hot_vma_count : ℕ
  pub sample_count : ℕ
  pub cumulative_dirty_bytes : ℕ
  pub start_time : ℕ
  pub loop : LoopState

abbrev pub or_default : ℕ → ℕ → ℕ
or_default n d = if n == 0 then d else n

unfoldable pub checked : Config → Config
checked c = record {
  interval_ms = or_default c.interval_ms 1000;
  hot_threshold = if c.hot_threshold.0 == 0 then (3, 10) else c.hot_threshold;
  hot_consecutive = or_default c.hot_consecutive 3;
}

-- New
unfoldable pub new_profiler : ℕ → Config → Profiler
unfolding checked
new_profiler pid config =
    let c = checked config in
    record {
      pid = pid;
      config = c;
      tracker_fd = none;
      target_fd = none;
      pagemap_open = false;
      registered = [];
      heat = new_heat_classifier c.hot_threshold.0 c.hot_threshold.1 c.hot_consecutive;
      hot_regions = [];
      dirty_volume = no_volume;
      total_vmas = 0;
      hot_vma_count = 0;
      sample_count = 0;
      cumulative_dirty_bytes = 0;
      start_time = 0;
      loop = no_loop;
    }

-- VMAType.String
unfoldable pub type_name : VmaType → String
type_name heap = "heap"
type_name stack = "stack"
type_name anonymous = "anonymous"
type_name code_area = "code"
type_name data_area = "data"
type_name vdso = "vdso"
type_name unknown = "unknown"

pub record VmaHotDetail : Type 0 where
  pub start : ℕ
  pub end : ℕ
  pub kind : String
  pub pathname : String
  pub is_hot : Bool
  pub dirty_pages : ℕ
  pub total_pages : ℕ
  pub dirty_ratio : ℕ × ℕ
  pub consecutive_hot : ℕ

unfoldable pub detail_of : ChunkKey × ChunkHeat → VmaHotDetail
unfolding type_name last_ratio
detail_of (key, s) = record {
  start = s.chunk_start;
  end = s.chunk_end;
  kind = type_name s.vma_type;
  pathname = s.pathname;
  is_hot = s.is_hot;
  dirty_pages = s.last_dirty;
  total_pages = s.last_total;
  dirty_ratio = if s.count == 0 then (0, 1) else last_ratio s;
  consecutive_hot = s.consecutive_hot;
}

-- getAllVMAs
unfoldable pub get_all_vmas : Classifier → List VmaHotDetail
unfolding detail_of
get_all_vmas h = map detail_of h.states

abbrev pub starts_at : ℕ → ChunkKey × ChunkHeat → Bool
starts_at start e = e.1.vma_start == start

-- totalVMAs: an area counts at the last of its chunks.
unfoldable pub count_vmas : List (ChunkKey × ChunkHeat) → ℕ
count_vmas [] = 0
count_vmas (e ∷ rest) =
    if any (starts_at e.1.vma_start) rest then count_vmas rest else suc (count_vmas rest)

unfoldable pub total_vmas_of : Classifier → ℕ
unfolding count_vmas
total_vmas_of h = count_vmas h.states

-- Stop. A loop that runs is stopped; one that was stopped, or never started, stays as it is.
unfoldable pub stop_loop : LoopState → LoopState
stop_loop running = stopped
stop_loop stopped = stopped
stop_loop no_loop = no_loop

unfoldable pub stopped_profiler : Profiler → Profiler
unfolding stop_loop
stopped_profiler p = record p { loop = stop_loop p.loop }

-- Close
unfoldable pub close : Act Profiler Unit
unfolding stopped_profiler
close = modify (λ p. record (stopped_profiler p) { pagemap_open = false; tracker_fd = none })

abbrev pub with_setup : UffdSetup → Profiler → Profiler
with_setup s p = record p {
  tracker_fd = some s.tracker_fd;
  target_fd = some s.target_fd;
  registered = s.registered;
}

-- What a sample adds to the counters.
unfoldable pub sampled : Scanned → (now : ℕ) → Profiler → Profiler
unfolding total_vmas_of
sampled (results, total_dirty) now p =
    let (heat, hot) = update p.heat results in
    let dirty_bytes = total_dirty * page_size in
    let cumulative = (p.cumulative_dirty_bytes + dirty_bytes) % 2 ^ 64 in
    record p {
      heat = heat;
      hot_regions = hot;
      dirty_volume = record {
        dirty_pages = total_dirty;
        dirty_bytes = dirty_bytes;
        dirty_rate_per_sec = (dirty_bytes * 1000, p.config.interval_ms);
        cumulative_dirty_bytes = cumulative;
        avg_dirty_rate =
            if ltb p.start_time now then (cumulative * second, now - p.start_time) else (0, 1);
        timestamp_ms = now / millisecond;
      };
      total_vmas = total_vmas_of heat;
      hot_vma_count = hot_vmas heat;
      sample_count = suc p.sample_count;
      cumulative_dirty_bytes = cumulative;
    }
