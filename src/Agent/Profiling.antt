-- ===== src/Agent/Profiling.antt =====
-- pkg/agent/server.go: the RPCs of the profiler, and its start beside the application. The scheduler that
-- AUTO_ADJUST asks for runs on its own: pkg/agent/deadline_scheduler.go, Agent/Deadline.antt.
pub mod Starting
use criu_migration_operator.Base.{
  ℕ, ◌*◌, ◌/◌, String, Bool, true, List, [], Option, none, some, ltb, ◌==◌, str_eq, if◌then◌else◌,
}
use criu_migration_operator.Base.Int.{ℤ}
use criu_migration_operator.Base.Duration.{millisecond, second}
use criu_migration_operator.Base.Splitting.{atoi}
use criu_migration_operator.Cluster.{Result, ok, err, other}
use criu_migration_operator.Reconciler.Checkpoint.{prefixed}
use criu_migration_operator.Host.{Host, Act, pure, self, modify, clock, sleep, ◌>>=◌, ◌>>◌}
use criu_migration_operator.Profiler.Heat.{HotRegion}
use criu_migration_operator.Profiler.Lifecycle.{
  Profiler, Config, default_config, new_profiler, DirtyVolume, no_volume, VmaHotDetail,
  get_all_vmas, start, close,
}
use criu_migration_operator.Agent.State.{Agent, on_profiler, ensure_main_pid}

-- A field that is not positive keeps the default.
pub record StartProfilingRequest : Type 0 where
  pub interval_ms : ℕ
  pub hot_threshold : ℕ × ℕ
  pub hot_consecutive : ℕ

unfoldable pub config_of : StartProfilingRequest → Config
config_of r = record {
  interval_ms = if ltb 0 r.interval_ms then r.interval_ms else default_config.interval_ms;
  hot_threshold = if ltb 0 r.hot_threshold.0 then r.hot_threshold else default_config.hot_threshold;
  hot_consecutive =
      if ltb 0 r.hot_consecutive then r.hot_consecutive else default_config.hot_consecutive;
}

pub record HotRegions : Type 0 where
  pub regions : List HotRegion
  pub timestamp_ms : ℕ
  pub total_vmas : ℕ
  pub hot_vmas : ℕ
  pub vma_details : List VmaHotDetail

abbrev pub no_regions : HotRegions
no_regions = record {
  regions = [];
  timestamp_ms = 0;
  total_vmas = 0;
  hot_vmas = 0;
  vma_details = [];
}

abbrev or_number : ℤ → Option ℤ → ℤ
or_number default none = default
or_number default (some n) = n

-- envIntOrDefault
unfoldable pub env_int_or_default : (String → String) → String → ℤ → ℤ
env_int_or_default getenv key default =
    if str_eq (getenv key) "" then default else or_number default (atoi (getenv key))

abbrev pub volume_of : Option Profiler → DirtyVolume
volume_of none = no_volume
volume_of (some p) = p.dirty_volume

module _ (host : Host) where
  abbrev pub auto_adjust : Bool
  auto_adjust = str_eq (host.getenv "AUTO_ADJUST") "true"

  -- Only a profiler that started is kept.
  started : Profiler × Result Unit → Act Agent (Result ℕ)
  started (p, err e) = pure (err (prefixed "failed to start profiler: " e))
  started (p, ok u) = do
    modify (λ (a : Agent). record a { profiler = some p })
    pure (ok p.total_vmas)

  -- Start of a new profiler, which no one else sees before it runs.
  unfoldable pub start_new : (pid : ℕ) → Config → Act Agent (Result ℕ)
  unfolding started
  start_new pid config w =
      let (answer, u) =
        start host (record {
          self = new_profiler pid config;
          now = w.now;
          step = w.step;
          trace = w.trace;
        }) in
      started (u.self, answer)
        (record { self = w.self; now = u.now; step = u.step; trace = u.trace })

  with_scheduler : Result ℕ → Act Agent (Result ℕ)
  with_scheduler (err e) = pure (err e)
  with_scheduler (ok vmas) = do
    modify
        (λ (a : Agent). record a { has_scheduler = if auto_adjust then true else a.has_scheduler })
    pure (ok vmas)

  start_on : StartProfilingRequest → Result ℕ → Act Agent (Result ℕ)
  unfolding start_new config_of with_scheduler
  start_on request (err e) = pure (err (prefixed "failed to find main process: " e))
  start_on request (ok pid) = do answer ← start_new pid (config_of request); with_scheduler answer

  start_unless : Option Profiler → StartProfilingRequest → Act Agent (Result ℕ)
  unfolding start_on
  start_unless (some p) request =
      pure (err (record { code = other; text = "profiler already running" }))
  start_unless none request = do found ← ensure_main_pid host; start_on request found

  -- The RPC StartProfiling, with the number of areas
  unfoldable pub start_profiling : StartProfilingRequest → Act Agent (Result ℕ)
  unfolding start_unless
  start_profiling request = do a ← self; start_unless a.profiler request

  auto_start : Option Profiler → (pid : ℕ) → Act Agent (Result ℕ)
  unfolding start_new
  auto_start (some p) pid = pure (ok p.total_vmas)
  auto_start none pid = start_new pid default_config

  -- autoStartProfiler, which only logs an error
  unfoldable pub auto_start_profiler : Act Agent Unit
  unfolding auto_start
  auto_start_profiler = do
    sleep (3 * second)
    a ← self
    if a.main_pid == 0
        then pure tt
        else if auto_adjust
        then modify (λ (b : Agent). record b { has_scheduler = true })
        else (do answer ← auto_start a.profiler a.main_pid; pure tt)

  stop_held : Option Profiler → Act Agent Unit
  stop_held none = pure tt
  stop_held (some p) = do
    on_profiler p close
    modify (λ (a : Agent). record a { profiler = none; prev_exclude = [] })

  -- The RPC StopProfiling
  unfoldable pub stop_profiling : Act Agent Unit
  unfolding stop_held
  stop_profiling = do a ← self; stop_held a.profiler

  regions_of : Option Profiler → (now : ℕ) → HotRegions
  regions_of none now = no_regions
  regions_of (some p) now = record {
    regions = p.hot_regions;
    timestamp_ms = now / millisecond;
    total_vmas = p.total_vmas;
    hot_vmas = p.hot_vma_count;
    vma_details = get_all_vmas p.heat;
  }

  -- The RPC GetHotRegions
  unfoldable pub get_hot_regions : Act Agent HotRegions
  unfolding regions_of
  get_hot_regions = do a ← self; now ← clock; pure (regions_of a.profiler now)

  -- The RPC GetDirtyVolume
  unfoldable pub get_dirty_volume : Act Agent DirtyVolume
  get_dirty_volume = do a ← self; pure (volume_of a.profiler)
