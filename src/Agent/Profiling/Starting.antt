-- ===== src/Agent/Profiling/Starting.antt =====
-- StartProfiling and the ticks of the profiler, and what is open in the target.
use criu_migration_operator.Base.{ℕ, true, Option, none, some, ◌≡◌, refl, ap, ◌∙◌}
use criu_migration_operator.Cluster.{Result, ok, err, is_ok}
use criu_migration_operator.Host.{Host, World, Act, zoom, pure}
use criu_migration_operator.Host.Trace.{open_uffds, IsClean}
use criu_migration_operator.Profiler.Lifecycle.{Profiler, Config, new_profiler, collect_sample}
use criu_migration_operator.Profiler.Lifecycle.Counting.{attached, collect_sample-IsBalanced}
use criu_migration_operator.Profiler.Lifecycle.Opening.{start-IsBalanced}
use criu_migration_operator.Agent.State.{Agent, on_profiler, ensure_main_pid}
use criu_migration_operator.Agent.Dumping.Sane.{
  IsSane, IsFree, Leaves-IsFree, held, ensure_main_pid-Leaves,
}
use criu_migration_operator.Agent.Profiling.{
  StartProfilingRequest, config_of, started, start_new, with_scheduler, start_on, start_unless,
  start_profiling,
}

module _ (host : Host) where
  -- One tick of the loop of the profiler that the agent holds.
  unfoldable pub tick_of : Option Profiler → Act Agent (Unit {0})
  tick_of none = pure tt
  tick_of (some p) = on_profiler p (collect_sample host)

  pub tick_of-IsSane :
      (held_one : Option Profiler) (w : World Agent)
      → w.self.profiler ≡ held_one
      → IsSane w
      → IsSane (tick_of held_one w).1
  unfolding tick_of zoom
  tick_of-IsSane none w e s = s
  tick_of-IsSane (some p) w e s =
      let b =
        collect_sample-IsBalanced host
          {w = record { self = p; now = w.now; step = w.step; trace = w.trace }}
          (record { balance = s.balance ∙ ap held e; clean = s.clean }) in
      record { balance = b.balance; clean = b.clean }

  started-IsSane :
      (p : Profiler) (answer : Result Unit) (w : World Agent)
      → open_uffds w.trace ≡ attached p.target_fd
      → IsClean w.trace
      → is_ok (started host (p, answer) w).0 ≡ true
      → IsSane (started host (p, answer) w).1
  unfolding started
  started-IsSane p (err e) w b c h = cc h
  started-IsSane p (ok u) w b c h = record { balance = b; clean = c }

  start_new-IsSane :
      (pid : ℕ) (config : Config) (w : World Agent)
      → IsFree w
      → is_ok (start_new host pid config w).0 ≡ true
      → IsSane (start_new host pid config w).1
  unfolding start_new new_profiler
  start_new-IsSane pid config w f h =
      let new : World Profiler = record {
        self = new_profiler pid config;
        now = w.now;
        step = w.step;
        trace = w.trace;
      } in
      let b =
        start-IsBalanced host {w = new}
          (record { target = refl; none_open = f.none_open; clean = f.clean }) in
      started-IsSane _ _ _ b.balance b.clean h

  with_scheduler-IsSane :
      (answer : Result ℕ) (w : World Agent)
      → (is_ok answer ≡ true → IsSane w)
      → is_ok (with_scheduler host answer w).0 ≡ true
      → IsSane (with_scheduler host answer w).1
  unfolding with_scheduler
  with_scheduler-IsSane (err e) w s h = cc h
  with_scheduler-IsSane (ok vmas) w s h =
      let t = s refl in record { balance = t.balance; clean = t.clean }

  start_on-IsSane :
      (request : StartProfilingRequest) (found : Result ℕ) (w : World Agent)
      → IsFree w
      → is_ok (start_on host request found w).0 ≡ true
      → IsSane (start_on host request found w).1
  unfolding start_on
  start_on-IsSane request (err e) w f h = cc h
  start_on-IsSane request (ok pid) w f h =
      let (answer, u) = start_new host pid (config_of request) w in
      with_scheduler-IsSane answer u (start_new-IsSane pid (config_of request) w f) h

  start_unless-IsSane :
      (held_one : Option Profiler) (request : StartProfilingRequest) (w : World Agent)
      → w.self.profiler ≡ held_one
      → IsSane w
      → is_ok (start_unless host held_one request w).0 ≡ true
      → IsSane (start_unless host held_one request w).1
  unfolding start_unless
  start_unless-IsSane (some p) request w e s h = cc h
  start_unless-IsSane none request w e s h =
      let free : IsFree w = record {
        none_open = s.balance ∙ ap held e;
        unheld = ap held e;
        clean = s.clean;
      } in
      let (found, u) = ensure_main_pid host w in
      start_on-IsSane request found u (Leaves-IsFree (ensure_main_pid-Leaves host w) free) h

  pub start_profiling-IsSane :
      (request : StartProfilingRequest) (w : World Agent)
      → IsSane w
      → is_ok (start_profiling host request w).0 ≡ true
      → IsSane (start_profiling host request w).1
  unfolding start_profiling
  start_profiling-IsSane request w s h = start_unless-IsSane w.self.profiler request w refl s h
