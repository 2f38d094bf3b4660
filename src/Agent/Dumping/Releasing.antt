-- ===== src/Agent/Dumping/Releasing.antt =====
-- CRIU never meets the profiler's userfaultfd in FinalDump, which gives the profiler up.
use criu_migration_operator.Base.{
  ℕ, zero, suc, ◌+◌, ◌*◌, String, false, List, Option, none, some, ◌≡◌, refl, ap, ◌∙◌, arith,
}
use criu_migration_operator.Base.Duration.{millisecond, second}
use criu_migration_operator.Base.Splitting.{path_join}
use criu_migration_operator.Cluster.{Result, ok, err}
use criu_migration_operator.Host.{
  Host, Act, World, zoom, modify, ask, pure, sleep, poll, after_test, ◌>>=◌, ◌>>◌,
}
use criu_migration_operator.Host.Safe.{SafeStep-refl, IsSafe}
use criu_migration_operator.Profiler.Lifecycle.{Profiler, VmaHotDetail, cleanup_before_criu, close}
use criu_migration_operator.Profiler.Lifecycle.Counting.{CanClose, cleanup-IsDetached}
use criu_migration_operator.Agent.Manager.{s3_prefix_of}
use criu_migration_operator.Agent.Manager.Quiet.{upload_agent_metadata-IsSafe}
use criu_migration_operator.Agent.FinalDump.{Final, final_dump}
use criu_migration_operator.Agent.FinalDump.Quiet.{final_dump-IsSafe}
use criu_migration_operator.Agent.State.{Agent, on_manager, on_profiler, ensure_main_pid}
use criu_migration_operator.Agent.Dumping.{
  Saved, hot_iovs, after_iovs, save_saved, after_final, kill_page_server, final_dump_process,
  final_dump_rpc, strategy_or_default, blocked, read_tracer, wait_untraced, release_of,
}
use criu_migration_operator.Agent.Dumping.Sane.{
  held, IsSane, IsFree, IsFree-IsSane, Safe-IsFree, Leaves, Leaves-IsSane, Leaves-IsFree, IsSane-if,
  ensure_main_pid-Leaves,
}

module _ (host : Host) (vma_json : List VmaHotDetail → String) where
  read_tracer-Leaves : (pid : ℕ) (w : World Agent) → Leaves w (read_tracer host vma_json pid w).1
  unfolding read_tracer
  read_tracer-Leaves pid w = record { trace = refl; profiler = refl }

  after_test-Leaves :
      (pause : ℕ) (again : Act Agent (Option (Unit {0}))) (found : Option (Unit {0}))
      (w : World Agent)
      → Leaves w (again (sleep pause w).1).1
      → Leaves w (after_test pause again found w).1
  unfolding after_test
  after_test-Leaves pause again none w l = l
  after_test-Leaves pause again (some u) w l = record { trace = refl; profiler = refl }

  poll-Leaves :
      (rounds deadline pause pid : ℕ) (w : World Agent)
      → Leaves w (poll rounds deadline pause (read_tracer host vma_json pid) w).1
  unfolding poll
  poll-Leaves zero deadline pause pid w = record { trace = refl; profiler = refl }
  poll-Leaves (suc rounds) deadline pause pid w =
      let (found, u) = read_tracer host vma_json pid w in
      let l = read_tracer-Leaves pid w in
      let again = poll-Leaves rounds deadline pause pid (sleep pause u).1 in
      let t =
        after_test-Leaves pause (poll rounds deadline pause (read_tracer host vma_json pid)) found u
          (record { trace = again.trace; profiler = again.profiler }) in
      ground (arith, l.trace, l.profiler, t.trace, t.profiler)

  pub wait_untraced-Leaves :
      (pid : ℕ) (w : World Agent) → Leaves w (wait_untraced host vma_json pid w).1
  unfolding wait_untraced
  wait_untraced-Leaves pid w =
      ground (arith, poll-Leaves 101 (w.now + 2 * second) (20 * millisecond) pid w)

  release_of-IsFree :
      (held_one : Option Profiler) (w : World Agent)
      → CanClose host
      → w.self.profiler ≡ held_one
      → IsSane w
      → IsFree (release_of host vma_json held_one w).1
  unfolding release_of zoom close
  release_of-IsFree none w can e s = record {
    none_open = s.balance ∙ ap held e;
    unheld = ap held e;
    clean = s.clean;
  }
  release_of-IsFree (some p) w can e s =
      let d =
        cleanup-IsDetached host
          {w = record { self = p; now = w.now; step = w.step; trace = w.trace }} can
          (record { balance = s.balance ∙ ap held e; clean = s.clean }) in
      let u = (on_profiler p (cleanup_before_criu host >> close) w).1 in
      let v = (modify (λ (a : Agent). record a { profiler = none }) u).1 in
      Leaves-IsFree {w = v} (wait_untraced-Leaves v.self.main_pid v)
        (record { none_open = d.none_open; unheld = refl; clean = d.clean })

  kill_page_server-IsSane :
      (process : Option ℕ) (w : World Agent)
      → IsSane w
      → IsSane (kill_page_server host vma_json process w).1
  unfolding kill_page_server
  kill_page_server-IsSane none w s = s
  kill_page_server-IsSane (some pid) w s = record { balance = s.balance; clean = s.clean }

  kill_page_server-profiler :
      (process : Option ℕ) (w : World Agent)
      → (kill_page_server host vma_json process w).1.self.profiler ≡ w.self.profiler
  unfolding kill_page_server
  kill_page_server-profiler none w = refl
  kill_page_server-profiler (some pid) w = refl

  after_iovs-IsSafe :
      (dir dump_id : String) (r : Result Unit) → IsSafe (after_iovs host vma_json dir dump_id r)
  unfolding after_iovs
  after_iovs-IsSafe dir dump_id (err e) w = SafeStep-refl w.trace
  after_iovs-IsSafe dir dump_id (ok u) w =
      upload_agent_metadata-IsSafe host dir (s3_prefix_of w.self dump_id) w

  save_saved-IsSafe :
      (dir dump_id : String) (saved : Saved) → IsSafe (save_saved host vma_json dir dump_id saved)
  unfolding save_saved
  save_saved-IsSafe dir dump_id saved w =
      let vmas = path_join dir "hot_vma_metadata.json" in
      let file = path_join dir "hot-iovs.json" in
      let (written, u) = ask host (λ n. host.write_file n vmas (vma_json saved.details)) w in
      let (iovs, v) =
        ask host (λ n. host.write_file n file (host.marshal_iovs (hot_iovs saved.hot))) u in
      ground (arith, after_iovs-IsSafe dir dump_id iovs v, SafeStep-refl w.trace)

  after_final-IsFree :
      (saved : Saved) (final : Final) (w : World Agent)
      → IsFree w
      → IsFree (after_final host vma_json saved final w).1
  unfolding after_final zoom
  after_final-IsFree saved (err e) w f = f
  after_final-IsFree saved (ok (r, process)) w f =
      let dir = path_join w.self.manager.work_dir r.dump_id in
      let v = (on_manager (save_saved host vma_json dir r.dump_id saved) w).1 in
      let g =
        Safe-IsFree {w = w} {u = v}
          (save_saved-IsSafe dir r.dump_id saved
            (record { self = w.self.manager; now = w.now; step = w.step; trace = w.trace }))
          refl f in
      record { none_open = g.none_open; unheld = g.unheld; clean = g.clean }

  final_dump_process-IsSane :
      (port : ℕ) (parent_id strategy : String) (r : Result ℕ) (w : World Agent)
      → CanClose host
      → IsSane w
      → IsSane (final_dump_process host vma_json port parent_id strategy r w).1
  unfolding final_dump_process zoom
  final_dump_process-IsSane port parent_id strategy (err e) w can s = s
  final_dump_process-IsSane port parent_id strategy (ok pid) w can s =
      let k = kill_page_server-IsSane w.self.page_server w s in
      let u = (kill_page_server host vma_json w.self.page_server w).1 in
      let x = (modify (λ (a : Agent). record a { has_scheduler = false }) u).1 in
      let released = release_of host vma_json w.self.profiler x in
      let f =
        release_of-IsFree w.self.profiler x can (kill_page_server-profiler w.self.page_server w)
          (record { balance = k.balance; clean = k.clean }) in
      let v = released.1 in
      let exclude = released.0.0 in
      let chosen = strategy_or_default strategy in
      let dumped = on_manager (final_dump host pid port parent_id chosen exclude) v in
      let g =
        Safe-IsFree {w = v} {u = dumped.1}
          (final_dump-IsSafe host pid port parent_id chosen exclude
            (record { self = v.self.manager; now = v.now; step = v.step; trace = v.trace }))
          refl f in
      IsFree-IsSane (after_final-IsFree released.0.1 dumped.0 dumped.1 g)

  -- Where closeTargetUffd succeeds whenever it is asked, FinalDump never runs CRIU while a userfaultfd of
  -- the profiler is open in the target, on whatever other answers, from a state where the agent's profiler
  -- knows of the open one, and afterwards the agent's profiler knows of the only one that may be open.
  pub final_dump_rpc-IsSane :
      (port : ℕ) (parent_id strategy : String) (w : World Agent)
      → CanClose host
      → IsSane w
      → IsSane (final_dump_rpc host vma_json port parent_id strategy w).1
  unfolding final_dump_rpc
  final_dump_rpc-IsSane port parent_id strategy w can s =
      let (found, u) = ensure_main_pid host w in
      IsSane-if w.self.lazy_pages_active (pure (err (blocked "final dump")))
        (ensure_main_pid host >>= final_dump_process host vma_json port parent_id strategy) w s
        (final_dump_process-IsSane port parent_id strategy found u can
          (Leaves-IsSane (ensure_main_pid-Leaves host w) s))
