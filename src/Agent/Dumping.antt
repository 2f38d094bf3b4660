-- ===== src/Agent/Dumping.antt =====
-- pkg/agent/server.go: the RPCs PreCheckpoint and FinalDump.
mod Ranges
pub mod Sane
pub mod Clean
pub mod Releasing
pub mod Leaking
use criu_migration_operator.Base.{
  ℕ, zero, suc, ◌+◌, ◌*◌, String, Bool, true, false, not, ◌&&◌, ◌||◌, List, [], ◌∷◌, ◌++◌, Option,
  none, some, ltb, ◌==◌, str_eq, any, keep, map, length, ◌<>◌, itoa, if◌then◌else◌,
}
use criu_migration_operator.Base.Int.{ℤ, pos, negsuc}
use criu_migration_operator.Base.Duration.{millisecond, second}
use criu_migration_operator.Base.Splitting.{split_on, has_prefix, fields_of, atoi, hex, path_join}
use criu_migration_operator.Cluster.{Error, Result, ok, err, other}
use criu_migration_operator.Reconciler.Checkpoint.{prefixed}
use criu_migration_operator.Host.{
  Host, Act, ask, pure, self, modify, clock, note, poll, killed, ◌>>=◌, ◌>>◌,
}
use criu_migration_operator.Profiler.Areas.{AddrRange}
use criu_migration_operator.Profiler.Heat.{HotRegion}
use criu_migration_operator.Profiler.Lifecycle.{
  Profiler, VmaHotDetail, get_all_vmas, cleanup_before_criu, reinit_after_criu, close,
}
use criu_migration_operator.Agent.Manager.{
  Manager, ExcludeArgs, CheckpointResult, s3_prefix_of, upload_agent_metadata,
}
use criu_migration_operator.Agent.PreDump.{pre_checkpoint}
use criu_migration_operator.Agent.FinalDump.{Final, final_dump}
use criu_migration_operator.Agent.State.{Agent, on_manager, on_profiler, ensure_main_pid}
unfoldable pub use Ranges.*

-- `vma_json` is json.MarshalIndent of the details.
module _ (host : Host) (vma_json : List VmaHotDetail → String) where
  exclude_of : Option Profiler → Act Agent (Option ExcludeArgs)
  unfolding pre_dump_ranges
  exclude_of none = pure none
  exclude_of (some p) = do
    on_profiler p (cleanup_before_criu host)
    a ← self
    modify (λ (b : Agent). record b { prev_exclude = range_set p.hot_regions [] })
    pure (some (pre_dump_ranges a.prev_exclude p.hot_regions))

  reinit_of : Option Profiler → Act Agent Unit
  reinit_of none = pure tt
  reinit_of (some p) = do answer ← on_profiler p (reinit_after_criu host); pure tt

  after_pre_checkpoint : Result CheckpointResult → Result CheckpointResult
  after_pre_checkpoint (err e) = err (prefixed "pre-checkpoint failed: " e)
  after_pre_checkpoint (ok r) = ok r

  pre_checkpoint_process : (parent_id : String) → Result ℕ → Act Agent (Result CheckpointResult)
  unfolding exclude_of reinit_of after_pre_checkpoint
  pre_checkpoint_process parent_id (err e) = pure (err (prefixed "failed to find main process: " e))
  pre_checkpoint_process parent_id (ok pid) = do
    a ← self
    exclude ← exclude_of a.profiler
    answer ← on_manager (pre_checkpoint host pid parent_id exclude)
    b ← self
    reinit_of b.profiler
    pure (after_pre_checkpoint answer)

  -- The RPC PreCheckpoint
  unfoldable pub pre_checkpoint_rpc : (parent_id : String) → Act Agent (Result CheckpointResult)
  unfolding pre_checkpoint_process
  pre_checkpoint_rpc parent_id = do
    a ← self
    if a.lazy_pages_active
        then pure (err (blocked "pre-checkpoint"))
        else do found ← ensure_main_pid host; pre_checkpoint_process parent_id found

  kill_page_server : Option ℕ → Act Agent Unit
  kill_page_server none = pure tt
  kill_page_server (some pid) = do
    note (killed pid)
    modify (λ (a : Agent). record a { page_server = none })

  read_tracer : (pid : ℕ) → Act Agent (Option (Unit {0}))
  unfolding tracer_of
  read_tracer pid = do
    text ← ask host (λ n. host.read_file n ("/proc/" <> itoa pid <> "/status"))
    pure (untraced (tracer_of text))

  -- The wait until nothing traces the process, for two seconds at most.
  unfoldable pub wait_untraced : (pid : ℕ) → Act Agent Unit
  unfolding read_tracer
  wait_untraced pid = if pid == 0 then pure tt else (do
    now ← clock
    found ← poll 101 (now + 2 * second) (20 * millisecond) (read_tracer pid)
    pure tt)

  -- The profiler's end before a final dump.
  release_of : Option Profiler → Act Agent (Option ExcludeArgs × Saved)
  unfolding hot_ranges
  release_of none = pure (none, no_saved)
  release_of (some p) = do
    on_profiler p (cleanup_before_criu host >> close)
    modify (λ (a : Agent). record a { profiler = none })
    a ← self
    wait_untraced a.main_pid
    pure (
      some (record { exclude_ranges = hot_ranges p.hot_regions; no_parent_ranges = [] }),
      record { hot = p.hot_regions; details = get_all_vmas p.heat },
    )

  after_iovs : (dir dump_id : String) → Result Unit → Act Manager Unit
  after_iovs dir dump_id (err e) = pure tt
  after_iovs dir dump_id (ok u) = do
    m ← self
    upload_agent_metadata host dir (s3_prefix_of m dump_id)

  save_saved : (dir dump_id : String) → Saved → Act Manager Unit
  unfolding after_iovs hot_iovs
  save_saved dir dump_id saved = if is_empty saved then pure tt else (do
    written ←
        ask host
          (λ n. host.write_file n (path_join dir "hot_vma_metadata.json") (vma_json saved.details))
    iovs ← ask host (λ n.
        host.write_file n (path_join dir "hot-iovs.json") (host.marshal_iovs (hot_iovs saved.hot)))
    after_iovs dir dump_id iovs)

  after_final : Saved → Final → Act Agent (Result CheckpointResult)
  unfolding save_saved
  after_final saved (err e) = pure (err (prefixed "final dump failed: " e))
  after_final saved (ok (r, process)) = do
    a ← self
    on_manager (save_saved (path_join a.manager.work_dir r.dump_id) r.dump_id saved)
    modify (λ (b : Agent). record b { page_server = process; page_server_dump_id = r.dump_id })
    pure (ok r)

  final_dump_process :
      (port : ℕ) → (parent_id strategy : String) → Result ℕ → Act Agent (Result CheckpointResult)
  unfolding after_final release_of kill_page_server
  final_dump_process port parent_id strategy (err e) =
      pure (err (prefixed "failed to find main process: " e))
  final_dump_process port parent_id strategy (ok pid) = do
    a ← self
    kill_page_server a.page_server
    modify (λ (b : Agent). record b { has_scheduler = false })
    (exclude, saved) ← release_of a.profiler
    final ← on_manager (final_dump host pid port parent_id (strategy_or_default strategy) exclude)
    after_final saved final

  -- The RPC FinalDump
  unfoldable pub final_dump_rpc :
      (port : ℕ) → (parent_id strategy : String) → Act Agent (Result CheckpointResult)
  unfolding final_dump_process
  final_dump_rpc port parent_id strategy = do
    a ← self
    if a.lazy_pages_active
        then pure (err (blocked "final dump"))
        else do found ← ensure_main_pid host; final_dump_process port parent_id strategy found
