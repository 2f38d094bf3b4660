-- ===== src/Agent/PreDump.antt =====
-- pkg/agent/checkpoint.go: PreCheckpoint, an incremental dump that leaves the process running, and the
-- baseline of pkg/agent/restore.go.
pub mod Quiet
pub mod Chaining
pub mod Dirty
pub mod Running
use criu_migration_operator.Base.{
  ℕ, suc, String, Bool, true, false, List, [], ◌∷◌, ◌++◌, Option, none, some, str_eq, itoa, ◌<>◌,
  ◌*◌, if◌then◌else◌,
}
use criu_migration_operator.Base.Duration.{second}
use criu_migration_operator.Base.Splitting.{path_join}
use criu_migration_operator.Cluster.{Error, Result, ok, err}
use criu_migration_operator.Reconciler.Checkpoint.{prefixed}
use criu_migration_operator.Host.{
  Host, Act, ask, pure, self, modify, clock, sleep, note, criu_ran, uploaded, ◌>>=◌, ◌>>◌,
}
use criu_migration_operator.Agent.Storage.{upload_args}
use criu_migration_operator.Agent.Manager.{
  Manager, ExcludeArgs, CheckpointResult, size_or_zero, chained, set_chain, reset_chain,
  s3_prefix_of, generate_dump_id, upload_agent_metadata, upload_logs, exclude_args, parent_args,
  compress_args, count_pages_in,
}

pre_dump_args : (pid : ℕ) → (dir : String) → List String
pre_dump_args pid dir =
    "pre-dump"
    ∷ "-t"
    ∷ itoa pid
    ∷ "-D"
    ∷ dir
    ∷ "--root"
    ∷ ("/proc/" <> itoa pid <> "/root")
    ∷ "--track-mem"
    ∷ "--leave-running"
    ∷ "-v4"
    ∷ "--log-file"
    ∷ path_join dir "criu.log"
    ∷ []

module _ (host : Host) where
  unfoldable pub direct_upload : Bool
  direct_upload = str_eq (host.getenv "DIRECT_UPLOAD") "true"

  -- The upload: only the agent's own files where CRIU has uploaded the others, else all of them. The
  -- second one runs in the background, and its error is printed.
  unfoldable pub upload_pre_dump : (dir s3_prefix : String) → Act Manager Unit
  unfolding direct_upload
  upload_pre_dump dir s3_prefix =
      if direct_upload then upload_agent_metadata host dir s3_prefix else (do
        answer ← ask host (λ n. host.upload_checkpoint n dir s3_prefix)
        note (uploaded dir s3_prefix answer))

  -- What follows CRIU's run.
  unfoldable pub after_pre_dump :
      (dump_id dir : String) → Result String → Act Manager (Result CheckpointResult)
  unfolding upload_pre_dump
  after_pre_dump dump_id dir (err e) = pure (err (prefixed "criu pre-dump failed: " e))
  after_pre_dump dump_id dir (ok printed) = do
    size ← ask host (λ n. host.dir_size n dir)
    pages ← count_pages_in host dir
    modify (chained dump_id)
    now ← clock
    m ← self
    upload_pre_dump dir (s3_prefix_of m dump_id)
    upload_logs host dir (s3_prefix_of m dump_id)
    pure (
        ok (record {
          dump_id = dump_id;
          timestamp = now;
          size_bytes = size_or_zero size;
          pages_dumped = pages;
          external_mounts = [];
          pipe_inodes = [];
          page_server_pid = 0;
          page_server_alive = false;
        }))

  -- CRIU's run
  launch_pre_dump : (dump_id dir : String) → List String → Act Manager (Result CheckpointResult)
  unfolding after_pre_dump
  launch_pre_dump dump_id dir args = do
    note (criu_ran args)
    printed ← ask host (λ n. host.run_criu n args)
    after_pre_dump dump_id dir printed

  unfoldable pub run_pre_dump :
      (pid : ℕ)
      → (dump_id dir parent_id : String) → Option ExcludeArgs
      → Result Unit
      → Act Manager (Result CheckpointResult)
  unfolding launch_pre_dump direct_upload pre_dump_args
  run_pre_dump pid dump_id dir parent_id exclude (err e) =
      pure (err (prefixed "failed to create dump directory: " e))
  run_pre_dump pid dump_id dir parent_id exclude (ok u) = do
    m ← self
    parent ← parent_args host parent_id
    ranges ← exclude_args host exclude dir
    let args =
        pre_dump_args pid dir
        ++ (parent
            ++ (ranges
                ++ ((if direct_upload
                      then upload_args host.getenv m.storage (s3_prefix_of m dump_id)
                      else [])
                    ++ compress_args host)))
    launch_pre_dump dump_id dir args

  -- PreCheckpoint
  unfoldable pub pre_checkpoint :
      (pid : ℕ) → (parent_id : String) → Option ExcludeArgs → Act Manager (Result CheckpointResult)
  unfolding run_pre_dump
  pre_checkpoint pid parent_id exclude = do
    dump_id ← generate_dump_id host
    m ← self
    made ← ask host (λ n. host.make_dir n (path_join m.work_dir dump_id))
    run_pre_dump pid dump_id (path_join m.work_dir dump_id) parent_id exclude made

  after_baseline : Result CheckpointResult → Act Manager (Result Unit)
  after_baseline (err e) = pure (err (prefixed "failed to create baseline checkpoint: " e))
  after_baseline (ok r) = do
    modify reset_chain
    modify (set_chain r.dump_id r.dump_id 1)
    pure (ok tt)

  -- CreateBaselineCheckpoint
  unfoldable pub create_baseline_checkpoint : (pid : ℕ) → Act Manager (Result Unit)
  unfolding after_baseline
  create_baseline_checkpoint pid = do
    sleep (2 * second)
    answer ← pre_checkpoint pid "" none
    after_baseline answer
