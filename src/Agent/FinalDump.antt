-- ===== src/Agent/FinalDump.antt =====
-- pkg/agent/checkpoint.go: FinalDump. A map of Go is a list here, so its entries have an order.
mod Arguments
pub mod Quiet
pub mod Uploading
use criu_migration_operator.Base.{
  ℕ, zero, suc, ◌+◌, ◌*◌, ◌/◌, String, Bool, true, false, not, ◌&&◌, ◌||◌, List, [], ◌∷◌, ◌++◌,
  Option, none, some, ltb, str_eq, itoa, ◌<>◌, Map, if◌then◌else◌,
}
use criu_migration_operator.Base.Int.{ℤ, pos, negsuc}
use criu_migration_operator.Base.Duration.{millisecond, second}
use criu_migration_operator.Base.Splitting.{
  has_prefix, trim_prefix, trim_suffix, trim_space, atoi, path_join,
}
use criu_migration_operator.Cluster.{Error, Result, ok, err, other}
use criu_migration_operator.Reconciler.Checkpoint.{prefixed}
use criu_migration_operator.Host.{
  Host, Act, ask, pure, self, clock, sleep, note, poll, criu_ran, uploaded, killed, ◌>>=◌, ◌>>◌,
}
use criu_migration_operator.Agent.Storage.{upload_args}
use criu_migration_operator.Agent.Mounts.{external_mounts_in}
use criu_migration_operator.Agent.Manager.{
  Manager, ExcludeArgs, CheckpointResult, size_or_zero, s3_prefix_of, generate_dump_id,
  upload_agent_metadata, upload_logs, exclude_args, parent_args, compress_args,
}
unfoldable pub use Arguments.*

module _ (host : Host) where
  -- Direct upload is for the strategies without a page server.
  unfoldable pub uploads_directly : (strategy : String) → Bool
  uploads_directly strategy =
      str_eq (host.getenv "DIRECT_UPLOAD") "true" && not (uses_page_server strategy)

  checkpoint_files : (dir : String) → Act Manager (Option (Unit {0}))
  checkpoint_files dir = do
    core ← ask host (λ n. host.glob n (path_join dir "core-*.img"))
    inventory ← ask host (λ n. host.glob n (path_join dir "inventory.img"))
    pure (found_all core inventory)

  settle : Option (Unit {0}) → Act Manager Bool
  settle none = pure false
  settle (some u) = do sleep (500 * millisecond); pure true

  -- waitForCheckpointFiles, with a round for each tenth of a second
  unfoldable pub wait_for_checkpoint_files : (dir : String) → (timeout : ℕ) → Act Manager Bool
  unfolding checkpoint_files settle
  wait_for_checkpoint_files dir timeout = do
    now ← clock
    found ←
        poll (timeout / (100 * millisecond) + 1) (now + timeout) (100 * millisecond)
          (checkpoint_files dir)
    settle found

  after_files : (dir : String) → (criu_pid : ℕ) → Bool → Act Manager (Result Dumped)
  after_files dir criu_pid false = do
    note (killed criu_pid)
    log ← ask host (λ n. host.read_file n (path_join dir "criu.log"))
    pure (
        err (record {
          code = other;
          text =
              "failed to wait for checkpoint files: timeout waiting for checkpoint files to be created";
        }))
  after_files dir criu_pid true = do
    text ← ask host (λ n. host.read_file n (path_join dir "page-server.pid"))
    pure (
        ok (record { page_server_pid = page_server_pid_in criu_pid text; process = some criu_pid }))

  after_start : (dir : String) → Result ℕ → Act Manager (Result Dumped)
  unfolding after_files
  after_start dir (err e) = pure (err (prefixed "failed to start criu dump: " e))
  after_start dir (ok criu_pid) = do
    found ← wait_for_checkpoint_files dir (30 * second)
    after_files dir criu_pid found

  after_run : (dir : String) → Result String → Act Manager (Result Dumped)
  after_run dir (err e) = do
    log ← ask host (λ n. host.read_file n (path_join dir "criu.log"))
    pure (err (prefixed "criu dump failed: " e))
  after_run dir (ok printed) = pure (ok (record { page_server_pid = 0; process = none }))

  -- CRIU itself: in the background until its files are there, or to its end.
  unfoldable pub run_dump : (strategy dir : String) → List String → Act Manager (Result Dumped)
  unfolding after_start after_run
  run_dump strategy dir args = do
    note (criu_ran args)
    if uses_page_server strategy
        then (do started ← ask host (λ n. host.start_criu n args); after_start dir started)
        else (do printed ← ask host (λ n. host.run_criu n args); after_run dir printed)

  after_upload : (what : String) → Result Unit → Result Unit
  after_upload what (err e) = err (prefixed what e)
  after_upload what (ok u) = ok tt

  upload_all : (what dir s3_prefix : String) → Act Manager (Result Unit)
  unfolding after_upload
  upload_all what dir s3_prefix = do
    answer ← ask host (λ n. host.upload_checkpoint n dir s3_prefix)
    note (uploaded dir s3_prefix answer)
    pure (after_upload what answer)

  -- The upload, by strategy. Another strategy uploads nothing.
  unfoldable pub upload_dump : (strategy dir s3_prefix : String) → Act Manager (Result Unit)
  unfolding upload_all uploads_directly
  upload_dump strategy dir s3_prefix =
      if uses_storage strategy
      then (if uploads_directly strategy
          then (do upload_agent_metadata host dir s3_prefix; pure (ok tt))
          else upload_all "failed to upload checkpoint to storage: " dir s3_prefix)
      else if uses_page_server strategy
      then upload_all "failed to upload checkpoint metadata to storage: " dir s3_prefix
      else pure (ok tt)

  after_dump_upload :
      (dir s3_prefix : String) → CheckpointResult × Option ℕ → Result Unit → Act Manager Final
  after_dump_upload dir s3_prefix final (err e) = pure (err e)
  after_dump_upload dir s3_prefix final (ok u) = do upload_logs host dir s3_prefix; pure (ok final)

  unfoldable pub after_final_dump :
      (strategy dump_id dir : String) → (mounts pipes : Map) → Result Dumped → Act Manager Final
  unfolding after_dump_upload
  after_final_dump strategy dump_id dir mounts pipes (err e) = pure (err e)
  after_final_dump strategy dump_id dir mounts pipes (ok d) = do
    size ← ask host (λ n. host.dir_size n dir)
    now ← clock
    m ← self
    let result : CheckpointResult = record {
      dump_id = dump_id;
      timestamp = now;
      size_bytes = size_or_zero size;
      pages_dumped = 0;
      external_mounts = mounts;
      pipe_inodes = pipes;
      page_server_pid = d.page_server_pid;
      page_server_alive = ltb 0 d.page_server_pid;
    }
    answer ← upload_dump strategy dir (s3_prefix_of m dump_id)
    after_dump_upload dir (s3_prefix_of m dump_id) (result, d.process) answer

  save_pipes : (dir : String) → Map → Act Manager Map
  save_pipes dir [] = pure []
  save_pipes dir (p ∷ rest) = do
    written ←
        ask host
          (λ n. host.write_file n (path_join dir "pipe_inodes.json") (host.marshal (p ∷ rest)))
    pure (p ∷ rest)

  -- The pipes behind stdout and stderr, which are kept in a file beside the images.
  read_pipes : (pid : ℕ) → (dir : String) → Act Manager Map
  unfolding pipe_of save_pipes
  read_pipes pid dir = do
    out ← ask host (λ n. host.read_link n ("/proc/" <> itoa pid <> "/fd/1"))
    error ← ask host (λ n. host.read_link n ("/proc/" <> itoa pid <> "/fd/2"))
    let pipes = pipe_of "stdout" out ++ pipe_of "stderr" error
    save_pipes dir pipes

  -- Past the reading of the PID namespace, without which there is no dump.
  unfoldable pub dump_in_namespace :
      (pid : ℕ)
      → (port : ℕ) → (parent_id strategy dump_id dir : String) → Map
      → Option ExcludeArgs
      → Result String
      → Act Manager Final
  unfolding after_final_dump run_dump read_pipes mount_args final_dump_args page_server_args
      inode_of uploads_directly
  dump_in_namespace pid port parent_id strategy dump_id dir mounts exclude (err e) =
      pure (err (prefixed "failed to read PID namespace: " e))
  dump_in_namespace pid port parent_id strategy dump_id dir mounts exclude (ok link) = do
    m ← self
    pipes ← read_pipes pid dir
    parent ← parent_args host parent_id
    ranges ← exclude_args host exclude dir
    let args =
        final_dump_args pid dir
        ++ ((if uses_page_server strategy then page_server_args dir port else [])
            ++ ((if uploads_directly strategy
                  then upload_args host.getenv m.storage (s3_prefix_of m dump_id)
                  else [])
                ++ (compress_args host
                    ++ (("--external" ∷ ("pid[" <> inode_of "pid" link <> "]:main_pidns") ∷ [])
                        ++ (mount_args mounts
                            ++ (("--external" ∷ "mnt[]:ms" ∷ []) ++ (parent ++ ranges)))))))
    dumped ← run_dump strategy dir args
    after_final_dump strategy dump_id dir mounts pipes dumped

  final_dump_into :
      (pid : ℕ)
      → (port : ℕ) → (parent_id strategy dump_id dir : String) → Option ExcludeArgs
      → Result Unit
      → Act Manager Final
  unfolding dump_in_namespace mounts_or_none
  final_dump_into pid port parent_id strategy dump_id dir exclude (err e) =
      pure (err (prefixed "failed to create dump directory: " e))
  final_dump_into pid port parent_id strategy dump_id dir exclude (ok u) = do
    text ← ask host (λ n. host.read_file n ("/proc/" <> itoa pid <> "/mountinfo"))
    link ← ask host (λ n. host.read_link n ("/proc/" <> itoa pid <> "/ns/pid"))
    dump_in_namespace pid port parent_id strategy dump_id dir (mounts_or_none text) exclude link

  -- FinalDump
  unfoldable pub final_dump :
      (pid : ℕ)
      → (port : ℕ) → (parent_id strategy : String) → Option ExcludeArgs
      → Act Manager Final
  unfolding final_dump_into
  final_dump pid port parent_id strategy exclude = do
    dump_id ← generate_dump_id host
    m ← self
    made ← ask host (λ n. host.make_dir n (path_join m.work_dir dump_id))
    final_dump_into pid port parent_id strategy dump_id (path_join m.work_dir dump_id) exclude made
