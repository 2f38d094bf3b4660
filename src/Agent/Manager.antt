-- ===== src/Agent/Manager.antt =====
-- pkg/agent/checkpoint.go: the CheckpointManager, its state and its small operations.
mod Data
pub mod Quiet
pub mod Later
pub mod Keeping
use criu_migration_operator.Base.{
  ℕ, zero, suc, ◌+◌, ◌*◌, ◌/◌, String, Bool, true, false, not, ◌&&◌, List, [], ◌∷◌, ◌++◌, Option,
  none, some, ltb, ◌==◌, str_eq, ◌<>◌, join, itoa, itoa_int, keep, length, drop, map, if◌then◌else◌,
}
use criu_migration_operator.Base.Int.{ℤ, pos, negsuc}
use criu_migration_operator.Base.Duration.{millisecond, second}
use criu_migration_operator.Base.Splitting.{
  split_on, trim_prefix, has_prefix, trim_char, trim_space, atoi, hex, path_join,
}
use criu_migration_operator.Cluster.{Error, Result, ok, err, other}
use criu_migration_operator.Reconciler.Checkpoint.{prefixed}
use criu_migration_operator.Host.{
  Host, DirEntry, Act, ask, pure, self, modify, clock, sleep, note, poll, exists, file_uploaded,
  removed, ◌>>=◌, ◌>>◌,
}
use criu_migration_operator.Profiler.Areas.{AddrRange}
use criu_migration_operator.Agent.Storage.{StorageClient}
unfoldable pub use Data.*

module _ (host : Host) where
  -- generateDumpID
  unfoldable pub generate_dump_id : Act Manager String
  generate_dump_id = do
    id ← ask host (λ n. host.new_uuid n)
    now ← clock
    pure (id <> "-" <> itoa (now / second))

  uploaded_file : (path key : String) → Result ℕ → Act Manager Unit
  uploaded_file path key (err e) = pure tt
  uploaded_file path key (ok size) = do
    answer ← ask host (λ n. host.upload_file n path key)
    note (file_uploaded key)

  -- The files of the list that are there.
  unfoldable pub upload_files : (dir s3_prefix : String) → List String → Act Manager Unit
  unfolding uploaded_file
  upload_files dir s3_prefix [] = pure tt
  upload_files dir s3_prefix (name ∷ rest) = do
    found ← ask host (λ n. host.stat n (path_join dir name))
    uploaded_file (path_join dir name) (s3_prefix <> "/" <> name) found
    upload_files dir s3_prefix rest

  -- uploadAgentMetadata
  unfoldable pub upload_agent_metadata : (dir s3_prefix : String) → Act Manager Unit
  unfolding upload_files
  upload_agent_metadata dir s3_prefix = upload_files dir s3_prefix agent_files

  -- uploadLogs
  unfoldable pub upload_logs : (dir s3_prefix : String) → Act Manager Unit
  unfolding upload_files
  upload_logs dir s3_prefix =
      if str_eq (host.getenv "LOG_UPLOAD") "true"
      then upload_files dir (s3_prefix <> "/logs") log_files
      else pure tt

  after_exclude_file : (path : String) → Result Unit → List String
  after_exclude_file path (err e) = []
  after_exclude_file path (ok u) = "--exclude-file" ∷ path ∷ []

  exclude_range_args : (dir : String) → List AddrRange → Act Manager (List String)
  unfolding after_exclude_file exclude_lines range_args
  exclude_range_args dir ranges =
      if ltb range_limit (length ranges)
      then (do
        written ←
            ask host
              (λ n. host.write_file n (path_join dir "exclude-ranges.txt") (exclude_lines ranges))
        pure (after_exclude_file (path_join dir "exclude-ranges.txt") written))
      else pure (range_args "--exclude-range" ranges)

  -- appendExcludeArgs: what it appends.
  unfoldable pub exclude_args : Option ExcludeArgs → (dir : String) → Act Manager (List String)
  unfolding exclude_range_args range_args
  exclude_args none dir = pure []
  exclude_args (some args) dir = do
    ranges ← exclude_range_args dir args.exclude_ranges
    pure (ranges ++ range_args "--no-parent-range" args.no_parent_ranges)

  -- The parent of an incremental dump, if its directory is there.
  unfoldable pub parent_args : (parent_id : String) → Act Manager (List String)
  parent_args parent_id = if str_eq parent_id "" then pure [] else (do
    m ← self
    found ← ask host (λ n. host.stat n (path_join m.work_dir parent_id))
    pure (if exists found then "--prev-images-dir" ∷ path_join m.work_dir parent_id ∷ [] else []))

  -- The compression that the environment asks for.
  unfoldable pub compress_args : List String
  compress_args =
      let level = host.getenv "CRIU_COMPRESS_LEVEL" in
      let workers = host.getenv "CRIU_COMPRESS_WORKERS" in
      if str_eq (host.getenv "CRIU_COMPRESS") "true"
      then "--compress"
        ∷ ((if str_eq level "" then [] else "--compress-level" ∷ level ∷ [])
            ++ (if str_eq workers "" then [] else "--compress-workers" ∷ workers ∷ []))
      else []

  -- countPages
  count_pages : List String → Act Manager ℕ
  count_pages [] = pure 0
  count_pages (file ∷ rest) = do
    size ← ask host (λ n. host.stat n file)
    others ← count_pages rest
    pure (size_or_zero size / 4096 + others)

  count_pages_of : Result (List String) → Act Manager ℕ
  unfolding count_pages
  count_pages_of (err e) = pure 0
  count_pages_of (ok files) = count_pages files

  unfoldable pub count_pages_in : (dir : String) → Act Manager ℕ
  unfolding count_pages_of
  count_pages_in dir = do
    files ← ask host (λ n. host.glob n (path_join dir "pages-*.img"))
    count_pages_of files

  unfoldable pub found_or : Act Manager (Result ℕ) → Option ℕ → Act Manager (Result ℕ)
  found_or others none = others
  found_or others (some pid) = pure (ok pid)

  unfoldable pub search_names : List String → Act Manager (Result ℕ)
  unfolding found_or
  search_names [] = pure (err (record { code = other; text = "main process not found" }))
  search_names (name ∷ rest) = do
    text ← ask host (λ n. host.output n ("pgrep" ∷ "-f" ∷ name ∷ []))
    found_or (search_names rest) (first_pid text)

  unfoldable pub check_known : Result ℕ → Act Manager (Result ℕ)
  unfolding search_names
  check_known (ok size) = do m ← self; pure (ok m.known_main_pid)
  check_known (err e) = do modify (set_known 0); search_names process_names

  -- FindMainProcessPID
  unfoldable pub find_main_process_pid : Act Manager (Result ℕ)
  unfolding check_known search_names
  find_main_process_pid = do
    m ← self
    if ltb 0 m.known_main_pid
        then (do
          found ← ask host (λ n. host.stat n ("/proc/" <> itoa m.known_main_pid <> "/status"))
          check_known found)
        else search_names process_names

  find_sleep : Act Manager (Option ℕ)
  find_sleep = do
    text ← ask host (λ n. host.output n ("pgrep" ∷ "sleep" ∷ []))
    pure (first_pid text)

  -- WaitForSleepProcess, with a round for each tenth of a second
  unfoldable pub wait_for_sleep_process : (timeout : ℕ) → Act Manager (Option ℕ)
  unfolding find_sleep
  wait_for_sleep_process timeout = do
    now ← clock
    poll (timeout / (100 * millisecond) + 1) (now + timeout) (100 * millisecond) find_sleep

  remove_dirs : List String → Act Manager Unit
  remove_dirs [] = pure tt
  remove_dirs (name ∷ rest) = do
    m ← self
    answer ← ask host (λ n. host.remove_all n (path_join m.work_dir name))
    note (removed (path_join m.work_dir name))
    remove_dirs rest

  clean_listed : (keep_recent : ℕ) → Result (List DirEntry) → Act Manager (Result Unit)
  unfolding remove_dirs
  clean_listed keep_recent (err e) = pure (err (prefixed "failed to read work directory: " e))
  clean_listed keep_recent (ok entries) = do
    remove_dirs (drop keep_recent (dirs_of entries))
    pure (ok tt)

  -- CleanupOldCheckpoints. os.ReadDir lists by name.
  unfoldable pub cleanup_old_checkpoints : (keep_recent : ℕ) → Act Manager (Result Unit)
  unfolding clean_listed
  cleanup_old_checkpoints keep_recent = do
    m ← self
    entries ← ask host (λ n. host.read_dir n m.work_dir)
    clean_listed keep_recent entries
