-- ===== src/Agent/FinalDump/Quiet.antt =====
-- A final dump runs CRIU and touches no userfaultfd.
use criu_migration_operator.Base.{
  ℕ, ◌+◌, ◌/◌, ◌*◌, String, Bool, true, false, List, [], ◌∷◌, ◌++◌, Option, none, some, refl, arith,
  itoa, ◌<>◌, Map,
}
use criu_migration_operator.Base.Duration.{millisecond, second}
use criu_migration_operator.Base.Splitting.{path_join}
use criu_migration_operator.Cluster.{Result, ok, err}
use criu_migration_operator.Host.{Host, ask, note, poll, criu_ran}
use criu_migration_operator.Host.Safe.{
  SafeStep-refl, SafeStep-trans, SafeStep-criu, IsSafe, IsSafe-poll,
}
use criu_migration_operator.Agent.Manager.{
  ExcludeArgs, CheckpointResult, s3_prefix_of, generate_dump_id, exclude_args, parent_args,
}
use criu_migration_operator.Agent.Manager.Quiet.{
  generate_dump_id-IsSafe, upload_agent_metadata-IsSafe, upload_logs-IsSafe, exclude_args-IsSafe,
  parent_args-IsSafe,
}
use criu_migration_operator.Agent.FinalDump.{
  Dumped, mounts_or_none, pipe_of, checkpoint_files, settle, wait_for_checkpoint_files, after_files,
  after_start, after_run, run_dump, upload_all, upload_dump, after_dump_upload, after_final_dump,
  save_pipes, read_pipes, dump_in_namespace, final_dump_into, final_dump,
}

module _ (host : Host) where
  settle-IsSafe : (found : Option (Unit {0})) → IsSafe (settle host found)
  unfolding settle
  settle-IsSafe none w = SafeStep-refl w.trace
  settle-IsSafe (some u) w = SafeStep-refl w.trace

  wait-IsSafe : (dir : String) (timeout : ℕ) → IsSafe (wait_for_checkpoint_files host dir timeout)
  unfolding wait_for_checkpoint_files
  wait-IsSafe dir timeout w =
      let rounds = timeout / (100 * millisecond) + 1 in
      let (found, u) =
        poll rounds (w.now + timeout) (100 * millisecond) (checkpoint_files host dir) w in
      SafeStep-trans
        (IsSafe-poll rounds (w.now + timeout) (100 * millisecond) (checkpoint_files host dir)
          (λ v. SafeStep-refl v.trace) w)
        (settle-IsSafe found u)

  after_files-IsSafe :
      (dir : String) (pid : ℕ) (found : Bool) → IsSafe (after_files host dir pid found)
  unfolding after_files
  after_files-IsSafe dir pid false w = record { opens = refl; clean = λ z c. c; before = λ c. c }
  after_files-IsSafe dir pid true w = SafeStep-refl w.trace

  after_start-IsSafe : (dir : String) (r : Result ℕ) → IsSafe (after_start host dir r)
  unfolding after_start
  after_start-IsSafe dir (err e) w = SafeStep-refl w.trace
  after_start-IsSafe dir (ok pid) w =
      let (found, u) = wait_for_checkpoint_files host dir (30 * second) w in
      SafeStep-trans (wait-IsSafe dir (30 * second) w) (after_files-IsSafe dir pid found u)

  after_run-IsSafe : (dir : String) (r : Result String) → IsSafe (after_run host dir r)
  unfolding after_run
  after_run-IsSafe dir (err e) w = SafeStep-refl w.trace
  after_run-IsSafe dir (ok printed) w = SafeStep-refl w.trace

  run_dump-IsSafe :
      (strategy dir : String) (args : List String) → IsSafe (run_dump host strategy dir args)
  unfolding run_dump
  run_dump-IsSafe strategy dir args w =
      let u = (note (criu_ran args) w).1 in
      let (started, v) = ask host (λ n. host.start_criu n args) u in
      let (printed, v') = ask host (λ n. host.run_criu n args) u in
      let fresh = SafeStep-criu args w.trace in
      ground (
        arith,
        SafeStep-trans fresh (after_start-IsSafe dir started v),
        SafeStep-trans fresh (after_run-IsSafe dir printed v'),
      )

  upload_all-IsSafe : (what dir prefix : String) → IsSafe (upload_all host what dir prefix)
  unfolding upload_all
  upload_all-IsSafe what dir prefix w = record { opens = refl; clean = λ z c. c; before = λ c. c }

  upload_dump-IsSafe :
      (strategy dir prefix : String) → IsSafe (upload_dump host strategy dir prefix)
  unfolding upload_dump
  upload_dump-IsSafe strategy dir prefix w = ground (
    arith,
    upload_agent_metadata-IsSafe host dir prefix w,
    upload_all-IsSafe "failed to upload checkpoint to storage: " dir prefix w,
    upload_all-IsSafe "failed to upload checkpoint metadata to storage: " dir prefix w,
    SafeStep-refl w.trace,
  )

  after_dump_upload-IsSafe :
      (dir prefix : String) (final : CheckpointResult × Option ℕ) (r : Result Unit)
      → IsSafe (after_dump_upload host dir prefix final r)
  unfolding after_dump_upload
  after_dump_upload-IsSafe dir prefix final (err e) w = SafeStep-refl w.trace
  after_dump_upload-IsSafe dir prefix final (ok u) w = upload_logs-IsSafe host dir prefix w

  after_final_dump-IsSafe :
      (strategy dump_id dir : String) (mounts pipes : Map) (r : Result Dumped)
      → IsSafe (after_final_dump host strategy dump_id dir mounts pipes r)
  unfolding after_final_dump
  after_final_dump-IsSafe strategy dump_id dir mounts pipes (err e) w = SafeStep-refl w.trace
  after_final_dump-IsSafe strategy dump_id dir mounts pipes (ok d) w =
      let (size, u) = ask host (λ n. host.dir_size n dir) w in
      let prefix = s3_prefix_of u.self dump_id in
      let (answer, v) = upload_dump host strategy dir prefix u in
      SafeStep-trans (upload_dump-IsSafe strategy dir prefix u)
        (after_dump_upload-IsSafe dir prefix _ answer v)

  save_pipes-IsSafe : (dir : String) (pipes : Map) → IsSafe (save_pipes host dir pipes)
  unfolding save_pipes
  save_pipes-IsSafe dir [] w = SafeStep-refl w.trace
  save_pipes-IsSafe dir (p ∷ rest) w = SafeStep-refl w.trace

  read_pipes-IsSafe : (pid : ℕ) (dir : String) → IsSafe (read_pipes host pid dir)
  unfolding read_pipes
  read_pipes-IsSafe pid dir w =
      let (out, u) = ask host (λ n. host.read_link n ("/proc/" <> itoa pid <> "/fd/1")) w in
      let (error, v) = ask host (λ n. host.read_link n ("/proc/" <> itoa pid <> "/fd/2")) u in
      save_pipes-IsSafe dir (pipe_of "stdout" out ++ pipe_of "stderr" error) v

  dump_in_namespace-IsSafe :
      (pid port : ℕ) (parent_id strategy dump_id dir : String) (mounts : Map)
      (exclude : Option ExcludeArgs) (r : Result String)
      → IsSafe (dump_in_namespace host pid port parent_id strategy dump_id dir mounts exclude r)
  unfolding dump_in_namespace
  dump_in_namespace-IsSafe pid port parent_id strategy dump_id dir mounts exclude (err e) w =
      SafeStep-refl w.trace
  dump_in_namespace-IsSafe pid port parent_id strategy dump_id dir mounts exclude (ok link) w =
      let (pipes, u) = read_pipes host pid dir w in
      let (parent, v) = parent_args host parent_id u in
      let (ranges, x) = exclude_args host exclude dir v in
      SafeStep-trans
        (SafeStep-trans (read_pipes-IsSafe pid dir w) (
          SafeStep-trans (parent_args-IsSafe host parent_id u)
            (exclude_args-IsSafe host exclude dir v)))
        (SafeStep-trans (run_dump-IsSafe strategy dir _ x)
          (after_final_dump-IsSafe strategy dump_id dir mounts pipes _ _))

  final_dump_into-IsSafe :
      (pid port : ℕ) (parent_id strategy dump_id dir : String) (exclude : Option ExcludeArgs)
      (r : Result Unit)
      → IsSafe (final_dump_into host pid port parent_id strategy dump_id dir exclude r)
  unfolding final_dump_into
  final_dump_into-IsSafe pid port parent_id strategy dump_id dir exclude (err e) w =
      SafeStep-refl w.trace
  final_dump_into-IsSafe pid port parent_id strategy dump_id dir exclude (ok made) w =
      let (text, u) = ask host (λ n. host.read_file n ("/proc/" <> itoa pid <> "/mountinfo")) w in
      let (link, v) = ask host (λ n. host.read_link n ("/proc/" <> itoa pid <> "/ns/pid")) u in
      dump_in_namespace-IsSafe pid port parent_id strategy dump_id dir (mounts_or_none text) exclude
        link v

  pub final_dump-IsSafe :
      (pid port : ℕ) (parent_id strategy : String) (exclude : Option ExcludeArgs)
      → IsSafe (final_dump host pid port parent_id strategy exclude)
  unfolding final_dump
  final_dump-IsSafe pid port parent_id strategy exclude w =
      let (dump_id, u) = generate_dump_id host w in
      let dir = path_join u.self.work_dir dump_id in
      let (made, v) = ask host (λ n. host.make_dir n dir) u in
      SafeStep-trans (generate_dump_id-IsSafe host w)
        (final_dump_into-IsSafe pid port parent_id strategy dump_id dir exclude made v)
