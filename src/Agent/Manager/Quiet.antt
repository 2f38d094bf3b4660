-- ===== src/Agent/Manager/Quiet.antt =====
-- The small operations of the CheckpointManager touch no userfaultfd.
use criu_migration_operator.Base.{
  ◌≡◌, ℕ, String, List, [], ◌∷◌, Option, none, some, ◌<>◌, refl, arith, itoa,
}
use criu_migration_operator.Base.Splitting.{path_join}
use criu_migration_operator.Cluster.{Result, ok, err}
use criu_migration_operator.Host.{Host, Act, World, ask, modify}
use criu_migration_operator.Host.Safe.{SafeStep-refl, SafeStep-trans, IsSafe}
use criu_migration_operator.Profiler.Areas.{AddrRange}
use criu_migration_operator.Agent.Manager.{
  Manager, ExcludeArgs, set_known, first_pid, generate_dump_id, uploaded_file, upload_files,
  upload_agent_metadata, upload_logs, exclude_args, exclude_range_args, parent_args, count_pages,
  count_pages_of, count_pages_in, agent_files, log_files, process_names, found_or, search_names,
  check_known, find_main_process_pid,
}

module _ (host : Host) where
  pub generate_dump_id-IsSafe : IsSafe (generate_dump_id host)
  unfolding generate_dump_id
  generate_dump_id-IsSafe w = SafeStep-refl w.trace

  uploaded_file-IsSafe : (path key : String) (r : Result ℕ) → IsSafe (uploaded_file host path key r)
  unfolding uploaded_file
  uploaded_file-IsSafe path key (err e) w = SafeStep-refl w.trace
  uploaded_file-IsSafe path key (ok size) w = record {
    opens = refl;
    clean = λ z c. c;
    before = λ c. c;
  }

  upload_files-IsSafe :
      (dir prefix : String) (names : List String) → IsSafe (upload_files host dir prefix names)
  unfolding upload_files
  upload_files-IsSafe dir prefix [] w = SafeStep-refl w.trace
  upload_files-IsSafe dir prefix (name ∷ rest) w =
      let (found, u) = ask host (λ n. host.stat n (path_join dir name)) w in
      SafeStep-trans (uploaded_file-IsSafe (path_join dir name) (prefix <> "/" <> name) found u)
        (upload_files-IsSafe dir prefix rest _)

  pub upload_agent_metadata-IsSafe :
      (dir prefix : String) → IsSafe (upload_agent_metadata host dir prefix)
  unfolding upload_agent_metadata
  upload_agent_metadata-IsSafe dir prefix w = upload_files-IsSafe dir prefix agent_files w

  pub upload_logs-IsSafe : (dir prefix : String) → IsSafe (upload_logs host dir prefix)
  unfolding upload_logs
  upload_logs-IsSafe dir prefix w =
      ground (arith, upload_files-IsSafe dir (prefix <> "/logs") log_files w, SafeStep-refl w.trace)

  exclude_range_args-IsSafe :
      (dir : String) (ranges : List AddrRange) → IsSafe (exclude_range_args host dir ranges)
  unfolding exclude_range_args
  exclude_range_args-IsSafe dir ranges w = ground (arith, SafeStep-refl w.trace)

  pub exclude_args-IsSafe :
      (args : Option ExcludeArgs) (dir : String) → IsSafe (exclude_args host args dir)
  unfolding exclude_args
  exclude_args-IsSafe none dir w = SafeStep-refl w.trace
  exclude_args-IsSafe (some args) dir w = exclude_range_args-IsSafe dir args.exclude_ranges w

  pub parent_args-IsSafe : (parent_id : String) → IsSafe (parent_args host parent_id)
  unfolding parent_args
  parent_args-IsSafe parent_id w = ground (arith, SafeStep-refl w.trace)

  count_pages-IsSafe : (files : List String) → IsSafe (count_pages host files)
  unfolding count_pages
  count_pages-IsSafe [] w = SafeStep-refl w.trace
  count_pages-IsSafe (file ∷ rest) w = count_pages-IsSafe rest _

  count_pages_of-IsSafe : (files : Result (List String)) → IsSafe (count_pages_of host files)
  unfolding count_pages_of
  count_pages_of-IsSafe (err e) w = SafeStep-refl w.trace
  count_pages_of-IsSafe (ok files) w = count_pages-IsSafe files w

  pub count_pages_in-IsSafe : (dir : String) → IsSafe (count_pages_in host dir)
  unfolding count_pages_in
  count_pages_in-IsSafe dir w =
      let (files, u) = ask host (λ n. host.glob n (path_join dir "pages-*.img")) w in
      count_pages_of-IsSafe files u

  found_or-trace :
      (others : Act Manager (Result ℕ)) (found : Option ℕ) (w : World Manager)
      → ((u : World Manager) → (others u).1.trace ≡ u.trace)
      → (found_or host others found w).1.trace ≡ w.trace
  unfolding found_or
  found_or-trace others none w q = q w
  found_or-trace others (some pid) w q = refl

  search_names-trace :
      (names : List String) (w : World Manager) → (search_names host names w).1.trace ≡ w.trace
  unfolding search_names
  search_names-trace [] w = refl
  search_names-trace (name ∷ rest) w =
      let (text, u) = ask host (λ n. host.output n ("pgrep" ∷ "-f" ∷ name ∷ [])) w in
      found_or-trace (search_names host rest) (first_pid text) u (search_names-trace rest)

  check_known-trace : (r : Result ℕ) (w : World Manager) → (check_known host r w).1.trace ≡ w.trace
  unfolding check_known
  check_known-trace (ok size) w = refl
  check_known-trace (err e) w = search_names-trace process_names (modify (set_known 0) w).1

  pub find_main_process_pid-trace :
      (w : World Manager) → (find_main_process_pid host w).1.trace ≡ w.trace
  unfolding find_main_process_pid
  find_main_process_pid-trace w =
      let (found, u) =
        ask host (λ n. host.stat n ("/proc/" <> itoa w.self.known_main_pid <> "/status")) w in
      ground (arith, check_known-trace found u, search_names-trace process_names w)
