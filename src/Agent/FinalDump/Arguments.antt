-- ===== src/Agent/FinalDump/Arguments.antt =====
-- pkg/agent/checkpoint.go: the command line of a final dump, and what its files say.
use criu_migration_operator.Base.{
  ℕ, zero, suc, String, Bool, ◌||◌, List, [], ◌∷◌, Option, none, some, str_eq, itoa, ◌<>◌, Map,
  if◌then◌else◌,
}
use criu_migration_operator.Base.Int.{ℤ, pos, negsuc}
use criu_migration_operator.Base.Splitting.{
  has_prefix, trim_prefix, trim_suffix, trim_space, atoi, path_join,
}
use criu_migration_operator.Cluster.{Result, ok, err}
use criu_migration_operator.Agent.Mounts.{external_mounts_in}
use criu_migration_operator.Agent.Manager.{CheckpointResult}

-- The strategies under which CRIU stays as the page server.
abbrev pub uses_page_server : (strategy : String) → Bool
uses_page_server strategy = str_eq strategy "lazy-direct" || str_eq strategy "lazy-hybrid"

abbrev pub uses_storage : (strategy : String) → Bool
uses_storage strategy = str_eq strategy "full" || str_eq strategy "lazy-storage"

-- The inode of a link such as pid:[4026532508].
unfoldable pub inode_of : (kind link : String) → String
inode_of kind link = trim_suffix (trim_prefix link (kind <> ":[")) "]"

unfoldable pub mount_args : Map → List String
mount_args [] = []
mount_args (m ∷ rest) = "--external" ∷ ("mnt[" <> m.0 <> "]:" <> m.1) ∷ mount_args rest

unfoldable pub mounts_or_none : Result String → Map
mounts_or_none (err e) = []
mounts_or_none (ok text) = external_mounts_in text

unfoldable pub pipe_of : (label : String) → Result String → Map
unfolding inode_of
pipe_of label (err e) = []
pipe_of label (ok link) =
    if has_prefix link "pipe:[" then (label, inode_of "pipe" link) ∷ [] else []

unfoldable pub final_dump_args : (pid : ℕ) → (dir : String) → List String
final_dump_args pid dir =
    "dump"
    ∷ "-t"
    ∷ itoa pid
    ∷ "-D"
    ∷ dir
    ∷ "--root"
    ∷ ("/proc/" <> itoa pid <> "/root")
    ∷ "--tcp-close"
    ∷ "--shell-job"
    ∷ "-v4"
    ∷ "--log-file"
    ∷ path_join dir "criu.log"
    ∷ "--evasive-devices"
    ∷ []

unfoldable pub page_server_args : (dir : String) → (port : ℕ) → List String
page_server_args dir port =
    "--pidfile"
    ∷ path_join dir "page-server.pid"
    ∷ "--lazy-pages"
    ∷ "--address"
    ∷ "0.0.0.0"
    ∷ "--port"
    ∷ itoa port
    ∷ []

abbrev pub pid_or : ℕ → Option ℤ → ℕ
pid_or pid none = pid
pid_or pid (some (pos zero)) = pid
pid_or pid (some (pos (suc n))) = suc n
pid_or pid (some (negsuc n)) = pid

-- The PID in the file that the page server wrote, or CRIU's own one.
unfoldable pub page_server_pid_in : (criu_pid : ℕ) → Result String → ℕ
page_server_pid_in criu_pid (err e) = criu_pid
page_server_pid_in criu_pid (ok text) = pid_or criu_pid (atoi (trim_space text))

-- What the process of CRIU left behind: the page server's PID, and its process where it runs on.
pub record Dumped : Type 0 where
  pub page_server_pid : ℕ
  pub process : Option ℕ

abbrev pub found_all : Result (List String) → Result (List String) → Option (Unit {0})
found_all (ok (core ∷ cores)) (ok (inventory ∷ others)) = some tt
found_all _ _ = none

-- What FinalDump returns: the result, and the process that the caller keeps.
abbrev pub Final : Type 0
Final = Result (CheckpointResult × Option ℕ)
