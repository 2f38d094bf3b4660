-- ===== src/Agent/Manager/Data.antt =====
-- pkg/agent/checkpoint.go: the state of the CheckpointManager, and the parts of its operations that make no
-- call.
use criu_migration_operator.Base.{
  ℕ, suc, String, Bool, List, [], ◌∷◌, Option, none, some, str_eq, ◌<>◌, itoa_int, if◌then◌else◌,
}
use criu_migration_operator.Base.Int.{ℤ, pos, negsuc}
use criu_migration_operator.Base.Splitting.{
  split_on, trim_prefix, has_prefix, trim_char, trim_space, atoi, hex,
}
use criu_migration_operator.Cluster.{Result, ok, err}
use criu_migration_operator.Host.{DirEntry}
use criu_migration_operator.Profiler.Areas.{AddrRange}
use criu_migration_operator.Agent.Storage.{StorageClient}

pub record Manager : Type 0 where
  pub work_dir : String
  pub storage : StorageClient
  pub pod_name : String
  pub app_name : String
  pub node_name : String
  pub last_checkpoint_id : String
  pub chain_root : String
  pub chain_depth : ℕ
  pub generation : ℤ
  pub known_main_pid : ℕ

pub record ExcludeArgs : Type 0 where
  pub exclude_ranges : List AddrRange
  pub no_parent_ranges : List AddrRange

pub record CheckpointResult : Type 0 where
  pub dump_id : String
  pub timestamp : ℕ
  pub size_bytes : ℕ
  pub pages_dumped : ℕ
  pub external_mounts : List (String × String)
  pub pipe_inodes : List (String × String)
  pub page_server_pid : ℕ
  pub page_server_alive : Bool

-- The application's name is in the first line of the pod's annotations that has the key.
unfoldable pub app_name_in : (pod_name : String) → List String → String
app_name_in pod_name [] = pod_name
app_name_in pod_name (line ∷ rest) =
    if has_prefix line "migration.io/app="
    then trim_char b'"' (trim_prefix line "migration.io/app=")
    else app_name_in pod_name rest

abbrev pub int_or_zero : Option ℤ → ℤ
int_or_zero none = pos 0
int_or_zero (some n) = n

abbrev pub text_or_empty : Result String → String
text_or_empty (ok text) = text
text_or_empty (err e) = ""

abbrev pub size_or_zero : Result ℕ → ℕ
size_or_zero (ok size) = size
size_or_zero (err e) = 0

-- NewCheckpointManager, of the text of the pod's annotations.
unfoldable pub new_manager :
    (getenv : String → String)
    → (annotations : Result String) → (work_dir : String) → StorageClient
    → (pod_name node_name : String) → Manager
unfolding app_name_in
new_manager getenv annotations work_dir storage pod_name node_name = record {
  work_dir = work_dir;
  storage = storage;
  pod_name = pod_name;
  app_name = app_name_in pod_name (split_on 10 (text_or_empty annotations));
  node_name = node_name;
  last_checkpoint_id = "";
  chain_root = "";
  chain_depth = 0;
  generation = int_or_zero (atoi (getenv "POD_GENERATION"));
  known_main_pid = 0;
}

abbrev pub dirs_of : List DirEntry → List String
dirs_of [] = []
dirs_of (e ∷ rest) = if e.is_dir then e.name ∷ dirs_of rest else dirs_of rest

-- The metadata that CRIU's own upload does not know of.
abbrev pub agent_files : List String
agent_files = "hot-iovs.json" ∷ "hot_vma_metadata.json" ∷ "pipe_inodes.json" ∷ []

abbrev pub log_files : List String
log_files =
    "criu.log" ∷ "restore.log" ∷ "lazy-pages.log" ∷ "stats-dump" ∷ "stats-restore"
    ∷ "hot_vma_metadata.json" ∷ "hot-iovs.json" ∷ "exclude-ranges.txt" ∷ []

abbrev pub process_names : List String
process_names = "python" ∷ "python3" ∷ "node" ∷ "java" ∷ "ruby" ∷ "go" ∷ "bash" ∷ "sh" ∷ []

abbrev pub head_or_empty : List String → String
head_or_empty [] = ""
head_or_empty (s ∷ rest) = s

-- A PID: no program prints a negative one.
abbrev pub pid_of : Option ℤ → Option ℕ
pid_of none = none
pid_of (some (pos n)) = some n
pid_of (some (negsuc n)) = none

-- The PID in the first line of what pgrep prints.
unfoldable pub first_pid : Result String → Option ℕ
first_pid (err e) = none
first_pid (ok text) =
    if str_eq text "" then none else pid_of (atoi (head_or_empty (split_on 10 (trim_space text))))

-- A range as an argument of CRIU.
unfoldable pub range_text : (between : String) → AddrRange → String
range_text between r = hex r.start <> between <> hex r.end

unfoldable pub range_args : (name : String) → List AddrRange → List String
unfolding range_text
range_args name [] = []
range_args name (r ∷ rest) = name ∷ range_text ":" r ∷ range_args name rest

unfoldable pub exclude_lines : List AddrRange → String
unfolding range_text
exclude_lines [] = ""
exclude_lines (r ∷ rest) = range_text " " r <> "\n" <> exclude_lines rest

-- More than this many ranges go through a file.
abbrev pub range_limit : ℕ
range_limit = 10

abbrev pub set_known : ℕ → Manager → Manager
set_known pid m = record m { known_main_pid = pid }

abbrev pub set_chain : (root last : String) → ℕ → Manager → Manager
set_chain root last depth m = record m {
  chain_root = root;
  last_checkpoint_id = last;
  chain_depth = depth;
}

-- The state after a pre-dump. The root of a chain is set once.
unfoldable pub chained : (dump_id : String) → Manager → Manager
chained dump_id m =
    set_chain (if str_eq m.chain_root "" then dump_id else m.chain_root) dump_id (suc m.chain_depth)
      m

-- ResetChain
unfoldable pub reset_chain : Manager → Manager
reset_chain m = record m { chain_root = ""; chain_depth = 0 }

-- getS3Prefix
unfoldable pub s3_prefix_of : Manager → (dump_id : String) → String
s3_prefix_of m dump_id =
    m.app_name <> "/" <> itoa_int m.generation <> "/" <> m.node_name <> "/" <> dump_id
