-- ===== src/Agent/Samples.antt =====
-- A host that answers every call, and an agent with a profiler that has its userfaultfd in the target.
use criu_migration_operator.Base.{String, true, false, [], ◌∷◌, none, some, List}
use criu_migration_operator.Base.Int.{pos}
use criu_migration_operator.Base.Duration.{second}
use criu_migration_operator.Cluster.{ok}
use criu_migration_operator.Host.{Host, World, UffdSetup, regions, uffd_opened}
use criu_migration_operator.Profiler.Lifecycle.{
  Profiler, VmaHotDetail, default_config, new_profiler, running,
}
use criu_migration_operator.Agent.Storage.{StorageClient}
use criu_migration_operator.Agent.Manager.{Manager}
use criu_migration_operator.Agent.State.{Agent}

abbrev pub set_up : UffdSetup
set_up = record { tracker_fd = 5; target_fd = 7; registered = [] }

abbrev pub host : Host
host = record {
  lag = λ n. second;
  getenv = λ key. "";
  new_uuid = λ n. "0a1b2c3d";
  make_dir = λ n path. ok tt;
  stat = λ n path. ok 4096;
  read_file = λ n path. ok "TracerPid:\t0\n";
  write_file = λ n path text. ok tt;
  read_link = λ n path. ok "pipe:[42]";
  read_dir = λ n path. ok [];
  remove_all = λ n path. ok tt;
  glob = λ n pattern. ok [];
  marshal = λ entries. "{}";
  marshal_iovs = λ entries. "{}";
  dir_size = λ n path. ok 8192;
  output = λ n command. ok "1234\n";
  run_criu = λ n args. ok "";
  start_criu = λ n args. ok 99;
  upload_checkpoint = λ n dir prefix. ok tt;
  upload_file = λ n path key. ok tt;
  parse_vmas = λ n pid. ok [];
  open_pagemap = λ n pid. ok tt;
  setup_uffd = λ n pid vmas. ok set_up;
  close_target = λ n pid fd. ok tt;
  register = λ n fd r. ok tt;
  unregister = λ n fd r. ok tt;
  verify_wp = λ n. ok true;
  write_protect = λ n vmas. ok tt;
  scan = λ n v. regions [];
}

abbrev pub vma_json : List VmaHotDetail → String
vma_json vmas = "[]"

abbrev pub storage : StorageClient
storage = record {
  bucket = "dumps";
  endpoint = "";
  download_endpoint = "";
  region = "us-east-1";
  storage_type = "";
  express_one_zone = false;
}

abbrev pub manager : Manager
manager = record {
  work_dir = "/checkpoints";
  storage = storage;
  pod_name = "redis-0";
  app_name = "redis";
  node_name = "node-1";
  last_checkpoint_id = "";
  chain_root = "";
  chain_depth = 0;
  generation = pos 0;
  known_main_pid = 0;
}

-- A profiler of the process 1234 that has been started.
abbrev pub profiler : Profiler
profiler = record (new_profiler 1234 default_config) {
  tracker_fd = some 5;
  target_fd = some 7;
  pagemap_open = true;
  loop = running;
}

abbrev pub agent : Agent
agent = record {
  manager = manager;
  mode = "normal";
  main_pid = 1234;
  start_time = 0;
  node_name = "node-1";
  pod_name = "redis-0";
  page_server = none;
  page_server_dump_id = "";
  lazy_pages_active = false;
  profiler = some profiler;
  prev_exclude = [];
  has_scheduler = false;
}

-- The agent after its profiler has been started.
abbrev pub profiling : World Agent
profiling = record { self = agent; now = second; step = 3; trace = uffd_opened 1234 7 ∷ [] }
