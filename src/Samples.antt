-- ===== src/Samples.antt =====
-- Small objects and an environment in which every call succeeds, for the examples of the other
-- modules.
use criu_migration_operator.Base.{ℕ, ◌*◌, String, true, false, [], ◌∷◌, none}
use criu_migration_operator.Base.Int.{pos}
use criu_migration_operator.Base.Duration.{second}
use criu_migration_operator.Kube.{ObjectMeta, Container, PodSpec, Pod, pod_running}
use criu_migration_operator.Api.{
  Stage, MigrationStatusInfo, MigratableAppStatus, MigratableAppSpec, MigratableApp, Phase,
  no_migration,
}
use criu_migration_operator.Cluster.{Env, World, ok}

abbrev pub meta_of : String → ObjectMeta
meta_of name = record {
  name = name;
  generate_name = "";
  namespace = "default";
  labels = [];
  annotations = [];
  finalizers = [];
  owner_references = [];
  deletion_timestamp = none;
  creation_timestamp = 0;
}

abbrev pub container_of : String → Container
container_of name = record {
  name = name;
  image = "redis";
  pull_policy = "";
  command = "redis-server" ∷ [];
  args = [];
  working_dir = "";
  env = [];
  env_from = [];
  ports = [];
  volume_mounts = [];
  security_context = none;
}

abbrev pub spec_of : String → PodSpec
spec_of node = record {
  containers = container_of "app" ∷ [];
  init_containers = [];
  volumes = [];
  affinity = none;
  node_selector = [];
  share_process_namespace = none;
  node_name = node;
}

abbrev pub pod_of : String → String → Pod
pod_of name node = record {
  meta = meta_of name;
  spec = spec_of node;
  phase = pod_running;
  pod_ip = "10.0.0.1";
  message = "";
  containers_ready = true ∷ [];
}

abbrev pub app_spec : MigratableAppSpec
app_spec = record {
  template = record { labels = []; annotations = []; spec = spec_of "" };
  checkpoint_policy = record {
    interval = "30s";
    auto_adjust = false;
    memory_threshold_mb = pos 100;
    max_chain_depth = pos 10;
    deadline_scheduler = record {
      dry_run = false;
      deadline_seconds = pos 120;
      bandwidth_mbps = pos 100;
      scan_interval_ms = pos 5000;
      t_freeze_ms = pos 50;
      t_margin_ms = pos 5000;
    };
  };
  migration_policy = record {
    strategy = "";
    auto_migrate = true;
    target_node_selector = [];
    prefer_on_demand = false;
    migration_timeout_seconds = pos 300;
    pre_dump_quiesce = none;
  };
  storage = record {
    kind = "s3";
    bucket = "checkpoints";
    endpoint = "";
    download_endpoint = "";
    region = "us-east-1";
    credentials_secret = "";
    express_one_zone = false;
    async_prefetch = false;
    prefetch_workers = pos 4;
    direct_upload = false;
    semi_sync_iov = none;
    hot_iov_seed = none;
    log_upload = false;
    compress = false;
    compress_level = pos 0;
    compress_workers = pos 0;
  };
}

abbrev pub status_of : MigrationStatusInfo → MigratableAppStatus
status_of m = record {
  phase = Phase.running;
  generation = 0;
  current_node = "node-a";
  current_pod_name = "redis";
  migration_history = [];
  checkpoint_status = record {
    last_checkpoint_id = "cp-1";
    last_checkpoint_time = 0;
    chain_depth = 1;
    chain_root = "cp-1";
  };
  migration = m;
  last_update_time = 0;
}

abbrev pub app_at : MigrationStatusInfo → MigratableApp
app_at m = record { meta = meta_of "redis"; spec = app_spec; status = status_of m }

-- A migration at a stage, with its retries.
abbrev pub migration_at : Stage → ℕ → MigrationStatusInfo
migration_at stage retries = record no_migration {
  stage = stage;
  retry_count = retries;
  max_retries = 3;
}

abbrev pub world_at : Stage → ℕ → World
world_at stage retries = record {
  app = app_at (migration_at stage retries);
  now = 1000 * second;
  step = 0;
  trace = [];
}

abbrev pub source_pod : Pod
source_pod = pod_of "redis" "node-a"

-- The API server gives back what it is told, and the stored object is at `stage`.
abbrev pub calm : Stage → Env
calm stage = record {
  lag = λ n. second;
  getenv = λ name. "";
  update_status = λ n app. ok tt;
  update_app = λ n app. ok tt;
  read_app = λ n namespace name. ok (app_at (migration_at stage 0));
  get_app = λ n namespace name. ok (app_at (migration_at stage 0));
  list_apps = λ n. ok (app_at (migration_at stage 0) ∷ []);
  list_pods = λ n namespace selector. ok (source_pod ∷ []);
  get_pod = λ n namespace name. ok (pod_of name "node-b");
  create_pod = λ n pod. ok (record pod { meta = record pod.meta { name = "redis-gen1-x" } });
  update_pod = λ n pod. ok tt;
  delete_pod = λ n pod. ok tt;
  get_replica_set = λ n namespace name. ok [];
  get_deployment =
      λ n namespace name. ok (record { namespace = namespace; name = name; replicas = none });
  update_deployment = λ n d. ok tt;
  get_node = λ n name. ok false;
  get_secret = λ n namespace name. ok [];
  dial = λ n address. ok tt;
  final_dump = λ n ip request. ok (record { dump_id = "dump-1"; pipe_inodes = [] });
  restore = λ n ip request. ok tt;
  pre_checkpoint = λ n ip parent. ok "cp-2";
  lazy_pages_active = λ n ip. ok false;
  new_session = λ n region endpoint. ok tt;
  list_objects = λ n bucket prefix. ok ("redis/0/node-a/cp-1/pages-1.img" ∷ []);
  delete_objects = λ n bucket keys. ok tt;
}
