-- ===== src/Api.antt =====
-- The custom resource: api/v1alpha1/migratableapp_types.go. A text that the schema restricts to an
-- enumeration is a data type where the code switches on it. `int` fields that the code tests for
-- their sign are integers, all other counters are natural numbers.
use criu_migration_operator.Base.{ℕ, String, Bool, true, false, List, Option, Map}
use criu_migration_operator.Base.Int.{ℤ}
use criu_migration_operator.Kube.{ObjectMeta, PodTemplateSpec}

-- `idle` is the empty text.
pub data Stage : Type 0 where
  idle pre_checkpointing quiescing dumping uploaded restoring : Stage
  restore_failed final_dump_failed failed : Stage

pub record MigrationStatusInfo : Type 0 where
  pub stage : Stage
  pub retry_count : ℕ
  pub max_retries : ℕ
  pub last_error : String
  pub last_transition_time : ℕ
  pub uploaded_dump_id : String
  pub uploaded_s3_prefix : String
  pub uploaded_pipe_inodes : Map
  pub previous_node : String
  pub current_target_pod : String
  pub migration_reason : String
  pub page_server_addr : String
  pub page_server_port : ℕ

pub record MigrationRecord : Type 0 where
  pub from_node : String
  pub to_node : String
  pub timestamp : ℕ
  pub reason : String
  pub duration : ℕ
  pub success : Bool
  pub message : String

pub record CheckpointStatus : Type 0 where
  pub last_checkpoint_id : String
  pub last_checkpoint_time : ℕ
  pub chain_depth : ℕ
  pub chain_root : String

-- Status.Phase; `none_yet` is the empty text.
pub data Phase : Type 0 where
  none_yet pending running migrating failed : Phase

pub record MigratableAppStatus : Type 0 where
  pub phase : Phase
  pub generation : ℕ
  pub current_node : String
  pub current_pod_name : String
  pub migration_history : List MigrationRecord
  pub checkpoint_status : CheckpointStatus
  pub migration : MigrationStatusInfo
  pub last_update_time : ℕ

pub record DeadlineSchedulerConfig : Type 0 where
  pub dry_run : Bool
  pub deadline_seconds : ℤ
  pub bandwidth_mbps : ℤ
  pub scan_interval_ms : ℤ
  pub t_freeze_ms : ℤ
  pub t_margin_ms : ℤ

pub record CheckpointPolicy : Type 0 where
  pub interval : String
  pub auto_adjust : Bool
  pub memory_threshold_mb : ℤ
  pub max_chain_depth : ℤ
  pub deadline_scheduler : DeadlineSchedulerConfig

pub record PreDumpQuiesce : Type 0 where
  pub target_pod_selector : Map
  pub drain_seconds : ℤ
  pub action : String

pub record MigrationPolicy : Type 0 where
  pub strategy : String
  pub auto_migrate : Bool
  pub target_node_selector : Map
  pub prefer_on_demand : Bool
  pub migration_timeout_seconds : ℤ
  pub pre_dump_quiesce : Option PreDumpQuiesce

pub record StorageConfig : Type 0 where
  pub kind : String  -- Type
  pub bucket : String
  pub endpoint : String
  pub download_endpoint : String
  pub region : String
  pub credentials_secret : String
  pub express_one_zone : Bool
  pub async_prefetch : Bool
  pub prefetch_workers : ℤ
  pub direct_upload : Bool
  pub semi_sync_iov : Option Bool
  pub hot_iov_seed : Option Bool
  pub log_upload : Bool
  pub compress : Bool
  pub compress_level : ℤ
  pub compress_workers : ℤ

pub record MigratableAppSpec : Type 0 where
  pub template : PodTemplateSpec
  pub checkpoint_policy : CheckpointPolicy
  pub migration_policy : MigrationPolicy
  pub storage : StorageConfig

pub record MigratableApp : Type 0 where
  pub meta : ObjectMeta
  pub spec : MigratableAppSpec
  pub status : MigratableAppStatus

-- Tests of a stage, the comparisons that the code makes.
abbrev pub is_idle : Stage → Bool
is_idle idle = true
is_idle _ = false

abbrev pub is_dumping : Stage → Bool
is_dumping dumping = true
is_dumping _ = false

abbrev pub is_uploaded : Stage → Bool
is_uploaded uploaded = true
is_uploaded _ = false

-- The zero value of the struct, `MigrationStatusInfo{}`.
abbrev pub no_migration : MigrationStatusInfo
no_migration = record {
  stage = idle;
  retry_count = 0;
  max_retries = 0;
  last_error = "";
  last_transition_time = 0;
  uploaded_dump_id = "";
  uploaded_s3_prefix = "";
  uploaded_pipe_inodes = List.[];
  previous_node = "";
  current_target_pod = "";
  migration_reason = "";
  page_server_addr = "";
  page_server_port = 0;
}
