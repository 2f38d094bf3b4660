-- ===== src/PodBuilder/Agent.antt =====
-- pkg/controller/pod_builder.go: BuildAgentContainer, the agent's sidecar.
use criu_migration_operator.Base.{
  String, Bool, true, false, not, ◌&&◌, List, [], ◌∷◌, ◌++◌, Option, none, some, str_eq, ◌<>◌,
  format_bool, itoa_int, if◌then◌else◌,
}
use criu_migration_operator.Base.Int.{is_pos}
use criu_migration_operator.Kube.{EnvVar, Container}
use criu_migration_operator.Api.{MigratableApp, StorageConfig, DeadlineSchedulerConfig}

-- PodBuilder, with the controller's own environment, which it reads by os.Getenv.
pub record PodBuilder : Type 0 where
  pub app : MigratableApp
  pub aws_access_key : String
  pub aws_secret_key : String
  pub getenv : String → String

abbrev pub work_dir : String
work_dir = "/tmp/.criu-checkpoints"

-- getAgentImage
unfoldable pub agent_image : (String → String) → String
agent_image getenv =
    let img = getenv "AGENT_IMAGE" in if str_eq img "" then "criu-agent:latest" else img

abbrev pub value_var : String → String → EnvVar
value_var name value = record { name = name; value = value; field_path = none }

abbrev pub field_var : String → String → EnvVar
field_var name path = record { name = name; value = ""; field_path = some path }

abbrev when : Bool → EnvVar → List EnvVar
when b e = if b then e ∷ [] else []

-- A pointer that is set, to false.
abbrev is_set_false : Option Bool → Bool
is_set_false none = false
is_set_false (some b) = not b

unfoldable pub storage_vars : StorageConfig → List EnvVar
storage_vars s =
    value_var "S3_BUCKET" s.bucket
    ∷ value_var "S3_ENDPOINT" s.endpoint
    ∷ value_var "S3_REGION" s.region
    ∷ value_var "DOWNLOAD_ENDPOINT" s.download_endpoint
    ∷ value_var "EXPRESS_ONE_ZONE" (format_bool s.express_one_zone)
    ∷ value_var "ASYNC_PREFETCH" (format_bool s.async_prefetch)
    ∷ value_var "DIRECT_UPLOAD" (format_bool s.direct_upload)
    ∷ value_var "STORAGE_TYPE" s.kind
    ∷ value_var "LOG_UPLOAD" (format_bool s.log_upload)
    ∷ []

unfoldable pub compress_vars : StorageConfig → List EnvVar
compress_vars s =
    if s.compress
    then value_var "CRIU_COMPRESS" "true"
      ∷ (when (is_pos s.compress_level)
            (value_var "CRIU_COMPRESS_LEVEL" (itoa_int s.compress_level))
          ++ when (is_pos s.compress_workers)
              (value_var "CRIU_COMPRESS_WORKERS" (itoa_int s.compress_workers)))
    else []

unfoldable pub tuning_vars : StorageConfig → List EnvVar
unfolding compress_vars
tuning_vars s =
    when (is_pos s.prefetch_workers) (value_var "PREFETCH_WORKERS" (itoa_int s.prefetch_workers))
    ++ (when (is_set_false s.semi_sync_iov) (value_var "NO_SEMI_SYNC_IOV" "true")
        ++ (when (is_set_false s.hot_iov_seed) (value_var "NO_HOT_VMA_SEED" "true")
            ++ compress_vars s))

unfoldable pub deadline_vars : DeadlineSchedulerConfig → List EnvVar
deadline_vars d =
    when (is_pos d.deadline_seconds) (value_var "DEADLINE_SECONDS" (itoa_int d.deadline_seconds))
    ++ (when (is_pos d.bandwidth_mbps) (value_var "BANDWIDTH_MBPS" (itoa_int d.bandwidth_mbps))
        ++ (when (is_pos d.scan_interval_ms)
              (value_var "DEADLINE_SCAN_INTERVAL_MS" (itoa_int d.scan_interval_ms))
            ++ (when (is_pos d.t_freeze_ms)
                  (value_var "DEADLINE_TFREEZE_MS" (itoa_int d.t_freeze_ms))
                ++ (when (is_pos d.t_margin_ms)
                      (value_var "DEADLINE_TMARGIN_MS" (itoa_int d.t_margin_ms))
                    ++ when d.dry_run (value_var "DEADLINE_SCHEDULER_DRY_RUN" "true")))))

unfoldable pub credential_vars : PodBuilder → List EnvVar
credential_vars b =
    if not (str_eq b.aws_access_key "") && not (str_eq b.aws_secret_key "")
    then value_var "AWS_ACCESS_KEY_ID" b.aws_access_key
      ∷ value_var "AWS_SECRET_ACCESS_KEY" b.aws_secret_key
      ∷ []
    else []

-- The whole environment, in the order in which the code appends it.
unfoldable pub agent_env : PodBuilder → String → List EnvVar
unfolding storage_vars tuning_vars deadline_vars credential_vars
agent_env b mode =
    let profiler = b.getenv "DISABLE_AUTO_PROFILER" in
    field_var "POD_NAME" "metadata.name"
    ∷ field_var "POD_NAMESPACE" "metadata.namespace"
    ∷ field_var "NODE_NAME" "spec.nodeName"
    ∷ (storage_vars b.app.spec.storage
        ++ (tuning_vars b.app.spec.storage
            ++ (field_var "POD_GENERATION" "metadata.annotations['migration.io/generation']"
                ∷ (when (str_eq mode "restore") (
                      field_var "SOURCE_POD_IP"
                        "metadata.annotations['migration.io/source-pod-ip']")
                    ++ (value_var "AUTO_ADJUST"
                          (format_bool b.app.spec.checkpoint_policy.auto_adjust)
                        ∷ (when (not (str_eq profiler ""))
                              (value_var "DISABLE_AUTO_PROFILER" profiler)
                            ++ (deadline_vars b.app.spec.checkpoint_policy.deadline_scheduler
                                ++ credential_vars b)))))))

unfoldable pub build_agent_container : PodBuilder → String → Container
unfolding agent_env agent_image
build_agent_container b mode = record {
  name = "criu-agent";
  image = agent_image b.getenv;
  pull_policy = "Always";
  command = [];
  args = ("--mode=" <> mode) ∷ [];
  working_dir = "";
  env = agent_env b mode;
  env_from = [];
  ports = record { name = "grpc"; container_port = 8080 } ∷ [];
  volume_mounts =
      record { name = "checkpoints"; mount_path = work_dir; read_only = false }
      ∷ record { name = "podinfo"; mount_path = "/etc/podinfo"; read_only = true }
      ∷ [];
  security_context = some (record { privileged = some true; capabilities_add = none });
}
