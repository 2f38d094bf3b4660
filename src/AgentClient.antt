-- ===== src/AgentClient.antt =====
-- pkg/controller/client.go: the gRPC client of an agent. A connected client is the pod's address.
use criu_migration_operator.Base.{
  ℕ, String, Bool, false, ◌||◌, ◌∷◌, [], str_eq, ◌<>◌, Map, if◌then◌else◌,
}
use criu_migration_operator.Kube.{Pod}
use criu_migration_operator.Cluster.{
  Env, M, Result, ok, err, other, ◌>>=◌, pure, call, dial, FinalDumpResponse, dumped, restored,
  FinalDumpRequest, RestoreRequest, pre_checkpointed,
}

-- A dial that fails is reported with the address.
unfoldable pub dialled : String → Result Unit → Result String
dialled ip (ok u) = ok ip
dialled ip (err e) =
    err (record e { text = "failed to connect to agent at " <> ip <> ":8080: " <> e.text })

module _ (env : Env) where
  unfoldable pub new_agent_client : Pod → M (Result String)
  unfolding dialled
  new_agent_client pod =
      if str_eq pod.pod_ip ""
      then pure (err (record { code = other; text = "pod has no IP address" }))
      else do answer ← dial env (pod.pod_ip <> ":8080"); pure (dialled pod.pod_ip answer)

  abbrev pub pre_checkpoint : (ip parent_id : String) → M (Result String)
  pre_checkpoint ip parent_id =
      call env (λ n. env.pre_checkpoint n ip parent_id) (λ a. pre_checkpointed ip parent_id a ∷ [])

  -- The request asks the agent not to leave the process running.
  unfoldable pub final_dump :
      (ip addr : String) → (port : ℕ) → (parent_id strategy : String) → M (Result FinalDumpResponse)
  final_dump ip addr port parent_id strategy =
      let request : FinalDumpRequest = record {
        page_server_addr = addr;
        page_server_port = port;
        parent_dump_id = parent_id;
        leave_running = false;
        migration_strategy = strategy;
      } in
      call env (λ n. env.final_dump n ip request) (λ a. dumped ip request a ∷ [])

  unfoldable pub restore :
      (ip dump_id bucket prefix source_addr strategy : String) → Map → M (Result Unit)
  restore ip dump_id bucket prefix source_addr strategy pipe_inodes =
      let request : RestoreRequest = record {
        dump_id = dump_id;
        s3_bucket = bucket;
        s3_prefix = prefix;
        use_lazy_pages =
            str_eq strategy "lazy-storage"
            || str_eq strategy "lazy-direct"
            || str_eq strategy "lazy-hybrid";
        page_server_port = 9999;
        source_addr = source_addr;
        migration_strategy = strategy;
        pipe_inodes = pipe_inodes;
      } in
      call env (λ n. env.restore n ip request) (λ a. restored ip request a ∷ [])

  -- GetStatus, of which the controller reads LazyPagesActive.
  abbrev pub lazy_pages_active : String → M (Result Bool)
  lazy_pages_active ip = call env (λ n. env.lazy_pages_active n ip) (λ a. [])
