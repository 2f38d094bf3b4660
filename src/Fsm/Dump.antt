-- ===== src/Fsm/Dump.antt =====
-- pkg/controller/migration_fsm.go: the stage Dumping, the final dump of the source process.
use criu_migration_operator.Base.{
  ℕ, String, Bool, false, not, ◌||◌, str_eq, ◌<>◌, itoa, if◌then◌else◌,
}
use criu_migration_operator.Kube.{Pod}
use criu_migration_operator.Api.{Stage, MigratableApp, MigrationStatusInfo, uploaded, is_dumping}
use criu_migration_operator.Cluster.{
  Env, M, Result, ok, err, Outcome, requeue, FinalDumpResponse, ◌>>=◌, pure, the_app, read_app,
}
use criu_migration_operator.AgentClient.{new_agent_client, final_dump}
use criu_migration_operator.Fsm.Transition.{move_to, transition_to_final_dump_failed}

abbrev pub page_server_port : ℕ
page_server_port = 9999

-- The strategy in force, lazy-storage by default.
unfoldable pub strategy_of : MigratableApp → String
strategy_of app =
    let s = app.spec.migration_policy.strategy in if str_eq s "" then "lazy-storage" else s

unfoldable pub uses_page_server : String → Bool
uses_page_server strategy = str_eq strategy "lazy-direct" || str_eq strategy "lazy-hybrid"

-- The guard against a stale cache: the object was read afresh, and its stage is another one.
abbrev pub has_moved_on : (Stage → Bool) → Result MigratableApp → Bool
has_moved_on expected (ok fresh) = not (expected fresh.status.migration.stage)
has_moved_on expected (err e) = false

-- The S3 prefix of a dump.
unfoldable pub s3_prefix : MigratableApp → Pod → String → String
s3_prefix app source dump_id =
    app.meta.name
    <> "/"
    <> itoa app.status.generation
    <> "/"
    <> source.spec.node_name
    <> "/"
    <> dump_id

-- What the transition to Uploaded records.
unfoldable pub record_dump :
    MigratableApp → Pod → FinalDumpResponse → MigrationStatusInfo → MigrationStatusInfo
unfolding strategy_of uses_page_server s3_prefix
record_dump app source response m =
    let page_server = uses_page_server (strategy_of app) in
    record m {
      uploaded_dump_id = response.dump_id;
      uploaded_s3_prefix = s3_prefix app source response.dump_id;
      uploaded_pipe_inodes = response.pipe_inodes;
      page_server_addr = if page_server then source.pod_ip else "";
      page_server_port = if page_server then page_server_port else 0;
      last_error = "";
    }

module _ (env : Env) (source : Pod) where
  unfoldable pub after_dump : Result FinalDumpResponse → M Outcome
  after_dump (err e) = transition_to_final_dump_failed env e.text
  after_dump (ok response) = do
    app ← the_app
    move_to env uploaded (record_dump app source response) requeue

  -- The request for the dump; a page-server listens on every address.
  unfoldable pub dump_call : MigratableApp → String → M (Result FinalDumpResponse)
  unfolding final_dump strategy_of uses_page_server
  dump_call app ip =
      let strategy = strategy_of app in
      let page_server = uses_page_server strategy in
      final_dump env ip (if page_server then "0.0.0.0" else "")
        (if page_server then page_server_port else 0)
        app.status.checkpoint_status.last_checkpoint_id strategy

  unfoldable pub dump_through : Result String → M Outcome
  unfolding after_dump dump_call
  dump_through (err e) =
      transition_to_final_dump_failed env ("failed to connect to source agent: " <> e.text)
  dump_through (ok ip) = do app ← the_app; response ← dump_call app ip; after_dump response

  -- The body of the handler behind its guard.
  unfoldable pub dump : M Outcome
  unfolding dump_through
  dump = do agent ← new_agent_client env source; dump_through agent

  -- fsmDumpingHandler
  unfoldable pub dumping_handler : M Outcome
  dumping_handler = do
    app ← the_app
    fresh ← read_app env app.meta.namespace app.meta.name
    if has_moved_on is_dumping fresh then pure requeue else dump
