-- ===== src/Agent/Status.antt =====
-- pkg/agent/server.go: the RPCs GetStatus and CheckPageServerStatus, the annotations of the pod, and the
-- command line of the application.
pub mod Reading
use criu_migration_operator.Base.{
  ℕ, ◌-◌, ◌/◌, String, Bool, true, false, not, ◌==◌, str_eq, ◌<>◌, itoa, if◌then◌else◌,
}
use criu_migration_operator.Base.Duration.{second}
use criu_migration_operator.Base.Splitting.{contains}
use criu_migration_operator.Cluster.{Result, ok, err}
use criu_migration_operator.Host.{Host, Act, ask, pure, self, modify, clock, ◌>>=◌, ◌>>◌}
use criu_migration_operator.Fsm.Retry.{is_not_found}
use criu_migration_operator.Agent.Manager.{find_main_process_pid}
use criu_migration_operator.Agent.State.{Agent, on_manager}

pub record AgentStatus : Type 0 where
  pub mode : String
  pub main_process_pid : ℕ
  pub last_checkpoint_id : String
  pub checkpoint_chain_depth : ℕ
  pub node_name : String
  pub pod_name : String
  pub uptime_seconds : ℕ
  pub lazy_pages_active : Bool

abbrev pid_or_zero : Result ℕ → ℕ
pid_or_zero (ok pid) = pid
pid_or_zero (err e) = 0

pub record PageServerStatus : Type 0 where
  pub is_alive : Bool
  pub exit_code : ℕ
  pub status_message : String

abbrev dead : String → PageServerStatus
dead message = record { is_alive = false; exit_code = 0; status_message = message }

terminated : (pid : ℕ) → PageServerStatus
terminated pid = dead ("Page-server process " <> itoa pid <> " has terminated")

-- What the command line of a process says. A zombie has none.
unfoldable pub status_by_command : (pid : ℕ) → Result String → PageServerStatus
unfolding terminated
status_by_command pid (err e) = terminated pid
status_by_command pid (ok line) =
    if str_eq line ""
    then dead ("Page-server process " <> itoa pid <> " has terminated (zombie)")
    else if not (contains line "criu")
    then dead ("Process " <> itoa pid <> " is not a CRIU process")
    else record {
      is_alive = true;
      exit_code = 0;
      status_message = "Page-server process " <> itoa pid <> " is still running";
    }

-- os.IsNotExist of the error of os.Stat
abbrev is_missing : Result ℕ → Bool
is_missing (ok size) = false
is_missing (err e) = is_not_found e.code

module _ (host : Host) where
  refresh_pid : (pid : ℕ) → Act Agent Unit
  refresh_pid pid =
      if pid == 0
      then (do
        found ← on_manager (find_main_process_pid host)
        modify (λ (a : Agent). record a { main_pid = pid_or_zero found }))
      else pure tt

  -- The RPC GetStatus
  unfoldable pub get_status : Act Agent AgentStatus
  unfolding refresh_pid
  get_status = do
    a ← self
    refresh_pid a.main_pid
    b ← self
    now ← clock
    pure (record {
      mode = b.mode;
      main_process_pid = b.main_pid;
      last_checkpoint_id = b.manager.last_checkpoint_id;
      checkpoint_chain_depth = b.manager.chain_depth;
      node_name = b.node_name;
      pod_name = b.pod_name;
      uptime_seconds = (now - b.start_time) / second;
      lazy_pages_active = b.lazy_pages_active;
    })

  read_command : (pid : ℕ) → Act Agent PageServerStatus
  unfolding status_by_command
  read_command pid = do
    line ← ask host (λ n. host.read_file n ("/proc/" <> itoa pid <> "/cmdline"))
    pure (status_by_command pid line)

  -- The RPC CheckPageServerStatus
  unfoldable pub check_page_server_status : (pid : ℕ) → Act Agent PageServerStatus
  unfolding read_command terminated
  check_page_server_status pid = do
    found ← ask host (λ n. host.stat n ("/proc/" <> itoa pid))
    if is_missing found then pure (terminated pid) else read_command pid
