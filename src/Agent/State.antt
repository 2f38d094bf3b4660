-- ===== src/Agent/State.antt =====
-- pkg/agent/server.go: the state of the Agent, and how its operations act on its parts. The pointer
-- `profilerInst` is an option: no operation of the server keeps a second pointer to a profiler.
use criu_migration_operator.Base.{ℕ, String, Bool, List, Option, some, ◌==◌, if◌then◌else◌}
use criu_migration_operator.Cluster.{Result, ok, err}
use criu_migration_operator.Host.{Host, Act, pure, self, modify, zoom, ◌>>=◌, ◌>>◌}
use criu_migration_operator.Profiler.Lifecycle.{Profiler}
use criu_migration_operator.Agent.Manager.{Manager, find_main_process_pid}

pub record Agent : Type 0 where
  pub manager : Manager
  pub mode : String
  pub main_pid : ℕ
  pub start_time : ℕ
  pub node_name : String
  pub pod_name : String
  pub page_server : Option ℕ  -- pageServerCmd, by its PID
  pub page_server_dump_id : String
  pub lazy_pages_active : Bool
  pub profiler : Option Profiler
  pub prev_exclude : List (ℕ × ℕ)  -- prevExcludeSet, by start
  pub has_scheduler : Bool  -- invariantScheduler is not nil

abbrev set_manager : Manager → Agent → Agent
set_manager m a = record a { manager = m }

abbrev set_profiler : Profiler → Agent → Agent
set_profiler p a = record a { profiler = some p }

abbrev pub on_manager : {A : Type 0} → Act Manager A → Act Agent A
on_manager m = zoom (λ (a : Agent). a.manager) set_manager m

-- An operation of the profiler that the agent holds.
abbrev pub on_profiler : {A : Type 0} → Profiler → Act Profiler A → Act Agent A
on_profiler p m = zoom (λ (a : Agent). p) set_profiler m

module _ (host : Host) where
  unfoldable pub found_pid : Result ℕ → Act Agent (Result ℕ)
  found_pid (err e) = pure (err e)
  found_pid (ok pid) = do modify (λ (a : Agent). record a { main_pid = pid }); pure (ok pid)

  -- The main process, looked for where it is not known.
  unfoldable pub ensure_main_pid : Act Agent (Result ℕ)
  unfolding found_pid
  ensure_main_pid = do
    a ← self
    if a.main_pid == 0
        then (do found ← on_manager (find_main_process_pid host); found_pid found)
        else pure (ok a.main_pid)
