-- ===== src/Agent/Status/Reading.antt =====
-- GetStatus changes nothing but the process that is known.
use criu_migration_operator.Base.{ℕ, ◌==◌, refl, inl, inr, Bool-cases}
use criu_migration_operator.Host.{Host, World, zoom}
use criu_migration_operator.Agent.Manager.Quiet.{find_main_process_pid-trace}
use criu_migration_operator.Agent.State.{Agent}
use criu_migration_operator.Agent.Dumping.Sane.{Leaves}
use criu_migration_operator.Agent.Status.{refresh_pid, get_status}

module _ (host : Host) where
  refresh_pid-Leaves : (pid : ℕ) (w : World Agent) → Leaves w (refresh_pid host pid w).1
  unfolding refresh_pid zoom
  refresh_pid-Leaves pid w =
      let e =
        find_main_process_pid-trace host
          (record { self = w.self.manager; now = w.now; step = w.step; trace = w.trace }) in
      elim (Bool-cases (pid == 0)) [
        | inl z ↦ rw z (record { trace = e; profiler = refl })
        | inr z ↦ rw z (record { trace = refl; profiler = refl })
      ]

  pub get_status-Leaves : (w : World Agent) → Leaves w (get_status host w).1
  unfolding get_status
  get_status-Leaves w = refresh_pid-Leaves w.self.main_pid w
