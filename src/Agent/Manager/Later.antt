-- ===== src/Agent/Manager/Later.antt =====
-- The uploads of the CheckpointManager forget nothing that happened.
use criu_migration_operator.Base.{
  ℕ, String, List, [], ◌∷◌, ◌≡◌, refl, ◌∙◌, ◌<>◌, str_eq, Bool, true, false, if◌then◌else◌,
}
use criu_migration_operator.Base.Splitting.{path_join}
use criu_migration_operator.Cluster.{Result, ok, err}
use criu_migration_operator.Host.{Host, Event, World, ask, pure}
use criu_migration_operator.Host.Trace.{Happened, before}
use criu_migration_operator.Agent.Manager.{
  Manager, uploaded_file, upload_files, upload_logs, log_files, upload_agent_metadata, agent_files,
}

-- The same manager, and nothing that happened is forgotten.
pub record IsLater (w u : World Manager) : Type 0 where
  pub self : u.self ≡ w.self
  pub kept : (e : Event) → Happened e w.trace → Happened e u.trace

IsLater-refl : (w : World Manager) → IsLater w w
IsLater-refl w = record { self = refl; kept = λ e h. h }

module _ (host : Host) where
  uploaded_file-IsLater :
      (path key : String) (r : Result ℕ) (w : World Manager)
      → IsLater w (uploaded_file host path key r w).1
  unfolding uploaded_file
  uploaded_file-IsLater path key (err e) w = IsLater-refl w
  uploaded_file-IsLater path key (ok size) w = record { self = refl; kept = λ e h. before h }

  upload_files-IsLater :
      (dir prefix : String) (names : List String) (w : World Manager)
      → IsLater w (upload_files host dir prefix names w).1
  unfolding upload_files
  upload_files-IsLater dir prefix [] w = IsLater-refl w
  upload_files-IsLater dir prefix (name ∷ rest) w =
      let (found, u) = ask host (λ n. host.stat n (path_join dir name)) w in
      let first = uploaded_file-IsLater (path_join dir name) (prefix <> "/" <> name) found u in
      let others = upload_files-IsLater dir prefix rest _ in
      record { self = others.self ∙ first.self; kept = λ e h. others.kept e (first.kept e h) }

  either-IsLater :
      (b : Bool) (dir prefix : String) (names : List String) (w : World Manager)
      → IsLater w ((if b then upload_files host dir prefix names else pure tt) w).1
  either-IsLater true dir prefix names w = upload_files-IsLater dir prefix names w
  either-IsLater false dir prefix names w = IsLater-refl w

  pub upload_logs-IsLater :
      (dir prefix : String) (w : World Manager) → IsLater w (upload_logs host dir prefix w).1
  unfolding upload_logs
  upload_logs-IsLater dir prefix w =
      either-IsLater (str_eq (host.getenv "LOG_UPLOAD") "true") dir (prefix <> "/logs") log_files w

  pub upload_agent_metadata-IsLater :
      (dir prefix : String) (w : World Manager)
      → IsLater w (upload_agent_metadata host dir prefix w).1
  unfolding upload_agent_metadata
  upload_agent_metadata-IsLater dir prefix w = upload_files-IsLater dir prefix agent_files w
