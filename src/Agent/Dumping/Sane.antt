-- ===== src/Agent/Dumping/Sane.antt =====
-- When the agent knows of every userfaultfd that is open in the target.
use criu_migration_operator.Base.{
  ℕ, if◌then◌else◌, ◌==◌, Bool, true, false, Option, none, some, ◌≡◌, refl, ap, sym, ◌∙◌, arith,
  subst, inl, inr, Bool-cases,
}
use criu_migration_operator.Cluster.{Result, ok, err}
use criu_migration_operator.Host.{Host, Act, World, zoom}
use criu_migration_operator.Host.Trace.{open_uffds, IsClean}
use criu_migration_operator.Host.Safe.{SafeStep}
use criu_migration_operator.Profiler.Lifecycle.{Profiler}
use criu_migration_operator.Profiler.Lifecycle.Counting.{attached}
use criu_migration_operator.Agent.Manager.{find_main_process_pid}
use criu_migration_operator.Agent.Manager.Quiet.{find_main_process_pid-trace}
use criu_migration_operator.Agent.State.{Agent, on_manager, found_pid, ensure_main_pid}

abbrev pub held : Option Profiler → ℕ
held none = 0
held (some p) = attached p.target_fd

-- The userfaultfds that are open in the target are those of the agent's profiler, and CRIU never ran
-- while one was.
pub record IsSane (w : World Agent) : Type 0 where
  pub balance : open_uffds w.trace ≡ held w.self.profiler
  pub clean : IsClean w.trace

-- No userfaultfd is open, and the agent's profiler knows of none.
pub record IsFree (w : World Agent) : Type 0 where
  pub none_open : open_uffds w.trace ≡ 0
  pub unheld : held w.self.profiler ≡ 0
  pub clean : IsClean w.trace

pub IsFree-IsSane : {w : World Agent} → IsFree w → IsSane w
IsFree-IsSane f = record { balance = f.none_open ∙ sym f.unheld; clean = f.clean }

-- What a safe step that leaves the profiler alone keeps.
pub Safe-IsFree :
    {w u : World Agent}
    → SafeStep w.trace u.trace
    → u.self.profiler ≡ w.self.profiler
    → IsFree w
    → IsFree u
Safe-IsFree t e f = record {
  none_open = t.opens ∙ f.none_open;
  unheld = ap held e ∙ f.unheld;
  clean = t.clean f.none_open f.clean;
}

-- The same events.
pub record Leaves (w u : World Agent) : Type 0 where
  pub trace : u.trace ≡ w.trace
  pub profiler : u.self.profiler ≡ w.self.profiler

pub Leaves-IsSane : {w u : World Agent} → Leaves w u → IsSane w → IsSane u
Leaves-IsSane l s = record {
  balance = ap open_uffds l.trace ∙ s.balance ∙ ap held (sym l.profiler);
  clean = subst IsClean (sym l.trace) s.clean;
}

pub Leaves-IsFree : {w u : World Agent} → Leaves w u → IsFree w → IsFree u
Leaves-IsFree l f = record {
  none_open = ap open_uffds l.trace ∙ f.none_open;
  unheld = ap held l.profiler ∙ f.unheld;
  clean = subst IsClean (sym l.trace) f.clean;
}

pub IsSane-if :
    {A : Type 0} (b : Bool) (m k : Act Agent A) (w : World Agent)
    → IsSane (m w).1
    → IsSane (k w).1
    → IsSane ((if b then m else k) w).1
IsSane-if true m k w s t = s
IsSane-if false m k w s t = t

pub attached-none : (fd : Option ℕ) → attached fd ≡ 0 → fd ≡ none
attached-none none e = refl
attached-none (some fd) e = absurd (omega (arith, e))

module _ (host : Host) where
  found_pid-Leaves : (r : Result ℕ) (w : World Agent) → Leaves w (found_pid host r w).1
  unfolding found_pid
  found_pid-Leaves (ok pid) w = record { trace = refl; profiler = refl }
  found_pid-Leaves (err e) w = record { trace = refl; profiler = refl }

  pub ensure_main_pid-Leaves : (w : World Agent) → Leaves w (ensure_main_pid host w).1
  unfolding ensure_main_pid zoom
  ensure_main_pid-Leaves w =
      let (found, u) = on_manager (find_main_process_pid host) w in
      let l = found_pid-Leaves found u in
      let e =
        find_main_process_pid-trace host
          (record { self = w.self.manager; now = w.now; step = w.step; trace = w.trace }) in
      elim (Bool-cases (w.self.main_pid == 0)) [
        | inl z ↦ rw z (record { trace = l.trace ∙ e; profiler = l.profiler })
        | inr z ↦ rw z (record { trace = refl; profiler = refl })
      ]
