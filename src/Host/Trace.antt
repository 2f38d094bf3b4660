-- ===== src/Host/Trace.antt =====
-- What the agent leaves in the target's descriptors: how many of the profiler's userfaultfds are open
-- there, and whether CRIU ever ran while one was.
use criu_migration_operator.Base.{ℕ, ◌+◌, ◌-◌, List, [], ◌∷◌, ◌≡◌}
use criu_migration_operator.Host.{
  Event, criu_ran, uffd_opened, uffd_closed, uploaded, file_uploaded, removed, killed,
}

-- The userfaultfds that were opened in the target and not closed there.
abbrev pub open_uffds : List Event → ℕ
open_uffds [] = 0
open_uffds (uffd_opened pid fd ∷ past) = open_uffds past + 1
open_uffds (uffd_closed pid fd ∷ past) = open_uffds past - 1
open_uffds (criu_ran args ∷ past) = open_uffds past
open_uffds (uploaded dir prefix r ∷ past) = open_uffds past
open_uffds (file_uploaded key ∷ past) = open_uffds past
open_uffds (removed path ∷ past) = open_uffds past
open_uffds (killed pid ∷ past) = open_uffds past

-- CRIU never ran while a userfaultfd was open in the target: it cannot dump one.
abbrev pub IsClean : List Event → Type 0
IsClean [] = Unit
IsClean (criu_ran args ∷ past) = (open_uffds past ≡ 0) × IsClean past
IsClean (uffd_opened pid fd ∷ past) = IsClean past
IsClean (uffd_closed pid fd ∷ past) = IsClean past
IsClean (uploaded dir prefix r ∷ past) = IsClean past
IsClean (file_uploaded key ∷ past) = IsClean past
IsClean (removed path ∷ past) = IsClean past
IsClean (killed pid ∷ past) = IsClean past

-- The event is among those that happened.
pub data Happened (e : Event) : List Event → Type 0 where
  newest : {past : List Event} → Happened e (e ∷ past)
  before : {later : Event} {past : List Event} → Happened e past → Happened e (later ∷ past)
