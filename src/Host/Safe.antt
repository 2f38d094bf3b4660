-- ===== src/Host/Safe.antt =====
-- Actions that open and close no userfaultfd, and that run CRIU at most where none is open.
use criu_migration_operator.Base.{
  ℕ, zero, suc, Bool, true, false, not, String, List, ◌∷◌, Option, none, some, ltb, ◌≡◌, refl, ◌∙◌,
  if◌then◌else◌,
}
use criu_migration_operator.Host.{Act, World, Event, criu_ran, sleep, poll, after_test, pure, ◌>>=◌}
use criu_migration_operator.Host.Trace.{open_uffds, IsClean}

pub record SafeStep (past later : List Event) : Type 0 where
  pub opens : open_uffds later ≡ open_uffds past
  pub clean : open_uffds past ≡ 0 → IsClean past → IsClean later
  pub before : IsClean later → IsClean past

pub SafeStep-refl : (past : List Event) → SafeStep past past
SafeStep-refl past = record { opens = refl; clean = λ z c. c; before = λ c. c }

pub SafeStep-trans : {u v w : List Event} → SafeStep u v → SafeStep v w → SafeStep u w
SafeStep-trans a b = record {
  opens = b.opens ∙ a.opens;
  clean = λ z c. b.clean (a.opens ∙ z) (a.clean z c);
  before = λ c. a.before (b.before c);
}

pub SafeStep-criu : (args : List String) (past : List Event) → SafeStep past (criu_ran args ∷ past)
SafeStep-criu args past = record { opens = refl; clean = λ z c. (z, c); before = λ c. c.1 }

abbrev pub IsSafe : {S A : Type 0} → Act S A → Type 0
IsSafe {S} m = (w : World S) → SafeStep w.trace (m w).1.trace

module _ {S A : Type 0} where
  pub IsSafe-if : (b : Bool) (m k : Act S A) → IsSafe m → IsSafe k → IsSafe (if b then m else k)
  IsSafe-if true m k q r = q
  IsSafe-if false m k q r = r

module _ {S A : Type 0} where
  IsSafe-after_test :
      (pause : ℕ) (again : Act S (Option A)) (found : Option A)
      → IsSafe again
      → IsSafe (after_test pause again found)
  unfolding after_test
  IsSafe-after_test pause again none q w = q (sleep pause w).1
  IsSafe-after_test pause again (some a) q w = SafeStep-refl w.trace

  pub IsSafe-poll :
      (rounds deadline pause : ℕ) (test : Act S (Option A))
      → IsSafe test
      → IsSafe (poll rounds deadline pause test)
  unfolding poll
  IsSafe-poll zero deadline pause test q w = SafeStep-refl w.trace
  IsSafe-poll (suc rounds) deadline pause test q w =
      IsSafe-if (not (ltb w.now deadline)) (pure none)
        (test >>= after_test pause (poll rounds deadline pause test)) (λ u. SafeStep-refl u.trace)
        (λ u. SafeStep-trans (q u) (
          IsSafe-after_test pause (poll rounds deadline pause test) (test u).0
            (IsSafe-poll rounds deadline pause test q) (test u).1))
        w
