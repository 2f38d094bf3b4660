-- ===== src/Cluster/Trace.antt =====
-- What a list of calls holds, and actions that leave the object and the calls that matter alone.
use criu_migration_operator.Base.{
  ℕ, Bool, true, false, List, [], ◌≡◌, refl, ap, ◌∙◌, count_if, if◌then◌else◌,
}
use criu_migration_operator.Kube.{Pod, Deployment}
use criu_migration_operator.Cluster.{
  Call, pod_created, dumped, restored, Env, World, M, call, delete_pod, update_pod,
  update_deployment, ◌>>=◌, ◌>>◌, pure,
}

abbrev pub is_dump : Call → Bool
is_dump (dumped ip request a) = true
is_dump _ = false

abbrev pub is_create : Call → Bool
is_create (pod_created pod a) = true
is_create _ = false

abbrev pub is_restore : Call → Bool
is_restore (restored ip request a) = true
is_restore _ = false

abbrev pub dumps : List Call → ℕ
dumps = count_if is_dump

abbrev pub creates : List Call → ℕ
creates = count_if is_create

abbrev pub restores : List Call → ℕ
restores = count_if is_restore

-- The object is the same, and nothing was dumped, created or restored.
pub record SameView (w u : World) : Type 0 where
  pub app : u.app ≡ w.app
  pub dumps : dumps u.trace ≡ dumps w.trace
  pub creates : creates u.trace ≡ creates w.trace
  pub restores : restores u.trace ≡ restores w.trace

-- The object is the same, and no call has changed anything outside.
pub record IsIdle (w u : World) : Type 0 where
  pub app : u.app ≡ w.app
  pub trace : u.trace ≡ w.trace

pub IsIdle-SameView : {w u : World} → IsIdle w u → SameView w u
IsIdle-SameView i = record {
  app = i.app;
  dumps = ap dumps i.trace;
  creates = ap creates i.trace;
  restores = ap restores i.trace;
}

pub record IsQuiet {A : Type 0} (m : M A) : Type 0 where
  pub at : (w : World) → SameView w (m w).1

pub SameView-refl : (w : World) → SameView w w
SameView-refl w = record { app = refl; dumps = refl; creates = refl; restores = refl }

pub SameView-trans : {u v w : World} → SameView u v → SameView v w → SameView u w
SameView-trans a b = record {
  app = b.app ∙ a.app;
  dumps = b.dumps ∙ a.dumps;
  creates = b.creates ∙ a.creates;
  restores = b.restores ∙ a.restores;
}

pub IsQuiet-pure : {A : Type 0} (a : A) → IsQuiet (pure a)
IsQuiet-pure a = record { at = SameView-refl }

pub IsQuiet-bind :
    {A B : Type 0} {m : M A} {f : A → M B}
    → IsQuiet m
    → ((a : A) → IsQuiet (f a))
    → IsQuiet (m >>= f)
IsQuiet-bind {m = m} q r = record { at = λ w. SameView-trans (q.at w) ((r (m w).0).at (m w).1) }

pub IsQuiet-then : {A B : Type 0} {m : M A} {n : M B} → IsQuiet m → IsQuiet n → IsQuiet (m >> n)
IsQuiet-then {m = m} q r = record { at = λ w. SameView-trans (q.at w) (r.at (m w).1) }

pub IsQuiet-if :
    {A : Type 0} (b : Bool) {m n : M A} → IsQuiet m → IsQuiet n → IsQuiet (if b then m else n)
IsQuiet-if true q r = q
IsQuiet-if false q r = r

-- A call that leaves nothing in the trace.
pub IsQuiet-read : {A : Type 0} (env : Env) (answer : ℕ → A) → IsQuiet (call env answer (λ a. []))
IsQuiet-read env answer = record {
  at = λ w. record { app = refl; dumps = refl; creates = refl; restores = refl };
}

pub IsQuiet-delete_pod : (env : Env) (pod : Pod) → IsQuiet (delete_pod env pod)
IsQuiet-delete_pod env pod = record {
  at = λ w. record { app = refl; dumps = refl; creates = refl; restores = refl };
}

pub IsQuiet-update_pod : (env : Env) (pod : Pod) → IsQuiet (update_pod env pod)
IsQuiet-update_pod env pod = record {
  at = λ w. record { app = refl; dumps = refl; creates = refl; restores = refl };
}

pub IsQuiet-update_deployment : (env : Env) (d : Deployment) → IsQuiet (update_deployment env d)
IsQuiet-update_deployment env d = record {
  at = λ w. record { app = refl; dumps = refl; creates = refl; restores = refl };
}
