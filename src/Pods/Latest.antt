-- ===== src/Pods/Latest.antt =====
-- Which of the application's pods the controller takes for the current one.
use mathlib.Core.Option.{some-injective}
use criu_migration_operator.Base.{
  ℕ, ◌≤◌, ◌≡◌, ◌⊎◌, inl, inr, refl, sym, ap, ltb→lt, true, false, List, [], ◌∷◌, Option, none, some,
  Bool-cases, ltb, All, arith,
}
use criu_migration_operator.Kube.{Pod}
use criu_migration_operator.Cluster.{Error, Result, ok, err, not_found}
use criu_migration_operator.Pods.{is_deleting, later, latest, found, chosen}

-- A pod that is not being deleted.
abbrev pub IsLive : Pod → Type 0
IsLive p = is_deleting p.meta.deletion_timestamp ≡ false

-- It is among the listed pods.
abbrev pub IsListed : Pod → List Pod → Type 0
IsListed p [] = ⊥
IsListed p (q ∷ rest) = (p ≡ q) ⊎ IsListed p rest

-- No listed pod that is not being deleted was created later.
abbrev pub IsNewest : Pod → List Pod → Type 0
IsNewest p = All (λ q. IsLive q → q.meta.creation_timestamp ≤ p.meta.creation_timestamp)

abbrev created : Pod → ℕ
created p = p.meta.creation_timestamp

-- The pod that the loop ends with, from the one that it has.
data Ends (best : Option Pod) (pods : List Pod) : Option Pod → Type 0 where
  empty :
      best ≡ none
      → All (λ q. is_deleting q.meta.deletion_timestamp ≡ true) pods
      → Ends best pods none
  kept : (b : Pod) → best ≡ some b → IsNewest b pods → Ends best pods (some b)
  taken :
      (p : Pod)
      → IsListed p pods
      → IsLive p
      → IsNewest p pods
      → ((b : Pod) → best ≡ some b → created b ≤ created p)
      → Ends best pods (some p)

some-inj : {p q : Pod} → some p ≡ some q → p ≡ q
some-inj {p} {q} e = some-injective p q e

Ends-skip :
    {best : Option Pod} {rest : List Pod} {r : Option Pod} (p : Pod)
    → is_deleting p.meta.deletion_timestamp ≡ true
    → Ends best rest r
    → Ends best (p ∷ rest) r
Ends-skip p d (empty e a) = empty e (d, a)
Ends-skip p d (kept b e n) = kept b e (λ l. cc, n)
Ends-skip p d (taken q i l n o) = taken q (inr i) l (λ k. cc, n) o

-- The loop goes on with `p`, which is not older than what it had.
Ends-take :
    {best : Option Pod} {rest : List Pod} {r : Option Pod} (p : Pod)
    → IsLive p
    → ((b : Pod) → best ≡ some b → created b ≤ created p)
    → Ends (some p) rest r
    → Ends best (p ∷ rest) r
Ends-take p l o (empty e a) = absurd cc
Ends-take p l o (kept b e n) =
    let same = some-inj e in
    taken b (inl (sym same)) (rw (sym same) l) (λ k. rw same (omega arith), n)
      (λ x y. rw (sym same) (o x y))
Ends-take p l o (taken q i k n m) =
    taken q (inr i) k (λ z. m p refl, n) (λ x y. omega (arith, o x y, m p refl))

Ends-keep :
    {b : Pod} {rest : List Pod} {r : Option Pod} (p : Pod)
    → created p ≤ created b
    → Ends (some b) rest r
    → Ends (some b) (p ∷ rest) r
Ends-keep p h (empty e a) = absurd cc
Ends-keep {b = b} p h (kept c e n) = kept c e (λ k. rw (sym (some-inj e)) h, n)
Ends-keep {b = b} p h (taken q i k n m) = taken q (inr i) k (λ z. omega (arith, m b refl), n) m

latest-Ends : (best : Option Pod) (pods : List Pod) → Ends best pods (latest best pods)
unfolding latest later
latest-Ends none [] = empty refl tt
latest-Ends (some b) [] = kept b refl tt
latest-Ends none (p ∷ rest) = elim (Bool-cases (is_deleting p.meta.deletion_timestamp)) [
  | inl e ↦ rw e (Ends-skip p e (latest-Ends none rest))
  | inr e ↦ rw e (Ends-take p e (λ b h. cc) (latest-Ends (some p) rest))
]
latest-Ends (some b) (p ∷ rest) = elim (Bool-cases (is_deleting p.meta.deletion_timestamp)) [
  | inl e ↦ rw e (Ends-skip p e (latest-Ends (some b) rest))
  | inr e ↦ elim (Bool-cases (ltb (created b) (created p))) [
    | inl k ↦
        rw (e, k)
          (Ends-take p e
            (λ x y. omega (arith, ltb→lt (created b) (created p) k, ap created (some-inj y)))
            (latest-Ends (some p) rest))
    | inr k ↦ rw (e, k) (Ends-keep p (ground arith) (latest-Ends (some b) rest))
  ]
]

-- What the API server answers to the list decides: the current pod is a listed one that is not being
-- deleted, and no other such pod was created later; where every listed pod is being deleted, it is
-- not found; and an error is passed on.
pub data IsChoice : Result (List Pod) → Result Pod → Type 0 where
  newest :
      (pods : List Pod) (p : Pod)
      → IsListed p pods
      → IsLive p
      → IsNewest p pods
      → IsChoice (ok pods) (ok p)
  absent :
      (pods : List Pod) (e : Error)
      → All (λ q. is_deleting q.meta.deletion_timestamp ≡ true) pods
      → e.code ≡ not_found
      → IsChoice (ok pods) (err e)
  failed : (e : Error) → IsChoice (err e) (err e)

found-IsChoice :
    (pods : List Pod) {r : Option Pod} → Ends none pods r → IsChoice (ok pods) (found r)
unfolding found
found-IsChoice pods (empty e a) = IsChoice.absent pods _ a refl
found-IsChoice pods (kept b e n) = absurd cc
found-IsChoice pods (taken p i l n o) = IsChoice.newest pods p i l n

-- The pod that the controller works on is decided by the answer to its list: a listed pod that is not
-- being deleted, than which no other such pod is newer; not found, where all are being deleted; or
-- the error.
pub chosen-IsChoice : (r : Result (List Pod)) → IsChoice r (chosen r)
unfolding chosen
chosen-IsChoice (ok pods) = found-IsChoice pods (latest-Ends none pods)
chosen-IsChoice (err e) = IsChoice.failed e
