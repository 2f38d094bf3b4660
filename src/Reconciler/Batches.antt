-- ===== src/Reconciler/Batches.antt =====
-- The deletion of checkpoints in batches.
use native.Mathlib.Nat.{zero-add, suc-add}
use mathlib.Core.List.{append-nil, append_assoc}
use criu_migration_operator.Base.{
  ℕ, zero, suc, ◌+◌, ◌-◌, ◌≤◌, ◌<◌, ◌≡◌, refl, sym, ◌∙◌, ap, String, List, [], ◌∷◌, ◌++◌, ltb,
  length, take, drop, slice_of, flatten, All, arith, inl, inr, Bool-cases, ltb→lt,
}
use criu_migration_operator.Cluster.{Env, World, Call, objects_deleted, delete_objects, ok}
use criu_migration_operator.Reconciler.Cleanup.{
  batch_size, batch_end, batches_from, batches, delete_each, delete_listed,
}

module _ {ℓ} {A : Type ℓ} where
  length-drop : (n : ℕ) (xs : List A) → length (drop n xs) ≡ length xs - n
  length-drop zero xs = omega arith
  length-drop (suc n) [] = omega arith
  length-drop (suc n) (x ∷ xs) = omega (arith, length-drop n xs)

  length-take : (n : ℕ) (xs : List A) → n ≤ length xs → length (take n xs) ≡ n
  length-take zero xs h = refl
  length-take (suc n) [] h = omega arith
  length-take (suc n) (x ∷ xs) h = omega (arith, length-take n xs (omega arith))

  take-all : (n : ℕ) (xs : List A) → length xs ≤ n → take n xs ≡ xs
  take-all zero [] h = refl
  take-all zero (x ∷ xs) h = absurd (omega arith)
  take-all (suc n) [] h = refl
  take-all (suc n) (x ∷ xs) h = ap (λ l. x ∷ l) (take-all n xs (omega arith))

  drop-all : (n : ℕ) (xs : List A) → length xs ≤ n → drop n xs ≡ []
  drop-all zero [] h = refl
  drop-all zero (x ∷ xs) h = absurd (omega arith)
  drop-all (suc n) [] h = refl
  drop-all (suc n) (x ∷ xs) h = drop-all n xs (omega arith)

  take-drop : (n : ℕ) (xs : List A) → take n xs ++ drop n xs ≡ xs
  take-drop zero xs = refl
  take-drop (suc n) [] = refl
  take-drop (suc n) (x ∷ xs) = ap (λ l. x ∷ l) (take-drop n xs)

  drop-drop : (n m : ℕ) (xs : List A) → drop m (drop n xs) ≡ drop (n + m) xs
  drop-drop zero m xs = rw (zero-add m) refl
  drop-drop (suc n) m [] = drop-all m [] (omega arith) ∙ sym (drop-all (suc n + m) [] (omega arith))
  drop-drop (suc n) m (x ∷ xs) = rw (suc-add n m) (drop-drop n m xs)

  slice-rest : (i n : ℕ) (xs : List A) → take n (drop i xs) ++ drop (i + n) xs ≡ drop i xs
  slice-rest i n xs = rw (sym (drop-drop i n xs)) (take-drop n (drop i xs))

  -- The last slice is what is left.
  slice-last :
      (i n : ℕ) (xs : List A)
      → length xs ≤ i + n
      → take (length xs - i) (drop i xs) ++ drop (i + n) xs ≡ drop i xs
  slice-last i n xs h =
      rw
        (
          take-all (length xs - i) (drop i xs) (omega (arith, length-drop i xs)),
          drop-all (i + n) xs h,
        )
        (append-nil (drop i xs))

add-sub : (i n : ℕ) → i + n - i ≡ n
add-sub i n = omega arith

module _ (keys : List String) where
  -- A batch and what follows it.
  batch-rest :
      (i : ℕ)
      → i < length keys
      → slice_of i (batch_end i (length keys)) keys ++ drop (i + batch_size) keys ≡ drop i keys
  unfolding batch_end
  batch-rest i h = elim (Bool-cases (ltb (length keys) (i + batch_size))) [
    | inl e ↦
        rw e (slice-last i batch_size keys (omega (arith, ltb→lt (length keys) (i + batch_size) e)))
    | inr e ↦ rw (e, add-sub i batch_size) (slice-rest i batch_size keys)
  ]

  batches_from-flatten :
      (rounds i : ℕ) → length keys ≤ rounds + i → flatten (batches_from rounds i keys) ≡ drop i keys
  unfolding batches_from
  batches_from-flatten zero i h = sym (drop-all i keys (omega arith))
  batches_from-flatten (suc rounds) i h =
      let more = batches_from-flatten rounds (i + batch_size) (omega arith) in
      elim (Bool-cases (ltb i (length keys))) [
        | inl e ↦ rw (e, more) (batch-rest i (ltb→lt i (length keys) e))
        | inr e ↦ rw e (sym (drop-all i keys (ground arith)))
      ]

  batch-size_bounded :
      (i : ℕ)
      → i < length keys
      → let n = length (slice_of i (batch_end i (length keys)) keys) in (0 < n) × (n ≤ batch_size)
  unfolding batch_end
  batch-size_bounded i h =
      let e = batch_end i (length keys) in
      ground (arith, length-take (e - i) (drop i keys), length-drop i keys)

  batches_from-bounded :
      (rounds i : ℕ)
      → All (λ b. (0 < length b) × (length b ≤ batch_size)) (batches_from rounds i keys)
  unfolding batches_from
  batches_from-bounded zero i = tt
  batches_from-bounded (suc rounds) i =
      let more = batches_from-bounded rounds (i + batch_size) in
      elim (Bool-cases (ltb i (length keys))) [
        | inl e ↦ rw e (batch-size_bounded i (ltb→lt i (length keys) e), more)
        | inr e ↦ rw e tt
      ]

  -- The batches are not empty, have no more than 1000 objects each, and are the whole list in order.
  pub batches-partition :
      All (λ b. (0 < length b) × (length b ≤ batch_size)) (batches keys)
      × (flatten (batches keys) ≡ keys)
  unfolding batches
  batches-partition =
      (batches_from-bounded (length keys) 0, batches_from-flatten (length keys) 0 (omega arith))

-- The keys that were asked to be deleted, in the order of the calls.
abbrev pub deleted : List Call → List String
deleted [] = []
deleted (objects_deleted bucket keys r ∷ rest) = deleted rest ++ keys
deleted (c ∷ rest) = deleted rest

module _ (env : Env) where
  delete_each-deleted :
      (bucket : String) (l : List (List String)) (w : World)
      → deleted (delete_each env bucket l w).1.trace ≡ deleted w.trace ++ flatten l
  unfolding delete_each
  delete_each-deleted bucket [] w = sym (append-nil (deleted w.trace))
  delete_each-deleted bucket (keys ∷ rest) w =
      delete_each-deleted bucket rest (delete_objects env bucket keys w).1
      ∙ append_assoc (deleted w.trace) keys (flatten rest)

  -- The deletion of the listed objects asks for every one of them once and in their order, whatever the
  -- storage answers to a batch.
  pub delete_listed-deleted :
      (bucket : String) (keys : List String) (w : World)
      → deleted (delete_listed env bucket (ok keys) w).1.trace ≡ deleted w.trace ++ keys
  unfolding delete_listed
  delete_listed-deleted bucket keys w =
      delete_each-deleted bucket (batches keys) w
      ∙ ap (λ l. deleted w.trace ++ l) (batches-partition keys).1
