-- ===== src/Profiler/Heat/Tracking.antt =====
-- What a round of the classifier does to the state of one chunk.
use criu_migration_operator.Base.{
  ℕ, zero, suc, ◌+◌, ◌≤◌, ◌<◌, ◌≡◌, refl, ap, ◌∙◌, true, false, List, [], ◌∷◌, ◌++◌, Option, none,
  some, ◌==◌, keep, any, All, arith, inl, inr, ◌⊎◌, ◌↔◌, subst, if◌then◌else◌,
}
use criu_migration_operator.Profiler.Heat.{
  ScanResult, ChunkKey, ChunkHeat, Classifier, same_key, find_state, put_state, or_new, visited,
  visit, visit_chunks, visit_results, vma_chunk_count, is_seen, update, Seen,
}

abbrev States : Type 0
States = List (ChunkKey × ChunkHeat)

same_key_iff : (a i b j : ℕ) → (same_key (a, i) (b, j) ≡ true) ↔ ((a ≡ b) × (i ≡ j))
same_key_iff a i b j = ground arith

find-put :
    (a i b j : ℕ) (s : ChunkHeat) (states : States)
    → find_state (b, j) (put_state (a, i) s states)
      ≡ (if same_key (a, i) (b, j) then some s else find_state (b, j) states)
unfolding find_state put_state
find-put a i b j s [] = refl
find-put a i b j s (((c, k), t) ∷ rest) = ground (arith, find-put a i b j s rest)

le-cases : (n m : ℕ) → n ≤ m → (n ≡ m) ⊎ (suc n ≤ m)
le-cases n m l = ground arith

module _ (h : Classifier) (r : ScanResult) where
  -- What the loop makes of the state under a key of its result.
  abbrev turned : ℕ → States → Option ChunkHeat
  turned i states = some (visited h r i (or_new r i (find_state (r.vma_start, i) states)))

  visit-own : (ci : ℕ) (s : Seen) → find_state (r.vma_start, ci) (visit h r ci s).1 ≡ turned ci s.1
  unfolding visit
  visit-own ci s =
      let t = or_new r ci (find_state (r.vma_start, ci) s.1) in
      find-put r.vma_start ci r.vma_start ci (visited h r ci t) s.1
      ∙ ground (arith, same_key_iff r.vma_start ci r.vma_start ci)

  visit-other :
      (ci a i : ℕ) (s : Seen)
      → same_key (r.vma_start, ci) (a, i) ≡ false
      → find_state (a, i) (visit h r ci s).1 ≡ find_state (a, i) s.1
  unfolding visit
  visit-other ci a i s q =
      let t = or_new r ci (find_state (r.vma_start, ci) s.1) in
      rw (find-put r.vma_start ci a i (visited h r ci t) s.1, q) refl

  -- The loop over the chunks from `ci` on leaves other areas and the chunks before it alone.
  chunks-other :
      (more ci a i : ℕ) (s : Seen)
      → ((r.vma_start ≡ a) → i < ci)
      → find_state (a, i) (visit_chunks h r more ci s).1 ≡ find_state (a, i) s.1
  unfolding visit_chunks
  chunks-other zero ci a i s q = refl
  chunks-other (suc more) ci a i s q =
      chunks-other more (suc ci) a i (visit h r ci s) (λ e. omega (arith, q e))
      ∙ visit-other ci a i s (ground (arith, q))

  chunks-own :
      (more ci i : ℕ) (s : Seen)
      → ci ≤ i
      → i < ci + more
      → find_state (r.vma_start, i) (visit_chunks h r more ci s).1 ≡ turned i s.1
  unfolding visit_chunks
  chunks-own zero ci i s l u = absurd (omega arith)
  chunks-own (suc more) ci i s l u = elim (le-cases ci i l) [
    | inl e ↦
        subst (λ n. find_state (r.vma_start, n) (visit_chunks h r (suc more) ci s).1 ≡ turned n s.1)
          e
          (chunks-other more (suc ci) r.vma_start ci (visit h r ci s) (λ e. omega arith)
            ∙ visit-own ci s)
    | inr k ↦
        chunks-own more (suc ci) i (visit h r ci s) k (omega arith)
        ∙ ap (λ o. some (visited h r i (or_new r i o)))
            (visit-other ci r.vma_start i s (ground arith))
  ]

  chunks-seen :
      (more ci i : ℕ) (s : Seen)
      → (any (same_key (r.vma_start, i)) s.0 ≡ true) ⊎ ((ci ≤ i) × (i < ci + more))
      → any (same_key (r.vma_start, i)) (visit_chunks h r more ci s).0 ≡ true
  unfolding visit_chunks visit
  chunks-seen zero ci i s (inl e) = e
  chunks-seen zero ci i s (inr (l, u)) = absurd (omega arith)
  chunks-seen (suc more) ci i s (inl e) =
      chunks-seen more (suc ci) i (visit h r ci s) (inl (ground (arith, e)))
  chunks-seen (suc more) ci i s (inr (l, u)) = elim (le-cases ci i l) [
    | inl e ↦
        chunks-seen more (suc ci) i (visit h r ci s)
          (inl (ground (arith, e, same_key_iff r.vma_start i r.vma_start ci)))
    | inr k ↦ chunks-seen more (suc ci) i (visit h r ci s) (inr (k, omega arith))
  ]

-- The results of other areas.
abbrev pub AreElsewhere : ℕ → List ScanResult → Type 0
AreElsewhere a = All (λ (q : ScanResult). (q.vma_start == a) ≡ false)

module _ (h : Classifier) where
  results-other :
      (a i : ℕ) (results : List ScanResult) (s : Seen)
      → AreElsewhere a results
      → find_state (a, i) (visit_results h results s).1 ≡ find_state (a, i) s.1
  unfolding visit_results
  results-other a i [] s q = refl
  results-other a i (r ∷ rest) s (q, more) =
      let n = vma_chunk_count r.vma_start r.vma_end in
      results-other a i rest (visit_chunks h r n 0 s) more
      ∙ chunks-other h r n 0 a i s (λ e. absurd (ground (arith, e, q)))

  seen-grows :
      (key : ChunkKey) (r : ScanResult) (more ci : ℕ) (s : Seen)
      → any (same_key key) s.0 ≡ true
      → any (same_key key) (visit_chunks h r more ci s).0 ≡ true
  unfolding visit_chunks visit
  seen-grows key r zero ci s e = e
  seen-grows key r (suc more) ci s e =
      seen-grows key r more (suc ci) (visit h r ci s) (ground (arith, e))

  results-seen :
      (key : ChunkKey) (results : List ScanResult) (s : Seen)
      → any (same_key key) s.0 ≡ true
      → any (same_key key) (visit_results h results s).0 ≡ true
  unfolding visit_results
  results-seen key [] s e = e
  results-seen key (r ∷ rest) s e =
      let n = vma_chunk_count r.vma_start r.vma_end in
      results-seen key rest (visit_chunks h r n 0 s) (seen-grows key r n 0 s e)

  -- A result that no other one shares the area with.
  results-own :
      (before after : List ScanResult) (r : ScanResult) (i : ℕ) (s : Seen)
      → AreElsewhere r.vma_start before
      → AreElsewhere r.vma_start after
      → i < vma_chunk_count r.vma_start r.vma_end
      → (find_state (r.vma_start, i) (visit_results h (before ++ r ∷ after) s).1 ≡ turned h r i s.1)
        × (any (same_key (r.vma_start, i)) (visit_results h (before ++ r ∷ after) s).0 ≡ true)
  unfolding visit_results
  results-own [] after r i s p q l =
      let n = vma_chunk_count r.vma_start r.vma_end in
      let u = visit_chunks h r n 0 s in
      (
        results-other r.vma_start i after u q ∙ chunks-own h r n 0 i s (omega arith) (omega arith),
        results-seen (r.vma_start, i) after u
            (chunks-seen h r n 0 i s (inr (omega arith, omega arith))),
      )
  results-own (x ∷ before) after r i s (p, ps) q l =
      let n = vma_chunk_count x.vma_start x.vma_end in
      let (found, seen) = results-own before after r i (visit_chunks h x n 0 s) ps q l in
      let same = chunks-other h x n 0 r.vma_start i s (λ e. absurd (ground (arith, e, p))) in
      (found ∙ ap (λ o. some (visited h r i (or_new r i o))) same, seen)

any-same :
    (b j a i : ℕ) (seen : List ChunkKey)
    → same_key (b, j) (a, i) ≡ true
    → any (same_key (b, j)) seen ≡ any (same_key (a, i)) seen
any-same b j a i seen e =
    let same : (b ≡ a) × (j ≡ i) = (same_key_iff b j a i).0 e in cc (same.0, same.1)

find-keep :
    (a i : ℕ) (seen : List ChunkKey) (states : States)
    → find_state (a, i) (keep (is_seen seen) states)
      ≡ (if any (same_key (a, i)) seen then find_state (a, i) states else none)
unfolding find_state
find-keep a i seen [] = ground arith
find-keep a i seen (((b, j), t) ∷ rest) =
    ground (arith, find-keep a i seen rest, any-same b j a i seen)

-- After a round every chunk of a scanned area has the state that this scan makes of the one it had
-- before, or of a new one, if no other result is about the area.
pub update-tracks :
    (h : Classifier) (before after : List ScanResult) (r : ScanResult) (i : ℕ)
    → AreElsewhere r.vma_start before
    → AreElsewhere r.vma_start after
    → i < vma_chunk_count r.vma_start r.vma_end
    → find_state (r.vma_start, i) (update h (before ++ r ∷ after)).0.states
      ≡ some (visited h r i (or_new r i (find_state (r.vma_start, i) h.states)))
unfolding update
update-tracks h before after r i p q l =
    let (found, seen) = results-own h before after r i ([], h.states) p q l in
    let (keys, states) = visit_results h (before ++ r ∷ after) ([], h.states) in
    find-keep r.vma_start i keys states ∙ rw seen found
