-- ===== src/Profiler/Heat/Streak.antt =====
-- What the counters of a chunk say of its scans.
use criu_migration_operator.Base.{
  ℕ, zero, suc, ◌+◌, ◌-◌, ◌%◌, ◌≤◌, ◌<◌, ◌≡◌, refl, ◌∙◌, true, List, [], ◌∷◌, leb, get_or, set,
  length, take, All, ◌↔◌, length-set, arith, if◌then◌else◌,
}
use criu_migration_operator.Profiler.Heat.{
  window_size, ScanResult, ChunkHeat, Classifier, exceeds, heated, ratio_of, visited, last_ratio,
  new_chunk,
}

-- The scans of one chunk, newest first, from the state `s`.
unfoldable pub visits : Classifier → ℕ → List ScanResult → ChunkHeat → ChunkHeat
visits h ci [] s = s
visits h ci (r ∷ rest) s = visited h r ci (visits h ci rest s)

-- How many scans in a row, up to the newest one, are above the threshold.
abbrev pub streak : Classifier → ℕ → List ScanResult → ℕ
streak h ci [] = 0
streak h ci (r ∷ rest) =
    let before = streak h ci rest in if exceeds h (ratio_of r ci) then suc before else 0

get_or-set {ℓ} :
    {A : Type ℓ} (l : List A) (i : ℕ) (v d : A) → i < length l → get_or (set l i v) i d ≡ v
get_or-set [] i v d h = absurd (omega arith)
get_or-set (x ∷ l) zero v d h = refl
get_or-set (x ∷ l) (suc i) v d h = get_or-set l i v d (omega arith)

-- The head stays inside the window, which keeps its length.
pub record InWindow (s : ChunkHeat) : Type 0 where
  pub head : s.head < window_size
  pub window : length s.ratios ≡ window_size

visited-InWindow :
    (h : Classifier) (r : ScanResult) (ci : ℕ) (s : ChunkHeat)
    → InWindow s
    → InWindow (visited h r ci s)
unfolding visited heated
visited-InWindow h r ci s q = record {
  head = omega arith;
  window = length-set s.ratios s.head (ratio_of r ci) ∙ q.window;
}

visits-InWindow :
    (h : Classifier) (ci : ℕ) (scans : List ScanResult) (s : ChunkHeat)
    → InWindow s
    → InWindow (visits h ci scans s)
unfolding visits
visits-InWindow h ci [] s q = q
visits-InWindow h ci (r ∷ rest) s q =
    visited-InWindow h r ci (visits h ci rest s) (visits-InWindow h ci rest s q)

new_chunk-InWindow : (r : ScanResult) (ci : ℕ) → InWindow (new_chunk r ci)
unfolding new_chunk
new_chunk-InWindow r ci = record { head = omega arith; window = refl }

back-head : (n : ℕ) → n < window_size → ((n + 1) % window_size + window_size - 1) % window_size ≡ n
back-head n h = omega arith

visited-last :
    (h : Classifier) (r : ScanResult) (ci : ℕ) (s : ChunkHeat)
    → InWindow s
    → last_ratio (visited h r ci s) ≡ ratio_of r ci
unfolding visited heated last_ratio
visited-last h r ci s q =
    rw (back-head s.head q.head)
      (get_or-set s.ratios s.head (ratio_of r ci) (0, 0) (omega (arith, q.head, q.window)))

visits-streak :
    (h : Classifier) (ci : ℕ) (scans : List ScanResult) (s : ChunkHeat)
    → s.consecutive_hot ≡ 0
    → (visits h ci scans s).consecutive_hot ≡ streak h ci scans
unfolding visits visited heated
visits-streak h ci [] s e = e
visits-streak h ci (r ∷ rest) s e = rw (visits-streak h ci rest s e) refl

visited-is_hot :
    (h : Classifier) (r : ScanResult) (ci : ℕ) (s : ChunkHeat)
    → (visited h r ci s).is_hot ≡ leb h.hot_consecutive (visited h r ci s).consecutive_hot
unfolding visited heated
visited-is_hot h r ci s = refl

-- There are `n` scans, and the newest `n` are above the threshold.
abbrev pub AreAbove : Classifier → ℕ → ℕ → List ScanResult → Type 0
AreAbove h ci n scans =
    (n ≤ length scans) × All (λ r. exceeds h (ratio_of r ci) ≡ true) (take n scans)

streak-AreAbove :
    (h : Classifier) (ci n : ℕ) (scans : List ScanResult)
    → (n ≤ streak h ci scans) ↔ AreAbove h ci n scans
streak-AreAbove h ci zero [] = ground arith
streak-AreAbove h ci zero (r ∷ rest) = ground arith
streak-AreAbove h ci (suc n) [] = ground arith
streak-AreAbove h ci (suc n) (r ∷ rest) = ground (arith, streak-AreAbove h ci n rest)

-- A chunk that is tracked since it was first seen is hot exactly if it has been scanned at least as
-- often as the classifier asks for and the last scans, that many, were all above the threshold; and
-- its last ratio is that of the newest scan.
pub visits-hot :
    (h : Classifier) (ci : ℕ) (first newest : ScanResult) (older : List ScanResult)
    → let s = visits h ci (newest ∷ older) (new_chunk first ci) in
      ((s.is_hot ≡ true) ↔ AreAbove h ci h.hot_consecutive (newest ∷ older))
      × (last_ratio s ≡ ratio_of newest ci)
unfolding visits new_chunk
visits-hot h ci first newest older =
    let start = new_chunk first ci in
    let s = visits h ci older start in
    (
      ground (
        arith,
        visited-is_hot h newest ci s,
        visits-streak h ci (newest ∷ older) start refl,
        streak-AreAbove h ci h.hot_consecutive (newest ∷ older),
      ),
      visited-last h newest ci s (visits-InWindow h ci older start (new_chunk-InWindow first ci)),
    )
