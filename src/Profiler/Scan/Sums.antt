-- ===== src/Profiler/Scan/Sums.antt =====
-- The counters of an area's chunks add up to its dirty pages.
use criu_migration_operator.Base.{
  ℕ, zero, suc, ◌+◌, ◌-◌, ◌*◌, ◌/◌, ◌%◌, ◌^◌, ◌≤◌, ◌<◌, ◌≡◌, refl, List, [], ◌∷◌, false, ◌==◌,
  if◌then◌else◌, ltb, length, get_or, set, replicate, length-set, length-replicate, ◌∙◌, subst,
  lt→ltb, arith,
}
use criu_migration_operator.Profiler.Areas.{VmaInfo, AddrRange, page_size, sub64}
use criu_migration_operator.Profiler.Heat.{chunk_bytes, vma_chunk_count}
use criu_migration_operator.Profiler.Scan.{
  bump, mark_pages, mark_region, mark_regions, dirty_pages_of, scan_result,
}

abbrev pub sum : List ℕ → ℕ
sum [] = 0
sum (n ∷ rest) = n + sum rest

sum-set :
    (counts : List ℕ) (i : ℕ)
    → i < length counts
    → sum (set counts i (get_or counts i 0 + 1)) ≡ sum counts + 1
sum-set [] i h = absurd (omega arith)
sum-set (n ∷ rest) zero h = omega arith
sum-set (n ∷ rest) (suc i) h = omega (arith, sum-set rest i (omega arith))

get_or-set :
    (counts : List ℕ) (i j v : ℕ)
    → i < length counts
    → get_or (set counts i v) j 0 ≡ (if i == j then v else get_or counts j 0)
get_or-set [] i j v h = absurd (omega arith)
get_or-set (n ∷ rest) zero zero v h = refl
get_or-set (n ∷ rest) zero (suc j) v h = ground arith
get_or-set (n ∷ rest) (suc i) zero v h = ground arith
get_or-set (n ∷ rest) (suc i) (suc j) v h = ground (arith, get_or-set rest i j v (omega arith))

-- No chunk's counter is ahead of the pages below `addr`, nor above a chunk's 1024 pages.
abbrev IsFilled : (vma_start addr : ℕ) → List ℕ → Type 0
IsFilled vma_start addr counts =
    (i : ℕ)
    → (get_or counts i 0 * page_size ≤ addr - (vma_start + i * chunk_bytes))
      × (get_or counts i 0 ≤ 1024)

module _ (v : VmaInfo) (in_user_space : v.end + chunk_bytes < 2 ^ 63) where
  abbrev chunks : ℕ
  chunks = vma_chunk_count v.start v.end

  -- The address of a page of the area.
  abbrev IsPage : ℕ → Type 0
  IsPage addr = (v.start ≤ addr) × (addr < v.end) × ((addr - v.start) % page_size ≡ 0)

  chunk_of_page :
      (addr : ℕ) → IsPage addr → sub64 addr v.start / chunk_bytes ≡ (addr - v.start) / chunk_bytes
  unfolding sub64
  chunk_of_page addr p = ground arith

  chunk_of_page-lt : (addr : ℕ) → IsPage addr → (addr - v.start) / chunk_bytes < chunks
  unfolding vma_chunk_count sub64
  chunk_of_page-lt addr p = ground arith

  bump_lem :
      (addr : ℕ) (counts : List ℕ)
      → IsPage addr
      → IsFilled v.start addr counts
      → bump v.start addr counts chunks
        ≡ set counts
            ((addr - v.start) / chunk_bytes)
            (get_or counts ((addr - v.start) / chunk_bytes) 0 + 1)
  unfolding bump
  bump_lem addr counts p f =
      rw (chunk_of_page addr p)
        (ground (arith, chunk_of_page-lt addr p, f ((addr - v.start) / chunk_bytes)))

  bump-IsFilled :
      (addr : ℕ) (counts : List ℕ)
      → IsPage addr
      → length counts ≡ chunks
      → IsFilled v.start addr counts
      → IsFilled v.start (addr + page_size) (bump v.start addr counts chunks)
  bump-IsFilled addr counts p n f i =
      let ci = (addr - v.start) / chunk_bytes in
      rw (bump_lem addr counts p f) (
        rw
          (get_or-set counts ci i (get_or counts ci 0 + 1)
            (omega (arith, n, chunk_of_page-lt addr p)))
          (ground (arith, f i, f ci, p.0, p.2)))

  length-bump :
      (addr : ℕ) (counts : List ℕ) → length (bump v.start addr counts chunks) ≡ length counts
  unfolding bump
  length-bump addr counts = ground (
    arith,
    length-set counts (sub64 addr v.start / chunk_bytes)
        (get_or counts (sub64 addr v.start / chunk_bytes) 0 + 1),
  )

  sum-bump :
      (addr : ℕ) (counts : List ℕ)
      → IsPage addr
      → length counts ≡ chunks
      → IsFilled v.start addr counts
      → sum (bump v.start addr counts chunks) ≡ sum counts + 1
  sum-bump addr counts p n f =
      rw (bump_lem addr counts p f) (
        sum-set counts ((addr - v.start) / chunk_bytes) (omega (arith, n, chunk_of_page-lt addr p)))

  -- What holds of the counters between two pages: the next page is at `addr`.
  record IsAt (addr : ℕ) (counts : List ℕ) : Type 0 where
    length_lem : length counts ≡ chunks
    filled : IsFilled v.start addr counts

  bump-IsAt :
      (addr : ℕ) (counts : List ℕ)
      → IsPage addr
      → IsAt addr counts
      → IsAt (addr + page_size) (bump v.start addr counts chunks)
  bump-IsAt addr counts p a = record {
    length_lem = length-bump addr counts ∙ a.length_lem;
    filled = bump-IsFilled addr counts p a.length_lem a.filled;
  }

  -- The loop over `pages` pages from `addr` to `end`.
  mark_pages-sum :
      (pages rounds addr end : ℕ) (counts : List ℕ)
      → pages < rounds
      → end ≡ addr + pages * page_size
      → v.start ≤ addr
      → (addr - v.start) % page_size ≡ 0
      → end ≤ v.end
      → IsAt addr counts
      → (sum (mark_pages rounds addr end v.start chunks counts) ≡ sum counts + pages)
        × IsAt end (mark_pages rounds addr end v.start chunks counts)
  unfolding mark_pages
  mark_pages-sum zero zero addr end counts h e low aligned high a = elim h [ ]
  mark_pages-sum (suc pages) zero addr end counts h e low aligned high a = elim h [ ]
  mark_pages-sum zero (suc rounds) addr end counts h e low aligned high a =
      rw (not_below) (omega arith, subst (λ (x : ℕ). IsAt x counts) (omega (arith, e)) a)
    where
      not_below : ltb addr end ≡ false
      not_below = ground arith
  mark_pages-sum (suc pages) (suc rounds) addr end counts h e low aligned high a =
      let page : IsPage addr = (low, omega (arith, e, high), aligned) in
      let (total, after) =
        mark_pages-sum pages rounds (addr + page_size) end (bump v.start addr counts chunks)
          (omega arith) (omega (arith, e)) (omega arith) (omega arith) high
          (bump-IsAt addr counts page a) in
      rw (lt→ltb addr end (omega (arith, e)))
        (omega (arith, total, sum-bump addr counts page a.length_lem a.filled), after)

  -- A region that the kernel may report: whole pages of the area, at or after `addr`.
  pub record IsRegion (addr : ℕ) (r : AddrRange) : Type 0 where
    pub after : addr ≤ r.start
    pub ordered : r.start ≤ r.end
    pub within : r.end ≤ v.end
    pub start_aligned : (r.start - v.start) % page_size ≡ 0
    pub end_aligned : (r.end - r.start) % page_size ≡ 0

  mark_region-sum :
      (addr : ℕ) (r : AddrRange) (counts : List ℕ)
      → v.start ≤ addr
      → IsRegion addr r
      → IsAt addr counts
      → (sum (mark_region v r counts) ≡ sum counts + (r.end - r.start) / page_size)
        × IsAt r.end (mark_region v r counts)
  unfolding mark_region
  mark_region-sum addr r counts low g a =
      mark_pages-sum ((r.end - r.start) / page_size) (suc ((r.end - r.start) / page_size)) r.start
        r.end counts (omega arith) (omega (arith, g.ordered, g.end_aligned))
        (omega (arith, g.after)) g.start_aligned g.within
        (record { length_lem = a.length_lem; filled = λ i. omega (arith, a.filled i, g.after) })

  -- The regions of a scan: in order, and none overlaps the one before.
  abbrev pub AreRegions : (addr : ℕ) → List AddrRange → Type 0
  AreRegions addr [] = Unit
  AreRegions addr (r ∷ rest) = IsRegion addr r × AreRegions r.end rest

  mark_regions-sum :
      (found : List AddrRange) (addr : ℕ) (counts : List ℕ)
      → v.start ≤ addr
      → AreRegions addr found
      → IsAt addr counts
      → sum (mark_regions v found counts) ≡ sum counts + dirty_pages_of found
  unfolding mark_regions dirty_pages_of sub64
  mark_regions-sum [] addr counts low g a = omega arith
  mark_regions-sum (r ∷ rest) addr counts low g a =
      let (total, after) = mark_region-sum addr r counts low g.0 a in
      let there =
        mark_regions-sum rest r.end (mark_region v r counts) (omega (arith, g.0.after, g.0.ordered))
          g.1 after in
      ground (arith, total, there, g.0.ordered)

  zeros-IsFilled : (n : ℕ) → IsFilled v.start v.start (replicate n 0)
  zeros-IsFilled zero i = omega arith
  zeros-IsFilled (suc n) zero = omega arith
  zeros-IsFilled (suc n) (suc i) = omega (arith, zeros-IsFilled n i)

  sum-zeros : (n : ℕ) → sum (replicate n 0) ≡ 0
  sum-zeros zero = refl
  sum-zeros (suc n) = omega (arith, sum-zeros n)

  -- The counters of the chunks of an area of user space add up to the dirty pages that the scan records
  -- for it, for any regions of whole pages that lie in the area, in order and disjoint.
  pub chunk_dirty-sum :
      (found : List AddrRange)
      → AreRegions v.start found
      → sum (scan_result v found).chunk_dirty ≡ (scan_result v found).dirty_pages
  unfolding scan_result
  chunk_dirty-sum found g = omega (
    arith,
    sum-zeros chunks,
    mark_regions-sum found v.start (replicate chunks 0) (omega arith) g
        (record { length_lem = length-replicate chunks 0; filled = zeros-IsFilled chunks }),
  )
