-- ===== src/Profiler/Scan.antt =====
-- pkg/profiler/scan.go: the scan of the dirty pages of all areas. The ioctl itself is outside, as an
-- answer of the host; what the code makes of its regions is here. Addresses are of user space, below
-- 2^63, where the loop's `addr += pageSize` does not wrap.
pub mod Sums
use criu_migration_operator.Base.{
  ℕ, zero, suc, ◌+◌, ◌-◌, ◌/◌, Bool, true, false, ◌&&◌, List, [], ◌∷◌, Option, none, some, ltb,
  get_or, set, replicate, if◌then◌else◌,
}
use criu_migration_operator.Cluster.{Result, ok, err, other}
use criu_migration_operator.Host.{
  Host, ScanAnswer, regions, not_permitted, failed, Act, ask, pure, ◌>>=◌, ◌>>◌,
}
use criu_migration_operator.Profiler.Areas.{
  VmaInfo, AddrRange, is_writable, pages_of, page_size, sub64,
}
use criu_migration_operator.Profiler.Heat.{ScanResult, chunk_bytes, vma_chunk_count}

-- ^uint16(0)
abbrev pub max_count : ℕ
max_count = 65535

-- One dirty page: the counter of its chunk, unless that is out of range or at its limit.
unfoldable pub bump : (vma_start addr : ℕ) → List ℕ → (chunks : ℕ) → List ℕ
unfolding sub64
bump vma_start addr counts chunks =
    let ci = sub64 addr vma_start / chunk_bytes in
    if ltb ci chunks && ltb (get_or counts ci 0) max_count
    then set counts ci (get_or counts ci 0 + 1)
    else counts

-- for addr := start; addr < end; addr += pageSize. A region has no more rounds than pages, and one for a
-- part of a page.
unfoldable pub mark_pages : (rounds addr end vma_start chunks : ℕ) → List ℕ → List ℕ
unfolding bump
mark_pages zero addr end vma_start chunks counts = counts
mark_pages (suc rounds) addr end vma_start chunks counts =
    let rest =
      mark_pages rounds (addr + page_size) end vma_start chunks
        (bump vma_start addr counts chunks) in
    if ltb addr end then rest else counts

unfoldable pub mark_region : VmaInfo → AddrRange → List ℕ → List ℕ
unfolding mark_pages sub64
mark_region v r counts =
    mark_pages (suc ((r.end - r.start) / page_size)) r.start r.end v.start
      (vma_chunk_count v.start v.end) counts

unfoldable pub mark_regions : VmaInfo → List AddrRange → List ℕ → List ℕ
unfolding mark_region
mark_regions v [] counts = counts
mark_regions v (r ∷ rest) counts = mark_regions v rest (mark_region v r counts)

unfoldable pub dirty_pages_of : List AddrRange → ℕ
unfolding sub64
dirty_pages_of [] = 0
dirty_pages_of (r ∷ rest) = sub64 r.end r.start / page_size + dirty_pages_of rest

-- What the scan records of one area.
unfoldable pub scan_result : VmaInfo → List AddrRange → ScanResult
unfolding mark_regions dirty_pages_of
scan_result v found = record {
  vma_start = v.start;
  vma_end = v.end;
  dirty_pages = dirty_pages_of found;
  total_pages = pages_of v;
  vma_type = v.kind;
  pathname = v.pathname;
  chunk_dirty = mark_regions v found (replicate (vma_chunk_count v.start v.end) 0);
}

abbrev pub Scanned : Type 0
Scanned = List ScanResult × ℕ

abbrev with_result : ScanResult → Result Scanned → Result Scanned
with_result r (ok (results, total)) = ok (r ∷ results, r.dirty_pages + total)
with_result r (err e) = err e

module _ {S : Type 0} (host : Host) where
  -- An area that cannot be scanned is skipped, but EPERM ends the scan: write protection is off.
  unfoldable pub after_scan : VmaInfo → Act S (Result Scanned) → ScanAnswer → Act S (Result Scanned)
  unfolding scan_result
  after_scan v others not_permitted =
      pure (err (record { code = other; text = "PM_SCAN_WP_MATCHING EPERM: uffd-wp not active" }))
  after_scan v others failed = others
  after_scan v others (regions found) = do
    rest ← others
    pure (with_result (scan_result v found) rest)

  -- scanDirtyPages
  unfoldable pub scan_dirty_pages : List VmaInfo → Act S (Result Scanned)
  unfolding after_scan
  scan_dirty_pages [] = pure (ok ([], 0))
  scan_dirty_pages (v ∷ rest) =
      if is_writable v
      then (do answer ← ask host (λ n. host.scan n v); after_scan v (scan_dirty_pages rest) answer)
      else scan_dirty_pages rest
