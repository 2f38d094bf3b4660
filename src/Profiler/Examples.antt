-- ===== src/Profiler/Examples.antt =====
-- The properties of the profiler on small inputs.
use criu_migration_operator.Base.{
  List, ℕ, suc, ◌++◌, map, refl, false, ◌<◌, ◌≤◌, ◌≡◌, ◌↔◌, true, [], ◌∷◌, some, arith,
}
use criu_migration_operator.Profiler.Scan.{scan_result}
use criu_migration_operator.Profiler.Scan.Sums.{sum, chunk_dirty-sum}
use criu_migration_operator.Profiler.Areas.{AddrRange, heap, anonymous, VmaInfo, is_new, diff_vmas}
use criu_migration_operator.Profiler.Registering.{range_of, diff_vmas-settles}
use criu_migration_operator.Profiler.Heat.{
  ScanResult, Classifier, new_chunk, find_state, update, visited, last_ratio, ratio_of,
  vma_chunk_count,
}
use criu_migration_operator.Profiler.Heat.Tiling.{chunks-tile}
use criu_migration_operator.Profiler.Heat.{chunk_start_of, chunk_end_of, chunk_pages_of}
use criu_migration_operator.Profiler.Heat.Streak.{visits, AreAbove, visits-hot}
use criu_migration_operator.Profiler.Heat.Tracking.{update-tracks}

-- Eight pages, of which six are dirty.
abbrev scan : ScanResult
scan = record {
  vma_start = 4096;
  vma_end = 36864;
  dirty_pages = 6;
  total_pages = 8;
  vma_type = heap;
  pathname = "[heap]";
  chunk_dirty = 6 ∷ [];
}

abbrev classifier : Classifier
classifier = record { threshold_num = 1; threshold_den = 2; hot_consecutive = 2; states = [] }

visits-hot_example :
    let s = visits classifier 0 (scan ∷ scan ∷ []) (new_chunk scan 0) in
    ((s.is_hot ≡ true) ↔ AreAbove classifier 0 2 (scan ∷ scan ∷ []))
    × (last_ratio s ≡ ratio_of scan 0)
visits-hot_example = visits-hot classifier 0 scan scan (scan ∷ [])

update-tracks_example :
    find_state (4096, 0) (update classifier (scan ∷ [])).0.states
    ≡ some (visited classifier scan 0 (new_chunk scan 0))
unfolding find_state new_chunk
update-tracks_example =
    update-tracks classifier [] [] scan 0 tt tt (unfold vma_chunk_count in omega arith)

-- Two chunks, of which the second one is partial.
abbrev wide : ScanResult
wide = record scan { vma_end = 6295552 }

chunks-tile_example :
    (chunk_start_of wide 0 ≡ 4096)
    × (suc 0 < vma_chunk_count 4096 6295552 → chunk_end_of wide 0 ≡ chunk_start_of wide (suc 0))
    × (suc 0 ≡ vma_chunk_count 4096 6295552 → chunk_end_of wide 0 ≡ 6295552)
    × (chunk_start_of wide 0 < chunk_end_of wide 0)
    × (chunk_pages_of wide 0 ≤ 1024)
chunks-tile_example =
    chunks-tile wide (omega arith) (omega arith) 0 (unfold vma_chunk_count in omega arith)

abbrev area : ℕ → ℕ → VmaInfo
area start end = record {
  start = start;
  end = end;
  perms = "rw-p";
  pathname = "";
  kind = anonymous;
}

diff_vmas-settles_example :
    let current = area 4096 8192 ∷ area 16384 20480 ∷ [] in
    is_new ([] ++ map range_of (diff_vmas current [])) (area 16384 20480) ≡ false
diff_vmas-settles_example =
    diff_vmas-settles [] (area 4096 8192 ∷ []) [] (area 16384 20480) ((refl, tt), (tt, tt))

-- Four megabytes of memory, whose first page and a page of the second chunk were written.
abbrev scanned_area : VmaInfo
scanned_area = record {
  start = 4096;
  end = 4198400;
  perms = "rw-p";
  pathname = "";
  kind = anonymous;
}

abbrev written_regions : List AddrRange
written_regions =
    record { start = 4096; end = 8192 } ∷ record { start = 2105344; end = 2113536 } ∷ []

chunk_dirty-sum_example :
    sum (scan_result scanned_area written_regions).chunk_dirty
    ≡ (scan_result scanned_area written_regions).dirty_pages
chunk_dirty-sum_example = chunk_dirty-sum scanned_area (omega arith) written_regions (
  record {
    after = omega arith;
    ordered = omega arith;
    within = omega arith;
    start_aligned = refl;
    end_aligned = refl;
  },
  (
    record {
      after = omega arith;
      ordered = omega arith;
      within = omega arith;
      start_aligned = refl;
      end_aligned = refl;
    },
    tt,
  ),
)
