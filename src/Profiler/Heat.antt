-- ===== src/Profiler/Heat.antt =====
-- pkg/profiler/heat.go: which chunks of memory are hot. A ratio is a pair of a count of dirty pages and
-- one of all pages, and the threshold is a fraction; the comparison is exact, where Go rounds the
-- quotient to a float64.
pub mod Streak
pub mod Tracking
pub mod Tiling
use criu_migration_operator.Base.{
  ℕ, zero, suc, ◌+◌, ◌-◌, ◌*◌, ◌/◌, ◌%◌, ◌^◌, String, Bool, true, false, ◌&&◌, List, [], ◌∷◌,
  Option, none, some, ltb, leb, ◌==◌, get_or, set, replicate, keep, any, length, map, if◌then◌else◌,
}
use criu_migration_operator.Profiler.Areas.{VmaType, heap, page_size, sub64}

abbrev pub window_size : ℕ
window_size = 10

-- 4 MB, the granularity of CRIU's compressed frames.
abbrev pub chunk_bytes : ℕ
chunk_bytes = 4194304

-- vmaChunkCount
unfoldable pub vma_chunk_count : (start end : ℕ) → ℕ
unfolding sub64
vma_chunk_count start end = (sub64 end start + chunk_bytes - 1) % 2 ^ 64 / chunk_bytes

pub record ScanResult : Type 0 where
  pub vma_start : ℕ
  pub vma_end : ℕ
  pub dirty_pages : ℕ
  pub total_pages : ℕ
  pub vma_type : VmaType
  pub pathname : String
  pub chunk_dirty : List ℕ

abbrev pub ChunkKey : Type 0
ChunkKey = ℕ × ℕ

abbrev pub same_key : ChunkKey → ChunkKey → Bool
same_key (a, i) (b, j) = a == b && i == j

pub record ChunkHeat : Type 0 where
  pub vma_start : ℕ
  pub vma_end : ℕ
  pub chunk_idx : ℕ
  pub chunk_start : ℕ
  pub chunk_end : ℕ
  pub ratios : List (ℕ × ℕ)
  pub head : ℕ
  pub count : ℕ
  pub consecutive_hot : ℕ
  pub is_hot : Bool
  pub last_dirty : ℕ
  pub last_total : ℕ
  pub vma_type : VmaType
  pub pathname : String

pub record Classifier : Type 0 where
  pub threshold_num : ℕ
  pub threshold_den : ℕ
  pub hot_consecutive : ℕ
  pub states : List (ChunkKey × ChunkHeat)

pub record HotRegion : Type 0 where
  pub start_addr : ℕ
  pub end_addr : ℕ
  pub written_ratio : ℕ × ℕ
  pub consecutive_hot : ℕ

-- newHeatClassifier
unfoldable pub new_heat_classifier : (num den consecutive : ℕ) → Classifier
new_heat_classifier num den consecutive = record {
  threshold_num = num;
  threshold_den = den;
  hot_consecutive = consecutive;
  states = [];
}

-- The state of a chunk that is seen for the first time.
unfoldable pub new_chunk : ScanResult → ℕ → ChunkHeat
new_chunk r ci = record {
  vma_start = r.vma_start;
  vma_end = 0;
  chunk_idx = ci;
  chunk_start = 0;
  chunk_end = 0;
  ratios = replicate window_size (0, 0);
  head = 0;
  count = 0;
  consecutive_hot = 0;
  is_hot = false;
  last_dirty = 0;
  last_total = 0;
  vma_type = heap;
  pathname = "";
}

unfoldable pub chunk_start_of : ScanResult → ℕ → ℕ
chunk_start_of r ci = (r.vma_start + ci * chunk_bytes) % 2 ^ 64

unfoldable pub chunk_end_of : ScanResult → ℕ → ℕ
unfolding chunk_start_of
chunk_end_of r ci =
    let e = (chunk_start_of r ci + chunk_bytes) % 2 ^ 64 in if ltb r.vma_end e then r.vma_end else e

unfoldable pub chunk_pages_of : ScanResult → ℕ → ℕ
unfolding chunk_start_of chunk_end_of sub64
chunk_pages_of r ci = sub64 (chunk_end_of r ci) (chunk_start_of r ci) / page_size

-- ratio > hotThreshold; the ratio of a chunk without pages is 0.
unfoldable pub exceeds : Classifier → ℕ × ℕ → Bool
exceeds h (dirty, pages) =
    if pages == 0 then false else ltb (h.threshold_num * pages) (dirty * h.threshold_den)

-- The window and the counters after a ratio.
unfoldable pub heated : Classifier → ℕ × ℕ → ChunkHeat → ChunkHeat
unfolding exceeds
heated h ratio s =
    let streak = if exceeds h ratio then suc s.consecutive_hot else 0 in
    record s {
      ratios = set s.ratios s.head ratio;
      head = (s.head + 1) % window_size;
      count = if ltb s.count window_size then s.count + 1 else s.count;
      consecutive_hot = streak;
      is_hot = leb h.hot_consecutive streak;
    }

-- The dirty pages of a chunk and its pages.
unfoldable pub ratio_of : ScanResult → ℕ → ℕ × ℕ
unfolding chunk_pages_of
ratio_of r ci =
    let pages = chunk_pages_of r ci in
    if pages == 0 then (0, 0) else (get_or r.chunk_dirty ci 0, pages)

-- The body of the loop over a result's chunks.
unfoldable pub visited : Classifier → ScanResult → ℕ → ChunkHeat → ChunkHeat
unfolding heated ratio_of
visited h r ci s =
    let dirty = get_or r.chunk_dirty ci 0 in
    let pages = chunk_pages_of r ci in
    heated h (ratio_of r ci) (record s {
      vma_end = r.vma_end;
      chunk_start = chunk_start_of r ci;
      chunk_end = chunk_end_of r ci;
      last_dirty = dirty;
      last_total = pages;
      vma_type = r.vma_type;
      pathname = r.pathname;
    })

unfoldable pub find_state : ChunkKey → List (ChunkKey × ChunkHeat) → Option ChunkHeat
find_state key [] = none
find_state key (entry ∷ rest) = if same_key entry.0 key then some entry.1 else find_state key rest

unfoldable pub put_state :
    ChunkKey → ChunkHeat → List (ChunkKey × ChunkHeat) → List (ChunkKey × ChunkHeat)
put_state key s [] = (key, s) ∷ []
put_state key s (entry ∷ rest) =
    if same_key entry.0 key then (key, s) ∷ rest else entry ∷ put_state key s rest

abbrev or_new : ScanResult → ℕ → Option ChunkHeat → ChunkHeat
or_new r ci none = new_chunk r ci
or_new r ci (some s) = s

abbrev pub Seen : Type 0
Seen = List ChunkKey × List (ChunkKey × ChunkHeat)

-- One chunk: its key is seen, and its state is created or changed.
unfoldable pub visit : Classifier → ScanResult → ℕ → Seen → Seen
unfolding find_state put_state visited new_chunk
visit h r ci (seen, states) =
    let key : ChunkKey = (r.vma_start, ci) in
    (key ∷ seen, put_state key (visited h r ci (or_new r ci (find_state key states))) states)

-- The chunks of a result from index `ci` on, `more` of them.
unfoldable pub visit_chunks : Classifier → ScanResult → (more ci : ℕ) → Seen → Seen
unfolding visit
visit_chunks h r zero ci s = s
visit_chunks h r (suc more) ci s = visit_chunks h r more (suc ci) (visit h r ci s)

unfoldable pub visit_results : Classifier → List ScanResult → Seen → Seen
unfolding visit_chunks
visit_results h [] s = s
visit_results h (r ∷ rest) s =
    visit_results h rest (visit_chunks h r (vma_chunk_count r.vma_start r.vma_end) 0 s)

-- The ratio that was written last.
unfoldable pub last_ratio : ChunkHeat → ℕ × ℕ
last_ratio s = get_or s.ratios ((s.head + window_size - 1) % window_size) (0, 0)

unfoldable pub hot_region : ChunkHeat → HotRegion
unfolding last_ratio
hot_region s = record {
  start_addr = s.chunk_start;
  end_addr = s.chunk_end;
  written_ratio = last_ratio s;
  consecutive_hot = s.consecutive_hot;
}

abbrev pub hot_entries : List (ChunkKey × ChunkHeat) → List (ChunkKey × ChunkHeat)
hot_entries states = keep (λ (e : ChunkKey × ChunkHeat). e.1.is_hot) states

abbrev pub is_seen : List ChunkKey → ChunkKey × ChunkHeat → Bool
is_seen seen entry = any (same_key entry.0) seen

-- update: the classifier, and the hot chunks.
unfoldable pub update : Classifier → List ScanResult → Classifier × List HotRegion
unfolding visit_results hot_region
update h results =
    let (seen, states) = visit_results h results ([], h.states) in
    let kept = keep (is_seen seen) states in
    (
      record h { states = kept },
      map (λ (e : ChunkKey × ChunkHeat). hot_region e.1) (hot_entries kept),
    )

-- reset
unfoldable pub reset : Classifier → Classifier
reset h = record h { states = [] }

-- totalChunks
unfoldable pub total_chunks : Classifier → ℕ
total_chunks h = length h.states

-- hotVMAs, which counts hot chunks.
unfoldable pub hot_vmas : Classifier → ℕ
hot_vmas h = length (hot_entries h.states)
