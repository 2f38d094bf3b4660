-- ===== src/Profiler/Heat/Tiling.antt =====
-- How an area is cut into chunks.
use criu_migration_operator.Base.{ℕ, suc, ◌+◌, ◌^◌, ◌≤◌, ◌<◌, ◌≡◌, arith}
use criu_migration_operator.Profiler.Areas.{sub64}
use criu_migration_operator.Profiler.Heat.{
  ScanResult, chunk_bytes, vma_chunk_count, chunk_start_of, chunk_end_of, chunk_pages_of,
}

module _ (r : ScanResult) (ordered : r.vma_start < r.vma_end)
    (in_user_space : r.vma_end + chunk_bytes < 2 ^ 63) where
  -- The chunks of an area of user space cover it without a gap: the first one starts with it, each one
  -- starts where the one before ends, the last one ends with it, and none has more than 1024 pages.
  pub chunks-tile :
      (i : ℕ)
      → i < vma_chunk_count r.vma_start r.vma_end
      → (chunk_start_of r 0 ≡ r.vma_start)
        × (suc i < vma_chunk_count r.vma_start r.vma_end
            → chunk_end_of r i ≡ chunk_start_of r (suc i))
        × (suc i ≡ vma_chunk_count r.vma_start r.vma_end → chunk_end_of r i ≡ r.vma_end)
        × (chunk_start_of r i < chunk_end_of r i)
        × (chunk_pages_of r i ≤ 1024)
  unfolding vma_chunk_count chunk_start_of chunk_end_of chunk_pages_of sub64
  chunks-tile i h = ground arith
