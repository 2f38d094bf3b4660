-- ===== src/Profiler/Lifecycle.antt =====
-- pkg/profiler/profiler.go: the profiler from its start to its end. setupUffdWP and closeTargetUffd,
-- which inject system calls by ptrace, are answers of the host. The loop's ticks are calls of
-- collect_sample; the mutex, which only orders readers and this writer, is left out.
mod Data
pub mod Counting
pub mod Opening
pub mod Resetting
use criu_migration_operator.Base.{
  ℕ, zero, suc, ◌+◌, ◌-◌, ◌*◌, ◌/◌, ◌%◌, ◌^◌, String, Bool, true, false, not, ◌&&◌, List, [], ◌∷◌,
  ◌++◌, Option, none, some, ltb, ◌==◌, any, length, map, if◌then◌else◌,
}
use criu_migration_operator.Base.Duration.{millisecond, second}
use criu_migration_operator.Cluster.{Error, Result, ok, err, other}
use criu_migration_operator.Reconciler.Checkpoint.{prefixed}
use criu_migration_operator.Host.{
  Host, UffdSetup, Act, ask, pure, self, modify, clock, note, uffd_opened, uffd_closed, ◌>>=◌, ◌>>◌,
}
use criu_migration_operator.Profiler.Areas.{
  VmaInfo, AddrRange, VmaType, heap, stack, anonymous, code_area, data_area, vdso, unknown,
  page_size, diff_vmas, writable_anonymous_vmas,
}
use criu_migration_operator.Profiler.Heat.{
  Classifier, ChunkKey, ChunkHeat, HotRegion, new_heat_classifier, last_ratio, update, reset,
  hot_vmas,
}
use criu_migration_operator.Profiler.Scan.{Scanned, scan_dirty_pages}
unfoldable pub use Data.*

module _ (host : Host) where
  -- The new areas, one by one. One that cannot be registered is skipped.
  after_register : VmaInfo → Act Profiler Unit → Result Unit → Act Profiler Unit
  after_register v others (err e) = others
  after_register v others (ok u) = do
    modify (λ p. record p {
      registered = p.registered ++ record { start = v.start; end = v.end } ∷ [];
    })
    answer ← ask host (λ n. host.write_protect n (v ∷ []))
    others

  register_new : List VmaInfo → Act Profiler Unit
  unfolding after_register
  register_new [] = pure tt
  register_new (v ∷ rest) = do
    p ← self
    answer ← ask host (λ n. host.register n p.tracker_fd (record { start = v.start; end = v.end }))
    after_register v (register_new rest) answer

  after_scanning : Result Scanned → Act Profiler Unit
  unfolding sampled
  after_scanning (err e) = pure tt
  after_scanning (ok found) = do now ← clock; modify (sampled found now)

  sample_vmas : Result (List VmaInfo) → Act Profiler Unit
  unfolding register_new after_scanning
  sample_vmas (err e) = pure tt
  sample_vmas (ok vmas) = do
    p ← self
    register_new (diff_vmas vmas p.registered)
    found ← scan_dirty_pages host (writable_anonymous_vmas vmas)
    after_scanning found

  -- collectSample
  unfoldable pub collect_sample : Act Profiler Unit
  unfolding sample_vmas
  collect_sample = do p ← self; vmas ← ask host (λ n. host.parse_vmas n p.pid); sample_vmas vmas

  -- The end of Start: the baseline, and the loop.
  after_baseline : Result Unit → Act Profiler (Result Unit)
  unfolding close
  after_baseline (err e) = do close; pure (err (prefixed "WP baseline: " e))
  after_baseline (ok u) = do
    now ← clock
    modify (λ p. record p { start_time = now; loop = running })
    pure (ok tt)

  after_verify : List VmaInfo → Result Bool → Act Profiler (Result Unit)
  unfolding after_baseline close
  after_verify vmas (err e) = do close; pure (err (prefixed "WP not active after setup: " e))
  after_verify vmas (ok false) = do
    close
    pure (err (record { code = other; text = "WP not active after setup" }))
  after_verify vmas (ok true) = do
    answer ← ask host (λ n. host.write_protect n (writable_anonymous_vmas vmas))
    after_baseline answer

  after_setup : List VmaInfo → Result UffdSetup → Act Profiler (Result Unit)
  unfolding after_verify
  after_setup vmas (err e) = do
    modify (λ p. record p { pagemap_open = false })
    pure (err (prefixed "setup uffd-wp: " e))
  after_setup vmas (ok s) = do
    p ← self
    note (uffd_opened p.pid s.target_fd)
    modify (with_setup s)
    answer ← ask host (λ n. host.verify_wp n)
    after_verify vmas answer

  after_pagemap : List VmaInfo → Result Unit → Act Profiler (Result Unit)
  unfolding after_setup
  after_pagemap vmas (err e) = pure (err (prefixed "open pagemap: " e))
  after_pagemap vmas (ok u) = do
    modify (λ p. record p { pagemap_open = true })
    p ← self
    answer ← ask host (λ n. host.setup_uffd n p.pid vmas)
    after_setup vmas answer

  start_with : Result (List VmaInfo) → Act Profiler (Result Unit)
  unfolding after_pagemap
  start_with (err e) = pure (err (prefixed "parse VMAs: " e))
  start_with (ok vmas) = do
    p ← self
    answer ← ask host (λ n. host.open_pagemap n p.pid)
    after_pagemap vmas answer

  -- Start
  unfoldable pub start : Act Profiler (Result Unit)
  unfolding start_with
  start = do p ← self; vmas ← ask host (λ n. host.parse_vmas n p.pid); start_with vmas

  -- An area that cannot be unregistered is only logged.
  unregister_all : Option ℕ → List AddrRange → Act Profiler Unit
  unregister_all fd [] = pure tt
  unregister_all fd (r ∷ rest) = do
    answer ← ask host (λ n. host.unregister n fd r)
    unregister_all fd rest

  -- A close that fails is only logged, and the number is forgotten nevertheless.
  after_close : (pid fd : ℕ) → Result Unit → Act Profiler Unit
  after_close pid fd (err e) = modify (λ q. record q { target_fd = none })
  after_close pid fd (ok u) = do
    note (uffd_closed pid fd)
    modify (λ q. record q { target_fd = none })

  close_target_fd : Option ℕ → Act Profiler Unit
  unfolding after_close
  close_target_fd none = pure tt
  close_target_fd (some fd) = do
    p ← self
    answer ← ask host (λ n. host.close_target n p.pid fd)
    after_close p.pid fd answer

  -- CleanupBeforeCRIU, which returns no error.
  unfoldable pub cleanup_before_criu : Act Profiler Unit
  unfolding stopped_profiler unregister_all close_target_fd
  cleanup_before_criu = do
    modify stopped_profiler
    p ← self
    unregister_all p.tracker_fd p.registered
    modify (λ q. record q { registered = []; heat = reset q.heat })
    close_target_fd p.target_fd
    modify (λ q. record q { tracker_fd = none })

  after_rebaseline : Result Unit → Act Profiler (Result Unit)
  after_rebaseline (err e) = pure (err (prefixed "WP baseline after reinit: " e))
  after_rebaseline (ok u) = do
    now ← clock
    modify (λ p. record p {
      cumulative_dirty_bytes = 0;
      sample_count = 0;
      start_time = now;
      dirty_volume = no_volume;
      loop = running;
    })
    pure (ok tt)

  after_reopen : List VmaInfo → Result Unit → Act Profiler (Result Unit)
  unfolding after_rebaseline
  after_reopen writable (err e) = do
    modify (λ p. record p { pagemap_open = false })
    pure (err (prefixed "reopen pagemap: " e))
  after_reopen writable (ok u) = do
    modify (λ p. record p { pagemap_open = true })
    answer ← ask host (λ n. host.write_protect n writable)
    after_rebaseline answer

  after_resetup : List VmaInfo → Result UffdSetup → Act Profiler (Result Unit)
  unfolding after_reopen
  after_resetup writable (err e) = pure (err (prefixed "reinit uffd-wp setup: " e))
  after_resetup writable (ok s) = do
    p ← self
    note (uffd_opened p.pid s.target_fd)
    modify (with_setup s)
    answer ← ask host (λ n. host.open_pagemap n p.pid)
    after_reopen writable answer

  reinit_with : Result (List VmaInfo) → Act Profiler (Result Unit)
  unfolding after_resetup
  reinit_with (err e) = pure (err (prefixed "parse VMAs: " e))
  reinit_with (ok vmas) = do
    p ← self
    answer ← ask host (λ n. host.setup_uffd n p.pid (writable_anonymous_vmas vmas))
    after_resetup (writable_anonymous_vmas vmas) answer

  -- ReinitAfterCRIU
  unfoldable pub reinit_after_criu : Act Profiler (Result Unit)
  unfolding reinit_with
  reinit_after_criu = do p ← self; vmas ← ask host (λ n. host.parse_vmas n p.pid); reinit_with vmas
