-- ===== src/Profiler/Lifecycle/Resetting.antt =====
-- ReinitAfterCRIU, where the kernel and the target let it: the volume of dirty pages starts from nothing.
use criu_migration_operator.Base.{ℕ, ◌≡◌, refl, true, List}
use criu_migration_operator.Cluster.{Result, ok, err, is_ok}
use criu_migration_operator.Host.{Host, World, UffdSetup, ask, modify, note, uffd_opened}
use criu_migration_operator.Profiler.Areas.{VmaInfo, writable_anonymous_vmas}
use criu_migration_operator.Profiler.Lifecycle.{
  Profiler, no_volume, with_setup, after_rebaseline, after_reopen, after_resetup, reinit_with,
  reinit_after_criu,
}

-- Every step of the set-up succeeds.
pub record CanSetUp (host : Host) : Type 0 where
  pub parses : (n pid : ℕ) → is_ok (host.parse_vmas n pid) ≡ true
  pub opens : (n pid : ℕ) → is_ok (host.open_pagemap n pid) ≡ true
  pub injects : (n pid : ℕ) (vmas : List VmaInfo) → is_ok (host.setup_uffd n pid vmas) ≡ true
  pub protects : (n : ℕ) (vmas : List VmaInfo) → is_ok (host.write_protect n vmas) ≡ true

module _ (host : Host) (can : CanSetUp host) where
  abbrev IsReset : World Profiler → Type 0
  IsReset w = w.self.dirty_volume ≡ no_volume

  after_rebaseline-IsReset :
      (r : Result Unit) (w : World Profiler)
      → is_ok r ≡ true
      → IsReset (after_rebaseline host r w).1
  unfolding after_rebaseline
  after_rebaseline-IsReset (ok u) w h = refl
  after_rebaseline-IsReset (err e) w h = cc h

  after_reopen-IsReset :
      (vmas : List VmaInfo) (r : Result Unit) (w : World Profiler)
      → is_ok r ≡ true
      → IsReset (after_reopen host vmas r w).1
  unfolding after_reopen
  after_reopen-IsReset vmas (err e) w h = cc h
  after_reopen-IsReset vmas (ok a) w h =
      let opened = (modify (λ (p : Profiler). record p { pagemap_open = true }) w).1 in
      let (answer, u) = ask host (λ n. host.write_protect n vmas) opened in
      after_rebaseline-IsReset answer u (can.protects w.step vmas)

  after_resetup-IsReset :
      (vmas : List VmaInfo) (r : Result UffdSetup) (w : World Profiler)
      → is_ok r ≡ true
      → IsReset (after_resetup host vmas r w).1
  unfolding after_resetup
  after_resetup-IsReset vmas (err e) w h = cc h
  after_resetup-IsReset vmas (ok s) w h =
      let opened = (modify (with_setup s) (note (uffd_opened w.self.pid s.target_fd) w).1).1 in
      let (answer, u) = ask host (λ n. host.open_pagemap n w.self.pid) opened in
      after_reopen-IsReset vmas answer u (can.opens w.step w.self.pid)

  reinit_with-IsReset :
      (r : Result (List VmaInfo)) (w : World Profiler)
      → is_ok r ≡ true
      → IsReset (reinit_with host r w).1
  unfolding reinit_with
  reinit_with-IsReset (err e) w h = cc h
  reinit_with-IsReset (ok vmas) w h =
      let writable = writable_anonymous_vmas vmas in
      let (answer, u) = ask host (λ n. host.setup_uffd n w.self.pid writable) w in
      after_resetup-IsReset writable answer u (can.injects w.step w.self.pid writable)

  pub reinit-IsReset : (w : World Profiler) → IsReset (reinit_after_criu host w).1
  unfolding reinit_after_criu
  reinit-IsReset w =
      let (answer, u) = ask host (λ n. host.parse_vmas n w.self.pid) w in
      reinit_with-IsReset answer u (can.parses w.step w.self.pid)
