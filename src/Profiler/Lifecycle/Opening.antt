-- ===== src/Profiler/Lifecycle/Opening.antt =====
-- Start and ReinitAfterCRIU: the userfaultfd that they open is the one that the profiler knows of.
use criu_migration_operator.Base.{refl, Bool, List, true, false, arith}
use criu_migration_operator.Cluster.{Result, ok, err}
use criu_migration_operator.Host.{Host, World, UffdSetup, modify, ask, note, uffd_opened}
use criu_migration_operator.Profiler.Areas.{VmaInfo, writable_anonymous_vmas}
use criu_migration_operator.Profiler.Lifecycle.{
  Profiler, with_setup, start, start_with, after_pagemap, after_setup, after_verify, after_baseline,
  reinit_after_criu, reinit_with, after_resetup, after_reopen, after_rebaseline,
}
use criu_migration_operator.Profiler.Lifecycle.Counting.{
  IsBalanced, IsDetached, IsDetached-IsBalanced, Keeps-refl, Keeps-trans, Keeps-IsBalanced,
  Keeps-IsDetached, Follows,
}

module _ (host : Host) where
  -- A userfaultfd that was opened is the one that the profiler knows of.
  after_rebaseline-Keeps : (answer : Result Unit) → Follows host (after_rebaseline host answer)
  unfolding after_rebaseline
  after_rebaseline-Keeps (err e) w = Keeps-refl w
  after_rebaseline-Keeps (ok u) w = record { target = refl; trace = refl }

  after_reopen-Keeps :
      (vmas : List VmaInfo) (answer : Result Unit) → Follows host (after_reopen host vmas answer)
  unfolding after_reopen
  after_reopen-Keeps vmas (err e) w = record { target = refl; trace = refl }
  after_reopen-Keeps vmas (ok u) w =
      let (answer, v) =
        ask host (λ n. host.write_protect n vmas)
          (modify (λ p. record p { pagemap_open = true }) w).1 in
      Keeps-trans {v = v} (record { target = refl; trace = refl }) (after_rebaseline-Keeps answer v)

  after_baseline-Keeps : (answer : Result Unit) → Follows host (after_baseline host answer)
  unfolding after_baseline
  after_baseline-Keeps (err e) w = record { target = refl; trace = refl }
  after_baseline-Keeps (ok u) w = record { target = refl; trace = refl }

  after_verify-Keeps :
      (vmas : List VmaInfo) (answer : Result Bool) → Follows host (after_verify host vmas answer)
  unfolding after_verify
  after_verify-Keeps vmas (err e) w = record { target = refl; trace = refl }
  after_verify-Keeps vmas (ok false) w = record { target = refl; trace = refl }
  after_verify-Keeps vmas (ok true) w =
      let (answer, v) = ask host (λ n. host.write_protect n (writable_anonymous_vmas vmas)) w in
      Keeps-trans {v = v} (record { target = refl; trace = refl }) (after_baseline-Keeps answer v)

  opened-IsBalanced :
      (s : UffdSetup) (w : World Profiler)
      → IsDetached w
      → IsBalanced (modify (with_setup s) (note (uffd_opened w.self.pid s.target_fd) w).1).1
  opened-IsBalanced s w d = record { balance = omega (arith, d.none_open); clean = d.clean }

  after_resetup-IsBalanced :
      (vmas : List VmaInfo) (answer : Result UffdSetup) (w : World Profiler)
      → IsDetached w
      → IsBalanced (after_resetup host vmas answer w).1
  unfolding after_resetup
  after_resetup-IsBalanced vmas (err e) w d = IsDetached-IsBalanced d
  after_resetup-IsBalanced vmas (ok s) w d =
      let opened = (modify (with_setup s) (note (uffd_opened w.self.pid s.target_fd) w).1).1 in
      let (answer, u) = ask host (λ n. host.open_pagemap n w.self.pid) opened in
      Keeps-IsBalanced
        (Keeps-trans {v = u} (record { target = refl; trace = refl })
          (after_reopen-Keeps vmas answer u))
        (opened-IsBalanced s w d)

  reinit_with-IsBalanced :
      (vmas : Result (List VmaInfo)) (w : World Profiler)
      → IsDetached w
      → IsBalanced (reinit_with host vmas w).1
  unfolding reinit_with
  reinit_with-IsBalanced (err e) w d = IsDetached-IsBalanced d
  reinit_with-IsBalanced (ok vmas) w d =
      let (answer, u) =
        ask host (λ n. host.setup_uffd n w.self.pid (writable_anonymous_vmas vmas)) w in
      after_resetup-IsBalanced (writable_anonymous_vmas vmas) answer u
        (Keeps-IsDetached {w = w} {u = u} (record { target = refl; trace = refl }) d)

  -- After ReinitAfterCRIU at most one userfaultfd is open, and the profiler knows of it.
  pub reinit-IsBalanced :
      {w : World Profiler} → IsDetached w → IsBalanced (reinit_after_criu host w).1
  unfolding reinit_after_criu
  reinit-IsBalanced {w} d =
      let (answer, u) = ask host (λ n. host.parse_vmas n w.self.pid) w in
      reinit_with-IsBalanced answer u
        (Keeps-IsDetached {w = w} {u = u} (record { target = refl; trace = refl }) d)

  after_setup-IsBalanced :
      (vmas : List VmaInfo) (answer : Result UffdSetup) (w : World Profiler)
      → IsDetached w
      → IsBalanced (after_setup host vmas answer w).1
  unfolding after_setup
  after_setup-IsBalanced vmas (err e) w d =
      Keeps-IsBalanced {w = w} (record { target = refl; trace = refl }) (IsDetached-IsBalanced d)
  after_setup-IsBalanced vmas (ok s) w d =
      let opened = (modify (with_setup s) (note (uffd_opened w.self.pid s.target_fd) w).1).1 in
      let (answer, u) = ask host (λ n. host.verify_wp n) opened in
      Keeps-IsBalanced
        (Keeps-trans {v = u} (record { target = refl; trace = refl })
          (after_verify-Keeps vmas answer u))
        (opened-IsBalanced s w d)

  after_pagemap-IsBalanced :
      (vmas : List VmaInfo) (answer : Result Unit) (w : World Profiler)
      → IsDetached w
      → IsBalanced (after_pagemap host vmas answer w).1
  unfolding after_pagemap
  after_pagemap-IsBalanced vmas (err e) w d = IsDetached-IsBalanced d
  after_pagemap-IsBalanced vmas (ok a) w d =
      let (answer, u) =
        ask host (λ n. host.setup_uffd n w.self.pid vmas)
          (modify (λ p. record p { pagemap_open = true }) w).1 in
      after_setup-IsBalanced vmas answer u
        (Keeps-IsDetached {w = w} {u = u} (record { target = refl; trace = refl }) d)

  start_with-IsBalanced :
      (vmas : Result (List VmaInfo)) (w : World Profiler)
      → IsDetached w
      → IsBalanced (start_with host vmas w).1
  unfolding start_with
  start_with-IsBalanced (err e) w d = IsDetached-IsBalanced d
  start_with-IsBalanced (ok vmas) w d =
      let (answer, u) = ask host (λ n. host.open_pagemap n w.self.pid) w in
      after_pagemap-IsBalanced vmas answer u
        (Keeps-IsDetached {w = w} {u = u} (record { target = refl; trace = refl }) d)

  -- So it is after Start, also where Start fails.
  pub start-IsBalanced : {w : World Profiler} → IsDetached w → IsBalanced (start host w).1
  unfolding start
  start-IsBalanced {w} d =
      let (answer, u) = ask host (λ n. host.parse_vmas n w.self.pid) w in
      start_with-IsBalanced answer u
        (Keeps-IsDetached {w = w} {u = u} (record { target = refl; trace = refl }) d)
