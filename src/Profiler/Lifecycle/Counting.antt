-- ===== src/Profiler/Lifecycle/Counting.antt =====
-- The userfaultfd that the profiler keeps open in its target, through the profiler's life.
use criu_migration_operator.Base.{
  ℕ, ◌≡◌, refl, sym, subst, ap, ◌∙◌, List, [], ◌∷◌, Option, none, some, true, arith, inl, inr,
  Bool-cases,
}
use criu_migration_operator.Cluster.{Result, ok, err, is_ok}
use criu_migration_operator.Host.{
  Host, World, Act, ScanAnswer, modify, ask, regions, not_permitted, failed,
}
use criu_migration_operator.Host.Trace.{open_uffds, IsClean}
use criu_migration_operator.Profiler.Areas.{
  VmaInfo, AddrRange, is_writable, diff_vmas, writable_anonymous_vmas,
}
use criu_migration_operator.Profiler.Heat.{reset}
use criu_migration_operator.Profiler.Scan.{Scanned, after_scan, scan_dirty_pages}
use criu_migration_operator.Profiler.Lifecycle.{
  Profiler, sampled, stopped_profiler, register_new, after_register, collect_sample, sample_vmas,
  after_scanning, cleanup_before_criu, close_target_fd, after_close, unregister_all,
}

abbrev pub attached : Option ℕ → ℕ
attached none = 0
attached (some fd) = 1

-- closeTargetUffd succeeds whenever it is asked.
abbrev pub CanClose : Host → Type 0
CanClose host = (n pid fd : ℕ) → is_ok (host.close_target n pid fd) ≡ true

-- One userfaultfd is open in the target if the profiler knows of one, and none otherwise.
pub record IsBalanced (w : World Profiler) : Type 0 where
  pub balance : open_uffds w.trace ≡ attached w.self.target_fd
  pub clean : IsClean w.trace

-- None is open.
pub record IsDetached (w : World Profiler) : Type 0 where
  pub target : w.self.target_fd ≡ none
  pub none_open : open_uffds w.trace ≡ 0
  pub clean : IsClean w.trace

pub IsDetached-IsBalanced : {w : World Profiler} → IsDetached w → IsBalanced w
IsDetached-IsBalanced d = record {
  balance = d.none_open ∙ ap attached (sym d.target);
  clean = d.clean;
}

-- The target's descriptor and the events stay as they are.
pub record Keeps (w u : World Profiler) : Type 0 where
  pub target : u.self.target_fd ≡ w.self.target_fd
  pub trace : u.trace ≡ w.trace

pub Keeps-refl : (w : World Profiler) → Keeps w w
Keeps-refl w = record { target = refl; trace = refl }

pub Keeps-trans : {u v w : World Profiler} → Keeps u v → Keeps v w → Keeps u w
Keeps-trans a b = record { target = b.target ∙ a.target; trace = b.trace ∙ a.trace }

pub Keeps-IsBalanced : {w u : World Profiler} → Keeps w u → IsBalanced w → IsBalanced u
Keeps-IsBalanced {w} {u} k b = record {
  balance = ap open_uffds k.trace ∙ b.balance ∙ ap attached (sym k.target);
  clean = subst IsClean (sym k.trace) b.clean;
}

pub Keeps-IsDetached : {w u : World Profiler} → Keeps w u → IsDetached w → IsDetached u
Keeps-IsDetached k d = record {
  target = k.target ∙ d.target;
  none_open = ap open_uffds k.trace ∙ d.none_open;
  clean = subst IsClean (sym k.trace) d.clean;
}

module _ (host : Host) where
  -- What an action that follows keeps.
  abbrev pub Follows : {A : Type 0} → (World Profiler → A × World Profiler) → Type 0
  Follows m = (w : World Profiler) → Keeps w (m w).1

  after_register-Keeps :
      (v : VmaInfo) (others : Act Profiler Unit) (answer : Result Unit)
      → Follows others
      → Follows (after_register host v others answer)
  unfolding after_register
  after_register-Keeps v others (err e) q w = q w
  after_register-Keeps v others (ok u) q w =
      Keeps-trans (record { target = refl; trace = refl }) (q _)

  register_new-Keeps : (vmas : List VmaInfo) → Follows (register_new host vmas)
  unfolding register_new
  register_new-Keeps [] w = Keeps-refl w
  register_new-Keeps (v ∷ rest) w =
      Keeps-trans (record { target = refl; trace = refl })
        (after_register-Keeps v (register_new host rest) _ (register_new-Keeps rest) _)

  after_scan-Keeps :
      (v : VmaInfo) (others : Act Profiler (Result Scanned)) (answer : ScanAnswer)
      → Follows others
      → Follows (after_scan host v others answer)
  unfolding after_scan
  after_scan-Keeps v others not_permitted q w = Keeps-refl w
  after_scan-Keeps v others failed q w = q w
  after_scan-Keeps v others (regions found) q w = q w

  scan-Keeps : (vmas : List VmaInfo) → Follows (scan_dirty_pages host vmas)
  unfolding scan_dirty_pages
  scan-Keeps [] w = Keeps-refl w
  scan-Keeps (v ∷ rest) w = elim (Bool-cases (is_writable v)) [
    | inl e ↦ rw e (
        Keeps-trans (record { target = refl; trace = refl })
          (after_scan-Keeps v (scan_dirty_pages host rest) (host.scan w.step v) (scan-Keeps rest)
            _))
    | inr e ↦ rw e (scan-Keeps rest w)
  ]

  after_scanning-Keeps : (answer : Result Scanned) → Follows (after_scanning host answer)
  unfolding after_scanning sampled
  after_scanning-Keeps (err e) w = Keeps-refl w
  after_scanning-Keeps (ok found) w = record { target = refl; trace = refl }

  sample_vmas-Keeps : (answer : Result (List VmaInfo)) → Follows (sample_vmas host answer)
  unfolding sample_vmas
  sample_vmas-Keeps (err e) w = Keeps-refl w
  sample_vmas-Keeps (ok vmas) w =
      Keeps-trans (register_new-Keeps (diff_vmas vmas w.self.registered) w)
        (Keeps-trans (scan-Keeps (writable_anonymous_vmas vmas) _) (after_scanning-Keeps _ _))

  collect_sample-Keeps : Follows (collect_sample host)
  unfolding collect_sample
  collect_sample-Keeps w =
      let (answer, u) = ask host (λ n. host.parse_vmas n w.self.pid) w in
      Keeps-trans {v = u} (record { target = refl; trace = refl }) (sample_vmas-Keeps answer u)

  pub collect_sample-IsBalanced :
      {w : World Profiler} → IsBalanced w → IsBalanced (collect_sample host w).1
  collect_sample-IsBalanced {w} b = Keeps-IsBalanced (collect_sample-Keeps w) b

  unregister_all-Keeps : (fd : Option ℕ) (rs : List AddrRange) → Follows (unregister_all host fd rs)
  unfolding unregister_all
  unregister_all-Keeps fd [] w = Keeps-refl w
  unregister_all-Keeps fd (r ∷ rest) w =
      Keeps-trans (record { target = refl; trace = refl }) (unregister_all-Keeps fd rest _)

  after_close-IsDetached :
      (pid fd : ℕ) (answer : Result Unit) (w : World Profiler)
      → is_ok answer ≡ true
      → w.self.target_fd ≡ some fd
      → IsBalanced w
      → IsDetached (after_close host pid fd answer w).1
  unfolding after_close
  after_close-IsDetached pid fd (err e) w h q b = cc
  after_close-IsDetached pid fd (ok u) w h q b = record {
    target = refl;
    none_open = omega (arith, b.balance, ap attached q);
    clean = b.clean;
  }

  close_target_fd-IsDetached :
      (fd : Option ℕ) (w : World Profiler)
      → CanClose host
      → w.self.target_fd ≡ fd
      → IsBalanced w
      → IsDetached (close_target_fd host fd w).1
  unfolding close_target_fd
  close_target_fd-IsDetached none w can e b = record {
    target = e;
    none_open = b.balance ∙ ap attached e;
    clean = b.clean;
  }
  close_target_fd-IsDetached (some fd) w can e b =
      let (answer, u) = ask host (λ n. host.close_target n w.self.pid fd) w in
      after_close-IsDetached w.self.pid fd answer u (can w.step w.self.pid fd) e
        (record { balance = b.balance; clean = b.clean })

  -- CleanupBeforeCRIU leaves no userfaultfd in the target, where closeTargetUffd succeeds.
  pub cleanup-IsDetached :
      {w : World Profiler}
      → CanClose host
      → IsBalanced w
      → IsDetached (cleanup_before_criu host w).1
  unfolding cleanup_before_criu
  cleanup-IsDetached {w} can b =
      let stopped_world = (modify stopped_profiler w).1 in
      let k = unregister_all-Keeps w.self.tracker_fd w.self.registered stopped_world in
      let u = (unregister_all host w.self.tracker_fd w.self.registered stopped_world).1 in
      let d =
        close_target_fd-IsDetached w.self.target_fd
          (modify (λ q. record q { registered = []; heat = reset q.heat }) u).1 can k.target
          (Keeps-IsBalanced
            (Keeps-trans (record { target = refl; trace = refl })
              (Keeps-trans k (record { target = refl; trace = refl })))
            b) in
      record { target = d.target; none_open = d.none_open; clean = d.clean }
