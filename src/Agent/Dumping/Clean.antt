-- ===== src/Agent/Dumping/Clean.antt =====
-- CRIU never meets the profiler's userfaultfd in PreCheckpoint.
use criu_migration_operator.Base.{ℕ, String, List, Option, none, some, ◌≡◌, refl, ap, sym, ◌∙◌}
use criu_migration_operator.Cluster.{Result, ok, err}
use criu_migration_operator.Host.{Host, World, zoom, pure, ◌>>=◌}
use criu_migration_operator.Profiler.Lifecycle.{Profiler, VmaHotDetail}
use criu_migration_operator.Profiler.Lifecycle.Counting.{CanClose, attached, cleanup-IsDetached}
use criu_migration_operator.Profiler.Lifecycle.Opening.{reinit-IsBalanced}
use criu_migration_operator.Agent.PreDump.{pre_checkpoint}
use criu_migration_operator.Agent.PreDump.Quiet.{pre_checkpoint-IsSafe}
use criu_migration_operator.Agent.State.{Agent, on_manager, ensure_main_pid}
use criu_migration_operator.Agent.Dumping.{
  blocked, exclude_of, reinit_of, pre_checkpoint_process, pre_checkpoint_rpc,
}
use criu_migration_operator.Agent.Dumping.Sane.{
  held, IsSane, IsFree, IsFree-IsSane, Safe-IsFree, Leaves-IsSane, IsSane-if, attached-none,
  ensure_main_pid-Leaves,
}

module _ (host : Host) (vma_json : List VmaHotDetail → String) (can : CanClose host) where
  exclude_of-IsFree :
      (held_one : Option Profiler) (w : World Agent)
      → w.self.profiler ≡ held_one
      → IsSane w
      → IsFree (exclude_of host vma_json held_one w).1
  unfolding exclude_of zoom
  exclude_of-IsFree none w e s = record {
    none_open = s.balance ∙ ap held e;
    unheld = ap held e;
    clean = s.clean;
  }
  exclude_of-IsFree (some p) w e s =
      let d =
        cleanup-IsDetached host
          {w = record { self = p; now = w.now; step = w.step; trace = w.trace }} can
          (record { balance = s.balance ∙ ap held e; clean = s.clean }) in
      record { none_open = d.none_open; unheld = ap attached d.target; clean = d.clean }

  reinit_of-IsSane :
      (held_one : Option Profiler) (w : World Agent)
      → w.self.profiler ≡ held_one
      → IsFree w
      → IsSane (reinit_of host vma_json held_one w).1
  unfolding reinit_of zoom
  reinit_of-IsSane none w e f = IsFree-IsSane f
  reinit_of-IsSane (some p) w e f =
      let b =
        reinit-IsBalanced host
          {w = record { self = p; now = w.now; step = w.step; trace = w.trace }}
          (record {
            target = attached-none p.target_fd (sym (ap held e) ∙ f.unheld);
            none_open = f.none_open;
            clean = f.clean;
          }) in
      record { balance = b.balance; clean = b.clean }

  pre_checkpoint_process-IsSane :
      (parent_id : String) (r : Result ℕ) (w : World Agent)
      → IsSane w
      → IsSane (pre_checkpoint_process host vma_json parent_id r w).1
  unfolding pre_checkpoint_process zoom
  pre_checkpoint_process-IsSane parent_id (err e) w s = s
  pre_checkpoint_process-IsSane parent_id (ok pid) w s =
      let (exclude, u) = exclude_of host vma_json w.self.profiler w in
      let v = (on_manager (pre_checkpoint host pid parent_id exclude) u).1 in
      let f =
        Safe-IsFree {w = u} {u = v}
          (pre_checkpoint-IsSafe host pid parent_id exclude
            (record { self = u.self.manager; now = u.now; step = u.step; trace = u.trace }))
          refl (exclude_of-IsFree w.self.profiler w refl s) in
      reinit_of-IsSane v.self.profiler v refl f

  -- Where closeTargetUffd succeeds whenever it is asked, PreCheckpoint never runs CRIU while a userfaultfd
  -- of the profiler is open in the target, on whatever other answers, from a state where the agent's
  -- profiler knows of the open one, and afterwards the agent's profiler knows of the only one that may be
  -- open.
  pub pre_checkpoint_rpc-IsSane :
      (parent_id : String) (w : World Agent)
      → IsSane w
      → IsSane (pre_checkpoint_rpc host vma_json parent_id w).1
  unfolding pre_checkpoint_rpc
  pre_checkpoint_rpc-IsSane parent_id w s =
      let (found, u) = ensure_main_pid host w in
      let there =
        pre_checkpoint_process-IsSane parent_id found u
          (Leaves-IsSane (ensure_main_pid-Leaves host w) s) in
      IsSane-if w.self.lazy_pages_active (pure (err (blocked "pre-checkpoint")))
        (ensure_main_pid host >>= pre_checkpoint_process host vma_json parent_id) w s there
