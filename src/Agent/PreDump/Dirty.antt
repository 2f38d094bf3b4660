-- ===== src/Agent/PreDump/Dirty.antt =====
-- A pre-dump while a userfaultfd is open in the target runs CRIU into it.
use criu_migration_operator.Base.{ℕ, String, true, List, Option, ◌≡◌, ◌∙◌, arith}
use criu_migration_operator.Base.Splitting.{path_join}
use criu_migration_operator.Cluster.{Result, ok, err, is_ok}
use criu_migration_operator.Host.{Host, World, ask, note, criu_ran}
use criu_migration_operator.Host.Trace.{open_uffds, IsClean}
use criu_migration_operator.Agent.Manager.{
  Manager, ExcludeArgs, generate_dump_id, parent_args, exclude_args,
}
use criu_migration_operator.Agent.Manager.Quiet.{parent_args-IsSafe, exclude_args-IsSafe}
use criu_migration_operator.Agent.PreDump.{launch_pre_dump, run_pre_dump, pre_checkpoint}
use criu_migration_operator.Agent.PreDump.Quiet.{after_pre_dump-IsSafe}

module _ (host : Host) where
  launch-dirty :
      (dump_id dir : String) (args : List String) (w : World Manager)
      → open_uffds w.trace ≡ 1
      → ¬ IsClean (launch_pre_dump host dump_id dir args w).1.trace
  unfolding launch_pre_dump
  launch-dirty dump_id dir args w h c =
      let (printed, u) = ask host (λ n. host.run_criu n args) (note (criu_ran args) w).1 in
      absurd (omega (arith, h, ((after_pre_dump-IsSafe host dump_id dir printed u).before c).0))

  run-dirty :
      (pid : ℕ) (dump_id dir parent_id : String) (exclude : Option ExcludeArgs) (made : Result Unit)
      (w : World Manager)
      → is_ok made ≡ true
      → open_uffds w.trace ≡ 1
      → ¬ IsClean (run_pre_dump host pid dump_id dir parent_id exclude made w).1.trace
  unfolding run_pre_dump
  run-dirty pid dump_id dir parent_id exclude (err e) w m h c = cc m
  run-dirty pid dump_id dir parent_id exclude (ok a) w m h c =
      let (parent, u) = parent_args host parent_id w in
      let (ranges, v) = exclude_args host exclude dir u in
      launch-dirty dump_id dir _ v
        ((exclude_args-IsSafe host exclude dir u).opens
          ∙ (parent_args-IsSafe host parent_id w).opens
          ∙ h)
        c

  -- The directories of dumps can be made.
  abbrev pub CanMake : Type 0
  CanMake = (n : ℕ) (path : String) → is_ok (host.make_dir n path) ≡ true

  pub pre_checkpoint-dirty :
      (pid : ℕ) (parent_id : String) (exclude : Option ExcludeArgs) (w : World Manager)
      → CanMake
      → open_uffds w.trace ≡ 1
      → ¬ IsClean (pre_checkpoint host pid parent_id exclude w).1.trace
  unfolding pre_checkpoint generate_dump_id
  pre_checkpoint-dirty pid parent_id exclude w can h c =
      let (dump_id, u) = generate_dump_id host w in
      let dir = path_join u.self.work_dir dump_id in
      let (made, v) = ask host (λ n. host.make_dir n dir) u in
      run-dirty pid dump_id dir parent_id exclude made v (can u.step dir) h c
