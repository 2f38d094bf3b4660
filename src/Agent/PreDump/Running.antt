-- ===== src/Agent/PreDump/Running.antt =====
-- A pre-dump succeeds where its directory can be made and CRIU does, and what it makes of the chain.
use criu_migration_operator.Base.{ℕ, String, List, Option, ◌≡◌, refl, true}
use criu_migration_operator.Base.Splitting.{path_join}
use criu_migration_operator.Cluster.{Result, ok, err, is_ok}
use criu_migration_operator.Host.{Host, World, ask, note, criu_ran}
use criu_migration_operator.Agent.Manager.{
  Manager, ExcludeArgs, generate_dump_id, parent_args, exclude_args,
}
use criu_migration_operator.Agent.PreDump.{
  after_pre_dump, launch_pre_dump, run_pre_dump, pre_checkpoint,
}

-- Directories can be made, and CRIU ends without an error.
pub record CanDump (host : Host) : Type 0 where
  pub makes : (n : ℕ) (path : String) → is_ok (host.make_dir n path) ≡ true
  pub runs : (n : ℕ) (args : List String) → is_ok (host.run_criu n args) ≡ true

module _ (host : Host) (can : CanDump host) where
  after_pre_dump-ok :
      (dump_id dir : String) (r : Result String) (w : World Manager)
      → is_ok r ≡ true
      → is_ok (after_pre_dump host dump_id dir r w).0 ≡ true
  unfolding after_pre_dump
  after_pre_dump-ok dump_id dir (ok printed) w h = refl
  after_pre_dump-ok dump_id dir (err e) w h = h

  launch-ok :
      (dump_id dir : String) (args : List String) (w : World Manager)
      → is_ok (launch_pre_dump host dump_id dir args w).0 ≡ true
  unfolding launch_pre_dump
  launch-ok dump_id dir args w =
      let (printed, u) = ask host (λ n. host.run_criu n args) (note (criu_ran args) w).1 in
      after_pre_dump-ok dump_id dir printed u (can.runs w.step args)

  run_pre_dump-ok :
      (pid : ℕ) (dump_id dir parent_id : String) (exclude : Option ExcludeArgs) (r : Result Unit)
      (w : World Manager)
      → is_ok r ≡ true
      → is_ok (run_pre_dump host pid dump_id dir parent_id exclude r w).0 ≡ true
  unfolding run_pre_dump
  run_pre_dump-ok pid dump_id dir parent_id exclude (err e) w h = h
  run_pre_dump-ok pid dump_id dir parent_id exclude (ok made) w h =
      let (parent, u) = parent_args host parent_id w in
      let (ranges, v) = exclude_args host exclude dir u in launch-ok dump_id dir _ v

  pub pre_checkpoint-ok :
      (pid : ℕ) (parent_id : String) (exclude : Option ExcludeArgs) (w : World Manager)
      → is_ok (pre_checkpoint host pid parent_id exclude w).0 ≡ true
  unfolding pre_checkpoint
  pre_checkpoint-ok pid parent_id exclude w =
      let (dump_id, u) = generate_dump_id host w in
      let dir = path_join u.self.work_dir dump_id in
      let (made, v) = ask host (λ n. host.make_dir n dir) u in
      run_pre_dump-ok pid dump_id dir parent_id exclude made v (can.makes u.step dir)
