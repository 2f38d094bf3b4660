-- ===== src/Agent/PreDump/Quiet.antt =====
-- A pre-dump runs CRIU and touches no userfaultfd.
use criu_migration_operator.Base.{ℕ, String, List, Option, arith}
use criu_migration_operator.Base.Splitting.{path_join}
use criu_migration_operator.Cluster.{Result, ok, err}
use criu_migration_operator.Host.{Host, ask, modify, note, criu_ran}
use criu_migration_operator.Host.Safe.{SafeStep-refl, SafeStep-trans, SafeStep-criu, IsSafe}
use criu_migration_operator.Agent.Manager.{
  ExcludeArgs, chained, s3_prefix_of, generate_dump_id, exclude_args, parent_args, count_pages_in,
}
use criu_migration_operator.Agent.Manager.Quiet.{
  generate_dump_id-IsSafe, upload_agent_metadata-IsSafe, upload_logs-IsSafe, exclude_args-IsSafe,
  parent_args-IsSafe, count_pages_in-IsSafe,
}
use criu_migration_operator.Agent.PreDump.{
  upload_pre_dump, after_pre_dump, launch_pre_dump, run_pre_dump, pre_checkpoint,
}

module _ (host : Host) where
  upload_pre_dump-IsSafe : (dir prefix : String) → IsSafe (upload_pre_dump host dir prefix)
  unfolding upload_pre_dump
  upload_pre_dump-IsSafe dir prefix w =
      ground (arith, upload_agent_metadata-IsSafe host dir prefix w)

  pub after_pre_dump-IsSafe :
      (dump_id dir : String) (r : Result String) → IsSafe (after_pre_dump host dump_id dir r)
  unfolding after_pre_dump
  after_pre_dump-IsSafe dump_id dir (err e) w = SafeStep-refl w.trace
  after_pre_dump-IsSafe dump_id dir (ok printed) w =
      let (size, u) = ask host (λ n. host.dir_size n dir) w in
      let v = (modify (chained dump_id) (count_pages_in host dir u).1).1 in
      let prefix = s3_prefix_of v.self dump_id in
      SafeStep-trans (count_pages_in-IsSafe host dir u) (
        SafeStep-trans (upload_pre_dump-IsSafe dir prefix v)
          (upload_logs-IsSafe host dir prefix (upload_pre_dump host dir prefix v).1))

  launch_pre_dump-IsSafe :
      (dump_id dir : String) (args : List String) → IsSafe (launch_pre_dump host dump_id dir args)
  unfolding launch_pre_dump
  launch_pre_dump-IsSafe dump_id dir args w =
      let (printed, u) = ask host (λ n. host.run_criu n args) (note (criu_ran args) w).1 in
      SafeStep-trans (SafeStep-criu args w.trace) (after_pre_dump-IsSafe dump_id dir printed u)

  run_pre_dump-IsSafe :
      (pid : ℕ) (dump_id dir parent_id : String) (exclude : Option ExcludeArgs) (r : Result Unit)
      → IsSafe (run_pre_dump host pid dump_id dir parent_id exclude r)
  unfolding run_pre_dump
  run_pre_dump-IsSafe pid dump_id dir parent_id exclude (err e) w = SafeStep-refl w.trace
  run_pre_dump-IsSafe pid dump_id dir parent_id exclude (ok made) w =
      let (parent, u) = parent_args host parent_id w in
      let (ranges, v) = exclude_args host exclude dir u in
      SafeStep-trans
        (SafeStep-trans (parent_args-IsSafe host parent_id w)
          (exclude_args-IsSafe host exclude dir u))
        (launch_pre_dump-IsSafe dump_id dir _ v)

  pub pre_checkpoint-IsSafe :
      (pid : ℕ) (parent_id : String) (exclude : Option ExcludeArgs)
      → IsSafe (pre_checkpoint host pid parent_id exclude)
  unfolding pre_checkpoint
  pre_checkpoint-IsSafe pid parent_id exclude w =
      let (dump_id, u) = generate_dump_id host w in
      let dir = path_join u.self.work_dir dump_id in
      let (made, v) = ask host (λ n. host.make_dir n dir) u in
      SafeStep-trans (generate_dump_id-IsSafe host w)
        (run_pre_dump-IsSafe pid dump_id dir parent_id exclude made v)
