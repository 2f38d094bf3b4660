-- ===== src/Agent/PreDump/Chaining.antt =====
-- What a pre-dump makes of the chain of checkpoints.
use criu_migration_operator.Base.{
  ℕ, suc, String, Option, ◌≡◌, refl, ap, ◌∙◌, subst, arith, str_eq, if◌then◌else◌,
}
use criu_migration_operator.Cluster.{Result, ok, err}
use criu_migration_operator.Host.{Host, World, ask, modify}
use criu_migration_operator.Agent.Manager.{
  Manager, ExcludeArgs, CheckpointResult, chained, s3_prefix_of, generate_dump_id, exclude_args,
  parent_args, count_pages_in,
}
use criu_migration_operator.Agent.Manager.Later.{upload_agent_metadata-IsLater, upload_logs-IsLater}
use criu_migration_operator.Agent.Manager.Keeping.{
  IsKeeping, exclude_args-IsKeeping, parent_args-IsKeeping, count_pages_in-IsKeeping,
}
use criu_migration_operator.Agent.PreDump.{
  upload_pre_dump, after_pre_dump, launch_pre_dump, run_pre_dump, pre_checkpoint,
}

-- What the result of a pre-dump says of the manager before and after it.
abbrev pub Chains : (before after : Manager) → Result CheckpointResult → Type 0
Chains before after (err e) = after ≡ before
Chains before after (ok r) = after ≡ record before {
  last_checkpoint_id = r.dump_id;
  chain_depth = suc before.chain_depth;
  chain_root = if str_eq before.chain_root "" then r.dump_id else before.chain_root;
}

chained_lem :
    (dump_id : String) (m : Manager)
    → chained dump_id m ≡ record m {
      last_checkpoint_id = dump_id;
      chain_depth = suc m.chain_depth;
      chain_root = if str_eq m.chain_root "" then dump_id else m.chain_root;
    }
unfolding chained
chained_lem dump_id m = refl

module _ (host : Host) where
  upload_pre_dump-IsKeeping : (dir prefix : String) → IsKeeping (upload_pre_dump host dir prefix)
  unfolding upload_pre_dump
  upload_pre_dump-IsKeeping dir prefix w =
      ground (arith, (upload_agent_metadata-IsLater host dir prefix w).self)

  after_pre_dump-Chains :
      (dump_id dir : String) (r : Result String) (w : World Manager)
      → Chains w.self
          (after_pre_dump host dump_id dir r w).1.self
          (after_pre_dump host dump_id dir r w).0
  unfolding after_pre_dump
  after_pre_dump-Chains dump_id dir (err e) w = refl
  after_pre_dump-Chains dump_id dir (ok printed) w =
      let (size, u) = ask host (λ n. host.dir_size n dir) w in
      let (pages, v) = count_pages_in host dir u in
      let x = (modify (chained dump_id) v).1 in
      let prefix = s3_prefix_of x.self dump_id in
      let y = (upload_pre_dump host dir prefix x).1 in
      (upload_logs-IsLater host dir prefix y).self
      ∙ upload_pre_dump-IsKeeping dir prefix x
      ∙ ap (chained dump_id) (count_pages_in-IsKeeping host dir u)
      ∙ chained_lem dump_id u.self

  Chains-after :
      (m n o : Manager) (r : Result CheckpointResult) → n ≡ m → Chains n o r → Chains m o r
  Chains-after m n o r e c = subst (λ k. Chains k o r) e c

  run_pre_dump-Chains :
      (pid : ℕ) (dump_id dir parent_id : String) (exclude : Option ExcludeArgs) (r : Result Unit)
      (w : World Manager)
      → Chains w.self
          (run_pre_dump host pid dump_id dir parent_id exclude r w).1.self
          (run_pre_dump host pid dump_id dir parent_id exclude r w).0
  unfolding run_pre_dump launch_pre_dump
  run_pre_dump-Chains pid dump_id dir parent_id exclude (err e) w = refl
  run_pre_dump-Chains pid dump_id dir parent_id exclude (ok made) w =
      let (parent, u) = parent_args host parent_id w in
      let (ranges, v) = exclude_args host exclude dir u in
      Chains-after _ v.self _ _
        (exclude_args-IsKeeping host exclude dir u ∙ parent_args-IsKeeping host parent_id w)
        (after_pre_dump-Chains dump_id dir _ _)

  -- A pre-dump that fails leaves the manager as it was, its chain included. One that succeeds extends the
  -- chain by itself: its ID is the last one, and the root where there was none. This holds on whatever
  -- answers, whether the uploads succeed or not.
  pub pre_checkpoint-Chains :
      (pid : ℕ) (parent_id : String) (exclude : Option ExcludeArgs) (w : World Manager)
      → Chains w.self
          (pre_checkpoint host pid parent_id exclude w).1.self
          (pre_checkpoint host pid parent_id exclude w).0
  unfolding pre_checkpoint generate_dump_id
  pre_checkpoint-Chains pid parent_id exclude w = run_pre_dump-Chains pid _ _ parent_id exclude _ _
