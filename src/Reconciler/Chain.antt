-- ===== src/Reconciler/Chain.antt =====
-- The chain of incremental checkpoints.
use criu_migration_operator.Base.{
  ℕ, zero, suc, ◌≤◌, ◌<◌, ◌≡◌, ◌↔◌, leb, inl, inr, refl, sym, subst, String, true, arith,
  Bool-cases,
}
use criu_migration_operator.Base.Int.{ℤ, pos, negsuc, is_pos, to_ℕ}
use criu_migration_operator.Kube.{Pod}
use criu_migration_operator.Api.{CheckpointPolicy, CheckpointStatus, MigratableApp}
use criu_migration_operator.Cluster.{Env, World, M, Result, ok, err, get_app, update_status}
use criu_migration_operator.AgentClient.{new_agent_client, pre_checkpoint}
use criu_migration_operator.Fsm.Transition.{is_conflict}
use criu_migration_operator.Fsm.Quiet.{new_agent_client-IsIdle}
use criu_migration_operator.Reconciler.Checkpoint.{
  chain_is_full, parent_id, checkpointed, perform_pre_checkpoint, checkpoint_through,
  record_checkpoint, reapply, after_store, store_checkpoint,
}

is_pos_iff : (z : ℤ) → (is_pos z ≡ true) ↔ (0 < to_ℕ z)
is_pos_iff (pos zero) = ground arith
is_pos_iff (pos (suc n)) = ground arith
is_pos_iff (negsuc n) = ground arith

checkpointed-bounded :
    (policy : CheckpointPolicy) (c : CheckpointStatus) (dump_id : String) (now : ℕ)
    → 0 < to_ℕ policy.max_chain_depth
    → c.chain_depth ≤ to_ℕ policy.max_chain_depth
    → (checkpointed (parent_id policy c) dump_id now c).chain_depth ≤ to_ℕ policy.max_chain_depth
unfolding checkpointed parent_id chain_is_full
checkpointed-bounded policy c dump_id now h k =
    let limit = to_ℕ policy.max_chain_depth in
    rw ((is_pos_iff policy.max_chain_depth).1 h) (elim (Bool-cases (leb limit c.chain_depth)) [
      | inl e ↦ rw e (ground arith)
      | inr e ↦ rw e (ground arith)
    ])

abbrev pub depth : World → ℕ
depth w = w.app.status.checkpoint_status.chain_depth

module _ (env : Env) (limit : ℕ)
    (reads : (n : ℕ) (namespace name : String) (app : MigratableApp)
      → env.get_app n namespace name ≡ ok app
      → app.status.checkpoint_status.chain_depth ≤ limit) where
  reapply-bounded :
      (dump_id : String) (r : Result MigratableApp) (again : M (Result Unit)) (w : World)
      → depth w ≤ limit
      → ((app : MigratableApp) → r ≡ ok app → app.status.checkpoint_status.chain_depth ≤ limit)
      → ((u : World) → depth u ≤ limit → depth (again u).1 ≤ limit)
      → depth (reapply env dump_id r again w).1 ≤ limit
  unfolding reapply
  reapply-bounded dump_id (ok app) again w h k next = next _ (k app refl)
  reapply-bounded dump_id (err e) again w h k next = h

  after_store-bounded :
      (dump_id : String) (r : Result Unit) (again : M (Result Unit)) (w : World)
      → depth w ≤ limit
      → ((u : World) → depth u ≤ limit → depth (again u).1 ≤ limit)
      → depth (after_store env dump_id r again w).1 ≤ limit
  unfolding after_store
  after_store-bounded dump_id (ok u) again w h next = h
  after_store-bounded dump_id (err e) again w h next =
      let (r, u) = get_app env w.app.meta.namespace w.app.meta.name w in
      elim (Bool-cases (is_conflict e.code)) [
        | inl c ↦ rw c (
            reapply-bounded dump_id r again u h (reads w.step w.app.meta.namespace w.app.meta.name)
              next)
        | inr c ↦ rw c h
      ]

  store-bounded :
      (tries : ℕ) (dump_id : String) (w : World)
      → depth w ≤ limit
      → depth (store_checkpoint env tries dump_id w).1 ≤ limit
  unfolding store_checkpoint
  store-bounded zero dump_id w h = h
  store-bounded (suc tries) dump_id w h =
      let (r, u) = update_status env w in
      after_store-bounded dump_id r (store_checkpoint env tries dump_id) u h
        (store-bounded tries dump_id)

  checkpoint_through-bounded :
      (policy : CheckpointPolicy) (r : Result String) (w : World)
      → to_ℕ policy.max_chain_depth ≡ limit
      → 0 < limit
      → depth w ≤ limit
      → depth (checkpoint_through env (parent_id policy w.app.status.checkpoint_status) r w).1
        ≤ limit
  unfolding checkpoint_through record_checkpoint
  checkpoint_through-bounded policy (err e) w l h k = k
  checkpoint_through-bounded policy (ok ip) w l h k =
      let c = w.app.status.checkpoint_status in
      let (r, u) = pre_checkpoint env ip (parent_id policy c) w in
      elim r as (λ r. depth (record_checkpoint env (parent_id policy c) r u).1 ≤ limit) [
        | ok dump_id ↦
            store-bounded 3 dump_id _
              (rw (sym l) (checkpointed-bounded policy c dump_id u.now (rw l h) (rw l k)))
        | err e ↦ k
      ]

  -- A pre-checkpoint keeps the chain of incremental checkpoints within the limit of the policy, where
  -- there is one: also when the agent fails, and when the status has to be read again after a
  -- conflict, provided that the objects that are read keep to the limit.
  pub perform_pre_checkpoint-bounded :
      (pod : Pod) (w : World)
      → to_ℕ w.app.spec.checkpoint_policy.max_chain_depth ≡ limit
      → 0 < limit
      → depth w ≤ limit
      → depth (perform_pre_checkpoint env pod w).1 ≤ limit
  unfolding perform_pre_checkpoint
  perform_pre_checkpoint-bounded pod w l h k =
      let (r, u) = new_agent_client env pod w in
      let i = (new_agent_client-IsIdle env pod w).app in
      subst
        (λ a.
          depth
            (checkpoint_through env (parent_id a.spec.checkpoint_policy a.status.checkpoint_status)
              r u).1
          ≤ limit)
        i (checkpoint_through-bounded u.app.spec.checkpoint_policy r u (rw i l) h (rw (i, depth) k))
