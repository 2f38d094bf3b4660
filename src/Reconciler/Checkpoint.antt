-- ===== src/Reconciler/Checkpoint.antt =====
-- pkg/controller/reconciler.go: when the controller takes a pre-checkpoint, and how it records it.
use criu_migration_operator.Base.{
  ℕ, zero, suc, ◌+◌, ◌*◌, String, Bool, true, false, ◌&&◌, Option, none, some, leb, ◌==◌, str_eq,
  ◌<>◌, if◌then◌else◌,
}
use criu_migration_operator.Base.Int.{ℤ, pos, negsuc, is_pos, to_ℕ}
use criu_migration_operator.Base.Duration.{second}
use criu_migration_operator.Base.Interval.{parse_duration}
use criu_migration_operator.Kube.{Pod}
use criu_migration_operator.Api.{
  MigratableApp, CheckpointPolicy, CheckpointStatus, MigratableAppStatus,
}
use criu_migration_operator.Cluster.{
  Env, M, Error, Result, ok, err, other, ◌>>=◌, ◌>>◌, pure, the_app, clock, set_app, modify_status,
  update_status, get_app,
}
use criu_migration_operator.AgentClient.{new_agent_client, pre_checkpoint}
use criu_migration_operator.Fsm.Transition.{is_conflict}

-- now - last >= interval, of times
unfoldable pub has_elapsed : ℤ → (last now : ℕ) → Bool
has_elapsed (pos n) last now = leb (last + n) now
has_elapsed (negsuc n) last now = leb last (now + suc n)

unfoldable pub due_after : ℤ → MigratableApp → ℕ → Bool
unfolding has_elapsed
due_after interval app now =
    let last = app.status.checkpoint_status.last_checkpoint_time in
    let created = app.meta.creation_timestamp in
    if last == 0
    then (if created == 0 then true else leb (created + 60 * second) now)
    else has_elapsed interval last now

-- No checkpoint without an interval, or with the interval 0.
unfoldable pub due_by : Option ℤ → MigratableApp → ℕ → Bool
unfolding due_after
due_by none app now = false
due_by (some (pos zero)) app now = false
due_by (some (pos (suc n))) app now = due_after (pos (suc n)) app now
due_by (some (negsuc n)) app now = due_after (negsuc n) app now

-- shouldPerformCheckpoint
unfoldable pub should_perform_checkpoint : MigratableApp → ℕ → Bool
unfolding due_by
should_perform_checkpoint app now =
    due_by (parse_duration app.spec.checkpoint_policy.interval) app now

-- The chain of incremental dumps is as long as the policy allows.
unfoldable pub chain_is_full : CheckpointPolicy → CheckpointStatus → Bool
chain_is_full policy c =
    is_pos policy.max_chain_depth && leb (to_ℕ policy.max_chain_depth) c.chain_depth

-- The parent of the next checkpoint; none starts a new chain.
unfoldable pub parent_id : CheckpointPolicy → CheckpointStatus → String
unfolding chain_is_full
parent_id policy c = if chain_is_full policy c then "" else c.last_checkpoint_id

-- The status after a checkpoint on top of `parent`.
unfoldable pub checkpointed : (parent dump_id : String) → ℕ → CheckpointStatus → CheckpointStatus
checkpointed parent dump_id now c =
    let taken = record c { last_checkpoint_id = dump_id; last_checkpoint_time = now } in
    if str_eq parent ""
    then record taken { chain_root = dump_id; chain_depth = 1 }
    else record taken { chain_depth = c.chain_depth + 1 }

-- What is applied again to the object as it was read after a conflict.
abbrev retaken : String → ℕ → MigratableAppStatus → MigratableAppStatus
retaken dump_id now s = record s {
  checkpoint_status = record s.checkpoint_status {
    last_checkpoint_id = dump_id;
    last_checkpoint_time = now;
  };
}

abbrev pub prefixed : String → Error → Error
prefixed text e = record { code = other; text = text <> e.text }

module _ (env : Env) where
  unfoldable pub reapply : String → Result MigratableApp → M (Result Unit) → M (Result Unit)
  reapply dump_id (err e) again = pure (err (prefixed "failed to re-fetch after conflict: " e))
  reapply dump_id (ok fresh) again = do
    set_app fresh
    now ← clock
    modify_status (retaken dump_id now)
    again

  unfoldable pub after_store : String → Result Unit → M (Result Unit) → M (Result Unit)
  unfolding reapply
  after_store dump_id (ok u) again = pure (ok tt)
  after_store dump_id (err e) again =
      if is_conflict e.code
      then (do
        app ← the_app
        fresh ← get_app env app.meta.namespace app.meta.name
        reapply dump_id fresh again)
      else pure (err (prefixed "failed to update status: " e))

  -- The loop of at most three updates. It ends without an error after the third conflict, too.
  unfoldable pub store_checkpoint : (tries : ℕ) → String → M (Result Unit)
  unfolding after_store
  store_checkpoint zero dump_id = pure (ok tt)
  store_checkpoint (suc tries) dump_id = do
    answer ← update_status env
    after_store dump_id answer (store_checkpoint tries dump_id)

  unfoldable pub record_checkpoint : (parent : String) → Result String → M (Result Unit)
  unfolding checkpointed store_checkpoint
  record_checkpoint parent (err e) = pure (err (prefixed "pre-checkpoint failed: " e))
  record_checkpoint parent (ok dump_id) = do
    now ← clock
    modify_status
        (λ s. record s { checkpoint_status = checkpointed parent dump_id now s.checkpoint_status })
    store_checkpoint 3 dump_id

  unfoldable pub checkpoint_through : (parent : String) → Result String → M (Result Unit)
  unfolding record_checkpoint
  checkpoint_through parent (err e) = pure (err (prefixed "failed to connect to agent: " e))
  checkpoint_through parent (ok ip) = do
    answer ← pre_checkpoint env ip parent
    record_checkpoint parent answer

  -- performPreCheckpoint
  unfoldable pub perform_pre_checkpoint : Pod → M (Result Unit)
  unfolding parent_id checkpoint_through
  perform_pre_checkpoint pod = do
    app ← the_app
    agent ← new_agent_client env pod
    checkpoint_through (parent_id app.spec.checkpoint_policy app.status.checkpoint_status) agent
