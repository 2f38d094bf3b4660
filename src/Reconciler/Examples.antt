-- ===== src/Reconciler/Examples.antt =====
-- The properties of the reconciler on small inputs.
use criu_migration_operator.Base.{
  ◌*◌, String, ◌≤◌, ◌<◌, ◌≡◌, ◌≢◌, ◌⊎◌, ◌↔◌, refl, true, false, List, [], ◌∷◌, none, some, All,
  length, flatten, index, arith,
}
use criu_migration_operator.Base.Duration.{second}
use criu_migration_operator.Api.{idle, dumping, MigratableAppStatus, Phase}
use criu_migration_operator.Cluster.{World, ok}
use criu_migration_operator.Samples.{calm, world_at, source_pod, status_of, migration_at}
use criu_migration_operator.Fsm.Spec.{view}
use criu_migration_operator.Reconciler.{
  needs_migration, observe, checkpoint_and_wait, observed, reconcile_app, finalizer_name,
}
use criu_migration_operator.Reconciler.Cleanup.{batch_size, batches, delete_listed}
use criu_migration_operator.Reconciler.Checkpoint.{perform_pre_checkpoint}
use criu_migration_operator.Reconciler.Batches.{deleted, batches-partition, delete_listed-deleted}
use criu_migration_operator.Reconciler.Deletion.{IsDeletion, reconcile_app-IsDeletion}
use criu_migration_operator.Reconciler.Decisions.{IsInLine, needs_migration-some, observed-settles}
use criu_migration_operator.Reconciler.Chain.{depth, perform_pre_checkpoint-bounded}
use criu_migration_operator.Reconciler.InFlight.{
  InFlight, IsRequested, IsMissing, reconcile_app-InFlight,
}

abbrev keys : List String
keys = "redis/0/node-a/cp-1/pages-1.img" ∷ "redis/0/node-a/cp-1/pagemap-1.img" ∷ []

batches-partition_example :
    All (λ b. (0 < length b) × (length b ≤ batch_size)) (batches keys)
    × (flatten (batches keys) ≡ keys)
batches-partition_example = batches-partition keys

delete_listed-deleted_example :
    deleted (delete_listed (calm idle) "checkpoints" (ok keys) (world_at idle 0)).1.trace ≡ keys
delete_listed-deleted_example =
    delete_listed-deleted (calm idle) "checkpoints" keys (world_at idle 0)

abbrev with_finalizer : World → World
with_finalizer w = record w {
  app = record w.app { meta = record w.app.meta { finalizers = finalizer_name ∷ [] } };
}

abbrev deleted_world : World
deleted_world =
    let w = with_finalizer (world_at idle 0) in
    record w {
      app = record w.app { meta = record w.app.meta { deletion_timestamp = some (900 * second) } };
    }

reconcile_app-IsDeletion_example : IsDeletion [] (reconcile_app (calm idle) deleted_world).1.trace
reconcile_app-IsDeletion_example = reconcile_app-IsDeletion (calm idle) deleted_world refl

needs_migration-some_example :
    ((needs_migration (calm idle) source_pod (world_at idle 0)).0 ≢ none) ↔ (
      (idle ≡ idle)
      × (true ≡ true)
      × ((index [] "migration.io/trigger" ≡ "requested")
          ⊎ ((◌≢◌ {A = String} "node-a" "") × (ok false ≡ ok true))))
needs_migration-some_example = needs_migration-some (calm idle) source_pod (world_at idle 0)

-- The status of an application whose pod was on another node.
abbrev moved : MigratableAppStatus
moved = record (status_of (migration_at idle 0)) { current_node = "node-z"; phase = Phase.pending }

abbrev observed_world : World
observed_world =
    let w = world_at idle 0 in
    record w { app = record w.app { status = observed source_pod (1000 * second) moved } }

observed-settles_example :
    IsInLine source_pod observed_world.app.status
    × (observe (calm idle) source_pod observed_world
        ≡ checkpoint_and_wait (calm idle) source_pod observed_world)
observed-settles_example =
    observed-settles (calm idle) source_pod (1000 * second) moved observed_world refl

perform_pre_checkpoint-bounded_example :
    depth (perform_pre_checkpoint (calm idle) source_pod (world_at idle 0)).1 ≤ 10
perform_pre_checkpoint-bounded_example =
    perform_pre_checkpoint-bounded (calm idle) 10 (λ n namespace name app e. ground (arith, e))
      source_pod (world_at idle 0) refl (omega arith) (omega arith)

reconcile_app-InFlight_example :
    InFlight
      (IsRequested (with_finalizer (world_at dumping 0)))
      (IsMissing (calm dumping) (with_finalizer (world_at dumping 0)))
      (view (with_finalizer (world_at dumping 0)))
      (view (reconcile_app (calm dumping) (with_finalizer (world_at dumping 0))).1)
reconcile_app-InFlight_example =
    reconcile_app-InFlight (calm dumping) (with_finalizer (world_at dumping 0)) refl refl
      (omega arith)
