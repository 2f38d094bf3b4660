-- ===== src/Fsm/Examples.antt =====
-- The properties of the state machine on small inputs.
use criu_migration_operator.Base.{
  ◌+◌, ◌<◌, ◌≤◌, ◌≡◌, ◌≢◌, ◌⊎◌, ◌↔◌, refl, [], ◌∷◌, none, some, false, arith,
}
use criu_migration_operator.Base.Int.{pos}
use criu_migration_operator.Api.{
  PreDumpQuiesce, Stage, idle, quiescing, dumping, uploaded, restoring, restore_failed, is_dumping,
}
use criu_migration_operator.Cluster.{World}
use criu_migration_operator.Cluster.Trace
use criu_migration_operator.Pods.{get_current_pod}
use criu_migration_operator.Samples.{world_at, calm, source_pod, app_at, migration_at}
use criu_migration_operator.Fsm.{start_migration, advance_migration_fsm}
use criu_migration_operator.Fsm.Transition.{backoff_duration}
use criu_migration_operator.Fsm.Spec.{view, Step, IsSane}
use criu_migration_operator.Fsm.Refines.{advance-Step}
use criu_migration_operator.Fsm.Runs.{advances, start-advances_bounded, advances-IsSane}
use criu_migration_operator.Fsm.Stale.{dump_all, dump_all_once}
use criu_migration_operator.Fsm.Quiesce.{quiescing_handler}
use criu_migration_operator.Fsm.Draining.{IsReady, quiescing_handler-dumping}
use criu_migration_operator.Fsm.Dump.{dumping_handler}
use criu_migration_operator.Fsm.Release.{Released, restoring_handler-Released}
use criu_migration_operator.Fsm.Restore.{restoring_handler}
use criu_migration_operator.Fsm.Retry.{restore_failed_handler, check_retry_annotation}
use criu_migration_operator.Fsm.Retrying.{
  IsGone, IsAsked, Restarted, restore_failed-uploaded_needs, check_retry_annotation-Restarted,
}

start-advances_bounded_example :
    let env = calm dumping in
    let w = world_at idle 0 in
    let u = (start_migration env source_pod "manual" w).1 in
    let v = advances env (source_pod ∷ source_pod ∷ source_pod ∷ []) u in
    let limit = u.app.status.migration.max_retries in
    (Trace.dumps v.trace ≤ Trace.dumps w.trace + 1)
    × (Trace.creates v.trace ≤ Trace.creates w.trace + (limit + 1))
    × (Trace.restores v.trace ≤ Trace.restores w.trace + (limit + 1))
start-advances_bounded_example =
    start-advances_bounded (calm dumping) source_pod "manual" (world_at idle 0)
      (source_pod ∷ source_pod ∷ source_pod ∷ [])

advance-Step_example :
    Step
      (view (world_at dumping 0))
      (view (advance_migration_fsm (calm dumping) source_pod (world_at dumping 0)).1)
advance-Step_example = advance-Step (calm dumping) source_pod (world_at dumping 0) (omega arith)

-- The stored stage has moved on to Uploaded, and two snapshots still say Dumping.
dump_all_once_example :
    let apps = app_at (migration_at dumping 0) ∷ app_at (migration_at dumping 0) ∷ [] in
    let w = world_at dumping 0 in
    let v = dump_all (calm uploaded) source_pod apps w in
    (Trace.dumps v.trace ≤ Trace.dumps w.trace + 1)
    × (is_dumping uploaded ≡ false → Trace.dumps v.trace ≤ Trace.dumps w.trace)
dump_all_once_example =
    dump_all_once (calm uploaded) source_pod uploaded (λ n app. refl)
      (app_at (migration_at dumping 0) ∷ app_at (migration_at dumping 0) ∷ []) (world_at dumping 0)
      (
        (app_at (migration_at uploaded 0), refl, refl),
        ((app_at (migration_at uploaded 0), refl, unfold dumping_handler in refl), tt),
      )

restoring_handler-Released_example :
    Released source_pod []
      (restoring_handler (calm restoring) source_pod (world_at restoring 0)).1.trace
restoring_handler-Released_example =
    restoring_handler-Released (calm restoring) source_pod (world_at restoring 0)

restore_failed-uploaded_needs_example :
    let w = world_at restore_failed 1 in
    let m = w.app.status.migration in
    (m.retry_count < m.max_retries)
    × (m.last_transition_time + backoff_duration m.retry_count ≤ w.now)
    × ((m.current_target_pod ≡ "")
        ⊎ IsGone ((calm restore_failed).get_pod 0 "default" m.current_target_pod))
restore_failed-uploaded_needs_example =
    restore_failed-uploaded_needs (calm restore_failed) (world_at restore_failed 1) refl
      (unfold restore_failed_handler backoff_duration in refl)

-- The annotation is set on an application whose migration has failed.
abbrev asked : World
asked =
    let w = world_at Stage.failed 3 in
    record w {
      app = record w.app {
        meta = record w.app.meta { annotations = ("migration.io/retry", "requested") ∷ [] };
      };
    }

check_retry_annotation-Restarted_example :
    let env = calm Stage.failed in
    let (handled, u) = check_retry_annotation env asked in
    (IsAsked asked × (handled ≢ none) × Restarted (get_current_pod env asked).0 asked u)
    ⊎ ((¬ IsAsked asked) × (handled ≡ none) × (u ≡ asked))
check_retry_annotation-Restarted_example =
    check_retry_annotation-Restarted (calm Stage.failed) asked

advances-IsSane_example :
    IsSane (view (advances (calm dumping) (source_pod ∷ source_pod ∷ []) (world_at dumping 2)))
advances-IsSane_example =
    advances-IsSane (calm dumping) (source_pod ∷ source_pod ∷ []) (world_at dumping 2)
      (record { in_budget = omega arith; has_budget = λ e. omega arith })

-- A load generator runs, and seven seconds are given to it, of which none is left.
abbrev quiesce : PreDumpQuiesce
quiesce = record {
  target_pod_selector = ("app", "load") ∷ [];
  action = "delete";
  drain_seconds = pos 7;
}

abbrev draining : World
draining =
    let w = world_at quiescing 0 in
    let policy = record w.app.spec.migration_policy { pre_dump_quiesce = some quiesce } in
    record w { app = record w.app { spec = record w.app.spec { migration_policy = policy } } }

quiescing_handler-dumping_example :
    ((quiescing_handler (calm quiescing) draining).1.app.status.migration.stage ≡ dumping)
    ↔ IsReady (calm quiescing) draining (some quiesce)
quiescing_handler-dumping_example = quiescing_handler-dumping (calm quiescing) draining refl
