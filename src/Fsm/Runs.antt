-- ===== src/Fsm/Runs.antt =====
-- Whole migrations: startMigration, and any number of calls of advanceMigrationFSM, each on the object
-- as the one before left it.
use criu_migration_operator.Base.{String, ◌+◌, ◌<◌, ◌≤◌, ◌≡◌, ◌⊎◌, refl, List, [], ◌∷◌, arith}
use criu_migration_operator.Kube.{Pod}
use criu_migration_operator.Api.{Stage, idle, quiescing, dumping}
use criu_migration_operator.Cluster.{Env, World}
use criu_migration_operator.Cluster.Trace
use criu_migration_operator.Fsm.Transition.{move_to}
use criu_migration_operator.Fsm.{
  first_stage, begin_migration, start_migration, dispatch, advance_migration_fsm,
}
use criu_migration_operator.Fsm.Spec.{
  view, Step, IsSane, Spends, Step-IsSane, Step-Spends, Spends-trans,
}
use criu_migration_operator.Fsm.Refines.{dispatch-Step}

-- One reconcile after another; each brings the source pod that it found.
unfoldable pub advances : Env → List Pod → World → World
advances env [] w = w
advances env (source ∷ rest) w = advances env rest (advance_migration_fsm env source w).1

module _ (env : Env) where
  advance_of_stage-Step :
      (source : Pod) (s : Stage) (w : World)
      → w.app.status.migration.stage ≡ s
      → IsSane (view w)
      → Step (view w) (view (dispatch env source s w).1)
  unfolding dispatch
  advance_of_stage-Step source idle w h v = Step.stay refl
  advance_of_stage-Step source s w h v = dispatch-Step env source s w h (v.has_budget (λ e. cc))

  advance_sane-Step :
      (source : Pod) (w : World)
      → IsSane (view w)
      → Step (view w) (view (advance_migration_fsm env source w).1)
  unfolding advance_migration_fsm
  advance_sane-Step source w v = advance_of_stage-Step source w.app.status.migration.stage w refl v

  -- Over any number of calls of the dispatcher, each on the object as the one before left it, from an
  -- object whose retries are within its limit and which has a limit unless it is idle, both remain so.
  pub advances-IsSane :
      (sources : List Pod) (w : World) → IsSane (view w) → IsSane (view (advances env sources w))
  unfolding advances
  advances-IsSane [] w v = v
  advances-IsSane (source ∷ rest) w v =
      advances-IsSane rest (advance_migration_fsm env source w).1
        (Step-IsSane (advance_sane-Step source w v) v)

  pub advances-Spends :
      (sources : List Pod) (w : World)
      → IsSane (view w)
      → Spends (view w) (view (advances env sources w))
  unfolding advances
  advances-Spends [] w v = omega arith
  advances-Spends (source ∷ rest) w v =
      let u = (advance_migration_fsm env source w).1 in
      let s = advance_sane-Step source w v in
      Spends-trans (Step-Spends s) (advances-Spends rest u (Step-IsSane s v))

  -- A new migration has its whole budget.
  pub start_migration-view :
      (source : Pod) (reason : String) (w : World)
      → let u = view (start_migration env source reason w).1 in
        ((u.stage ≡ quiescing) ⊎ (u.stage ≡ dumping))
        × (u.retries ≡ 0)
        × (0 < u.budget)
        × (u.dumps ≡ (view w).dumps)
        × (u.creates ≡ (view w).creates)
        × (u.restores ≡ (view w).restores)
  unfolding start_migration move_to first_stage begin_migration
  start_migration-view source reason w = ground arith

  -- A migration is started on any object and then advanced any number of times, each time on the object
  -- as the handler before left it. Whatever the API server, the agents and the clock answer, the source
  -- is dumped at most once, and a target pod is created and a restore requested at most once more often
  -- than the retry limit in force.
  pub start-advances_bounded :
      (source : Pod) (reason : String) (w : World) (sources : List Pod)
      → let u = (start_migration env source reason w).1 in
        let v = advances env sources u in
        let limit = u.app.status.migration.max_retries in
        (Trace.dumps v.trace ≤ Trace.dumps w.trace + 1)
        × (Trace.creates v.trace ≤ Trace.creates w.trace + (limit + 1))
        × (Trace.restores v.trace ≤ Trace.restores w.trace + (limit + 1))
  start-advances_bounded source reason w sources =
      let u = (start_migration env source reason w).1 in
      let s = start_migration-view source reason w in
      ground (
        arith,
        s,
        advances-Spends sources u (record { in_budget = omega (arith, s); has_budget = λ e. s.2 }),
      )
