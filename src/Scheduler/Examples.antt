-- ===== src/Scheduler/Examples.antt =====
-- The property of the scheduler on a small input.
use criu_migration_operator.Base.{[], ◌∷◌}
use criu_migration_operator.Api.{idle}
use criu_migration_operator.Samples.{calm, world_at, app_at, migration_at}
use criu_migration_operator.Scheduler.{evaluate_all}
use criu_migration_operator.Scheduler.Requests.{requests, Round}
use criu_migration_operator.Scheduler.Rounds.{evaluate_all-Round}

evaluate_all-Round_example :
    let apps = app_at (migration_at idle 0) ∷ [] in
    Round
      (calm idle)
      apps
      (requests (world_at idle 0))
      (requests (evaluate_all (calm idle) apps (world_at idle 0)).1)
evaluate_all-Round_example =
    evaluate_all-Round (calm idle) (app_at (migration_at idle 0) ∷ []) (world_at idle 0)
