-- ===== src/Pods/Examples.antt =====
-- The waits of the controller on small inputs.
use criu_migration_operator.Base.{◌+◌, ◌*◌, ◌≡◌, [], ◌∷◌, arith}
use criu_migration_operator.Base.Duration.{second}
use criu_migration_operator.Api.{idle}
use criu_migration_operator.Samples.{calm, world_at, source_pod}
use criu_migration_operator.Pods.{wait_rounds, chosen}
use criu_migration_operator.Pods.Latest.{IsChoice, chosen-IsChoice}
use criu_migration_operator.Cluster.{ok}
use criu_migration_operator.Pods.Wait.{wait_rounds_enough}

-- Two seconds are left, and three rounds more are allowed.
wait_rounds_enough_example :
    wait_rounds (calm idle) (2 + 3) (1002 * second) source_pod (world_at idle 0)
    ≡ wait_rounds (calm idle) 2 (1002 * second) source_pod (world_at idle 0)
wait_rounds_enough_example =
    wait_rounds_enough (calm idle) 2 3 (1002 * second) source_pod (world_at idle 0) (omega arith)

chosen-IsChoice_example : IsChoice (ok (source_pod ∷ [])) (chosen (ok (source_pod ∷ [])))
chosen-IsChoice_example = chosen-IsChoice (ok (source_pod ∷ []))
