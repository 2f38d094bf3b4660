-- ===== src/PodBuilder/Examples.antt =====
-- The properties of the pod builder on small inputs.
use criu_migration_operator.Base.{◌≡◌, List, [], ◌∷◌, ◌++◌, some, lookup, join, itoa}
use criu_migration_operator.Api.{idle}
use criu_migration_operator.Kube.{Container}
use criu_migration_operator.Samples.{app_at, migration_at, app_spec}
use criu_migration_operator.PodBuilder.Agent.{PodBuilder, build_agent_container}
use criu_migration_operator.PodBuilder.{written, build_base_pod, build_restore_pod}
use criu_migration_operator.PodBuilder.Annotations.{build_restore_pod-annotations}
use criu_migration_operator.PodBuilder.Containers.{
  ArePrepared, written-join, build_base_pod-ArePrepared,
}

abbrev builder : PodBuilder
builder = record {
  app = app_at (migration_at idle 0);
  aws_access_key = "";
  aws_secret_key = "";
  getenv = λ name. "";
}

written-join_example : written "|||" ("--port" ∷ "6379" ∷ []) ≡ join "|||" ("--port" ∷ "6379" ∷ [])
written-join_example = written-join "|||" ("--port" ∷ "6379" ∷ [])

build_restore_pod-annotations_example :
    let m =
      (build_restore_pod builder 1 "dump-1" "node-a" "redis/0/node-a/dump-1" "").meta.annotations in
    (lookup "migration.io/checkpoint-id" m ≡ some "dump-1")
    × (lookup "migration.io/source-node" m ≡ some "node-a")
    × (lookup "migration.io/s3-prefix" m ≡ some "redis/0/node-a/dump-1")
    × (lookup "migration.io/source-pod-ip" m ≡ some "")
    × (lookup "migration.io/app" m ≡ some "redis")
    × (lookup "migration.io/generation" m ≡ some (itoa 1))
    × (lookup "migration.io/mode" m ≡ some "restore")
build_restore_pod-annotations_example =
    build_restore_pod-annotations builder 1 "dump-1" "node-a" "redis/0/node-a/dump-1" ""

build_base_pod-ArePrepared_example :
    (containers : List Container) × ((build_base_pod builder 0 "normal").spec.containers
      ≡ containers ++ build_agent_container builder "normal" ∷ [])
    × ArePrepared 0 app_spec.template.spec.containers containers
build_base_pod-ArePrepared_example = build_base_pod-ArePrepared builder 0 "normal"
