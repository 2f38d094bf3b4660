-- ===== src/Reconciler/Cleanup.antt =====
-- pkg/controller/reconciler.go: the finalizer, and the deletion of an application's checkpoints.
use criu_migration_operator.Base.{
  ℕ, zero, suc, ◌+◌, String, Bool, not, List, [], ◌∷◌, ltb, str_eq, ◌<>◌, length, slice_of, keep,
  any, if◌then◌else◌,
}
use criu_migration_operator.Api.{MigratableApp}
use criu_migration_operator.Cluster.{
  Env, M, Result, ok, err, ◌>>=◌, pure, the_app, new_session, list_objects, delete_objects,
}
use criu_migration_operator.Pods.{aws_credentials}

-- containsString
unfoldable pub contains_string : List String → String → Bool
contains_string l s = any (λ item. str_eq item s) l

-- removeString
unfoldable pub remove_string : List String → String → List String
remove_string l s = keep (λ item. not (str_eq item s)) l

abbrev pub batch_size : ℕ
batch_size = 1000

-- The end of the batch that starts at `i`.
unfoldable pub batch_end : ℕ → ℕ → ℕ
batch_end i count = if ltb count (i + batch_size) then count else i + batch_size

-- The loop over the objects, at its index: the batches that it deletes. Each round takes an object at
-- least, so as many rounds as there are objects are enough.
unfoldable pub batches_from : (rounds i : ℕ) → List String → List (List String)
unfolding batch_end
batches_from zero i keys = []
batches_from (suc rounds) i keys =
    let rest = batches_from rounds (i + batch_size) keys in
    if ltb i (length keys) then slice_of i (batch_end i (length keys)) keys ∷ rest else []

unfoldable pub batches : List String → List (List String)
unfolding batches_from
batches keys = batches_from (length keys) 0 keys

-- Every prefix starts with the application's name.
unfoldable pub app_prefix : MigratableApp → String
app_prefix app = app.meta.name <> "/"

module _ (env : Env) where
  -- A batch that fails is logged, and the others are still deleted.
  unfoldable pub delete_each : (bucket : String) → List (List String) → M Unit
  delete_each bucket [] = pure tt
  delete_each bucket (keys ∷ rest) = do
    answer ← delete_objects env bucket keys
    delete_each bucket rest

  unfoldable pub delete_listed : (bucket : String) → Result (List String) → M Unit
  unfolding delete_each batches
  delete_listed bucket (ok keys) = delete_each bucket (batches keys)
  delete_listed bucket (err e) = pure tt

  unfoldable pub clean_with : MigratableApp → Result Unit → M Unit
  unfolding delete_listed app_prefix
  clean_with app (err e) = pure tt
  clean_with app (ok u) = do
    keys ← list_objects env app.spec.storage.bucket (app_prefix app)
    delete_listed app.spec.storage.bucket keys

  unfoldable pub clean_as : MigratableApp → Result (String × String) → M Unit
  unfolding clean_with
  clean_as app (err e) = pure tt
  clean_as app (ok keys) = do
    session ← new_session env app.spec.storage.region app.spec.storage.endpoint
    clean_with app session

  -- cleanupS3Checkpoints, which returns no error: what fails never holds up the deletion.
  unfoldable pub cleanup_s3_checkpoints : M Unit
  unfolding clean_as
  cleanup_s3_checkpoints = do app ← the_app; keys ← aws_credentials env; clean_as app keys
