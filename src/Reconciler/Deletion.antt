-- ===== src/Reconciler/Deletion.antt =====
-- The deletion of an application: what a reconcile of it does.
use criu_migration_operator.Base.{
  ◌≡◌, refl, subst, String, true, false, List, [], ◌∷◌, arith, inl, inr, Bool-cases,
}
use criu_migration_operator.Cluster.{
  Env, World, Call, app_updated, objects_deleted, Result, ok, err, new_session, list_objects,
  delete_objects,
}
use criu_migration_operator.Api.{MigratableApp}
use criu_migration_operator.Pods.{is_deleting, aws_credentials}
use criu_migration_operator.Reconciler.{finalizer_name, release_app, reconcile_app, set_finalizers}
use criu_migration_operator.Reconciler.Cleanup.{
  contains_string, remove_string, batches, app_prefix, delete_each, delete_listed, clean_with,
  clean_as, cleanup_s3_checkpoints,
}

contains-remove : (l : List String) (s : String) → contains_string (remove_string l s) s ≡ false
unfolding contains_string remove_string
contains-remove [] s = refl
contains-remove (x ∷ l) s = ground (arith, contains-remove l s)

-- Only objects of the storage have been deleted in between.
pub data Cleaned (before : List Call) : List Call → Type 0 where
  nothing : Cleaned before before
  more :
      {after : List Call} (bucket : String) (keys : List String) (r : Result Unit)
      → Cleaned before after
      → Cleaned before (objects_deleted bucket keys r ∷ after)

Cleaned-trans : {a b c : List Call} → Cleaned a b → Cleaned b c → Cleaned a c
Cleaned-trans p nothing = p
Cleaned-trans p (more bucket keys r q) = more bucket keys r (Cleaned-trans p q)

-- What a reconcile of an application that is being deleted may add to the calls.
pub data IsDeletion (before after : List Call) : Type 0 where
  kept : after ≡ before → IsDeletion before after
  released :
      (cleaned : List Call) (app : MigratableApp) (r : Result Unit)
      → Cleaned before cleaned
      → contains_string app.meta.finalizers finalizer_name ≡ false
      → after ≡ app_updated app r ∷ cleaned
      → IsDeletion before after

module _ (env : Env) where
  aws_credentials-trace : (w : World) → (aws_credentials env w).1.trace ≡ w.trace
  unfolding aws_credentials
  aws_credentials-trace w = ground arith

  delete_each-Cleaned :
      (bucket : String) (batches : List (List String)) (w : World)
      → Cleaned w.trace (delete_each env bucket batches w).1.trace
  unfolding delete_each
  delete_each-Cleaned bucket [] w = nothing
  delete_each-Cleaned bucket (keys ∷ rest) w =
      let u = (delete_objects env bucket keys w).1 in
      Cleaned-trans (more bucket keys _ nothing) (delete_each-Cleaned bucket rest u)

  delete_listed-Cleaned :
      (bucket : String) (r : Result (List String)) (w : World)
      → Cleaned w.trace (delete_listed env bucket r w).1.trace
  unfolding delete_listed
  delete_listed-Cleaned bucket (ok keys) w = delete_each-Cleaned bucket (batches keys) w
  delete_listed-Cleaned bucket (err e) w = nothing

  clean_with-Cleaned :
      (app : MigratableApp) (r : Result Unit) (w : World)
      → Cleaned w.trace (clean_with env app r w).1.trace
  unfolding clean_with
  clean_with-Cleaned app (ok u) w =
      let (r, v) = list_objects env app.spec.storage.bucket (app_prefix app) w in
      delete_listed-Cleaned app.spec.storage.bucket r v
  clean_with-Cleaned app (err e) w = nothing

  clean_as-Cleaned :
      (app : MigratableApp) (r : Result (String × String)) (w : World)
      → Cleaned w.trace (clean_as env app r w).1.trace
  unfolding clean_as
  clean_as-Cleaned app (ok keys) w =
      let (r, v) = new_session env app.spec.storage.region app.spec.storage.endpoint w in
      clean_with-Cleaned app r v
  clean_as-Cleaned app (err e) w = nothing

  cleanup-Cleaned : (w : World) → Cleaned w.trace (cleanup_s3_checkpoints env w).1.trace
  unfolding cleanup_s3_checkpoints
  cleanup-Cleaned w =
      let u = (aws_credentials env w).1 in
      subst (λ l. Cleaned l (clean_as env w.app (aws_credentials env w).0 u).1.trace)
        (aws_credentials-trace w) (clean_as-Cleaned w.app (aws_credentials env w).0 u)

  release_app-IsDeletion : (w : World) → IsDeletion w.trace (release_app env w).1.trace
  unfolding release_app set_finalizers
  release_app-IsDeletion w =
      let u = (cleanup_s3_checkpoints env w).1 in
      elim (Bool-cases (contains_string w.app.meta.finalizers finalizer_name)) [
        | inl e ↦ rw e (
            IsDeletion.released u.trace _ _ (cleanup-Cleaned w)
              (contains-remove w.app.meta.finalizers finalizer_name) refl)
        | inr e ↦ rw e (IsDeletion.kept refl)
      ]

  -- The reconcile of an application that is being deleted calls for nothing but the deletion of objects
  -- of the storage and, as its last call, the update of the application without the finalizer.
  pub reconcile_app-IsDeletion :
      (w : World)
      → is_deleting w.app.meta.deletion_timestamp ≡ true
      → IsDeletion w.trace (reconcile_app env w).1.trace
  unfolding reconcile_app
  reconcile_app-IsDeletion w h = rw h (release_app-IsDeletion w)
