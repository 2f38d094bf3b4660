-- ===== src/Agent/FinalDump/Uploading.antt =====
-- What a final dump that succeeds has uploaded.
use criu_migration_operator.Base.{
  ℕ, String, Bool, true, false, ◌||◌, Option, Map, ◌≡◌, refl, ◌⊎◌, inl, inr, if◌then◌else◌,
}
use criu_migration_operator.Base.Splitting.{path_join}
use criu_migration_operator.Cluster.{Result, ok, err}
use criu_migration_operator.Host.{Host, uploaded, World, ask, note, pure, ◌>>◌}
use criu_migration_operator.Agent.Manager.{
  Manager, ExcludeArgs, CheckpointResult, s3_prefix_of, upload_agent_metadata, generate_dump_id,
}
use criu_migration_operator.Host.Trace.{Happened, newest}
use criu_migration_operator.Agent.Manager.Later.{upload_logs-IsLater}
use criu_migration_operator.Agent.FinalDump.{
  Dumped, Final, uses_page_server, uses_storage, uploads_directly, after_upload, upload_all,
  upload_dump, after_dump_upload, after_final_dump, dump_in_namespace, final_dump_into, final_dump,
}

-- Where a result is a success, the checkpoint of its ID was uploaded whole.
abbrev pub IsStored : (work_dir : String) → World Manager → Final → Type 0
IsStored work_dir w (err e) = Unit
IsStored work_dir w (ok (r, process)) =
    Happened (uploaded (path_join work_dir r.dump_id) (s3_prefix_of w.self r.dump_id) (ok tt))
      w.trace

module _ (host : Host) where
  -- The end of a dump: its upload, and the logs.
  after_upload-IsStored :
      (what work_dir : String) (r : CheckpointResult) (process : Option ℕ) (answer : Result Unit)
      (w : World Manager)
      → let dir = path_join work_dir r.dump_id in
        let prefix = s3_prefix_of w.self r.dump_id in
        let u = (note (uploaded dir prefix answer) w).1 in
        let (final, v) =
          after_dump_upload host dir prefix (r, process) (after_upload host what answer) u in
        IsStored work_dir v final
  unfolding after_upload after_dump_upload
  after_upload-IsStored what work_dir r process (err e) w = tt
  after_upload-IsStored what work_dir r process (ok done) w =
      let dir = path_join work_dir r.dump_id in
      let prefix = s3_prefix_of w.self r.dump_id in
      let u = (note (uploaded dir prefix (ok tt)) w).1 in
      let l = upload_logs-IsLater host dir prefix u in
      rw l.self (l.kept (uploaded dir prefix (ok tt)) newest)

  chosen :
      {A : Type 0} (storage direct server : Bool) (m k l n : A)
      → direct ≡ false
      → (storage || server) ≡ true
      → let c = if storage then (if direct then m else k) else if server then l else n in
        (c ≡ k) ⊎ (c ≡ l)
  chosen true true server m k l n d s = absurd (cc d)
  chosen true false server m k l n d s = inl refl
  chosen false direct true m k l n d s = inr refl
  chosen false direct false m k l n d s = absurd (cc s)

  module _ (strategy : String) where
    -- One of the four strategies, without direct upload.
    abbrev pub IsUploading : Type 0
    IsUploading =
        (uploads_directly host strategy ≡ false)
        × ((uses_storage strategy || uses_page_server strategy) ≡ true)

    upload_dump-all :
        (dir prefix : String)
        → IsUploading
        → (what : String) × (upload_dump host strategy dir prefix ≡ upload_all host what dir prefix)
    unfolding upload_dump
    upload_dump-all dir prefix (direct, known) =
        let storage : String = "failed to upload checkpoint to storage: " in
        let server : String = "failed to upload checkpoint metadata to storage: " in
        elim (chosen (uses_storage strategy) (uploads_directly host strategy)
          (uses_page_server strategy) (do upload_agent_metadata host dir prefix; pure (ok tt))
          (upload_all host storage dir prefix) (upload_all host server dir prefix) (pure (ok tt))
          direct known) [ inl e ↦ (storage, e) | inr e ↦ (server, e) ]

    after_final_dump-IsStored :
        (work_dir dump_id : String) (mounts pipes : Map) (d : Result Dumped) (w : World Manager)
        → IsUploading
        → let (final, v) =
            after_final_dump host strategy dump_id (path_join work_dir dump_id) mounts pipes d w in
          IsStored work_dir v final
    unfolding after_final_dump upload_all
    after_final_dump-IsStored work_dir dump_id mounts pipes (err e) w h = tt
    after_final_dump-IsStored work_dir dump_id mounts pipes (ok d) w h =
        let dir = path_join work_dir dump_id in
        let (size, u) = ask host (λ n. host.dir_size n dir) w in
        let prefix = s3_prefix_of u.self dump_id in
        let (what, e) = upload_dump-all dir prefix h in
        let (answer, v) = ask host (λ n. host.upload_checkpoint n dir prefix) u in
        rw e (after_upload-IsStored what work_dir _ d.process answer v)

    dump_in_namespace-IsStored :
        (pid port : ℕ) (parent_id work_dir dump_id : String) (mounts : Map)
        (exclude : Option ExcludeArgs) (r : Result String) (w : World Manager)
        → IsUploading
        → let (final, v) =
            dump_in_namespace host pid port parent_id strategy dump_id
              (path_join work_dir dump_id)
              mounts
              exclude
              r
              w in
          IsStored work_dir v final
    unfolding dump_in_namespace
    dump_in_namespace-IsStored pid port parent_id work_dir dump_id mounts exclude (err e) w h = tt
    dump_in_namespace-IsStored pid port parent_id work_dir dump_id mounts exclude (ok link) w h =
        after_final_dump-IsStored work_dir dump_id mounts _ _ _ h

    final_dump_into-IsStored :
        (pid port : ℕ) (parent_id work_dir dump_id : String) (exclude : Option ExcludeArgs)
        (r : Result Unit) (w : World Manager)
        → IsUploading
        → let (final, v) =
            final_dump_into host pid port parent_id strategy dump_id
              (path_join work_dir dump_id)
              exclude
              r
              w in
          IsStored work_dir v final
    unfolding final_dump_into
    final_dump_into-IsStored pid port parent_id work_dir dump_id exclude (err e) w h = tt
    final_dump_into-IsStored pid port parent_id work_dir dump_id exclude (ok made) w h =
        dump_in_namespace-IsStored pid port parent_id work_dir dump_id _ exclude _ _ h

    -- A final dump that reports success has uploaded its directory, under the prefix of its ID, and the
    -- storage has confirmed it: under each of the four strategies, where CRIU does not upload by itself, and
    -- whatever the outside answers.
    pub final_dump-IsStored :
        (pid port : ℕ) (parent_id : String) (exclude : Option ExcludeArgs) (w : World Manager)
        → IsUploading
        → let (final, v) = final_dump host pid port parent_id strategy exclude w in
          IsStored w.self.work_dir v final
    unfolding final_dump generate_dump_id
    final_dump-IsStored pid port parent_id exclude w h =
        final_dump_into-IsStored pid port parent_id w.self.work_dir _ exclude _ _ h
