-- ===== src/PodBuilder/Annotations.antt =====
-- The annotations that a pod gets: those the agent reads for the restore, and the application's own
-- command line.
use criu_migration_operator.Base.{
  ℕ, suc, ◌≡◌, refl, ◌∙◌, String, Bool, true, false, ◌||◌, ◌&&◌, List, [], ◌∷◌, some, Map, lookup,
  insert, lookup-insert, str_eq, ◌==◌, itoa, Bool-cases, arith, inl, inr, if◌then◌else◌,
}
use criu_migration_operator.Kube.{Container}
use criu_migration_operator.PodBuilder.Agent.{PodBuilder}
use criu_migration_operator.PodBuilder.{
  save_command, adapt_containers, build_base_pod, build_restore_pod, has_program, written, is_nil,
}

-- A key that the saving of command lines does not write.
abbrev pub is_own : String → Bool
is_own key =
    str_eq "migration.io/original-command" key
    || str_eq "migration.io/original-args" key
    || str_eq "migration.io/original-workdir" key

-- An entry that is written, or not, under another key.
lookup-optional :
    (b : Bool) (k j v : String) (m : Map)
    → str_eq k j ≡ false
    → lookup j (if b then m else insert k v m) ≡ lookup j m
lookup-optional true k j v m h = refl
lookup-optional false k j v m h = rw (lookup-insert k j v m, h) refl

lookup-save :
    (key : String) (c : Container) (m : Map)
    → is_own key ≡ false
    → lookup key (save_command c m) ≡ lookup key m
unfolding save_command
lookup-save key c m h =
    lookup-optional (str_eq c.working_dir "") "migration.io/original-workdir" key c.working_dir _
      (ground arith)
    ∙ lookup-optional (is_nil c.args) "migration.io/original-args" key (written "|||" c.args) _
        (ground arith)
    ∙ lookup-optional (is_nil c.command) "migration.io/original-command" key (written "," c.command)
        m (ground arith)

lookup-adapt :
    (key : String) (i : ℕ) (m : Map) (l : List Container)
    → is_own key ≡ false
    → lookup key (adapt_containers i m l).0 ≡ lookup key m
unfolding adapt_containers
lookup-adapt key i m [] h = refl
lookup-adapt key i m (c ∷ r) h =
    elim (Bool-cases ((str_eq c.name "app" || i == 0) && has_program c)) [
      | inl e ↦ rw e (lookup-adapt key (suc i) (save_command c m) r h ∙ lookup-save key c m h)
      | inr e ↦ rw e (lookup-adapt key (suc i) m r h)
    ]

-- Whatever the application's template says, a pod for a restore carries what the agent in it restores
-- from, the name of its application, its generation and the mode.
pub build_restore_pod-annotations :
    (b : PodBuilder) (generation : ℕ) (checkpoint_id source_node s3_prefix source_pod_ip : String)
    → let m =
        (build_restore_pod b generation checkpoint_id source_node s3_prefix
          source_pod_ip).meta.annotations in
      (lookup "migration.io/checkpoint-id" m ≡ some checkpoint_id)
      × (lookup "migration.io/source-node" m ≡ some source_node)
      × (lookup "migration.io/s3-prefix" m ≡ some s3_prefix)
      × (lookup "migration.io/source-pod-ip" m ≡ some source_pod_ip)
      × (lookup "migration.io/app" m ≡ some b.app.meta.name)
      × (lookup "migration.io/generation" m ≡ some (itoa generation))
      × (lookup "migration.io/mode" m ≡ some "restore")
unfolding build_restore_pod build_base_pod
build_restore_pod-annotations b generation checkpoint_id source_node s3_prefix source_pod_ip =
    simp (lookup-insert, lookup-adapt) (refl, refl, refl, refl, refl, refl, refl)
