-- ===== src/Webhook/Examples.antt =====
-- The properties of the webhook on small inputs.
use criu_migration_operator.Base.{◌≡◌, refl, Map, All, [], ◌∷◌}
use criu_migration_operator.Samples.{container_of}
use criu_migration_operator.PodBuilder.{adapt_containers}
use criu_migration_operator.Webhook.Config.{load_config, merge_annotations}
use criu_migration_operator.Webhook.Inject.{find_app_container, inject_at}
use criu_migration_operator.Webhook.Template.{
  IsOriginal, original_containers, original_containers-All,
}
use criu_migration_operator.Webhook.Merging.{inject-adapt}
use criu_migration_operator.Webhook.Precedence.{
  texts, flags, same, is_true, is_true_fold, Chosen, merge_annotations-Chosen,
}

abbrev overrides : Map
overrides = ("migration.io/bucket", "other") ∷ ("migration.io/direct-upload", "True") ∷ []

abbrev stored : Map
stored = ("bucket", "ours") ∷ ("region", "eu-west-1") ∷ ("logUpload", "true") ∷ []

merge_annotations-Chosen_example :
    let c = merge_annotations overrides (load_config stored) in
    All (Chosen same same overrides stored c) texts
    × All (Chosen is_true_fold is_true overrides stored c) flags
merge_annotations-Chosen_example = merge_annotations-Chosen overrides stored

inject-adapt_example :
    let l = container_of "redis" ∷ container_of "exporter" ∷ [] in
    inject_at (find_app_container l) [] l ≡ adapt_containers 0 [] l
inject-adapt_example =
    inject-adapt [] (container_of "redis") (container_of "exporter" ∷ []) refl refl (refl, tt)

original_containers-All_example :
    All IsOriginal (original_containers (container_of "app" ∷ container_of "criu-agent" ∷ []))
original_containers-All_example =
    original_containers-All (container_of "app" ∷ container_of "criu-agent" ∷ [])
