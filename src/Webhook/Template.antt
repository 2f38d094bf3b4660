-- ===== src/Webhook/Template.antt =====
-- pkg/webhook/cr_creator.go: the template that is kept of a pod, without what was injected into it.
use text.Mathlib.Text.{starts_with}
use criu_migration_operator.Base.{
  ◌+◌, ◌≡◌, refl, Bool, true, false, not, ◌||◌, List, [], ◌∷◌, ◌++◌, none, index, str_eq, keep, any,
  count_if, All, Bool-cases, inl, inr, arith, if◌then◌else◌,
}
use criu_migration_operator.Kube.{Container, VolumeMount, PodSpec, Pod}
use criu_migration_operator.PodBuilder.{add_checkpoints_mount, checkpoints_mount}
use criu_migration_operator.PodBuilder.Containers.{is_checkpoints}

-- A mount that Kubernetes or the webhook has added.
unfoldable pub is_injected_mount : VolumeMount → Bool
is_injected_mount m = starts_with m.name "kube-api-access-" || str_eq m.name "checkpoints"

unfoldable pub clean_mounts : List VolumeMount → List VolumeMount
clean_mounts l = keep (λ m. not (is_injected_mount m)) l

unfoldable pub clean_container : Container → Container
clean_container c = record c { volume_mounts = clean_mounts c.volume_mounts }

abbrev pub is_agent : Container → Bool
is_agent c = str_eq c.name "criu-agent"

-- The loop of buildOriginalPodSpec.
unfoldable pub original_containers : List Container → List Container
unfolding clean_container
original_containers [] = []
original_containers (c ∷ rest) =
    let more = original_containers rest in if is_agent c then more else clean_container c ∷ more

-- buildOriginalPodSpec: only the containers are copied.
unfoldable pub build_original_pod_spec : Pod → PodSpec
unfolding original_containers
build_original_pod_spec pod = record {
  containers = original_containers pod.spec.containers;
  init_containers = [];
  volumes = [];
  affinity = none;
  node_selector = [];
  share_process_namespace = none;
  node_name = "";
}

-- ShouldCreateCR
unfoldable pub should_create_cr : Pod → Bool
should_create_cr pod =
    let v = index pod.meta.annotations "migration.io/create-cr" in
    if str_eq v "false" then false else if str_eq v "true" then true else true

clean-none : (l : List VolumeMount) → count_if is_checkpoints (clean_mounts l) ≡ 0
unfolding clean_mounts is_injected_mount
clean-none [] = refl
clean-none (m ∷ l) = ground (arith, clean-none l)

count-last : (l : List VolumeMount) → count_if is_checkpoints l ≡ 0 → any is_checkpoints l ≡ false
count-last [] h = refl
count-last (m ∷ l) h = ground (arith, h, count-last l)

count-append :
    (l : List VolumeMount)
    → count_if is_checkpoints (l ++ checkpoints_mount ∷ []) ≡ count_if is_checkpoints l + 1
count-append [] = omega arith
count-append (m ∷ l) = ground (arith, count-append l)

one-mount :
    (l : List VolumeMount) → count_if is_checkpoints (add_checkpoints_mount (clean_mounts l)) ≡ 1
unfolding add_checkpoints_mount
one-mount l =
    rw (count-last (clean_mounts l) (clean-none l), count-append (clean_mounts l), clean-none l)
      refl

-- Not the agent, without a mount of the checkpoints, and with one after the pod builder's turn.
abbrev pub IsOriginal : Container → Type 0
IsOriginal c =
    (is_agent c ≡ false)
    × (count_if is_checkpoints c.volume_mounts ≡ 0)
    × (count_if is_checkpoints (add_checkpoints_mount c.volume_mounts) ≡ 1)

-- The template that is kept of a pod has no agent among its containers, injected or not, and none of
-- its containers mounts the checkpoints until the pod builder adds that mount, which it does exactly
-- once.
pub original_containers-All : (l : List Container) → All IsOriginal (original_containers l)
unfolding original_containers clean_container
original_containers-All [] = tt
original_containers-All (c ∷ rest) = elim (Bool-cases (is_agent c)) [
  | inl e ↦ rw e (original_containers-All rest)
  | inr e ↦
      rw e
        ((e, clean-none c.volume_mounts, one-mount c.volume_mounts), original_containers-All rest)
]
