-- ===== src/PodBuilder.antt =====
-- pkg/controller/pod_builder.go: the pods that the controller creates for an application.
pub mod Agent
mod Annotations
pub mod Containers
mod Examples
use criu_migration_operator.Base.{
  ℕ, zero, suc, String, Bool, true, false, not, ◌&&◌, ◌||◌, List, [], ◌∷◌, ◌++◌, Option, none, some,
  Map, insert, ◌==◌, str_eq, ◌<>◌, itoa, any, if◌then◌else◌,
}
use criu_migration_operator.Kube.{
  SecurityContext, VolumeMount, Container, Volume, empty_dir, downward_api, PodAffinityTerm,
  PreferredSchedulingTerm, Affinity, PodSpec, Pod, pod_pending,
}
use criu_migration_operator.PodBuilder.Agent.{PodBuilder, work_dir, build_agent_container}

-- The loop that writes a list with a separator, at its counter `i`.
joined : String → ℕ → String → List String → String
joined sep i acc [] = acc
joined sep i acc (s ∷ r) = joined sep (suc i) ((if i == 0 then acc else acc <> sep) <> s) r

unfoldable pub written : String → List String → String
unfolding joined
written sep l = joined sep 0 "" l

abbrev pub is_nil {ℓ} : {A : Type ℓ} → List A → Bool
is_nil [] = true
is_nil (x ∷ r) = false

abbrev no_security : SecurityContext
no_security = record { privileged = none; capabilities_add = none }

abbrev pub capabilities : Option (List String) → List String
capabilities none = []
capabilities (some l) = l

abbrev pub security : Option SecurityContext → SecurityContext
security none = no_security
security (some c) = c

-- The capability that CRIU needs, with the contexts that are created for it.
unfoldable pub add_ptrace : Option SecurityContext → Option SecurityContext
add_ptrace s =
    let c = security s in
    some
      (record c { capabilities_add = some (capabilities c.capabilities_add ++ "SYS_PTRACE" ∷ []) })

abbrev pub checkpoints_mount : VolumeMount
checkpoints_mount = record { name = "checkpoints"; mount_path = work_dir; read_only = false }

unfoldable pub add_checkpoints_mount : List VolumeMount → List VolumeMount
add_checkpoints_mount mounts =
    if any (λ (m : VolumeMount). str_eq m.name "checkpoints") mounts
    then mounts
    else mounts ++ checkpoints_mount ∷ []

-- The annotations that keep what the container was to run.
unfoldable pub save_command : Container → Map → Map
unfolding written
save_command c annotations =
    let a =
      if is_nil c.command
      then annotations
      else insert "migration.io/original-command" (written "," c.command) annotations in
    let b =
      if is_nil c.args then a else insert "migration.io/original-args" (written "|||" c.args) a in
    if str_eq c.working_dir "" then b else insert "migration.io/original-workdir" c.working_dir b

abbrev pub has_program : Container → Bool
has_program c = not (is_nil c.command) || not (is_nil c.args)

-- The body of the loop over the containers, for one that it takes for the application's.
unfoldable pub adapt_container : Container → Container
unfolding add_ptrace add_checkpoints_mount
adapt_container c =
    let parked =
      if has_program c then record c { command = "sleep" ∷ "infinity" ∷ []; args = [] } else c in
    record parked {
      name = "app";
      security_context = add_ptrace c.security_context;
      volume_mounts = add_checkpoints_mount c.volume_mounts;
    }

-- The loop over the containers, at its index `i`: the pod's annotations and the containers.
unfoldable pub adapt_containers : ℕ → Map → List Container → Map × List Container
unfolding adapt_container save_command
adapt_containers i annotations [] = (annotations, [])
adapt_containers i annotations (c ∷ r) =
    let mine = str_eq c.name "app" || i == 0 in
    let saved = if mine && has_program c then save_command c annotations else annotations in
    let (all_saved, rest) = adapt_containers (suc i) saved r in
    (all_saved, (if mine then adapt_container c else c) ∷ rest)

-- The two volumes that every pod with an agent has.
abbrev pub agent_volumes : List Volume
agent_volumes =
    record { name = "checkpoints"; source = empty_dir }
    ∷ record { name = "podinfo"; source = downward_api "annotations" "metadata.annotations" }
    ∷ []

-- buildBasePod. Generation 0 has the application's name, a later one is named by the API server.
unfoldable pub build_base_pod : PodBuilder → ℕ → String → Pod
unfolding adapt_containers
build_base_pod b generation mode =
    let t = b.app.spec.template in
    let labels =
      insert "migration.io/app" b.app.meta.name
        (insert "app.kubernetes.io/managed-by" "migration-controller" t.labels) in
    let annotations = insert "migration.io/app" b.app.meta.name (
      insert "migration.io/mode" mode
        (insert "migration.io/generation" (itoa generation) t.annotations)) in
    let (saved, containers) = adapt_containers 0 annotations t.spec.containers in
    record {
      meta = record {
        name = if generation == 0 then b.app.meta.name else "";
        generate_name =
            if generation == 0 then "" else b.app.meta.name <> "-gen" <> itoa generation <> "-";
        namespace = b.app.meta.namespace;
        labels = labels;
        annotations = saved;
        finalizers = [];
        owner_references = record { kind = "MigratableApp"; name = b.app.meta.name } ∷ [];
        deletion_timestamp = none;
        creation_timestamp = 0;
      };
      spec = record t.spec {
        containers = containers ++ build_agent_container b mode ∷ [];
        volumes = t.spec.volumes ++ agent_volumes;
        share_process_namespace = some true;
      };
      phase = pod_pending;
      pod_ip = "";
      message = "";
      containers_ready = [];
    }

abbrev pid_booster : Container
pid_booster = record {
  name = "pid-booster";
  image = "busybox:latest";
  pull_policy = "";
  command = "/bin/sh" ∷ "-c" ∷ [];
  args = "for i in $(seq 1 150); do /bin/true & done; wait" ∷ [];
  working_dir = "";
  env = [];
  env_from = [];
  ports = [];
  volume_mounts = [];
  security_context = none;
}

-- BuildNormalPod
unfoldable pub build_normal_pod : PodBuilder → ℕ → Pod
build_normal_pod b generation =
    let pod = build_base_pod b generation "normal" in
    if generation == 0
    then record pod {
      spec = record pod.spec { init_containers = pod.spec.init_containers ++ pid_booster ∷ [] };
    }
    else pod

abbrev away_from_siblings : String → List PodAffinityTerm
away_from_siblings name =
    record {
      match_labels = ("migration.io/app", name) ∷ [];
      topology_key = "kubernetes.io/hostname";
    }
    ∷ []

abbrev prefer_on_demand_term : List PreferredSchedulingTerm
prefer_on_demand_term =
    record {
      weight = 100;
      match_expressions =
          record { key = "node-lifecycle"; operator = "NotIn"; values = "spot" ∷ [] } ∷ [];
    }
    ∷ []

abbrev affinity_of : Option Affinity → Affinity
affinity_of none = record { required_anti_affinity = []; preferred_node_affinity = [] }
affinity_of (some a) = a

-- BuildRestorePod
unfoldable pub build_restore_pod :
    PodBuilder → ℕ → (checkpoint_id source_node s3_prefix source_pod_ip : String) → Pod
build_restore_pod b generation checkpoint_id source_node s3_prefix source_pod_ip =
    let pod = build_base_pod b generation "restore" in
    let policy = b.app.spec.migration_policy in
    let a = affinity_of pod.spec.affinity in
    record pod {
      meta = record pod.meta {
        annotations = insert "migration.io/source-pod-ip" source_pod_ip (
            insert "migration.io/s3-prefix" s3_prefix (
              insert "migration.io/source-node" source_node
                (insert "migration.io/checkpoint-id" checkpoint_id pod.meta.annotations)));
      };
      spec = record pod.spec {
        affinity = some (record {
          required_anti_affinity = away_from_siblings b.app.meta.name;
          preferred_node_affinity =
              if policy.prefer_on_demand then prefer_on_demand_term else a.preferred_node_affinity;
        });
        node_selector =
            if is_nil policy.target_node_selector
            then pod.spec.node_selector
            else policy.target_node_selector;
      };
    }
