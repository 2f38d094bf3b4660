-- ===== src/Kube.antt =====
-- The Kubernetes objects (k8s.io/api/core/v1, apps/v1, meta/v1) that the operator reads and writes,
-- with the fields that it uses. Time is in nanoseconds, and 0 is the zero time.
use criu_migration_operator.Base.{ℕ, String, Bool, List, Option, Map}

pub data PodPhase : Type 0 where
  pod_pending pod_running pod_succeeded pod_failed pod_unknown : PodPhase

pub record EnvVar : Type 0 where
  pub name : String
  pub value : String
  pub field_path : Option String  -- ValueFrom.FieldRef

pub record VolumeMount : Type 0 where
  pub name : String
  pub mount_path : String
  pub read_only : Bool

pub record SecurityContext : Type 0 where
  pub privileged : Option Bool
  pub capabilities_add : Option (List String)  -- Capabilities.Add, under a pointer

pub record ContainerPort : Type 0 where
  pub name : String
  pub container_port : ℕ

pub record Container : Type 0 where
  pub name : String
  pub image : String
  pub pull_policy : String
  pub command : List String
  pub args : List String
  pub working_dir : String
  pub env : List EnvVar
  pub env_from : List (String × Bool)  -- SecretRef: the secret's name, and Optional
  pub ports : List ContainerPort
  pub volume_mounts : List VolumeMount
  pub security_context : Option SecurityContext

pub data VolumeSource : Type 0 where
  empty_dir : VolumeSource
  downward_api : (path field_path : String) → VolumeSource
  other_source : VolumeSource

pub record Volume : Type 0 where
  pub name : String
  pub source : VolumeSource

pub record PodAffinityTerm : Type 0 where
  pub match_labels : Map
  pub topology_key : String

pub record NodeSelectorRequirement : Type 0 where
  pub key : String
  pub operator : String
  pub values : List String

pub record PreferredSchedulingTerm : Type 0 where
  pub weight : ℕ
  pub match_expressions : List NodeSelectorRequirement

-- An absent term list and an empty one are the same to the API.
pub record Affinity : Type 0 where
  pub required_anti_affinity : List PodAffinityTerm
  pub preferred_node_affinity : List PreferredSchedulingTerm

pub record PodSpec : Type 0 where
  pub containers : List Container
  pub init_containers : List Container
  pub volumes : List Volume
  pub affinity : Option Affinity
  pub node_selector : Map
  pub share_process_namespace : Option Bool
  pub node_name : String

pub record OwnerReference : Type 0 where
  pub kind : String
  pub name : String

pub record ObjectMeta : Type 0 where
  pub name : String
  pub generate_name : String
  pub namespace : String
  pub labels : Map
  pub annotations : Map
  pub finalizers : List String
  pub owner_references : List OwnerReference
  pub deletion_timestamp : Option ℕ
  pub creation_timestamp : ℕ

pub record PodTemplateSpec : Type 0 where
  pub labels : Map
  pub annotations : Map
  pub spec : PodSpec

pub record Pod : Type 0 where
  pub meta : ObjectMeta
  pub spec : PodSpec
  pub phase : PodPhase
  pub pod_ip : String
  pub message : String
  pub containers_ready : List Bool  -- Status.ContainerStatuses[i].Ready

pub record Deployment : Type 0 where
  pub namespace : String
  pub name : String
  pub replicas : Option ℕ

abbrev pub is_running : PodPhase → Bool
is_running pod_running = Bool.true
is_running _ = Bool.false

abbrev pub is_failed : PodPhase → Bool
is_failed pod_failed = Bool.true
is_failed _ = Bool.false
