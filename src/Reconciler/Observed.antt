-- ===== src/Reconciler/Observed.antt =====
-- pkg/controller/reconciler.go: what Reconcile reads from a pod, and the status that it makes of it.
use criu_migration_operator.Base.{
  ℕ, suc, ◌*◌, String, Bool, true, false, not, ◌&&◌, ◌||◌, Option, none, some, str_eq,
  if◌then◌else◌,
}
use criu_migration_operator.Base.Int.{ℤ, pos}
use criu_migration_operator.Base.Duration.{second}
use criu_migration_operator.Kube.{Pod, PodPhase, pod_running, pod_failed}
use criu_migration_operator.Api.{MigratableAppStatus, Phase}
use criu_migration_operator.Cluster.{Result, ok, err, Outcome, fail}

abbrev pub finalizer_name : String
finalizer_name = "migration.io/cleanup"

-- An error goes back to the work queue, whatever it is.
unfoldable pub or_fail : Result Unit → Outcome → Outcome
or_fail (ok u) next = next
or_fail (err e) next = fail e

-- Status.Phase as the pod's phase has it.
unfoldable pub phase_of_pod : PodPhase → Phase
phase_of_pod pod_running = Phase.running
phase_of_pod pod_failed = Phase.failed
phase_of_pod _ = Phase.pending

abbrev pub same_phase : Phase → Phase → Bool
same_phase Phase.none_yet Phase.none_yet = true
same_phase Phase.pending Phase.pending = true
same_phase Phase.running Phase.running = true
same_phase Phase.migrating Phase.migrating = true
same_phase Phase.failed Phase.failed = true
same_phase _ _ = false

-- The pod has a node, and it is not the one of the status.
unfoldable pub node_changed : Pod → MigratableAppStatus → Bool
node_changed pod s =
    not (str_eq pod.spec.node_name "") && not (str_eq s.current_node pod.spec.node_name)

unfoldable pub phase_changed : Pod → MigratableAppStatus → Bool
unfolding phase_of_pod
phase_changed pod s =
    not (same_phase s.phase Phase.migrating) && not (same_phase s.phase (phase_of_pod pod.phase))

-- The status with the node, the pod and the phase of the pod. A migration's phase is kept.
unfoldable pub observed : Pod → ℕ → MigratableAppStatus → MigratableAppStatus
unfolding node_changed phase_changed
observed pod now s =
    let a =
      if node_changed pod s
      then record s { current_node = pod.spec.node_name; current_pod_name = pod.meta.name }
      else s in
    let b = if phase_changed pod s then record a { phase = phase_of_pod pod.phase } else a in
    if node_changed pod s || phase_changed pod s then record b { last_update_time = now } else b

-- The reason that the user gives, or `manual`.
unfoldable pub reason_of : String → String
reason_of reason = if str_eq reason "" then "manual" else reason

unfoldable pub cordoned : Result Bool → Option String
cordoned (ok unschedulable) = if unschedulable then some "spot-interrupt" else none
cordoned (err e) = none

-- The interval, or ten seconds where there is none.
unfoldable pub requeue_interval : Option ℤ → ℕ
requeue_interval (some (pos (suc n))) = suc n
requeue_interval _ = 10 * second
