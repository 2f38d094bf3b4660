-- ===== src/Reconciler/Decisions.antt =====
-- The decisions of a reconcile: when a migration starts, and how the status follows the pod.
use criu_migration_operator.Base.{
  ℕ, ◌≡◌, ◌≢◌, ◌⊎◌, ◌↔◌, refl, sym, subst, true, false, not, ◌&&◌, none, index, eq_iff, arith,
  if◌then◌else◌,
}
use criu_migration_operator.Kube.{Pod, PodPhase, pod_running, pod_failed}
use criu_migration_operator.Api.{idle, MigratableAppStatus, Phase}
use criu_migration_operator.Cluster.{Env, World, ok}
use criu_migration_operator.Reconciler.{
  needs_migration, observe, checkpoint_and_wait, node_changed, phase_changed, observed,
  phase_of_pod, same_phase,
}

module _ (env : Env) (pod : Pod) (w : World) where
  -- A migration is to start exactly if none is in flight, the policy allows it, and either the pod's
  -- annotation asks for it or the pod has a node that the API server reports as unschedulable.
  pub needs_migration-some : ((needs_migration env pod w).0 ≢ none) ↔ (
      (w.app.status.migration.stage ≡ idle)
      × (w.app.spec.migration_policy.auto_migrate ≡ true)
      × ((index pod.meta.annotations "migration.io/trigger" ≡ "requested")
          ⊎ ((pod.spec.node_name ≢ "") × (env.get_node w.step pod.spec.node_name ≡ ok true))))
  unfolding needs_migration
  needs_migration-some = ground (
    arith,
    eq_iff (index pod.meta.annotations "migration.io/trigger") "requested",
    eq_iff pod.spec.node_name "",
  )

-- The phase of an application by the phase of its pod.
abbrev pub Shows : PodPhase → Phase → Type 0
Shows pod_running x = x ≡ Phase.running
Shows pod_failed x = x ≡ Phase.failed
Shows _ x = x ≡ Phase.pending

-- The status has the pod's node, where the pod has one, and shows the pod's phase or a migration.
pub record IsInLine (pod : Pod) (s : MigratableAppStatus) : Type 0 where
  pub node : pod.spec.node_name ≢ "" → s.current_node ≡ pod.spec.node_name
  pub phase : (s.phase ≡ Phase.migrating) ⊎ Shows pod.phase s.phase

-- The phase that the status takes.
new_phase : PodPhase → Phase → Phase
new_phase p x =
    if not (same_phase x Phase.migrating) && not (same_phase x (phase_of_pod p))
    then phase_of_pod p
    else x

new_phase-Shows :
    (p : PodPhase) (x : Phase) → (new_phase p x ≡ Phase.migrating) ⊎ Shows p (new_phase p x)
unfolding new_phase phase_of_pod
new_phase-Shows p x = ground arith

Shows-same :
    (p : PodPhase) (x : Phase)
    → (x ≡ Phase.migrating) ⊎ Shows p x
    → (not (same_phase x Phase.migrating) && not (same_phase x (phase_of_pod p))) ≡ false
unfolding phase_of_pod
Shows-same p x h = ground arith

observed-IsInLine :
    (pod : Pod) (now : ℕ) (s : MigratableAppStatus) → IsInLine pod (observed pod now s)
unfolding observed node_changed phase_changed
observed-IsInLine pod now s =
    let names = eq_iff s.current_node pod.spec.node_name in
    record {
      node = λ h. ground (arith, names, eq_iff pod.spec.node_name "");
      phase = ground (arith, new_phase-Shows pod.phase s.phase);
    }

IsInLine-unchanged :
    (pod : Pod) (s : MigratableAppStatus)
    → IsInLine pod s
    → (node_changed pod s ≡ false) × (phase_changed pod s ≡ false)
unfolding node_changed phase_changed
IsInLine-unchanged pod s h = ground (
  arith,
  Shows-same pod.phase s.phase h.phase,
  h.node,
  eq_iff s.current_node pod.spec.node_name,
  eq_iff pod.spec.node_name "",
)

IsInLine-observed :
    (pod : Pod) (now : ℕ) (s : MigratableAppStatus) → IsInLine pod s → observed pod now s ≡ s
unfolding observed
IsInLine-observed pod now s h =
    let (node, phase) = IsInLine-unchanged pod s h in rw (node, phase) refl

-- A status that was made from the pod, whatever it was before, has the pod's node, if the pod has one, and
-- shows the pod's phase, or a migration; and a reconcile that observes the same pod then sends no status
-- of its own: it goes straight on to the periodic checkpoint, with the object as it is.
pub observed-settles :
    (env : Env) (pod : Pod) (now : ℕ) (s : MigratableAppStatus) (w : World)
    → w.app.status ≡ observed pod now s
    → IsInLine pod w.app.status × (observe env pod w ≡ checkpoint_and_wait env pod w)
unfolding observe
observed-settles env pod now s w e =
    let line = subst (IsInLine pod) (sym e) (observed-IsInLine pod now s) in
    let (node, phase) = IsInLine-unchanged pod w.app.status line in
    (line, rw (IsInLine-observed pod w.now w.app.status line, node, phase) refl)
