-- ===== src/Fsm/Draining.antt =====
-- When the stage Quiescing gives way to Dumping.
use criu_migration_operator.Base.{
  ℕ, zero, suc, ◌+◌, ◌*◌, ◌≤◌, ◌≡◌, ◌≢◌, ◌⊎◌, ◌↔◌, inl, inr, All, keep, Bool-cases, refl, List, [],
  ◌∷◌, Option, none, some, Bool, true, false, arith, leb,
}
use criu_migration_operator.Base.Int.{ℤ, pos, negsuc}
use criu_migration_operator.Base.Duration.{second}
use criu_migration_operator.Kube.{Pod, pod_running}
use criu_migration_operator.Api.{quiescing, dumping, PreDumpQuiesce}
use criu_migration_operator.Cluster.{Env, World, Result, ok, err}
use criu_migration_operator.Fsm.Transition.{move_to, set_stage}
use criu_migration_operator.Fsm.Quiesce.{
  drain_budget, is_live, live_pods, advance_to_dumping, list_quiesce_targets, poll_or_act, drain,
  drain_targets, quiesce_with, quiescing_handler,
}

-- The list failed, or each pod in it does not run or is being deleted.
abbrev pub IsDrained : Result (List Pod) → Type 0
IsDrained (err e) = Unit
IsDrained (ok pods) =
    All (λ (p : Pod). (p.phase ≢ pod_running) ⊎ (p.meta.deletion_timestamp ≢ none)) pods

-- The time to drain since a moment is over: DrainSeconds, or five seconds where that is not positive.
abbrev pub IsOver : (since now : ℕ) → (drain_seconds : ℤ) → Type 0
IsOver since now (pos zero) = since + 5 * second ≤ now
IsOver since now (pos (suc n)) = since + suc n * second ≤ now
IsOver since now (negsuc n) = since + 5 * second ≤ now

-- Nothing is left of what the handler counts.
abbrev IsEmpty : Result (List Pod) → Type 0
IsEmpty (err e) = Unit
IsEmpty (ok []) = Unit
IsEmpty (ok (p ∷ rest)) = ⊥

is_live-false :
    (p : Pod) → (is_live p ≡ false) ↔ ((p.phase ≢ pod_running) ⊎ (p.meta.deletion_timestamp ≢ none))
is_live-false p = ground arith

keep-is_live : (pods : List Pod) → IsEmpty (ok (keep is_live pods)) ↔ IsDrained (ok pods)
keep-is_live [] = ground arith
keep-is_live (p ∷ rest) = elim (Bool-cases (is_live p)) [
  | inl e ↦ rw e (ground (arith, e, is_live-false p))
  | inr e ↦ rw e (ground (arith, e, is_live-false p, keep-is_live rest))
]

live_pods-IsEmpty : (r : Result (List Pod)) → IsEmpty (live_pods r) ↔ IsDrained r
live_pods-IsEmpty (ok pods) = keep-is_live pods
live_pods-IsEmpty (err e) = ground arith

drain_budget-IsOver :
    (since now : ℕ) (drain_seconds : ℤ)
    → (since + drain_budget drain_seconds ≤ now) ↔ IsOver since now drain_seconds
unfolding drain_budget
drain_budget-IsOver since now (pos zero) = ground arith
drain_budget-IsOver since now (pos (suc n)) = ground arith
drain_budget-IsOver since now (negsuc n) = ground arith

module _ (env : Env) (w : World) where
  -- The load generators need not be waited for any longer.
  abbrev pub IsReady : Option PreDumpQuiesce → Type 0
  IsReady none = Unit
  IsReady (some q) =
      (q.target_pod_selector ≡ [])
      ⊎ (IsDrained (env.list_pods w.step w.app.meta.namespace q.target_pod_selector)
          ⊎ IsOver w.app.status.migration.last_transition_time w.now q.drain_seconds)

module _ (env : Env) where
  act-quiescing :
      (q : PreDumpQuiesce) (pods : List Pod) (w : World)
      → w.app.status.migration.stage ≡ quiescing
      → (poll_or_act env q pods w).1.app.status.migration.stage ≡ quiescing
  unfolding poll_or_act set_stage
  act-quiescing q pods w h = ground arith

  advance-dumping : (w : World) → (advance_to_dumping env w).1.app.status.migration.stage ≡ dumping
  unfolding advance_to_dumping move_to set_stage
  advance-dumping w = refl

  drain-dumping :
      (q : PreDumpQuiesce) (expired : Bool) (r : Result (List Pod)) (w : World)
      → w.app.status.migration.stage ≡ quiescing
      → ((drain env q expired r w).1.app.status.migration.stage ≡ dumping)
        ↔ (IsEmpty r ⊎ (expired ≡ true))
  unfolding drain
  drain-dumping q expired (err e) w h = ground (arith, advance-dumping w)
  drain-dumping q expired (ok []) w h = ground (arith, advance-dumping w)
  drain-dumping q true (ok (p ∷ rest)) w h = ground (arith, advance-dumping w)
  drain-dumping q false (ok (p ∷ rest)) w h = ground (arith, act-quiescing q (p ∷ rest) w h)

  quiesce_with-dumping :
      (q : Option PreDumpQuiesce) (w : World)
      → w.app.status.migration.stage ≡ quiescing
      → ((quiesce_with env q w).1.app.status.migration.stage ≡ dumping) ↔ IsReady env w q
  unfolding quiesce_with drain_targets list_quiesce_targets
  quiesce_with-dumping none w h = ground (arith, advance-dumping w)
  quiesce_with-dumping (some q) w h =
      let (r, u) = list_quiesce_targets env q.target_pod_selector w in
      let due = w.app.status.migration.last_transition_time + drain_budget q.drain_seconds in
      ground (
        arith,
        advance-dumping w,
        drain-dumping q (leb due w.now) r u h,
        live_pods-IsEmpty (env.list_pods w.step w.app.meta.namespace q.target_pod_selector),
        drain_budget-IsOver w.app.status.migration.last_transition_time w.now q.drain_seconds,
      )

  -- The handler of Quiescing goes on to Dumping exactly if no load generator is selected, if the list
  -- of them fails or holds none that is running and not being deleted, or if the time to drain since the
  -- last transition is over, DrainSeconds or five seconds where that is not positive.
  pub quiescing_handler-dumping :
      (w : World)
      → w.app.status.migration.stage ≡ quiescing
      → ((quiescing_handler env w).1.app.status.migration.stage ≡ dumping)
        ↔ IsReady env w w.app.spec.migration_policy.pre_dump_quiesce
  unfolding quiescing_handler
  quiescing_handler-dumping w h =
      quiesce_with-dumping w.app.spec.migration_policy.pre_dump_quiesce w h
