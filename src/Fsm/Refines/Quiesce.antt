-- ===== src/Fsm/Refines/Quiesce.antt =====
-- The handler of the stage Quiescing (pkg/controller/migration_fsm.go) against the specification.
use criu_migration_operator.Base.{
  List, ◌∷◌, [], Bool, Option, none, some, ◌+◌, ◌<◌, ◌<>◌, ◌≡◌, refl, str_eq, leb, length, itoa,
  arith,
}
use criu_migration_operator.Base.Duration.{second}
use criu_migration_operator.Kube.{Pod}
use criu_migration_operator.Api.{PreDumpQuiesce, quiescing}
use criu_migration_operator.Cluster.{Env, World, Result, ok, err, pure, requeue_after, ◌>>=◌, ◌>>◌}
use criu_migration_operator.Fsm.Transition.{set_stage, move_to}
use criu_migration_operator.Fsm.Quiesce.{
  advance_to_dumping, quiesce_action, poll_or_act, drain, drain_targets, quiesce_with,
  quiescing_handler, is_nil, list_quiesce_targets, drain_budget,
}
use criu_migration_operator.Fsm.Quiet.{quiesce_action-IsQuiet}
use criu_migration_operator.Fsm.Spec.{view, Step, Step-from, Step-if}

module _ (env : Env) where
  advance_to_dumping-Step :
      (w : World)
      → w.app.status.migration.stage ≡ quiescing
      → 0 < w.app.status.migration.max_retries
      → Step (view w) (view (advance_to_dumping env w).1)
  unfolding advance_to_dumping move_to
  advance_to_dumping-Step w h b = Step.drained h (ground arith)

  -- The latch keeps the stage.
  latch-Step :
      (pods : List Pod) (w : World)
      → w.app.status.migration.stage ≡ quiescing
      → 0 < w.app.status.migration.max_retries
      → Step (view w) (
          view
            (set_stage env quiescing
              (λ m. record m { last_error = "quiescing " <> itoa (length pods) <> " pods" })
              w).1)
  unfolding set_stage
  latch-Step pods w h b = Step.stay (ground arith)

  poll_or_act-Step :
      (q : PreDumpQuiesce) (pods : List Pod) (w : World)
      → w.app.status.migration.stage ≡ quiescing
      → 0 < w.app.status.migration.max_retries
      → Step (view w) (view (poll_or_act env q pods w).1)
  unfolding poll_or_act
  poll_or_act-Step q pods w h b =
      let s = (quiesce_action-IsQuiet env q.action pods).at w in
      let u = (quiesce_action env q.action pods w).1 in
      Step-if (str_eq w.app.status.migration.last_error "")
        (quiesce_action env q.action pods
          >> (set_stage env quiescing
                (λ m. record m { last_error = "quiescing " <> itoa (length pods) <> " pods" })
              >>= λ a. pure (requeue_after second)))
        (pure (requeue_after second)) w (Step-from s (latch-Step pods u (rw s.app h) (rw s.app b)))
        (Step.stay refl)

  drain-Step :
      (q : PreDumpQuiesce) (expired : Bool) (pods : Result (List Pod)) (w : World)
      → w.app.status.migration.stage ≡ quiescing
      → 0 < w.app.status.migration.max_retries
      → Step (view w) (view (drain env q expired pods w).1)
  unfolding drain
  drain-Step q expired (err e) w h b = advance_to_dumping-Step w h b
  drain-Step q expired (ok []) w h b = advance_to_dumping-Step w h b
  drain-Step q expired (ok (p ∷ r)) w h b =
      Step-if expired (advance_to_dumping env) (poll_or_act env q (p ∷ r)) w
        (advance_to_dumping-Step w h b) (poll_or_act-Step q (p ∷ r) w h b)

  drain_targets-Step :
      (q : PreDumpQuiesce) (w : World)
      → w.app.status.migration.stage ≡ quiescing
      → 0 < w.app.status.migration.max_retries
      → Step (view w) (view (drain_targets env q w).1)
  unfolding drain_targets list_quiesce_targets
  drain_targets-Step q w h b =
      let expired =
        leb (w.app.status.migration.last_transition_time + drain_budget q.drain_seconds) w.now in
      let (pods, u) = list_quiesce_targets env q.target_pod_selector w in
      drain-Step q expired pods u h b

  quiesce_with-Step :
      (policy : Option PreDumpQuiesce) (w : World)
      → w.app.status.migration.stage ≡ quiescing
      → 0 < w.app.status.migration.max_retries
      → Step (view w) (view (quiesce_with env policy w).1)
  unfolding quiesce_with
  quiesce_with-Step none w h b = advance_to_dumping-Step w h b
  quiesce_with-Step (some q) w h b =
      Step-if (is_nil q.target_pod_selector) (advance_to_dumping env) (drain_targets env q) w
        (advance_to_dumping-Step w h b) (drain_targets-Step q w h b)

  pub quiescing_handler-Step :
      (w : World)
      → w.app.status.migration.stage ≡ quiescing
      → 0 < w.app.status.migration.max_retries
      → Step (view w) (view (quiescing_handler env w).1)
  unfolding quiescing_handler
  quiescing_handler-Step w h b =
      quiesce_with-Step w.app.spec.migration_policy.pre_dump_quiesce w h b
