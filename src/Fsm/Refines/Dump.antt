-- ===== src/Fsm/Refines/Dump.antt =====
-- The handler of the stage Dumping (pkg/controller/migration_fsm.go) against the specification.
use criu_migration_operator.Base.{suc, ◌<◌, ◌≡◌, refl, ◌⊎◌, inl, inr, arith, String}
use criu_migration_operator.Kube.{Pod}
use criu_migration_operator.Api.{dumping, uploaded, final_dump_failed, is_dumping}
use criu_migration_operator.Cluster.{
  Env, World, Result, pure, requeue, read_app, ok, err, FinalDumpResponse,
}
use criu_migration_operator.AgentClient.{new_agent_client}
use criu_migration_operator.Fsm.Transition.{move_to, transition_to_final_dump_failed}
use criu_migration_operator.Fsm.Dump.{
  dump_call, has_moved_on, dumping_handler, dump, dump_through, after_dump, record_dump,
}
use criu_migration_operator.Fsm.Quiet.{new_agent_client-IsQuiet}
use criu_migration_operator.Fsm.Spec.{view, Step, Step-from, Step-if}

module _ (env : Env) (source : Pod) where
  after_dump_cases :
      (r : Result FinalDumpResponse) (w : World)
      → 0 < w.app.status.migration.max_retries
      → (view (after_dump env source r w).1 ≡ record (view w) { stage = uploaded })
        ⊎ (view (after_dump env source r w).1 ≡ record (view w) { stage = final_dump_failed })
  unfolding after_dump move_to record_dump transition_to_final_dump_failed
  after_dump_cases (ok response) w h = inl (ground arith)
  after_dump_cases (err e) w h = inr (ground arith)

  dump_through-Step :
      (agent : Result String) (w : World)
      → w.app.status.migration.stage ≡ dumping
      → 0 < w.app.status.migration.max_retries
      → Step (view w) (view (dump_through env source agent w).1)
  unfolding dump_through dump_call move_to transition_to_final_dump_failed
  dump_through-Step (err e) w h b =
      Step.dump_failed (view w).dumps (omega arith) (omega arith) h (ground arith)
  dump_through-Step (ok ip) w h b =
      let (r, u) = dump_call env source w.app ip w in
      elim (after_dump_cases r u b) [
        | inl e ↦ Step.dumped h e
        | inr e ↦ Step.dump_failed (suc (view w).dumps) (omega arith) (omega arith) h e
      ]

  pub dumping_handler-Step :
      (w : World)
      → w.app.status.migration.stage ≡ dumping
      → 0 < w.app.status.migration.max_retries
      → Step (view w) (view (dumping_handler env source w).1)
  unfolding dumping_handler dump
  dumping_handler-Step w h b =
      let u = (read_app env w.app.meta.namespace w.app.meta.name w).1 in
      let fresh = (read_app env w.app.meta.namespace w.app.meta.name w).0 in
      let q = (new_agent_client-IsQuiet env source).at u in
      let v = (new_agent_client env source u).1 in
      let agent = (new_agent_client env source u).0 in
      let same : v.app ≡ w.app = q.app in
      Step-if (has_moved_on is_dumping fresh) (pure requeue) (dump env source) u (Step.stay refl)
        (Step-from q (dump_through-Step agent v (rw same h) (rw same b)))
