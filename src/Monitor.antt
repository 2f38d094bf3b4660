-- ===== src/Monitor.antt =====
-- pkg/monitor/spot_monitor.go: the monitor of one node, which asks the cloud's metadata service whether the
-- node is about to be taken away, and then asks for the migration of its pods. The metadata service and the
-- API server are outside: the n-th call gets the n-th answer.
mod Answers
mod Telling
pub mod Handling
mod Examples
use criu_migration_operator.Base.{
  ℕ, zero, suc, ◌+◌, String, Bool, true, false, not, ◌&&◌, ◌||◌, List, [], ◌∷◌, ◌++◌, Option, none,
  some, str_eq, ◌==◌, any, Map, index, insert, if◌then◌else◌,
}
use criu_migration_operator.Base.Timestamp.{format_rfc3339}
use criu_migration_operator.Kube.{Pod}
use criu_migration_operator.Cluster.{Result, ok, err}
use criu_migration_operator.Reconciler.Checkpoint.{prefixed}
use criu_migration_operator.Pods.{is_deleting}
unfoldable pub use Answers.*

module _ (cloud : Cloud) (node : String) where
  -- checkAWSSpotInterruption
  unfoldable pub check_aws_spot_interruption : W (Result Bool)
  unfolding is_termination
  check_aws_spot_interruption = do
    token ← ask cloud (λ n. cloud.imds_token n)
    status ← ask cloud (λ n. cloud.aws_action n (token_or_empty token))
    pure (ok (is_termination status))

  -- checkGCPPreemption
  unfoldable pub check_gcp_preemption : W (Result Bool)
  unfolding is_preempted
  check_gcp_preemption = do body ← ask cloud (λ n. cloud.gcp_preempted n); pure (is_preempted body)

  -- checkAzureSpotInterruption
  unfoldable pub check_azure_spot_interruption : W (Result Bool)
  unfolding is_scheduled
  check_azure_spot_interruption = do
    body ← ask cloud (λ n. cloud.azure_events n)
    pure (is_scheduled cloud body)

  first_that_says_so : W (Result Bool) → W (Result Bool) → W (Result Bool)
  first_that_says_so m k = do answer ← m; if says_so answer then pure (ok true) else k

  -- checkSpotInterruption: all the clouds, where the kind is not known.
  unfoldable pub check_spot_interruption : (cloud_type : String) → W (Result Bool)
  unfolding first_that_says_so
  check_spot_interruption cloud_type =
      if str_eq cloud_type "aws"
      then check_aws_spot_interruption
      else if str_eq cloud_type "gcp"
      then check_gcp_preemption
      else if str_eq cloud_type "azure"
      then check_azure_spot_interruption
      else first_that_says_so check_aws_spot_interruption (
          first_that_says_so check_gcp_preemption
            (first_that_says_so check_azure_spot_interruption (pure (ok false))))

  -- The pods, one by one. An update that fails is logged.
  unfoldable pub trigger_all : (timestamp : String) → List Pod → W Unit
  unfolding with_trigger needs_trigger
  trigger_all timestamp [] = pure tt
  trigger_all timestamp (p ∷ rest) =
      if needs_trigger p
      then (do
        answer ← ask cloud (λ n. cloud.update_pod n (with_trigger timestamp p))
        change (triggered (with_trigger timestamp p))
        trigger_all timestamp rest)
      else trigger_all timestamp rest

  trigger_listed : Result (List Pod) → W (Result Unit)
  unfolding trigger_all
  trigger_listed (err e) = pure (err (prefixed "failed to list pods: " e))
  trigger_listed (ok pods) = do now ← clock; trigger_all (format_rfc3339 now) pods; pure (ok tt)

  after_cordon : Result Unit → W (Result Unit)
  unfolding trigger_listed
  after_cordon (err e) = pure (err (prefixed "failed to mark node unschedulable: " e))
  after_cordon (ok u) = do pods ← ask cloud (λ n. cloud.list_pods n node); trigger_listed pods

  cordon : (unschedulable : Bool) → W (Result Unit)
  cordon true = pure (ok tt)
  cordon false = do
    answer ← ask cloud (λ n. cloud.update_node n node)
    change (cordoned node)
    pure answer

  handle_node : Result Bool → W (Result Unit)
  unfolding after_cordon cordon
  handle_node (err e) = pure (err (prefixed "failed to get node: " e))
  handle_node (ok unschedulable) = do answer ← cordon unschedulable; after_cordon answer

  -- handleSpotInterruption
  unfoldable pub handle_spot_interruption : W (Result Unit)
  unfolding handle_node
  handle_spot_interruption = do found ← ask cloud (λ n. cloud.get_node n node); handle_node found

  abbrev handled : Result Unit → Bool
  handled (ok u) = true
  handled (err e) = false

  after_check : Result Bool → W Bool
  unfolding handle_spot_interruption
  after_check (err e) = pure false
  after_check (ok false) = pure false
  after_check (ok true) = do answer ← handle_spot_interruption; pure (handled answer)

  -- One tick of the loop of Start: whether the loop ends
  unfoldable pub tick : (cloud_type : String) → W Bool
  unfolding after_check check_spot_interruption
  tick cloud_type = do interrupted ← check_spot_interruption cloud_type; after_check interrupted

  -- The loop, for so many ticks at most: whether it has ended
  unfoldable pub run : (ticks : ℕ) → (cloud_type : String) → W Bool
  unfolding tick
  run zero cloud_type w = (false, w)
  run (suc ticks) cloud_type w =
      let (ended, u) = tick cloud_type w in
      let rest = run ticks cloud_type u in if ended then (true, u) else rest

  -- Start
  unfoldable pub start : (enabled : Bool) → (ticks : ℕ) → (cloud_type : String) → W Bool
  unfolding run
  start false ticks cloud_type = pure true
  start true ticks cloud_type = run ticks cloud_type
