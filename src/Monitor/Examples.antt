-- ===== src/Monitor/Examples.antt =====
-- The monitor's properties on a cloud that answers every call, and a node with two pods.
use criu_migration_operator.Base.{String, Bool, true, false, [], ◌∷◌, refl, List, ◌≡◌, map}
use criu_migration_operator.Base.Duration.{second}
use criu_migration_operator.Cluster.{ok}
use criu_migration_operator.Kube.{Pod}
use criu_migration_operator.Samples.{pod_of}
use criu_migration_operator.Monitor.{Cloud, Watch, handle_spot_interruption}
use criu_migration_operator.Monitor.Telling.{Asked}
use criu_migration_operator.Monitor.Handling.{cordons, stored, handle-changes, handle_again}

abbrev cloud_of : Bool → List Pod → Cloud
cloud_of unschedulable pods = record {
  lag = λ n. second;
  imds_token = λ n. ok "token";
  aws_action = λ n token. ok 200;
  gcp_preempted = λ n. ok (ok "FALSE");
  azure_events = λ n. ok (ok "");
  unmarshal = λ body. ok [];
  get_node = λ n name. ok unschedulable;
  update_node = λ n name. ok tt;
  list_pods = λ n node. ok pods;
  update_pod = λ n pod. ok tt;
}

abbrev pods : List Pod
pods = pod_of "redis-0" "node-1" ∷ pod_of "redis-1" "node-1" ∷ []

abbrev watch : Watch
watch = record { now = second; step = 0; changes = [] }

handle-changes_example :
    (timestamp : String) × Asked timestamp pods
      (cordons "node-1" false [])
      (handle_spot_interruption (cloud_of false pods) "node-1" watch).1.changes
handle-changes_example =
    handle-changes (cloud_of false pods) "node-1" false pods watch (λ n. refl) (λ n. refl)
      (λ n. refl)

handle_again_example :
    (handle_spot_interruption
      (cloud_of true (map (stored "1970-01-01T00:00:01Z") pods))
      "node-1"
      watch).1.changes
    ≡ []
handle_again_example =
    handle_again (cloud_of true (map (stored "1970-01-01T00:00:01Z") pods)) "node-1"
      "1970-01-01T00:00:01Z" pods watch (λ n. refl) (λ n. refl) (λ n. refl)
