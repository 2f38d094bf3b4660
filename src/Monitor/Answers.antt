-- ===== src/Monitor/Answers.antt =====
-- pkg/monitor/spot_monitor.go: the outside of the monitor, and what its answers mean.
use criu_migration_operator.Base.{
  ℕ, suc, ◌+◌, String, Bool, false, not, ◌&&◌, ◌||◌, List, ◌∷◌, str_eq, ◌==◌, any, index, insert,
  if◌then◌else◌,
}
use criu_migration_operator.Kube.{Pod}
use criu_migration_operator.Cluster.{Result, ok, err}
use criu_migration_operator.Pods.{is_deleting}

-- The answers. An HTTP answer is the status and the body, or a connection that failed.
pub record Cloud : Type 0 where
  pub lag : ℕ → ℕ
  pub imds_token : ℕ → Result String
  pub aws_action : ℕ → (token : String) → Result ℕ  -- the status
  pub gcp_preempted : ℕ → Result (Result String)  -- the body, which may be cut
  pub azure_events : ℕ → Result (Result String)
  pub unmarshal : String → Result (List String)  -- json.Unmarshal: the types of the events
  pub get_node : ℕ → (name : String) → Result Bool  -- Spec.Unschedulable
  pub update_node : ℕ → (name : String) → Result Unit
  pub list_pods : ℕ → (node : String) → Result (List Pod)  -- the controller's pods on the node
  pub update_pod : ℕ → Pod → Result Unit

-- What the monitor changes.
pub data Change : Type 0 where
  cordoned : (node : String) → Change
  triggered : Pod → Change

pub record Watch : Type 0 where
  pub now : ℕ
  pub step : ℕ
  pub changes : List Change  -- newest first

abbrev pub W : Type 0 → Type 0
W A = Watch → A × Watch

module _ {A : Type 0} where
  abbrev pub pure : A → W A
  pure a w = (a, w)

infixl 5 ◌>>=◌ ◌>>◌
abbrev pub ◌>>=◌ : {A B : Type 0} → W A → (A → W B) → W B
◌>>=◌ m f w = let (a, u) = m w in f a u

abbrev pub ◌>>◌ : {A B : Type 0} → W A → W B → W B
◌>>◌ m k = m >>= λ _. k

abbrev pub ask : {A : Type 0} → Cloud → (ℕ → A) → W A
ask cloud answer w = (answer w.step, record w { now = w.now + cloud.lag w.step; step = suc w.step })

abbrev pub change : Change → W Unit
change c w = (tt, record w { changes = c ∷ w.changes })

abbrev pub clock : W ℕ
clock w = (w.now, w)

abbrev pub token_or_empty : Result String → String
token_or_empty (ok token) = token
token_or_empty (err e) = ""

-- Only the status 200 announces the end. A connection that fails is no announcement.
unfoldable pub is_termination : Result ℕ → Bool
is_termination (err e) = false
is_termination (ok status) = status == 200

-- "TRUE" announces the end.
unfoldable pub is_preempted : Result (Result String) → Result Bool
is_preempted (err e) = ok false
is_preempted (ok (err e)) = err e
is_preempted (ok (ok body)) = ok (str_eq body "TRUE")

abbrev pub ends_node : (event_type : String) → Bool
ends_node event_type = str_eq event_type "Terminate" || str_eq event_type "Preempt"

abbrev pub any_ends : Result (List String) → Bool
any_ends (err e) = false
any_ends (ok types) = any ends_node types

-- parseAzureScheduledEvents: what cannot be read is no announcement.
unfoldable pub parse_azure_scheduled_events : Cloud → String → Bool
parse_azure_scheduled_events cloud body =
    if str_eq body "" then false else any_ends (cloud.unmarshal body)

unfoldable pub is_scheduled : Cloud → Result (Result String) → Result Bool
unfolding parse_azure_scheduled_events
is_scheduled cloud (err e) = ok false
is_scheduled cloud (ok (err e)) = err e
is_scheduled cloud (ok (ok body)) = ok (parse_azure_scheduled_events cloud body)

abbrev pub says_so : Result Bool → Bool
says_so (ok b) = b
says_so (err e) = false

-- The pod gets a trigger.
unfoldable pub needs_trigger : Pod → Bool
needs_trigger p =
    not (is_deleting p.meta.deletion_timestamp)
    && not (str_eq (index p.meta.annotations "migration.io/trigger") "requested")

-- The annotations of a trigger.
unfoldable pub with_trigger : (timestamp : String) → Pod → Pod
with_trigger timestamp p = record p {
  meta = record p.meta {
    annotations = insert "migration.io/detection-timestamp" timestamp (
        insert "migration.io/detection-method" "imds" (
          insert "migration.io/reason" "spot-interrupt"
            (insert "migration.io/trigger" "requested" p.meta.annotations)));
  };
}
