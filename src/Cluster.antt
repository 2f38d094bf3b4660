-- ===== src/Cluster.antt =====
-- The outside of the controller: the API server (controller-runtime's client.Client), the agents
-- behind gRPC and the clock. None of it is in this repository, so each call is answered by a
-- function of the environment, which may give any answer at any moment: `Env` numbers the calls,
-- and a handler's n-th call of the process gets the n-th answer. A handler is an action over the
-- object that it holds, the clock, the number of calls so far and the list of calls that change
-- something outside, newest first.
pub mod Trace
use criu_migration_operator.Base.{
  ℕ, suc, ◌+◌, String, Bool, true, false, List, [], ◌∷◌, ◌++◌, Map, ◌≡◌, refl, ◌⊎◌, inl, inr,
}
use criu_migration_operator.Kube.{Pod, OwnerReference, Deployment}
use criu_migration_operator.Api.{MigratableApp, MigratableAppStatus}

pub data ErrorCode : Type 0 where
  conflict not_found other : ErrorCode

pub record Error : Type 0 where
  pub code : ErrorCode
  pub text : String  -- err.Error()

pub data Result (A : Type 0) : Type 0 where
  ok : A → Result A
  err : Error → Result A

abbrev pub is_ok : {A : Type 0} → Result A → Bool
is_ok (ok a) = true
is_ok (err e) = false

-- An answer is a value or an error.
pub Result-cases :
    {A : Type 0} (answer : Result A)
    → ((value : A) × (answer ≡ ok value)) ⊎ ((error : Error) × (answer ≡ err error))
Result-cases (ok value) = inl (value, refl)
Result-cases (err error) = inr (error, refl)

-- The messages of pkg/proto/agent.proto that the controller sends and receives.
pub record FinalDumpRequest : Type 0 where
  pub page_server_addr : String
  pub page_server_port : ℕ
  pub parent_dump_id : String
  pub leave_running : Bool
  pub migration_strategy : String

pub record FinalDumpResponse : Type 0 where
  pub dump_id : String
  pub pipe_inodes : Map

pub record RestoreRequest : Type 0 where
  pub dump_id : String
  pub s3_bucket : String
  pub s3_prefix : String
  pub use_lazy_pages : Bool
  pub page_server_port : ℕ
  pub source_addr : String
  pub migration_strategy : String
  pub pipe_inodes : Map

-- The answers, by the number of the call. Each call moves the clock on by `lag`.
pub record Env : Type 0 where
  pub lag : ℕ → ℕ
  pub getenv : String → String  -- os.Getenv
  pub update_status : ℕ → MigratableApp → Result Unit
  pub update_app : ℕ → MigratableApp → Result Unit
  pub read_app : ℕ → (namespace name : String) → Result MigratableApp
  pub get_app : ℕ → (namespace name : String) → Result MigratableApp
  pub list_apps : ℕ → Result (List MigratableApp)
  pub list_pods : ℕ → (namespace : String) → (selector : Map) → Result (List Pod)
  pub get_pod : ℕ → (namespace name : String) → Result Pod
  pub create_pod : ℕ → Pod → Result Pod
  pub update_pod : ℕ → Pod → Result Unit
  pub delete_pod : ℕ → Pod → Result Unit
  pub get_replica_set : ℕ → (namespace name : String) → Result (List OwnerReference)
  pub get_deployment : ℕ → (namespace name : String) → Result Deployment
  pub update_deployment : ℕ → Deployment → Result Unit
  pub get_node : ℕ → (name : String) → Result Bool  -- Spec.Unschedulable
  pub get_secret : ℕ → (namespace name : String) → Result Map
  pub dial : ℕ → (address : String) → Result Unit
  pub final_dump : ℕ → (pod_ip : String) → FinalDumpRequest → Result FinalDumpResponse
  pub restore : ℕ → (pod_ip : String) → RestoreRequest → Result Unit
  pub pre_checkpoint : ℕ → (pod_ip parent_id : String) → Result String
  pub lazy_pages_active : ℕ → (pod_ip : String) → Result Bool
  pub new_session : ℕ → (region endpoint : String) → Result Unit  -- session.NewSession
  pub list_objects : ℕ → (bucket prefix : String) → Result (List String)
  pub delete_objects : ℕ → (bucket : String) → (keys : List String) → Result Unit

-- The calls that change something outside, with their answers.
pub data Call : Type 0 where
  status_updated : MigratableApp → Result Unit → Call
  app_updated : MigratableApp → Result Unit → Call
  pod_created : Pod → Result Pod → Call
  pod_updated : Pod → Result Unit → Call
  pod_deleted : Pod → Result Unit → Call
  deployment_updated : Deployment → Result Unit → Call
  dumped : (pod_ip : String) → FinalDumpRequest → Result FinalDumpResponse → Call
  restored : (pod_ip : String) → RestoreRequest → Result Unit → Call
  pre_checkpointed : (pod_ip parent_id : String) → Result String → Call
  objects_deleted : (bucket : String) → (keys : List String) → Result Unit → Call

pub record World : Type 0 where
  pub app : MigratableApp  -- the handler's `*mapp`
  pub now : ℕ
  pub step : ℕ
  pub trace : List Call

abbrev pub M : Type 0 → Type 0
M A = World → A × World

module _ {A : Type 0} where
  abbrev pub pure : A → M A
  pure a w = (a, w)

infixl 5 ◌>>=◌ ◌>>◌
abbrev pub ◌>>=◌ : {A B : Type 0} → M A → (A → M B) → M B
◌>>=◌ m f w = let (a, w') = m w in f a w'

abbrev pub ◌>>◌ : {A B : Type 0} → M A → M B → M B
◌>>◌ m k w = let (a, w') = m w in k w'

abbrev pub gets : {A : Type 0} → (World → A) → M A
gets f w = (f w, w)

abbrev pub the_app : M MigratableApp
the_app w = (w.app, w)

-- time.Now()
abbrev pub clock : M ℕ
clock w = (w.now, w)

-- time.Sleep(d)
abbrev pub sleep : ℕ → M Unit
sleep d w = (tt, record w { now = w.now + d })

abbrev pub set_app : MigratableApp → M Unit
set_app a w = (tt, record w { app = a })

abbrev pub modify_status : (MigratableAppStatus → MigratableAppStatus) → M Unit
modify_status f w = (tt, record w { app = record w.app { status = f w.app.status } })

-- What a handler tells the work queue: ctrl.Result and error.
pub data Outcome : Type 0 where
  done requeue : Outcome
  requeue_after : ℕ → Outcome
  fail : Error → Outcome

-- One call, and what it leaves in the trace.
module _ (env : Env) {A : Type 0} where
  abbrev pub call : (ℕ → A) → (A → List Call) → M A
  call answer events w =
      let a = answer w.step in
      (a, record w { now = w.now + env.lag w.step; step = suc w.step; trace = events a ++ w.trace })

module _ (env : Env) where
  -- r.Status().Update(ctx, mapp)
  abbrev pub update_status : M (Result Unit)
  update_status w = call env (λ n. env.update_status n w.app) (λ a. status_updated w.app a ∷ []) w

  abbrev pub update_app : MigratableApp → M (Result Unit)
  update_app app = call env (λ n. env.update_app n app) (λ a. app_updated app a ∷ [])

  -- r.APIReader.Get, which bypasses the cache.
  abbrev pub read_app : (namespace name : String) → M (Result MigratableApp)
  read_app namespace name = call env (λ n. env.read_app n namespace name) (λ a. [])

  abbrev pub get_app : (namespace name : String) → M (Result MigratableApp)
  get_app namespace name = call env (λ n. env.get_app n namespace name) (λ a. [])

  abbrev pub list_apps : M (Result (List MigratableApp))
  list_apps = call env (λ n. env.list_apps n) (λ a. [])

  abbrev pub list_pods : (namespace : String) → Map → M (Result (List Pod))
  list_pods namespace selector = call env (λ n. env.list_pods n namespace selector) (λ a. [])

  abbrev pub get_pod : (namespace name : String) → M (Result Pod)
  get_pod namespace name = call env (λ n. env.get_pod n namespace name) (λ a. [])

  -- r.Create writes the object that the server stored back into its argument.
  abbrev pub create_pod : Pod → M (Result Pod)
  create_pod pod = call env (λ n. env.create_pod n pod) (λ a. pod_created pod a ∷ [])

  abbrev pub update_pod : Pod → M (Result Unit)
  update_pod pod = call env (λ n. env.update_pod n pod) (λ a. pod_updated pod a ∷ [])

  abbrev pub delete_pod : Pod → M (Result Unit)
  delete_pod pod = call env (λ n. env.delete_pod n pod) (λ a. pod_deleted pod a ∷ [])

  abbrev pub get_replica_set : (namespace name : String) → M (Result (List OwnerReference))
  get_replica_set namespace name = call env (λ n. env.get_replica_set n namespace name) (λ a. [])

  abbrev pub get_deployment : (namespace name : String) → M (Result Deployment)
  get_deployment namespace name = call env (λ n. env.get_deployment n namespace name) (λ a. [])

  abbrev pub update_deployment : Deployment → M (Result Unit)
  update_deployment d = call env (λ n. env.update_deployment n d) (λ a. deployment_updated d a ∷ [])

  abbrev pub get_node : String → M (Result Bool)
  get_node name = call env (λ n. env.get_node n name) (λ a. [])

  abbrev pub get_secret : (namespace name : String) → M (Result Map)
  get_secret namespace name = call env (λ n. env.get_secret n namespace name) (λ a. [])

  abbrev pub dial : String → M (Result Unit)
  dial address = call env (λ n. env.dial n address) (λ a. [])

  abbrev pub new_session : (region endpoint : String) → M (Result Unit)
  new_session region endpoint = call env (λ n. env.new_session n region endpoint) (λ a. [])

  abbrev pub list_objects : (bucket prefix : String) → M (Result (List String))
  list_objects bucket prefix = call env (λ n. env.list_objects n bucket prefix) (λ a. [])

  abbrev pub delete_objects : (bucket : String) → (keys : List String) → M (Result Unit)
  delete_objects bucket keys =
      call env (λ n. env.delete_objects n bucket keys) (λ a. objects_deleted bucket keys a ∷ [])
