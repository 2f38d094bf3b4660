-- ===== src/Pods.antt =====
-- pkg/controller/reconciler.go and migration.go: how the controller finds the application's pod,
-- reads the credentials of the object storage, and waits for a pod and for its agent.
pub mod Wait
mod Latest
mod Examples
use criu_migration_operator.Base.{
  ℕ, zero, suc, ◌+◌, ◌*◌, String, Bool, true, false, not, ◌&&◌, ◌||◌, List, [], ◌∷◌, Option, none,
  some, Map, index, ltb, str_eq, ◌<>◌, all, if◌then◌else◌,
}
use criu_migration_operator.Base.Int.{ℤ, to_ℕ}
use criu_migration_operator.Base.Duration.{second}
use criu_migration_operator.Kube.{Pod, is_running, is_failed}
use criu_migration_operator.Api.{MigratableApp}
use criu_migration_operator.Cluster.{
  Env, M, Result, ok, err, other, not_found, ◌>>=◌, ◌>>◌, pure, the_app, clock, sleep, list_pods,
  get_pod, get_secret,
}
use criu_migration_operator.AgentClient.{lazy_pages_active}
use criu_migration_operator.PodBuilder.Agent.{PodBuilder}

abbrev pub is_deleting : Option ℕ → Bool
is_deleting none = false
is_deleting (some t) = true

pub later : Option Pod → Pod → Option Pod
later none pod = some pod
later (some best) pod =
    if ltb best.meta.creation_timestamp pod.meta.creation_timestamp then some pod else some best

-- The loop of getCurrentPod: the latest pod that is not terminating, the first of equal ones.
unfoldable pub latest : Option Pod → List Pod → Option Pod
unfolding later
latest best [] = best
latest best (p ∷ r) =
    latest (if is_deleting p.meta.deletion_timestamp then best else later best p) r

unfoldable pub found : Option Pod → Result Pod
found none = err (record { code = not_found; text = "pod \"\" not found" })
found (some p) = ok p

unfoldable pub chosen : Result (List Pod) → Result Pod
unfolding found latest
chosen (ok pods) = found (latest none pods)
chosen (err e) = err e

-- The keys in the secret; both have to be there.
unfoldable pub keys_of : Result Map → Result (String × String)
keys_of (ok secret) =
    let access = index secret "AWS_ACCESS_KEY_ID" in
    let key = index secret "AWS_SECRET_ACCESS_KEY" in
    if str_eq access "" || str_eq key ""
    then err (record {
      code = other;
      text = "secret missing AWS_ACCESS_KEY_ID or AWS_SECRET_ACCESS_KEY";
    })
    else ok (access, key)
keys_of (err e) = err e

unfoldable pub builder_with :
    (String → String) → MigratableApp → Result (String × String) → PodBuilder
builder_with getenv app (ok (access, key)) = record {
  app = app;
  aws_access_key = access;
  aws_secret_key = key;
  getenv = getenv;
}
builder_with getenv app (err e) = record {
  app = app;
  aws_access_key = "";
  aws_secret_key = "";
  getenv = getenv;
}

-- What a poll of waitForPodRunning makes of its answer; `again` is the next round.
unfoldable pub after_poll : Pod → (Pod → M (Result Unit × Pod)) → Result Pod → M (Result Unit × Pod)
after_poll pod again (err e) = sleep second >> again pod
after_poll pod again (ok p) =
    if is_running p.phase && all (λ b. b) p.containers_ready
    then pure (ok tt, p)
    else if is_failed p.phase
    then pure (err (record { code = other; text = "pod failed: " <> p.message }), p)
    else sleep second >> again p

module _ (env : Env) where
  -- getCurrentPod
  unfoldable pub get_current_pod : M (Result Pod)
  unfolding chosen
  get_current_pod = do
    app ← the_app
    pods ← list_pods env app.meta.namespace (("migration.io/app", app.meta.name) ∷ [])
    pure (chosen pods)

  -- getAWSCredentials
  unfoldable pub aws_credentials : M (Result (String × String))
  unfolding keys_of
  aws_credentials = do
    app ← the_app
    let name = app.spec.storage.credentials_secret
    if str_eq name ""
        then pure (err (record { code = other; text = "no credentials secret specified" }))
        else do secret ← get_secret env "migration-system" name; pure (keys_of secret)

  -- NewPodBuilderWithCredentials, or NewPodBuilder where the keys could not be read.
  unfoldable pub pod_builder : M PodBuilder
  unfolding aws_credentials builder_with
  pod_builder = do app ← the_app; keys ← aws_credentials; pure (builder_with env.getenv app keys)

  -- The body of the loop of waitForPodRunning.
  unfoldable pub wait_round :
      (deadline : ℕ) → Pod → (Pod → M (Result Unit × Pod)) → M (Result Unit × Pod)
  unfolding after_poll
  wait_round deadline pod again = do
    now ← clock
    if not (ltb now deadline)
        then pure
            (err (record { code = other; text = "timeout waiting for pod to be running" }), pod)
        else do answer ← get_pod env pod.meta.namespace pod.meta.name; after_poll pod again answer

  -- The loop of waitForPodRunning. Each round ends in a sleep of a second, so a timeout of n seconds
  -- is over after n rounds, and the round that does not start finds the time gone.
  unfoldable pub wait_rounds : ℕ → (deadline : ℕ) → Pod → M (Result Unit × Pod)
  wait_rounds zero deadline pod =
      pure (err (record { code = other; text = "timeout waiting for pod to be running" }), pod)
  wait_rounds (suc rounds) deadline pod = wait_round deadline pod (wait_rounds rounds deadline)

  -- waitForPodRunning, with the pod as it was last read.
  unfoldable pub wait_for_pod_running : Pod → (timeout_seconds : ℤ) → M (Result Unit × Pod)
  unfolding wait_rounds wait_round
  wait_for_pod_running pod timeout = do
    now ← clock
    wait_rounds (to_ℕ timeout) (now + to_ℕ timeout * second) pod

  -- The body of the loop of waitForLazyPagesCompletion, with what follows a round.
  unfoldable pub lazy_pages_round : (deadline : ℕ) → String → M Unit → M Unit
  lazy_pages_round deadline ip again = do
    now ← clock
    if not (ltb now deadline) then pure tt else do
      answer ← lazy_pages_active env ip
      elim answer [
        | err e ↦ sleep (2 * second) >> again
        | ok active ↦ if active then sleep (2 * second) >> again else pure tt
      ]

  -- The loop polls every two seconds. Its result is only logged.
  unfoldable pub lazy_pages_rounds : ℕ → (deadline : ℕ) → String → M Unit
  lazy_pages_rounds zero deadline ip = pure tt
  lazy_pages_rounds (suc rounds) deadline ip =
      lazy_pages_round deadline ip (lazy_pages_rounds rounds deadline ip)

  -- waitForLazyPagesCompletion, with its cap of five minutes.
  unfoldable pub wait_for_lazy_pages : String → M Unit
  unfolding lazy_pages_rounds lazy_pages_round
  wait_for_lazy_pages ip = do now ← clock; lazy_pages_rounds 150 (now + 300 * second) ip
