-- ===== src/Scheduler/Rounds.antt =====
-- What a round of the scheduler asks for.
use criu_migration_operator.Base.{
  ℕ, ◌≡◌, refl, ap, subst, ◌∙◌, inl, inr, ◌⊎◌, String, ◌<>◌, Bool, true, false, List, [], ◌∷◌,
  Option, none, some, keep, arith, if◌then◌else◌,
}
use criu_migration_operator.Kube.{Pod}
use criu_migration_operator.Api.{MigratableApp, Phase}
use criu_migration_operator.Cluster.{
  Env, World, Call, pre_checkpointed, Result, ok, err, list_pods, set_app, pure, ◌>>=◌,
}
use criu_migration_operator.AgentClient.{new_agent_client, pre_checkpoint}
use criu_migration_operator.Fsm.Quiet.{new_agent_client-IsIdle}
use criu_migration_operator.Scheduler.{
  should_checkpoint, first_running, after_checkpoint, checkpoint_with, checkpoint_pod,
  checkpoint_listed, trigger_checkpoint, evaluate_app, evaluate_all,
}
use criu_migration_operator.Scheduler.Requests.{
  is_request, requests, IsListed, Asks, Round, first_running-IsListed, dialled-ok,
  should_checkpoint-running,
}

module _ (env : Env) where
  -- Nothing was asked for, or one request of the application's own.
  abbrev AsksOnce : MigratableApp → World → World → Type 0
  AsksOnce app w u =
      (requests u ≡ requests w)
      ⊎ ((request : Call) × (Asks env app request × (requests u ≡ request ∷ requests w)))

  -- The agents of the application's pods.
  record IsHost (app : MigratableApp) (ip : String) : Type 0 where
    step : ℕ
    pods : List Pod
    listed :
        env.list_pods step app.meta.namespace (("migration.io/app", app.meta.name) ∷ []) ≡ ok pods
    there : IsListed ip pods

  after_checkpoint-requests :
      (r : Result String) (w : World) → requests (after_checkpoint env r w).1 ≡ requests w
  unfolding after_checkpoint
  after_checkpoint-requests (ok dump_id) w = refl
  after_checkpoint-requests (err e) w = refl

  checkpoint_with-AsksOnce :
      (app : MigratableApp) (r : Result String) (w : World)
      → w.app ≡ app
      → ((ip : String) → r ≡ ok ip → IsHost app ip)
      → AsksOnce app w (checkpoint_with env r w).1
  unfolding checkpoint_with
  checkpoint_with-AsksOnce app (ok ip) w same hosts =
      let parent = w.app.status.checkpoint_status.last_checkpoint_id in
      let (r, u) = pre_checkpoint env ip parent w in
      let h = hosts ip refl in
      inr (
        pre_checkpointed ip parent r,
        (
          record {
            ip = ip;
            answer = r;
            step = h.step;
            pods = h.pods;
            listed = h.listed;
            there = h.there;
            request =
                ap
                  (λ (a : MigratableApp).
                    pre_checkpointed ip a.status.checkpoint_status.last_checkpoint_id r)
                  same;
          },
          after_checkpoint-requests r u,
        ),
      )
  checkpoint_with-AsksOnce app (err e) w same hosts = inl refl

  new_agent_client-ip :
      (pod : Pod) (w : World) (ip : String)
      → (new_agent_client env pod w).0 ≡ ok ip
      → pod.pod_ip ≡ ip
  unfolding new_agent_client
  new_agent_client-ip pod w ip q =
      ground (arith, q, dialled-ok pod.pod_ip ip (env.dial w.step (pod.pod_ip <> ":8080")))

  checkpoint_pod-AsksOnce :
      (app : MigratableApp) (o : Option Pod) (w : World)
      → w.app ≡ app
      → ((pod : Pod) → o ≡ some pod → IsHost app pod.pod_ip)
      → AsksOnce app w (checkpoint_pod env o w).1
  unfolding checkpoint_pod
  checkpoint_pod-AsksOnce app none w same hosts = inl refl
  checkpoint_pod-AsksOnce app (some pod) w same hosts =
      let (r, u) = new_agent_client env pod w in
      let idle = new_agent_client-IsIdle env pod w in
      let found =
        checkpoint_with-AsksOnce app r u (idle.app ∙ same)
          (λ ip q. subst (IsHost app) (new_agent_client-ip pod w ip q) (hosts pod refl)) in
      subst
        (λ (past : List Call).
          (requests (checkpoint_with env r u).1 ≡ past)
          ⊎ ((request : Call) × (Asks env app request
                × (requests (checkpoint_with env r u).1 ≡ request ∷ past))))
        (ap (keep is_request) idle.trace) found

  checkpoint_listed-AsksOnce :
      (app : MigratableApp) (step : ℕ) (r : Result (List Pod)) (w : World)
      → w.app ≡ app
      → env.list_pods step app.meta.namespace (("migration.io/app", app.meta.name) ∷ []) ≡ r
      → AsksOnce app w (checkpoint_listed env r w).1
  unfolding checkpoint_listed
  checkpoint_listed-AsksOnce app step (ok pods) w same listed =
      checkpoint_pod-AsksOnce app (first_running pods) w same (λ pod q. record {
        step = step;
        pods = pods;
        listed = listed;
        there = first_running-IsListed pods pod q;
      })
  checkpoint_listed-AsksOnce app step (err e) w same listed = inl refl

  trigger-AsksOnce :
      (app : MigratableApp) (w : World)
      → AsksOnce app (set_app app w).1 (trigger_checkpoint env (set_app app w).1).1
  unfolding trigger_checkpoint
  trigger-AsksOnce app w =
      let (pods, u) =
        list_pods env app.meta.namespace (("migration.io/app", app.meta.name) ∷ [])
          (set_app app w).1 in
      checkpoint_listed-AsksOnce app w.step pods u refl refl

  -- A part of a round, for an application that is running if it is asked at all.
  abbrev Part : MigratableApp → World → World → Type 0
  Part app w u =
      (requests u ≡ requests w)
      ⊎ ((app.status.phase ≡ Phase.running)
          × ((request : Call) × (Asks env app request × (requests u ≡ request ∷ requests w))))

  due-Part :
      (app : MigratableApp) (w : World) (due : Bool)
      → (due ≡ true → app.status.phase ≡ Phase.running)
      → let act = if due then (do answer ← trigger_checkpoint env; pure tt) else pure tt in
        Part app w (act (set_app app w).1).1
  due-Part app w true running = elim (trigger-AsksOnce app w) [
    | inl q ↦ inl q
    | inr found ↦ inr (running refl, found)
  ]
  due-Part app w false running = inl refl

  evaluate_app-Part : (app : MigratableApp) (w : World) → Part app w (evaluate_app env app w).1
  unfolding evaluate_app
  evaluate_app-Part app w =
      due-Part app w (should_checkpoint app w.now) (should_checkpoint-running app w.now)

  -- A round asks for the checkpoints application by application, in the order of their list: of each one at
  -- most once, only where its phase is Running, at the address of one of the pods that the API server lists
  -- for it, which runs and is not being deleted, and on top of its own last checkpoint. So it is whatever
  -- the agents and the API server answer.
  pub evaluate_all-Round :
      (apps : List MigratableApp) (w : World)
      → Round env apps (requests w) (requests (evaluate_all env apps w).1)
  unfolding evaluate_all
  evaluate_all-Round [] w = refl
  evaluate_all-Round (app ∷ rest) w =
      let v = (evaluate_app env app w).1 in
      let more = evaluate_all-Round rest v in
      let later = requests (evaluate_all env rest v).1 in
      elim (evaluate_app-Part app w) [
        | inl q ↦ inl (subst (λ past. Round env rest past later) q more)
        | inr (running, (request, (asks, q))) ↦
            inr (running, (request, (asks, subst (λ past. Round env rest past later) q more)))
      ]
