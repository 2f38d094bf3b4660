-- ===== src/Webhook/Inject.antt =====
-- pkg/webhook/injector.go: the injection of the agent into a pod. The pod has annotations, since the
-- one that opts in is among them.
use criu_migration_operator.Base.{
  ℕ, zero, suc, String, true, List, [], ◌∷◌, ◌++◌, Option, none, some, Map, insert, str_eq, join,
  if◌then◌else◌,
}
use criu_migration_operator.Kube.{Container, Pod}
use criu_migration_operator.PodBuilder.Agent.{PodBuilder, build_agent_container}
use criu_migration_operator.PodBuilder.{add_ptrace, agent_volumes, checkpoints_mount, is_nil}
use criu_migration_operator.Webhook.Config.{WebhookConfig}

-- The index of a container named `app`.
unfoldable pub named_app : ℕ → List Container → Option ℕ
named_app i [] = none
named_app i (c ∷ rest) = if str_eq c.name "app" then some i else named_app (suc i) rest

abbrev or_first : List Container → Option ℕ → Option ℕ
or_first [] none = none
or_first (c ∷ rest) none = some 0
or_first l (some i) = some i

-- findAppContainer; `none` is -1.
unfoldable pub find_app_container : List Container → Option ℕ
unfolding named_app
find_app_container l = or_first l (named_app 0 l)

-- The annotations that keep the command line, as strings.Join writes it.
unfoldable pub keep_command : Container → Map → Map
keep_command c m =
    let a =
      if is_nil c.command
      then m
      else insert "migration.io/original-command" (join "," c.command) m in
    let b =
      if is_nil c.args then a else insert "migration.io/original-args" (join "|||" c.args) a in
    if str_eq c.working_dir "" then b else insert "migration.io/original-workdir" c.working_dir b

-- The container of the application, parked.
unfoldable pub parked : Container → Container
unfolding add_ptrace
parked c = record c {
  command = "sleep" ∷ "infinity" ∷ [];
  args = [];
  security_context = add_ptrace c.security_context;
  volume_mounts = c.volume_mounts ++ checkpoints_mount ∷ [];
  name = "app";
}

-- The container at an index, changed in place, and the annotations with its command.
unfoldable pub inject_at : Option ℕ → Map → List Container → Map × List Container
unfolding parked keep_command
inject_at none m l = (m, l)
inject_at (some i) m [] = (m, [])
inject_at (some zero) m (c ∷ rest) = (keep_command c m, parked c ∷ rest)
inject_at (some (suc i)) m (c ∷ rest) = let (a, l) = inject_at (some i) m rest in (a, c ∷ l)

-- The agent of the injected pod: the image and the secret that the configuration names.
unfoldable pub injected_agent : PodBuilder → WebhookConfig → Container
injected_agent b cfg =
    let agent = build_agent_container b "normal" in
    record agent {
      image = if str_eq cfg.agent_image "" then agent.image else cfg.agent_image;
      env_from =
          if str_eq cfg.credentials_secret ""
          then agent.env_from
          else agent.env_from ++ (cfg.credentials_secret, true) ∷ [];
    }

-- InjectSidecar, with the builder of the synthetic application.
unfoldable pub inject_sidecar : PodBuilder → WebhookConfig → (app_name : String) → Pod → Pod
unfolding injected_agent inject_at find_app_container
inject_sidecar b cfg app_name pod =
    let (annotations, containers) =
      inject_at (find_app_container pod.spec.containers) pod.meta.annotations pod.spec.containers in
    record pod {
      meta = record pod.meta {
        labels = insert "app.kubernetes.io/managed-by" "migration-controller" (
            insert "migration.io/app" app_name
              (insert "migration.io/injected" "true" pod.meta.labels));
        annotations =
            insert "migration.io/mode" "normal" (
              insert "migration.io/generation" "0"
                (insert "migration.io/app" app_name annotations));
      };
      spec = record pod.spec {
        containers = containers ++ injected_agent b cfg ∷ [];
        volumes = pod.spec.volumes ++ agent_volumes;
        share_process_namespace = some true;
      };
    }
