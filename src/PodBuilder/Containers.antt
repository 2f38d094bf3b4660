-- ===== src/PodBuilder/Containers.antt =====
-- The command line as it is written into an annotation, and the containers of a pod.
use text.Mathlib.TextLemmas.{append_assoc, nil-append}
use criu_migration_operator.Base.{
  ℕ, suc, ◌≡◌, refl, ◌∙◌, String, Bool, true, false, ◌||◌, ◌&&◌, ◌⊎◌, List, [], ◌∷◌, ◌++◌, Map, any,
  join, ◌<>◌, ◌==◌, str_eq, Bool-cases, arith, inl, inr, if◌then◌else◌,
}
use criu_migration_operator.Kube.{Container, VolumeMount}
use criu_migration_operator.PodBuilder.Agent.{PodBuilder, build_agent_container}
use criu_migration_operator.PodBuilder.{
  joined, written, add_checkpoints_mount, adapt_container, adapt_containers, build_base_pod,
  has_program, save_command, checkpoints_mount, capabilities, security, add_ptrace,
}

suc-eq-zero : (i : ℕ) → (suc i == 0) ≡ false
suc-eq-zero i = ground arith

-- From the second text on, the loop writes the separator each time.
joined-join :
    (sep : String) (i : ℕ) (acc s : String) (l : List String)
    → joined sep (suc i) (acc <> s) l ≡ acc <> join sep (s ∷ l)
unfolding joined join
joined-join sep i acc s [] = refl
joined-join sep i acc s (t ∷ l) =
    let rest = join sep (t ∷ l) in
    rw (suc-eq-zero i) (
      joined-join sep (suc i) ((acc <> s) <> sep) t l
      ∙ append_assoc (acc <> s) sep rest
      ∙ append_assoc acc s (sep <> rest))

-- The loop that writes a command line into an annotation puts the separator between each two texts and
-- nowhere else, as strings.Join does.
pub written-join : (sep : String) (l : List String) → written sep l ≡ join sep l
unfolding written joined join
written-join sep [] = refl
written-join sep (s ∷ l) = joined-join sep 0 "" s l ∙ nil-append (join sep (s ∷ l))

any-last {ℓ} :
    {A : Type ℓ} (p : A → Bool) (l : List A) (x : A) → p x ≡ true → any p (l ++ x ∷ []) ≡ true
any-last p [] x h = rw h refl
any-last p (y ∷ l) x h = ground (arith, any-last p l x h)

abbrev pub is_checkpoints : VolumeMount → Bool
is_checkpoints m = str_eq m.name "checkpoints"

mount-any : (l : List VolumeMount) → any is_checkpoints (add_checkpoints_mount l) ≡ true
unfolding add_checkpoints_mount
mount-any l = elim (Bool-cases (any is_checkpoints l)) [
  | inl e ↦ rw (e, e) refl
  | inr e ↦ rw e (any-last is_checkpoints l checkpoints_mount refl)
]

abbrev pub may_trace : Container → Bool
may_trace c =
    any (λ k. str_eq k "SYS_PTRACE") (capabilities (security c.security_context).capabilities_add)

-- A container that CRIU can dump: `d` is `c` under the name `app`, with the mount, the capability, and
-- a program that sleeps where `c` had one of its own.
pub record IsPrepared (c d : Container) : Type 0 where
  pub name : d.name ≡ "app"
  pub image : d.image ≡ c.image
  pub mount : any is_checkpoints d.volume_mounts ≡ true
  pub trace : may_trace d ≡ true
  pub parked : has_program c ≡ true → (d.command ≡ "sleep" ∷ "infinity" ∷ []) × (d.args ≡ [])

adapt_container-IsPrepared : (c : Container) → IsPrepared c (adapt_container c)
unfolding adapt_container add_ptrace
adapt_container-IsPrepared c = record {
  name = refl;
  image = ground arith;
  mount = mount-any c.volume_mounts;
  trace =
      any-last (λ k. str_eq k "SYS_PTRACE")
        (capabilities (security c.security_context).capabilities_add) "SYS_PTRACE" refl;
  parked = λ h. ground arith;
}

-- The containers of a template from index `i` on, and those of the pod: the first one and those named
-- `app` are prepared, the others are the same.
abbrev pub ArePrepared : ℕ → List Container → List Container → Type 0
ArePrepared i [] [] = Unit
ArePrepared i [] (d ∷ ds) = ⊥
ArePrepared i (c ∷ cs) [] = ⊥
ArePrepared i (c ∷ cs) (d ∷ ds) =
    (((str_eq c.name "app" || i == 0) ≡ true) × IsPrepared c d
      ⊎ ((str_eq c.name "app" || i == 0) ≡ false) × (d ≡ c))
    × ArePrepared (suc i) cs ds

adapt_containers-ArePrepared :
    (i : ℕ) (m : Map) (l : List Container) → ArePrepared i l (adapt_containers i m l).1
unfolding adapt_containers
adapt_containers-ArePrepared i m [] = tt
adapt_containers-ArePrepared i m (c ∷ r) =
    let mine = str_eq c.name "app" || i == 0 in
    let saved = if mine && has_program c then save_command c m else m in
    let rest = adapt_containers-ArePrepared (suc i) saved r in
    elim (Bool-cases mine) [
      | inl e ↦ (inl (e, rw e (adapt_container-IsPrepared c)), rest)
      | inr e ↦ (inr (e, rw e refl), rest)
    ]

-- A pod has the containers of the template in their order, of which the first one and those named
-- `app` are prepared for CRIU and the others are left alone, and then the agent.
pub build_base_pod-ArePrepared :
    (b : PodBuilder) (generation : ℕ) (mode : String)
    → (containers : List Container) × ((build_base_pod b generation mode).spec.containers
        ≡ containers ++ build_agent_container b mode ∷ [])
      × ArePrepared 0 b.app.spec.template.spec.containers containers
unfolding build_base_pod
build_base_pod-ArePrepared b generation mode =
    (_, refl, adapt_containers-ArePrepared 0 _ b.app.spec.template.spec.containers)
