-- ===== src/Webhook/Merging.antt =====
-- The agreement of the webhook with the controller's pods.
use criu_migration_operator.Base.{
  ℕ, suc, ◌≡◌, refl, Bool, true, false, ◌||◌, List, [], ◌∷◌, none, some, Map, ◌==◌, str_eq, any,
  All, Bool-cases, inl, inr, arith,
}
use criu_migration_operator.Kube.{Container}
use criu_migration_operator.PodBuilder.{
  has_program, save_command, adapt_container, adapt_containers, add_checkpoints_mount,
}
use criu_migration_operator.PodBuilder.Containers.{written-join, is_checkpoints}
use criu_migration_operator.Webhook.Inject.{
  named_app, find_app_container, keep_command, parked, inject_at,
}

-- The webhook keeps the same annotations of a command line as the controller.
keep-save : (c : Container) (m : Map) → keep_command c m ≡ save_command c m
unfolding keep_command save_command
keep-save c m = simp written-join

-- No container is named `app`.
abbrev pub AreOthers : List Container → Type 0
AreOthers = All (λ (c : Container). str_eq c.name "app" ≡ false)

named-none : (i : ℕ) (l : List Container) → AreOthers l → named_app i l ≡ none
unfolding named_app
named-none i [] h = refl
named-none i (c ∷ rest) (h, more) = rw h (named-none (suc i) rest more)

suc-eq-zero : (i : ℕ) → (suc i == 0) ≡ false
suc-eq-zero i = ground arith

adapt-others :
    (i : ℕ) (m : Map) (l : List Container) → AreOthers l → adapt_containers (suc i) m l ≡ (m, l)
unfolding adapt_containers
adapt-others i m [] h = refl
adapt-others i m (c ∷ rest) (h, more) =
    rw (h, suc-eq-zero i) (rw (adapt-others (suc i) m rest more) refl)

find-first :
    (c : Container) (rest : List Container)
    → AreOthers rest
    → find_app_container (c ∷ rest) ≡ some 0
unfolding find_app_container named_app
find-first c rest h = elim (Bool-cases (str_eq c.name "app")) [
  | inl e ↦ rw e refl
  | inr e ↦ rw (e, named-none 1 rest h) refl
]

or-true : (b : Bool) → (b || true) ≡ true
or-true b = ground arith

-- For a pod whose first container has a program of its own and no mount of the checkpoints yet, and
-- none of whose other containers is named app, the webhook prepares the same containers and keeps the
-- same command line as the controller does for the pods that take over.
pub inject-adapt :
    (m : Map) (c : Container) (rest : List Container)
    → has_program c ≡ true
    → any is_checkpoints c.volume_mounts ≡ false
    → AreOthers rest
    → inject_at (find_app_container (c ∷ rest)) m (c ∷ rest) ≡ adapt_containers 0 m (c ∷ rest)
unfolding inject_at adapt_containers parked adapt_container add_checkpoints_mount
inject-adapt m c rest p n h =
    rw (find-first c rest h, or-true (str_eq c.name "app"), p, keep-save c m, n)
      (rw (adapt-others 0 (save_command c m) rest h) refl)
