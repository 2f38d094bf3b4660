-- ===== src/Monitor/Telling.antt =====
-- Which pods are asked to migrate, and what they are told, apart from how the monitor does it.
use criu_migration_operator.Base.{
  String, true, false, List, [], ◌∷◌, ◌≡◌, ◌≢◌, ◌⊎◌, refl, none, Map, str_eq, eq_iff, arith, index,
  insert, lookup-insert, if◌then◌else◌,
}
use criu_migration_operator.Kube.{Pod}
use criu_migration_operator.Monitor.{Change, triggered, needs_trigger, with_trigger}

-- The pod is being deleted, or has been asked for.
abbrev pub IsSpared : Pod → Type 0
IsSpared p =
    (p.meta.deletion_timestamp ≢ none)
    ⊎ (index p.meta.annotations "migration.io/trigger" ≡ "requested")

-- It is not being deleted, and has not been asked for.
abbrev pub IsWanted : Pod → Type 0
IsWanted p =
    (p.meta.deletion_timestamp ≡ none)
    × (index p.meta.annotations "migration.io/trigger" ≢ "requested")

-- The key is none of a trigger's.
abbrev pub IsOther : String → Type 0
IsOther key =
    (key ≢ "migration.io/trigger")
    × (key ≢ "migration.io/reason")
    × (key ≢ "migration.io/detection-method")
    × (key ≢ "migration.io/detection-timestamp")

-- The pod `q` is `p`, asked to migrate.
pub record IsTold (timestamp : String) (p q : Pod) : Type 0 where
  pub name : q.meta.name ≡ p.meta.name
  pub namespace : q.meta.namespace ≡ p.meta.namespace
  pub trigger : index q.meta.annotations "migration.io/trigger" ≡ "requested"
  pub reason : index q.meta.annotations "migration.io/reason" ≡ "spot-interrupt"
  pub method : index q.meta.annotations "migration.io/detection-method" ≡ "imds"
  pub detected : index q.meta.annotations "migration.io/detection-timestamp" ≡ timestamp
  pub others :
      (key : String) → IsOther key → index q.meta.annotations key ≡ index p.meta.annotations key

-- Pod by pod: it is spared, or it is wanted and told.
abbrev pub Asked : (timestamp : String) → List Pod → (older later : List Change) → Type 0
Asked timestamp [] older later = later ≡ older
Asked timestamp (p ∷ rest) older later =
    (IsSpared p × Asked timestamp rest older later)
    ⊎ (IsWanted p
        × ((q : Pod) × (IsTold timestamp p q × Asked timestamp rest (triggered q ∷ older) later)))

index-insert :
    (written read value : String) (m : Map)
    → index (insert written value m) read ≡ (if str_eq written read then value else index m read)
unfolding index
index-insert written read value m = rw (lookup-insert written read value m) (ground arith)

index-with_trigger :
    (timestamp key : String) (p : Pod)
    → index (with_trigger timestamp p).meta.annotations key ≡ (
        if str_eq "migration.io/detection-timestamp" key
        then timestamp
        else if str_eq "migration.io/detection-method" key
        then "imds"
        else if str_eq "migration.io/reason" key
        then "spot-interrupt"
        else if str_eq "migration.io/trigger" key
        then "requested"
        else index p.meta.annotations key)
unfolding with_trigger
index-with_trigger timestamp key p =
    let requested = insert "migration.io/trigger" "requested" p.meta.annotations in
    let explained = insert "migration.io/reason" "spot-interrupt" requested in
    let detected = insert "migration.io/detection-method" "imds" explained in
    rw
      (
        index-insert "migration.io/detection-timestamp" key timestamp detected,
        index-insert "migration.io/detection-method" key "imds" explained,
        index-insert "migration.io/reason" key "spot-interrupt" requested,
        index-insert "migration.io/trigger" key "requested" p.meta.annotations,
      )
      refl

with_trigger-others :
    (timestamp key : String) (p : Pod)
    → IsOther key
    → index (with_trigger timestamp p).meta.annotations key ≡ index p.meta.annotations key
with_trigger-others timestamp key p o = rw (index-with_trigger timestamp key p) (
    ground (
      arith,
      o,
      eq_iff "migration.io/detection-timestamp" key,
      eq_iff "migration.io/detection-method" key,
      eq_iff "migration.io/reason" key,
      eq_iff "migration.io/trigger" key,
    ))

pub with_trigger-IsTold :
    (timestamp : String) (p : Pod) → IsTold timestamp p (with_trigger timestamp p)
unfolding with_trigger
with_trigger-IsTold timestamp p = record {
  name = refl;
  namespace = refl;
  trigger = index-with_trigger timestamp "migration.io/trigger" p;
  reason = index-with_trigger timestamp "migration.io/reason" p;
  method = index-with_trigger timestamp "migration.io/detection-method" p;
  detected = index-with_trigger timestamp "migration.io/detection-timestamp" p;
  others = λ key o. with_trigger-others timestamp key p o;
}

pub needs_trigger-IsWanted : (p : Pod) → needs_trigger p ≡ true → IsWanted p
unfolding needs_trigger
needs_trigger-IsWanted p e =
    ground (arith, e, eq_iff (index p.meta.annotations "migration.io/trigger") "requested")

pub needs_trigger-IsSpared : (p : Pod) → needs_trigger p ≡ false → IsSpared p
unfolding needs_trigger
needs_trigger-IsSpared p e =
    ground (arith, e, eq_iff (index p.meta.annotations "migration.io/trigger") "requested")
