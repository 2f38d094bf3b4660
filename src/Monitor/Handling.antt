-- ===== src/Monitor/Handling.antt =====
-- What the handling of an interruption changes, and that it is done once.
use criu_migration_operator.Base.{
  ℕ, String, Bool, true, false, not, ◌&&◌, List, [], ◌∷◌, map, ◌≡◌, refl, sym, subst, ◌∙◌, index,
  insert, lookup-insert, if◌then◌else◌, inl, inr, Bool-cases,
}
use criu_migration_operator.Base.Timestamp.{format_rfc3339}
use criu_migration_operator.Kube.{Pod}
use criu_migration_operator.Cluster.{ok}
use criu_migration_operator.Pods.{is_deleting}
use criu_migration_operator.Monitor.{
  Cloud, Watch, Change, cordoned, triggered, ask, change, needs_trigger, with_trigger, trigger_all,
  trigger_listed, cordon, after_cordon, handle_node, handle_spot_interruption,
}
use criu_migration_operator.Monitor.Telling.{
  Asked, with_trigger-IsTold, needs_trigger-IsWanted, needs_trigger-IsSpared,
}

-- The triggers of the pods that need one, the last one first, before `older`.
abbrev pub triggers : String → List Pod → List Change → List Change
triggers timestamp [] older = older
triggers timestamp (p ∷ rest) older =
    triggers timestamp rest
      (if needs_trigger p then triggered (with_trigger timestamp p) ∷ older else older)

abbrev pub cordons : (node : String) → (unschedulable : Bool) → List Change → List Change
cordons node true older = older
cordons node false older = cordoned node ∷ older

module _ (cloud : Cloud) (node : String) where
  trigger_all-changes :
      (timestamp : String) (pods : List Pod) (w : Watch)
      → (trigger_all cloud node timestamp pods w).1.changes ≡ triggers timestamp pods w.changes
  unfolding trigger_all
  trigger_all-changes timestamp [] w = refl
  trigger_all-changes timestamp (p ∷ rest) w =
      let pod = with_trigger timestamp p in
      let (answer, u) = ask cloud (λ n. cloud.update_pod n pod) w in
      let v = (change (triggered pod) u).1 in
      elim (Bool-cases (needs_trigger p)) [
        | inl e ↦ rw e (trigger_all-changes timestamp rest v)
        | inr e ↦ rw e (trigger_all-changes timestamp rest w)
      ]

  after_cordon-changes :
      (pods : List Pod) (w : Watch)
      → ((n : ℕ) → cloud.list_pods n node ≡ ok pods)
      → (timestamp : String) × ((after_cordon cloud node (ok tt) w).1.changes
          ≡ triggers timestamp pods w.changes)
  unfolding after_cordon trigger_listed
  after_cordon-changes pods w listed =
      let (answer, u) = ask cloud (λ n. cloud.list_pods n node) w in
      (format_rfc3339 u.now, rw (listed w.step) (trigger_all-changes (format_rfc3339 u.now) pods u))

  handle_node-changes :
      (unschedulable : Bool) (pods : List Pod) (w : Watch)
      → ((n : ℕ) → cloud.update_node n node ≡ ok tt)
      → ((n : ℕ) → cloud.list_pods n node ≡ ok pods)
      → (timestamp : String) × ((handle_node cloud node (ok unschedulable) w).1.changes
          ≡ triggers timestamp pods (cordons node unschedulable w.changes))
  unfolding handle_node cordon
  handle_node-changes true pods w updated listed = after_cordon-changes pods w listed
  handle_node-changes false pods w updated listed =
      let (answer, u) = ask cloud (λ n. cloud.update_node n node) w in
      rw (updated w.step) (after_cordon-changes pods (change (cordoned node) u).1 listed)

and_false : (b : Bool) → (b && false) ≡ false
and_false true = refl
and_false false = refl

needs_trigger-with_trigger :
    (timestamp : String) (p : Pod) → needs_trigger (with_trigger timestamp p) ≡ false
unfolding needs_trigger with_trigger index
needs_trigger-with_trigger timestamp p =
    let requested = insert "migration.io/trigger" "requested" p.meta.annotations in
    let explained = insert "migration.io/reason" "spot-interrupt" requested in
    let detected = insert "migration.io/detection-method" "imds" explained in
    rw
      (lookup-insert "migration.io/detection-timestamp" "migration.io/trigger" timestamp detected
        ∙ lookup-insert "migration.io/detection-method" "migration.io/trigger" "imds" explained
        ∙ lookup-insert "migration.io/reason" "migration.io/trigger" "spot-interrupt" requested
        ∙ lookup-insert "migration.io/trigger" "migration.io/trigger" "requested"
            p.meta.annotations)
      (and_false (not (is_deleting p.meta.deletion_timestamp)))

triggers-Asked :
    (timestamp : String) (pods : List Pod) (older : List Change)
    → Asked timestamp pods older (triggers timestamp pods older)
triggers-Asked timestamp [] older = refl
triggers-Asked timestamp (p ∷ rest) older =
    let q = with_trigger timestamp p in
    elim (Bool-cases (needs_trigger p)) [
      | inl e ↦ rw e (
          inr (
            needs_trigger-IsWanted p e,
            (
              q,
              (
                with_trigger-IsTold timestamp p,
                triggers-Asked timestamp rest (triggered q ∷ older),
              ),
            ),
          ))
      | inr e ↦ rw e (inl (needs_trigger-IsSpared p e, triggers-Asked timestamp rest older))
    ]

-- The pod as it is stored after the handling.
abbrev pub stored : String → Pod → Pod
stored timestamp p = if needs_trigger p then with_trigger timestamp p else p

needs_trigger-stored : (timestamp : String) (p : Pod) → needs_trigger (stored timestamp p) ≡ false
needs_trigger-stored timestamp p = elim (Bool-cases (needs_trigger p)) [
  | inl e ↦ rw e (needs_trigger-with_trigger timestamp p)
  | inr e ↦ rw e e
]

triggers-stored :
    (first second : String) (pods : List Pod) (older : List Change)
    → triggers second (map (stored first) pods) older ≡ older
triggers-stored first second [] older = refl
triggers-stored first second (p ∷ rest) older =
    rw (triggers, needs_trigger-stored first p) (triggers-stored first second rest older)

module _ (cloud : Cloud) (node : String) where
  handle-triggers :
      (unschedulable : Bool) (pods : List Pod) (w : Watch)
      → ((n : ℕ) → cloud.get_node n node ≡ ok unschedulable)
      → ((n : ℕ) → cloud.update_node n node ≡ ok tt)
      → ((n : ℕ) → cloud.list_pods n node ≡ ok pods)
      → (timestamp : String) × ((handle_spot_interruption cloud node w).1.changes
          ≡ triggers timestamp pods (cordons node unschedulable w.changes))
  unfolding handle_spot_interruption
  handle-triggers unschedulable pods w found updated listed =
      let (answer, u) = ask cloud (λ n. cloud.get_node n node) w in
      rw (found w.step) (handle_node-changes cloud node unschedulable pods u updated listed)

  -- A second handling changes nothing: where the node is cordoned and the pods are listed as the first
  -- handling left them.
  pub handle_again :
      (timestamp : String) (pods : List Pod) (w : Watch)
      → ((n : ℕ) → cloud.get_node n node ≡ ok true)
      → ((n : ℕ) → cloud.update_node n node ≡ ok tt)
      → ((n : ℕ) → cloud.list_pods n node ≡ ok (map (stored timestamp) pods))
      → (handle_spot_interruption cloud node w).1.changes ≡ w.changes
  handle_again timestamp pods w found updated listed =
      let (second, e) = handle-triggers true (map (stored timestamp) pods) w found updated listed in
      e ∙ triggers-stored timestamp second pods w.changes

  -- Handling an interruption cordons the node, if it is not cordoned yet, and asks for the migration of
  -- exactly those of the controller's pods on it that are not being deleted and have no trigger yet, each
  -- once, in their order and with one timestamp, and gives each of them the reason and the method of the
  -- detection and keeps its other annotations. This holds where the node can be read and cordoned and the
  -- pods can be listed, whatever the updates of the pods answer.
  pub handle-changes :
      (unschedulable : Bool) (pods : List Pod) (w : Watch)
      → ((n : ℕ) → cloud.get_node n node ≡ ok unschedulable)
      → ((n : ℕ) → cloud.update_node n node ≡ ok tt)
      → ((n : ℕ) → cloud.list_pods n node ≡ ok pods)
      → (timestamp : String) × Asked timestamp pods
          (cordons node unschedulable w.changes)
          (handle_spot_interruption cloud node w).1.changes
  handle-changes unschedulable pods w found updated listed =
      let (timestamp, e) = handle-triggers unschedulable pods w found updated listed in
      (
        timestamp,
        subst (Asked timestamp pods (cordons node unschedulable w.changes)) (sym e)
            (triggers-Asked timestamp pods (cordons node unschedulable w.changes)),
      )
