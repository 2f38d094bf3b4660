-- ===== src/Pods/Wait.antt =====
-- The waits of the controller, waitForPodRunning and waitForLazyPagesCompletion: what they leave alone,
-- and their rounds.
use native.Mathlib.Nat.{zero-add, suc-add}
use criu_migration_operator.Base.{
  ℕ, zero, suc, ◌+◌, ◌*◌, ◌≤◌, String, ◌≡◌, refl, ltb, arith, inl, inr, Bool-cases,
}
use criu_migration_operator.Base.Int.{ℤ, to_ℕ}
use criu_migration_operator.Base.Duration.{second}
use criu_migration_operator.Kube.{Pod}
use criu_migration_operator.Cluster.{Env, World, M, Result, ok, err, Result-cases, get_pod, sleep}
use criu_migration_operator.AgentClient.{lazy_pages_active}
use criu_migration_operator.Cluster.Trace.{IsIdle, IsIdle-SameView, IsQuiet}
use criu_migration_operator.Pods.{
  after_poll, wait_round, wait_rounds, wait_for_pod_running, lazy_pages_round, lazy_pages_rounds,
  wait_for_lazy_pages,
}

module _ (env : Env) where
  -- The world after a poll and a sleep.
  abbrev polled : Pod → World → World
  polled pod w = (sleep second (get_pod env pod.meta.namespace pod.meta.name w).1).1

  wait_round-IsIdle :
      (deadline : ℕ) (pod : Pod) (again : Pod → M (Result Unit × Pod)) (w : World)
      → ((p : Pod) (u : World) → IsIdle u (again p u).1)
      → IsIdle w (wait_round env deadline pod again w).1
  unfolding wait_round
  wait_round-IsIdle deadline pod again w q =
      elim (Result-cases (env.get_pod w.step pod.meta.namespace pod.meta.name)) [
        | inl (p, e) ↦ ground (arith, q p (polled pod w))
        | inr (x, e) ↦ ground (arith, q pod (polled pod w))
      ]

  wait_rounds-IsIdle :
      (rounds deadline : ℕ) (pod : Pod) (w : World)
      → IsIdle w (wait_rounds env rounds deadline pod w).1
  unfolding wait_rounds
  wait_rounds-IsIdle zero deadline pod w = record { app = refl; trace = refl }
  wait_rounds-IsIdle (suc rounds) deadline pod w =
      wait_round-IsIdle deadline pod (wait_rounds env rounds deadline) w
        (wait_rounds-IsIdle rounds deadline)

  pub wait_for_pod_running-IsQuiet :
      (pod : Pod) (timeout : ℤ) → IsQuiet (wait_for_pod_running env pod timeout)
  unfolding wait_for_pod_running
  wait_for_pod_running-IsQuiet pod timeout = record {
    at = λ w.
        IsIdle-SameView (wait_rounds-IsIdle (to_ℕ timeout) (w.now + to_ℕ timeout * second) pod w);
  }

  abbrev asked : String → World → World
  asked ip w = (sleep (2 * second) (lazy_pages_active env ip w).1).1

  lazy_pages_round-IsIdle :
      (deadline : ℕ) (ip : String) (again : M Unit) (w : World)
      → ((u : World) → IsIdle u (again u).1)
      → IsIdle w (lazy_pages_round env deadline ip again w).1
  unfolding lazy_pages_round
  lazy_pages_round-IsIdle deadline ip again w q = ground (arith, q (asked ip w))

  lazy_pages_rounds-IsIdle :
      (rounds deadline : ℕ) (ip : String) (w : World)
      → IsIdle w (lazy_pages_rounds env rounds deadline ip w).1
  unfolding lazy_pages_rounds
  lazy_pages_rounds-IsIdle zero deadline ip w = record { app = refl; trace = refl }
  lazy_pages_rounds-IsIdle (suc rounds) deadline ip w =
      lazy_pages_round-IsIdle deadline ip (lazy_pages_rounds env rounds deadline ip) w
        (lazy_pages_rounds-IsIdle rounds deadline ip)

  pub wait_for_lazy_pages-IsIdle :
      (ip : String) (w : World) → IsIdle w (wait_for_lazy_pages env ip w).1
  unfolding wait_for_lazy_pages
  wait_for_lazy_pages-IsIdle ip w = lazy_pages_rounds-IsIdle 150 (w.now + 300 * second) ip w

  pub wait_for_lazy_pages-IsQuiet : (ip : String) → IsQuiet (wait_for_lazy_pages env ip)
  wait_for_lazy_pages-IsQuiet ip = record {
    at = λ w. IsIdle-SameView (wait_for_lazy_pages-IsIdle ip w);
  }

  after_poll_congruent :
      (pod : Pod) (again again' : Pod → M (Result Unit × Pod)) (answer : Result Pod) (w : World)
      → ((p : Pod) (u : World) → w.now + second ≤ u.now → again p u ≡ again' p u)
      → after_poll pod again answer w ≡ after_poll pod again' answer w
  unfolding after_poll
  after_poll_congruent pod again again' (err e) w q = q pod (sleep second w).1 (omega arith)
  after_poll_congruent pod again again' (ok p) w q = ground (arith, q p (sleep second w).1)

  -- Two continuations that agree once a second has passed make the same round.
  wait_round_congruent :
      (deadline : ℕ) (pod : Pod) (again again' : Pod → M (Result Unit × Pod)) (w : World)
      → ((p : Pod) (u : World) → w.now + second ≤ u.now → again p u ≡ again' p u)
      → wait_round env deadline pod again w ≡ wait_round env deadline pod again' w
  unfolding wait_round
  wait_round_congruent deadline pod again again' w q =
      let u = (get_pod env pod.meta.namespace pod.meta.name w).1 in
      let answer = (get_pod env pod.meta.namespace pod.meta.name w).0 in
      let same = after_poll_congruent pod again again' answer u (λ p v h. q p v (omega arith)) in
      elim (Bool-cases (ltb w.now deadline)) [ inl e ↦ rw e same | inr e ↦ rw e ]

  wait_round_late :
      (deadline : ℕ) (pod : Pod) (again : Pod → M (Result Unit × Pod)) (w : World)
      → deadline ≤ w.now
      → wait_round env deadline pod again w ≡ wait_rounds env 0 deadline pod w
  unfolding wait_round wait_rounds
  wait_round_late deadline pod again w h = ground arith

  -- Rounds beyond those that fit before the deadline change nothing: the clock ends the loop first.
  pub wait_rounds_enough :
      (rounds more deadline : ℕ) (pod : Pod) (w : World)
      → deadline ≤ w.now + rounds * second
      → wait_rounds env (rounds + more) deadline pod w ≡ wait_rounds env rounds deadline pod w
  unfolding wait_rounds
  wait_rounds_enough zero zero deadline pod w h = refl
  wait_rounds_enough zero (suc more) deadline pod w h =
      rw zero-add (wait_round_late deadline pod (wait_rounds env more deadline) w (omega arith))
  wait_rounds_enough (suc rounds) more deadline pod w h = rw suc-add (
      wait_round_congruent deadline pod (wait_rounds env (rounds + more) deadline)
        (wait_rounds env rounds deadline) w
        (λ p u later. wait_rounds_enough rounds more deadline p u (omega arith)))
