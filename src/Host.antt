-- ===== src/Host.antt =====
-- The outside of the agent: files, processes, CRIU, the object storage and the kernel's userfaultfd,
-- none of which is code of this repository. As for the controller, the n-th call gets the n-th answer
-- of `Host`, which may be any. An action works on a component's state, the clock, the number of calls
-- so far and the list of the events that matter, newest first.
pub mod Trace
pub mod Safe
use criu_migration_operator.Base.{
  ℕ, zero, suc, ◌+◌, String, Bool, true, false, not, List, [], ◌∷◌, Option, none, some, ltb,
  if◌then◌else◌,
}
use criu_migration_operator.Cluster.{Result, ok, err}
use criu_migration_operator.Profiler.Areas.{VmaInfo, AddrRange}

-- What setupUffdWP returns: the tracker's descriptor, the target's one, and the registered ranges.
pub record UffdSetup : Type 0 where
  pub tracker_fd : ℕ
  pub target_fd : ℕ
  pub registered : List AddrRange

-- What the ioctl PAGEMAP_SCAN answers for one area: regions, EPERM, or another error.
pub data ScanAnswer : Type 0 where
  regions : List AddrRange → ScanAnswer
  not_permitted failed : ScanAnswer

pub record DirEntry : Type 0 where
  pub name : String
  pub is_dir : Bool

pub record Host : Type 0 where
  pub lag : ℕ → ℕ
  pub getenv : String → String
  pub new_uuid : ℕ → String  -- uuid.New().String()[:8]
  pub make_dir : ℕ → (path : String) → Result Unit  -- os.MkdirAll
  pub stat : ℕ → (path : String) → Result ℕ  -- os.Stat, with the size
  pub read_file : ℕ → (path : String) → Result String
  pub write_file : ℕ → (path text : String) → Result Unit
  pub read_link : ℕ → (path : String) → Result String
  pub read_dir : ℕ → (path : String) → Result (List DirEntry)  -- os.ReadDir
  pub remove_all : ℕ → (path : String) → Result Unit
  pub glob : ℕ → (pattern : String) → Result (List String)
  pub marshal : (entries : List (String × String)) → String  -- json.Marshal of a map
  pub marshal_iovs : (excluded : List (String × String)) → String  -- MarshalIndent of a hotIOVsJSON
  pub dir_size : ℕ → (path : String) → Result ℕ  -- getDirectorySize
  pub output : ℕ → (command : List String) → Result String  -- exec.Command(..).Output()
  pub run_criu : ℕ → (args : List String) → Result String  -- to its end
  pub start_criu : ℕ → (args : List String) → Result ℕ  -- in the background, with its PID
  pub upload_checkpoint : ℕ → (dir prefix : String) → Result Unit
  pub upload_file : ℕ → (path key : String) → Result Unit
  pub parse_vmas : ℕ → (pid : ℕ) → Result (List VmaInfo)  -- of /proc/pid/maps
  pub open_pagemap : ℕ → (pid : ℕ) → Result Unit
  pub setup_uffd : ℕ → (pid : ℕ) → List VmaInfo → Result UffdSetup  -- setupUffdWP, by ptrace
  pub close_target : ℕ → (pid fd : ℕ) → Result Unit  -- closeTargetUffd, by ptrace
  -- A descriptor `none` is -1, and `setupUffdWP` that fails leaves nothing open.
  pub register : ℕ → (fd : Option ℕ) → AddrRange → Result Unit
  pub unregister : ℕ → (fd : Option ℕ) → AddrRange → Result Unit
  pub verify_wp : ℕ → Result Bool
  pub write_protect : ℕ → List VmaInfo → Result Unit  -- wpAllWritablePages
  pub scan : ℕ → VmaInfo → ScanAnswer  -- PAGEMAP_SCAN of one area

-- The events that the properties speak of.
pub data Event : Type 0 where
  criu_ran : (args : List String) → Event
  uffd_opened : (pid fd : ℕ) → Event  -- a userfaultfd in the target
  uffd_closed : (pid fd : ℕ) → Event  -- closed in the target
  uploaded : (dir prefix : String) → Result Unit → Event
  file_uploaded : (key : String) → Event
  removed : (path : String) → Event
  killed : (pid : ℕ) → Event

pub record World (S : Type 0) : Type 0 where
  pub self : S
  pub now : ℕ
  pub step : ℕ
  pub trace : List Event

abbrev pub Act : Type 0 → Type 0 → Type 0
Act S A = World S → A × World S

module _ {S A : Type 0} where
  abbrev pub pure : A → Act S A
  pure a w = (a, w)

infixl 5 ◌>>=◌ ◌>>◌
abbrev pub ◌>>=◌ : {S A B : Type 0} → Act S A → (A → Act S B) → Act S B
◌>>=◌ m f w = let (a, w') = m w in f a w'

abbrev pub ◌>>◌ : {S A B : Type 0} → Act S A → Act S B → Act S B
◌>>◌ m k = m >>= λ _. k

abbrev pub self : {S : Type 0} → Act S S
self w = (w.self, w)

abbrev pub modify : {S : Type 0} → (S → S) → Act S Unit
modify f w = (tt, record w { self = f w.self })

abbrev pub clock : {S : Type 0} → Act S ℕ
clock w = (w.now, w)

abbrev pub sleep : {S : Type 0} → ℕ → Act S Unit
sleep d w = (tt, record w { now = w.now + d })

abbrev pub note : {S : Type 0} → Event → Act S Unit
note e w = (tt, record w { trace = e ∷ w.trace })

-- An action of a component, run on the part of the state that is the component's.
unfoldable pub zoom : {S T A : Type 0} → (S → T) → (T → S → S) → Act T A → Act S A
zoom get put m w =
    let (a, u) = m (record { self = get w.self; now = w.now; step = w.step; trace = w.trace }) in
    (a, record { self = put u.self w.self; now = u.now; step = u.step; trace = u.trace })

-- One call.
abbrev pub ask : {S A : Type 0} → Host → (ℕ → A) → Act S A
ask host answer w = (answer w.step, record w { now = w.now + host.lag w.step; step = suc w.step })

abbrev pub exists : Result ℕ → Bool
exists (ok size) = true
exists (err e) = false

-- `for time.Now().Before(deadline) { test; time.Sleep(pause) }`: the value that the test finds, if it
-- does so in time. A loop with `rounds * pause` of time runs for `rounds` rounds at most.
module _ {S A : Type 0} where
  unfoldable pub after_test : (pause : ℕ) → Act S (Option A) → Option A → Act S (Option A)
  after_test pause again none = sleep pause >> again
  after_test pause again (some a) = pure (some a)

  unfoldable pub poll : (rounds deadline pause : ℕ) → Act S (Option A) → Act S (Option A)
  unfolding after_test
  poll zero deadline pause test = pure none
  poll (suc rounds) deadline pause test = do
    now ← clock
    if not (ltb now deadline)
        then pure none
        else do answer ← test; after_test pause (poll rounds deadline pause test) answer
