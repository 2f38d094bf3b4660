-- ===== src/Agent/Storage/Chain.antt =====
-- DownloadMetadataOnly and DownloadFullCheckpoint: where the objects of a chain land.
use criu_migration_operator.Base.{
  String, Bool, true, false, List, [], ◌∷◌, ◌++◌, ◌≡◌, refl, ap, sym, ◌∙◌, arith, ◌<>◌, join,
  itoa_int, str_eq, eq_iff, ◌==◌, if◌then◌else◌, inl, inr, Bool-cases, some,
}
use Prim.Native.Char.{Char, code}
use text.Mathlib.TextEquality.{Char-path}
use text.Mathlib.TextLemmas.{append_assoc, cons≢nil, nil-append, cons-append}
use criu_migration_operator.Base.Splitting.{after_prefix, trim_prefix, trim_suffix, split_on}
use criu_migration_operator.Agent.Manager.{Manager, s3_prefix_of}
use criu_migration_operator.Agent.Storage.{but_last, with_slash, chain_base, local_name}

-- A part of a path: not empty, and without a slash.
abbrev pub has_slash : String → Bool
has_slash String.[] = false
has_slash (String.◌∷◌ c s) = if code c == 47 then true else has_slash s

pub record IsPart (s : String) : Type 0 where
  pub filled : str_eq s "" ≡ false
  pub no_slash : has_slash s ≡ false

after_prefix-append : (p s : String) → after_prefix p (p <> s) ≡ some s
unfolding after_prefix
after_prefix-append String.[] s = ap some (nil-append s)
after_prefix-append (String.◌∷◌ c p) s =
    rw (cons-append c p s) (ground (arith, after_prefix-append p s))

trim_prefix-append : (p s : String) → trim_prefix (p <> s) p ≡ s
unfolding trim_prefix
trim_prefix-append p s = rw (after_prefix-append p s) refl

-- What follows the first character of a part.
not_slash :
    (c : Char) (s : String)
    → has_slash (String.◌∷◌ c s) ≡ false
    → ((code c == 47) ≡ false) × (has_slash s ≡ false)
not_slash c s h = elim (Bool-cases (code c == 47)) [ inl e ↦ cc (h, e) | inr e ↦ (e, cc (h, e)) ]

trim_prefix-part : (s t : String) → IsPart s → trim_prefix (s <> t) "/" ≡ s <> t
unfolding trim_prefix after_prefix
trim_prefix-part String.[] t h = cc (h.filled)
trim_prefix-part (String.◌∷◌ c s) t h =
    let e = (not_slash c s h.no_slash).0 in rw (cons-append c s t) (ground (arith, e))

split_on-part : (s : String) → has_slash s ≡ false → split_on 47 s ≡ s ∷ []
unfolding split_on
split_on-part String.[] h = refl
split_on-part (String.◌∷◌ c s) h =
    let (e, rest) = not_slash c s h in
    rw (e, split_on-part s rest, cons-append c "" s, nil-append s) refl

split_on-filled :
    (s : String) → (first : String) × (rest : List String) × (split_on 47 s ≡ first ∷ rest)
unfolding split_on
split_on-filled String.[] = ("", [], refl)
split_on-filled (String.◌∷◌ c s) =
    let (first, rest, e) = split_on-filled s in
    elim (Bool-cases (code c == 47)) [
      | inl slash ↦ ("", split_on 47 s, rw slash refl)
      | inr other ↦ (String.◌∷◌ c "" <> first, rest, rw (other, e) refl)
    ]

split_on-append :
    (s t : String) → has_slash t ≡ false → split_on 47 (s <> "/" <> t) ≡ split_on 47 s ++ t ∷ []
unfolding split_on
split_on-append String.[] t h =
    rw (nil-append ("/" <> t), cons-append "/" "" t, nil-append t)
      (ap (λ l. "" ∷ l) (split_on-part t h))
split_on-append (String.◌∷◌ c s) t h =
    let (first, rest, e) = split_on-filled s in
    rw (cons-append c s ("/" <> t)) (elim (Bool-cases (code c == 47)) [
      | inl slash ↦ rw (slash, split_on-append s t h) refl
      | inr other ↦ rw (other, split_on-append s t h, e) refl
    ])

but_last-append : (parts : List String) (s : String) → but_last (parts ++ s ∷ []) ≡ parts
but_last-append [] s = refl
but_last-append (p ∷ []) s = refl
but_last-append (p ∷ q ∷ rest) s = ap (λ l. p ∷ l) (but_last-append (q ∷ rest) s)

join-cons :
    (c : Char) (first : String) (rest : List String)
    → join "/" ((String.◌∷◌ c "" <> first) ∷ rest) ≡ String.◌∷◌ c (join "/" (first ∷ rest))
unfolding join
join-cons c first [] = rw (cons-append c "" first, nil-append first) refl
join-cons c first (t ∷ rest) =
    rw (cons-append c "" first, nil-append first) (cons-append c first ("/" <> join "/" (t ∷ rest)))

join-split_on : (s : String) → join "/" (split_on 47 s) ≡ s
unfolding join split_on
join-split_on String.[] = refl
join-split_on (String.◌∷◌ c s) =
    let (first, rest, e) = split_on-filled s in
    let joined = rw e at (join-split_on s) in
    elim (Bool-cases (code c == 47)) [
      | inl slash ↦
          rw (slash, e, nil-append ("/" <> join "/" (first ∷ rest)), joined)
            (cons-append "/" "" s
              ∙ rw (nil-append s)
                  (ap (λ d. String.◌∷◌ d s) (sym (Char-path c "/" (ground (arith, slash))))))
      | inr other ↦ rw (other, e) (join-cons c first rest ∙ ap (String.◌∷◌ c) joined)
    ]

trim_suffix-part : (s : String) → has_slash s ≡ false → trim_suffix s "/" ≡ s
unfolding trim_suffix
trim_suffix-part String.[] h = refl
trim_suffix-part (String.◌∷◌ c s) h =
    let (e, rest) = not_slash c s h in
    elim (Bool-cases (str_eq (String.◌∷◌ c s) "/")) [
      | inl same ↦ absurd (let e = (eq_iff (String.◌∷◌ c s) "/").0 same in cc (h, ap has_slash e))
      | inr differs ↦ rw (differs, trim_suffix-part s rest) refl
    ]

abbrev has_two : String → Bool
has_two (String.◌∷◌ c (String.◌∷◌ d s)) = true
has_two _ = false

has_two-append : (c : Char) (s t : String) → IsPart t → has_two (String.◌∷◌ c (s <> t)) ≡ true
has_two-append c String.[] String.[] h = cc (h.filled)
has_two-append c String.[] (String.◌∷◌ d t) h = rw (nil-append (String.◌∷◌ d t)) refl
has_two-append c (String.◌∷◌ d s) t h = rw (cons-append d s t) refl

trim_suffix-append : (s t : String) → IsPart t → trim_suffix (s <> t) "/" ≡ s <> t
unfolding trim_suffix
trim_suffix-append String.[] t h = rw (nil-append t) (trim_suffix-part t h.no_slash)
trim_suffix-append (String.◌∷◌ c s) t h =
    rw (cons-append c s t) (elim (Bool-cases (str_eq (String.◌∷◌ c (s <> t)) "/")) [
      | inl same ↦ absurd (
          let e = (eq_iff (String.◌∷◌ c (s <> t)) "/").0 same in
          cc (has_two-append c s t h, ap has_two e))
      | inr differs ↦ rw (differs, trim_suffix-append s t h) refl
    ])

cons-filled : (c : Char) (s : String) → str_eq (String.◌∷◌ c s) "" ≡ false
cons-filled c s = elim (Bool-cases (str_eq (String.◌∷◌ c s) "")) [
  | inl same ↦ absurd (cons≢nil ((eq_iff (String.◌∷◌ c s) "").0 same))
  | inr differs ↦ differs
]

append-filled : (s t : String) → IsPart t → str_eq (s <> t) "" ≡ false
append-filled String.[] t h = rw (nil-append t) h.filled
append-filled (String.◌∷◌ c s) t h = rw (cons-append c s t) (cons-filled c (s <> t))

with_slash-append : (s t : String) → IsPart t → with_slash (s <> t) ≡ (s <> t) <> "/"
with_slash-append s t h = rw (append-filled s t h, trim_suffix-append s t h) refl

chain_base-append :
    (s node id : String)
    → IsPart node
    → IsPart id
    → chain_base ((s <> node) <> "/" <> id) ≡ (s <> node) <> "/"
unfolding chain_base
chain_base-append s node id n i =
    let base = s <> node in
    let whole : trim_suffix (base <> "/" <> id) "/" ≡ base <> "/" <> id =
      rw (append_assoc base "/" id) at (trim_suffix-append (base <> "/") id i) in
    rw
      (
        whole,
        split_on-append base id i.no_slash,
        but_last-append (split_on 47 base) id,
        join-split_on base,
      )
      (with_slash-append s node n)

-- What a prefix has before the node's name.
abbrev before_node : Manager → String
before_node m = m.app_name <> "/" <> itoa_int m.generation <> "/"

s3_prefix_of-parts :
    (m : Manager) (id : String) → s3_prefix_of m id ≡ (before_node m <> m.node_name) <> "/" <> id
unfolding s3_prefix_of
s3_prefix_of-parts m id = simp (append_assoc)

-- The objects of a chain land in the directories of their own checkpoints: whichever checkpoint a download
-- asks for, a file of a checkpoint of the same application, generation and node gets the path that it had
-- below the working directory of the agent that dumped it, where the node's name and the checkpoints' IDs
-- are not empty and have no slash.
pub local_name-s3_prefix_of :
    (m : Manager) (asked dump_id file : String)
    → IsPart m.node_name
    → IsPart asked
    → IsPart dump_id
    → local_name (chain_base (s3_prefix_of m asked)) (s3_prefix_of m dump_id <> "/" <> file)
      ≡ dump_id <> "/" <> file
unfolding local_name
local_name-s3_prefix_of m asked dump_id file n a d =
    let base = before_node m <> m.node_name in
    let key : s3_prefix_of m dump_id <> "/" <> file ≡ (base <> "/") <> dump_id <> "/" <> file =
      rw (s3_prefix_of-parts m dump_id) (simp (append_assoc)) in
    rw
      (
        s3_prefix_of-parts m asked,
        chain_base-append (before_node m) m.node_name asked n a,
        key,
        trim_prefix-append (base <> "/") (dump_id <> "/" <> file),
      )
      (trim_prefix-part dump_id ("/" <> file) d)
