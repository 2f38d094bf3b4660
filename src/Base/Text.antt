-- ===== src/Base/Text.antt =====
-- Texts and maps keyed by texts, as Go's `string` and `map[string]string`.
use Prim.Native.Nat.{ℕ, zero, suc, ◌+◌, ◌/◌, ◌%◌}
use Prim.Native.String.{String, slice}
use Prim.Native.String
use mathlib.Core.Path.{◌≡◌, refl}
use mathlib.Core.Bool.{Bool, true, false}
use mathlib.Core.Option.{Option, none, some}
use mathlib.Core.List.{List, [], ◌∷◌}
use native.Mathlib.Omega.{arith}
use text.Mathlib.Text
use text.Mathlib.TextEquality.{eq_iff}
use criu_migration_operator.Base.Tests.{ltb, if◌then◌else◌}
use criu_migration_operator.Base.Int.{ℤ, pos, negsuc}

abbrev pub str_eq : String → String → Bool
str_eq s t = Text.◌==◌ s t

-- Concatenation, Go's `+` on strings.
infixr 65 ◌<>◌
abbrev pub ◌<>◌ : String → String → String
s <> t = String.◌++◌ s t

-- strings.Join
unfoldable pub join : String → List String → String
join sep [] = ""
join sep (s ∷ []) = s
join sep (s ∷ t ∷ r) = s <> sep <> join sep (t ∷ r)

-- strconv.FormatBool
abbrev pub format_bool : Bool → String
format_bool true = "true"
format_bool false = "false"

digits_from : ℕ → ℕ → String → String
digits_from zero n acc = acc
digits_from (suc fuel) n acc =
    let digit = slice "0123456789" (n % 10) (n % 10 + 1) in
    let rest = digits_from fuel (n / 10) (digit <> acc) in if ltb n 10 then digit <> acc else rest

-- strconv.Itoa and the verb %d. A number has no more digits than its value plus one.
unfoldable pub itoa : ℕ → String
unfolding digits_from
itoa n = digits_from (suc n) n ""

unfoldable pub itoa_int : ℤ → String
unfolding itoa
itoa_int (pos n) = itoa n
itoa_int (negsuc n) = "-" <> itoa (suc n)

itoa_1024 : itoa 1024 ≡ "1024"
unfolding itoa
itoa_1024 = refl

-- A map from texts. A missing key reads as the zero value of Go, the empty text.
abbrev pub Map : Type 0
Map = List (String × String)

unfoldable pub lookup {ℓ} : {V : Type ℓ} → (key : String) → List (String × V) → Option V
lookup key [] = none
lookup key (entry ∷ more) = if str_eq entry.0 key then some entry.1 else lookup key more

abbrev or_empty : Option String → String
or_empty none = ""
or_empty (some v) = v

unfoldable pub index : Map → String → String
unfolding lookup
index m key = or_empty (lookup key m)

-- m[key] = value
unfoldable pub insert {ℓ} :
    {V : Type ℓ} → (key : String) → (value : V) → List (String × V) → List (String × V)
insert key value [] = (key, value) ∷ []
insert key value (entry ∷ more) =
    if str_eq entry.0 key then (key, value) ∷ more else entry ∷ insert key value more

-- delete(m, key)
unfoldable pub delete {ℓ} : {V : Type ℓ} → (key : String) → List (String × V) → List (String × V)
delete key [] = []
delete key (entry ∷ more) = if str_eq entry.0 key then delete key more else entry ∷ delete key more

module _ {ℓ} {V : Type ℓ} (written read : String) where
  pub lookup-insert :
      (value : V) (entries : List (String × V))
      → lookup read (insert written value entries)
        ≡ (if str_eq written read then some value else lookup read entries)
  unfolding lookup insert
  lookup-insert value [] = refl
  lookup-insert value (entry ∷ more) = ground (
    arith,
    lookup-insert value more,
    eq_iff written read,
    eq_iff entry.0 read,
    eq_iff entry.0 written,
  )

  pub lookup-delete :
      (entries : List (String × V))
      → lookup read (delete written entries)
        ≡ (if str_eq written read then none else lookup read entries)
  unfolding lookup delete
  lookup-delete [] = ground arith
  lookup-delete (entry ∷ more) =
      ground (
        arith,
        lookup-delete more,
        eq_iff written read,
        eq_iff entry.0 read,
        eq_iff entry.0 written,
      )
