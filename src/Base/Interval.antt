-- ===== src/Base/Interval.antt =====
-- time.ParseDuration of Go's standard library. A fraction of a unit is computed exactly, where Go goes
-- through a float64.
use Prim.Native.Nat.{ℕ, zero, suc, ◌+◌, ◌-◌, ◌*◌, ◌/◌, ◌^◌}
use Prim.Native.Char.{code}
use Prim.Native.String.{String}
use mathlib.Core.Path.{◌≡◌, refl}
use mathlib.Core.Bool.{Bool, true, false, ◌&&◌, ◌||◌}
use mathlib.Core.Option.{Option, none, some}
use criu_migration_operator.Base.Tests.{ltb, leb, ◌==◌, if◌then◌else◌}
use criu_migration_operator.Base.Int.{ℤ, pos, negsuc}
use criu_migration_operator.Base.Text.{str_eq, ◌<>◌}
use criu_migration_operator.Base.Duration.{millisecond, second}

-- unitMap, with 0 for a text that is no unit.
unit_size : String → ℕ
unit_size u =
    if str_eq u "ns"
    then 1
    else if str_eq u "us" || str_eq u "µs" || str_eq u "μs"
    then 1000
    else if str_eq u "ms"
    then millisecond
    else if str_eq u "s"
    then second
    else if str_eq u "m"
    then 60 * second
    else if str_eq u "h"
    then 3600 * second
    else 0

-- What has been read of `2.5s` and the like: the sum of the units before it, the whole number, the
-- fraction's digits and ten to their number, whether there were digits and a point, and the unit.
record Scan : Type 0 where
  total : ℕ
  whole : ℕ
  part : ℕ
  scale : ℕ
  has_digits : Bool
  has_point : Bool
  unit : String

fresh_scan : ℕ → Scan
fresh_scan total = record {
  total = total;
  whole = 0;
  part = 0;
  scale = 1;
  has_digits = false;
  has_point = false;
  unit = "";
}

-- The end of a unit: the new sum, unless the unit is unknown or the sum is beyond 2^63.
close_unit : Scan → Option ℕ
unfolding unit_size
close_unit s =
    let size = unit_size s.unit in
    let sum = s.total + s.whole * size + s.part * size / s.scale in
    if size == 0 || ltb (2 ^ 63) sum then none else some sum

is_digit : ℕ → Bool
is_digit c = leb b'0' c && leb c b'9'

add_digit : ℕ → Scan → Scan
add_digit d s =
    if s.has_point
    then record s { part = s.part * 10 + d; scale = s.scale * 10; has_digits = true }
    else record s { whole = s.whole * 10 + d; has_digits = true }

-- A digit or a point, which starts another number where a unit has been read.
add_number_char : ℕ → Scan → Option Scan
unfolding add_digit is_digit
add_number_char c s =
    if is_digit c
    then some (add_digit (c - b'0') s)
    else if s.has_point
    then none
    else some (record s { has_point = true })

reopened : Option ℕ → Option Scan
unfolding fresh_scan
reopened none = none
reopened (some total) = some (fresh_scan total)

ready : Scan → Option Scan
unfolding close_unit reopened
ready s = if str_eq s.unit "" then some s else reopened (close_unit s)

add_to : ℕ → Option Scan → Option Scan
unfolding add_number_char
add_to c none = none
add_to c (some s) = add_number_char c s

scan_char : ℕ → String → Scan → Option Scan
unfolding is_digit add_to ready
scan_char c letter s =
    if is_digit c || c == b'.'
    then add_to c (ready s)
    else if s.has_digits
    then some (record s { unit = s.unit <> letter })
    else none

scanned : Option Scan → (Scan → Option ℕ) → Option ℕ
scanned none next = none
scanned (some s) next = next s

scan : String → Scan → Option ℕ
unfolding scan_char scanned close_unit
scan String.[] s = close_unit s
scan (String.◌∷◌ c r) s = scanned (scan_char (code c) (String.◌∷◌ c String.[]) s) (scan r)

magnitude : String → Option ℕ
unfolding scan fresh_scan
magnitude s = if str_eq s "0" then some 0 else scan s (fresh_scan 0)

positive : Option ℕ → Option ℤ
positive none = none
positive (some n) = if ltb n (2 ^ 63) then some (pos n) else none

negated : Option ℕ → Option ℤ
negated none = none
negated (some zero) = some (pos zero)
negated (some (suc n)) = some (negsuc n)

-- `none` is an error.
unfoldable pub parse_duration : String → Option ℤ
unfolding magnitude positive negated
parse_duration String.[] = none
parse_duration (String.◌∷◌ c r) =
    if code c == b'-'
    then negated (magnitude r)
    else if code c == b'+'
    then positive (magnitude r)
    else positive (magnitude (String.◌∷◌ c r))

parse_30_s : parse_duration "30s" ≡ some (pos (30 * second))
unfolding parse_duration
parse_30_s = refl

parse_mixed : parse_duration "-1m2.5s" ≡ some (negsuc (62_500 * millisecond - 1))
unfolding parse_duration
parse_mixed = refl

parse_no_unit : parse_duration "30" ≡ none
unfolding parse_duration
parse_no_unit = refl

parse_two_points : parse_duration "1.5.5s" ≡ none
unfolding parse_duration
parse_two_points = refl
