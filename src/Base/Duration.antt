-- ===== src/Base/Duration.antt =====
-- time.Duration of Go's standard library: its units, and the method String.
use Prim.Native.Nat.{ℕ, zero, suc, ◌*◌, ◌/◌, ◌%◌}
use Prim.Native.String.{String}
use mathlib.Core.Path.{◌≡◌, refl}
use mathlib.Core.Bool.{Bool, false, not, ◌||◌}
use criu_migration_operator.Base.Tests.{ltb, ◌==◌, if◌then◌else◌}
use criu_migration_operator.Base.Text.{itoa, ◌<>◌}

abbrev pub millisecond : ℕ
millisecond = 1_000_000

abbrev pub second : ℕ
second = 1_000_000_000

-- fmtFrac: the last `prec` digits of `v` as a fraction, without its trailing zeros, before `acc`,
-- and what is left of `v`.
fraction : ℕ → ℕ → Bool → String → String × ℕ
fraction zero v print acc = (if print then "." <> acc else acc, v)
fraction (suc prec) v print acc =
    let shown = print || not (v % 10 == 0) in
    fraction prec (v / 10) shown (if shown then itoa (v % 10) <> acc else acc)

with_unit : ℕ → ℕ → String → String
unfolding fraction
with_unit prec v unit = let (text, whole) = fraction prec v false unit in itoa whole <> text

-- Seconds with their fraction, then minutes and hours where there are any.
hours : ℕ → ℕ → String → String
hours h m s = if h == 0 then itoa m <> "m" <> s else itoa h <> "h" <> itoa m <> "m" <> s

minutes : ℕ → String → String
unfolding hours
minutes total s = if total == 0 then s else hours (total / 60) (total % 60) s

from_seconds : ℕ → String
unfolding fraction minutes
from_seconds ns =
    let (text, whole) = fraction 9 ns false "s" in minutes (whole / 60) (itoa (whole % 60) <> text)

unfoldable pub format_duration : ℕ → String
unfolding with_unit from_seconds
format_duration ns =
    if ns == 0
    then "0s"
    else if ltb ns 1000
    then with_unit 0 ns "ns"
    else if ltb ns millisecond
    then with_unit 3 ns "µs"
    else if ltb ns second
    then with_unit 6 ns "ms"
    else from_seconds ns

format_90_s : format_duration (90 * second) ≡ "1m30s"
unfolding format_duration itoa
format_90_s = refl

format_1500_ms : format_duration (1500 * millisecond) ≡ "1.5s"
unfolding format_duration itoa
format_1500_ms = refl
