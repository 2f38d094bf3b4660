-- ===== src/Base/Timestamp.antt =====
-- time.Time of Go's standard library: Format with the layout RFC3339, in UTC. A time is in
-- nanoseconds from the start of 1970. The date is computed in eras of 400 years from March 1 of
-- the year 0.
use Prim.Native.Nat.{ℕ, ◌+◌, ◌-◌, ◌*◌, ◌/◌, ◌%◌}
use Prim.Native.String.{String}
use mathlib.Core.Path.{◌≡◌, refl}
use criu_migration_operator.Base.Tests.{ltb, leb, if◌then◌else◌}
use criu_migration_operator.Base.Text.{itoa, ◌<>◌}
use criu_migration_operator.Base.Duration.{second}

two_digits : ℕ → String
two_digits n = if ltb n 10 then "0" <> itoa n else itoa n

four_digits : ℕ → String
four_digits n =
    if ltb n 10
    then "000" <> itoa n
    else if ltb n 100
    then "00" <> itoa n
    else if ltb n 1000
    then "0" <> itoa n
    else itoa n

-- The year, month and day of a day counted from 1970-01-01.
civil : ℕ → ℕ × ℕ × ℕ
civil days =
    let z = days + 719468 in
    let doe = z % 146097 in
    let yoe = (doe - doe / 1460 + doe / 36524 - doe / 146096) / 365 in
    let doy = doe - (365 * yoe + yoe / 4 - yoe / 100) in
    let mp = (5 * doy + 2) / 153 in
    let month = if ltb mp 10 then mp + 3 else mp - 9 in
    let year = yoe + z / 146097 * 400 in
    (if leb month 2 then year + 1 else year, month, doy - (153 * mp + 2) / 5 + 1)

unfoldable pub format_rfc3339 : ℕ → String
unfolding civil two_digits four_digits
format_rfc3339 now =
    let secs = now / second in
    let (year, month, day) = civil (secs / 86400) in
    let rest = secs % 86400 in
    four_digits year
    <> "-"
    <> two_digits month
    <> "-"
    <> two_digits day
    <> "T"
    <> two_digits (rest / 3600)
    <> ":"
    <> two_digits (rest % 3600 / 60)
    <> ":"
    <> two_digits (rest % 60)
    <> "Z"

format_leap_day : format_rfc3339 (1_709_210_096 * second) ≡ "2024-02-29T12:34:56Z"
unfolding format_rfc3339 itoa
format_leap_day = refl
