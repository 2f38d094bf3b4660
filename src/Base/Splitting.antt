-- ===== src/Base/Splitting.antt =====
-- The functions of Go's `strings`, `strconv` and `path/filepath` that the agent uses, on texts read as
-- their characters.
use Prim.Native.Nat.{ℕ, zero, suc, ◌+◌, ◌-◌, ◌*◌, ◌/◌, ◌%◌}
use Prim.Native.Char.{code}
use Prim.Native.String.{String, slice}
use mathlib.Core.Path.{◌≡◌, refl}
use mathlib.Core.Bool.{Bool, true, false, ◌&&◌, ◌||◌}
use mathlib.Core.Option.{Option, none, some}
use mathlib.Core.List.{List, [], ◌∷◌}
use criu_migration_operator.Base.Tests.{ltb, leb, ◌==◌, if◌then◌else◌}
use criu_migration_operator.Base.Int.{ℤ, pos, negsuc}
use criu_migration_operator.Base.Text.{str_eq, ◌<>◌}

-- What follows a prefix of the text.
unfoldable pub after_prefix : (prefix s : String) → Option String
after_prefix String.[] s = some s
after_prefix (String.◌∷◌ c p) String.[] = none
after_prefix (String.◌∷◌ c p) (String.◌∷◌ d s) = if code c == code d then after_prefix p s else none

abbrev or_whole : String → Option String → String
or_whole s none = s
or_whole s (some t) = t

abbrev pub is_found : {A : Type 0} → Option A → Bool
is_found none = false
is_found (some a) = true

-- strings.TrimPrefix, strings.HasPrefix
unfoldable pub trim_prefix : (s prefix : String) → String
unfolding after_prefix
trim_prefix s prefix = or_whole s (after_prefix prefix s)

unfoldable pub has_prefix : (s prefix : String) → Bool
unfolding after_prefix
has_prefix s prefix = is_found (after_prefix prefix s)

-- strings.TrimSuffix, of a suffix that is not empty
unfoldable pub trim_suffix : (s suffix : String) → String
trim_suffix String.[] suffix = String.[]
trim_suffix (String.◌∷◌ c s) suffix =
    if str_eq (String.◌∷◌ c s) suffix then String.[] else String.◌∷◌ c (trim_suffix s suffix)

-- strings.Contains, of a part that is not empty
unfoldable pub contains : (s part : String) → Bool
unfolding has_prefix
contains String.[] part = false
contains (String.◌∷◌ c s) part = has_prefix (String.◌∷◌ c s) part || contains s part

-- strings.ReplaceAll of one character by another text
unfoldable pub replace_char : (old : ℕ) → (new : String) → String → String
replace_char old new String.[] = String.[]
replace_char old new (String.◌∷◌ c s) =
    if code c == old then new <> replace_char old new s else String.◌∷◌ c (replace_char old new s)

abbrev prepend : String → List String → List String
prepend s [] = s ∷ []
prepend s (t ∷ rest) = (s <> t) ∷ rest

-- strings.Split, by one character
unfoldable pub split_on : (separator : ℕ) → String → List String
split_on separator String.[] = String.[] ∷ []
split_on separator (String.◌∷◌ c s) =
    let rest = split_on separator s in
    if code c == separator then String.[] ∷ rest else prepend (String.◌∷◌ c String.[]) rest

unfoldable pub is_space : ℕ → Bool
is_space c = c == 32 || (leb 9 c && leb c 13)

abbrev without_empty : List String → List String
without_empty [] = []
without_empty (s ∷ rest) = if str_eq s "" then without_empty rest else s ∷ without_empty rest

spaces_to_blank : String → String
unfolding is_space
spaces_to_blank String.[] = String.[]
spaces_to_blank (String.◌∷◌ c s) =
    if is_space (code c) then " " <> spaces_to_blank s else String.◌∷◌ c (spaces_to_blank s)

-- strings.Fields
unfoldable pub fields_of : String → List String
unfolding spaces_to_blank split_on
fields_of s = without_empty (split_on 32 (spaces_to_blank s))

trim_left : String → String
unfolding is_space
trim_left String.[] = String.[]
trim_left (String.◌∷◌ c s) = if is_space (code c) then trim_left s else String.◌∷◌ c s

trim_right : String → String
unfolding is_space
trim_right String.[] = String.[]
trim_right (String.◌∷◌ c s) =
    let rest = trim_right s in
    if str_eq rest "" && is_space (code c) then String.[] else String.◌∷◌ c rest

-- strings.TrimSpace
unfoldable pub trim_space : String → String
unfolding trim_left trim_right
trim_space s = trim_right (trim_left s)

drop_left : ℕ → String → String
drop_left char String.[] = String.[]
drop_left char (String.◌∷◌ c s) = if code c == char then drop_left char s else String.◌∷◌ c s

drop_right : ℕ → String → String
drop_right char String.[] = String.[]
drop_right char (String.◌∷◌ c s) =
    let rest = drop_right char s in
    if str_eq rest "" && code c == char then String.[] else String.◌∷◌ c rest

-- strings.Trim, of one character
unfoldable pub trim_char : ℕ → String → String
unfolding drop_left drop_right
trim_char char s = drop_right char (drop_left char s)

-- The digits of a text as a number, after `acc`.
digits_value : ℕ → String → Option ℕ
digits_value acc String.[] = some acc
digits_value acc (String.◌∷◌ c s) =
    if leb b'0' (code c) && leb (code c) b'9'
    then digits_value (acc * 10 + (code c - b'0')) s
    else none

natural : String → Option ℕ
unfolding digits_value
natural String.[] = none
natural (String.◌∷◌ c s) = digits_value 0 (String.◌∷◌ c s)

abbrev negated : Option ℕ → Option ℤ
negated none = none
negated (some zero) = some (pos zero)
negated (some (suc n)) = some (negsuc n)

abbrev as_pos : Option ℕ → Option ℤ
as_pos none = none
as_pos (some n) = some (pos n)

-- strconv.Atoi. A number beyond an int, for which it fails, is read here.
unfoldable pub atoi : String → Option ℤ
unfolding natural
atoi String.[] = none
atoi (String.◌∷◌ c s) =
    if code c == b'-'
    then negated (natural s)
    else if code c == b'+'
    then as_pos (natural s)
    else as_pos (natural (String.◌∷◌ c s))

hex_from : ℕ → ℕ → String → String
hex_from zero n acc = acc
hex_from (suc fuel) n acc =
    let digit = slice "0123456789abcdef" (n % 16) (n % 16 + 1) in
    let rest = hex_from fuel (n / 16) (digit <> acc) in if ltb n 16 then digit <> acc else rest

-- The verb %x. A number of 64 bits has at most 16 digits.
unfoldable pub hex : ℕ → String
unfolding hex_from
hex n = hex_from 16 n ""

-- filepath.Join of a directory that is not empty and ends in no slash, and a name
unfoldable pub path_join : (dir name : String) → String
path_join dir name = if str_eq name "" then dir else dir <> "/" <> name

fields_test : fields_of " a  bc\td " ≡ "a" ∷ "bc" ∷ "d" ∷ []
unfolding fields_of
fields_test = refl

hex_test : hex 65536 ≡ "10000"
unfolding hex
hex_test = refl

atoi_test : atoi "-12" ≡ some (negsuc 11)
unfolding atoi
atoi_test = refl
