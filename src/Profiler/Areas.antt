-- ===== src/Profiler/Areas.antt =====
-- pkg/profiler/types.go and vma.go: the memory areas of a process.
use Prim.Native.Char.{code}
use criu_migration_operator.Base.{
  ℕ, ◌+◌, ◌-◌, ◌/◌, ◌%◌, ◌^◌, String, Bool, true, false, not, ◌&&◌, ◌||◌, List, [], ◌∷◌, Option,
  none, some, leb, ◌==◌, str_eq, keep, if◌then◌else◌,
}

pub data VmaType : Type 0 where
  heap stack anonymous code_area data_area vdso unknown : VmaType

pub record VmaInfo : Type 0 where
  pub start : ℕ
  pub end : ℕ
  pub perms : String
  pub pathname : String
  pub kind : VmaType  -- Type

pub record AddrRange : Type 0 where
  pub start : ℕ
  pub end : ℕ

-- Subtraction of uint64.
unfoldable pub sub64 : ℕ → ℕ → ℕ
sub64 a b = if leb b a then a - b else a + 2 ^ 64 - b

abbrev pub page_size : ℕ
page_size = 4096

-- A text contains a character.
unfoldable pub has_letter : ℕ → String → Bool
has_letter c String.[] = false
has_letter c (String.◌∷◌ d s) = code d == c || has_letter c s

unfoldable pub is_writable : VmaInfo → Bool
unfolding has_letter
is_writable v = has_letter b'w' v.perms

unfoldable pub is_private : VmaInfo → Bool
unfolding has_letter
is_private v = has_letter b'p' v.perms

abbrev pub is_vdso : VmaType → Bool
is_vdso vdso = true
is_vdso _ = false

unfoldable pub is_writable_anonymous : VmaInfo → Bool
is_writable_anonymous v = is_writable v && is_private v && not (is_vdso v.kind)

-- Pages
unfoldable pub pages_of : VmaInfo → ℕ
unfolding sub64
pages_of v = sub64 v.end v.start / page_size

unfoldable pub starts_with_slash : String → Bool
starts_with_slash String.[] = false
starts_with_slash (String.◌∷◌ c s) = code c == b'/'

-- classifyVMA
unfoldable pub classify_vma : (pathname perms : String) → VmaType
unfolding starts_with_slash has_letter
classify_vma pathname perms =
    if str_eq pathname "[heap]"
    then heap
    else if str_eq pathname "[stack]"
    then stack
    else if str_eq pathname "[vdso]" || str_eq pathname "[vvar]" || str_eq pathname "[vsyscall]"
    then vdso
    else if starts_with_slash pathname
    then (if has_letter b'x' perms then code_area else data_area)
    else if str_eq pathname ""
    then anonymous
    else unknown

unfoldable pub writable_anonymous_vmas : List VmaInfo → List VmaInfo
writable_anonymous_vmas vmas = keep is_writable_anonymous vmas

-- The map of the registered ranges: a later range with the same start replaces an earlier one.
unfoldable pub registered_end : ℕ → Option ℕ → List AddrRange → Option ℕ
registered_end start found [] = found
registered_end start found (r ∷ rest) =
    registered_end start (if r.start == start then some r.end else found) rest

abbrev pub is_end : ℕ → Option ℕ → Bool
is_end e none = false
is_end e (some x) = x == e

-- The area needs to be registered.
unfoldable pub is_new : List AddrRange → VmaInfo → Bool
unfolding registered_end
is_new registered v =
    is_writable_anonymous v && not (is_end v.end (registered_end v.start none registered))

-- diffVMAs
unfoldable pub diff_vmas : List VmaInfo → List AddrRange → List VmaInfo
unfolding is_new
diff_vmas current registered = keep (is_new registered) current

-- calcWritableVMABytes: the sum wraps as an int64 does, on its 64 bits.
unfoldable pub calc_writable_vma_bytes : List VmaInfo → ℕ
unfolding sub64
calc_writable_vma_bytes [] = 0
calc_writable_vma_bytes (v ∷ rest) =
    let sum = calc_writable_vma_bytes rest in
    if is_writable v then (sub64 v.end v.start + sum) % 2 ^ 64 else sum
