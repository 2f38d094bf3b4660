-- ===== src/Agent/Dumping/Ranges.antt =====
-- pkg/agent/server.go: the ranges that a dump leaves out, and what the RPCs of the dumps read from files.
use criu_migration_operator.Base.{
  ℕ, zero, String, Bool, ◌&&◌, List, [], ◌∷◌, Option, none, some, ◌==◌, str_eq, any, length, ◌<>◌,
  if◌then◌else◌,
}
use criu_migration_operator.Base.Int.{ℤ, pos}
use criu_migration_operator.Base.Splitting.{split_on, has_prefix, fields_of, atoi, hex}
use criu_migration_operator.Cluster.{Error, Result, ok, err, other}
use criu_migration_operator.Profiler.Areas.{AddrRange}
use criu_migration_operator.Profiler.Heat.{HotRegion}
use criu_migration_operator.Profiler.Lifecycle.{VmaHotDetail}
use criu_migration_operator.Agent.Manager.{ExcludeArgs}

-- A map from the start of a range to its end.
abbrev pub RangeSet : Type 0
RangeSet = List (ℕ × ℕ)

unfoldable pub insert_range : ℕ → ℕ → RangeSet → RangeSet
insert_range start end [] = (start, end) ∷ []
insert_range start end (r ∷ rest) =
    if r.0 == start then (start, end) ∷ rest else r ∷ insert_range start end rest

abbrev pub starts_range : ℕ → ℕ × ℕ → Bool
starts_range start r = r.0 == start

unfoldable pub range_set : List HotRegion → RangeSet → RangeSet
unfolding insert_range
range_set [] set = set
range_set (r ∷ rest) set = range_set rest (insert_range r.start_addr r.end_addr set)

unfoldable pub hot_ranges : List HotRegion → List AddrRange
hot_ranges [] = []
hot_ranges (r ∷ rest) = record { start = r.start_addr; end = r.end_addr } ∷ hot_ranges rest

-- The ranges that were hot at the last pre-dump and are not any more.
unfoldable pub cooled : (previous current : RangeSet) → List AddrRange
cooled [] current = []
cooled (r ∷ rest) current =
    if any (starts_range r.0) current
    then cooled rest current
    else record { start = r.0; end = r.1 } ∷ cooled rest current

-- What a pre-dump leaves out, and what it dumps without regard to its parent.
unfoldable pub pre_dump_ranges : RangeSet → List HotRegion → ExcludeArgs
unfolding hot_ranges cooled range_set
pre_dump_ranges previous hot = record {
  exclude_ranges = hot_ranges hot;
  no_parent_ranges = cooled previous (range_set hot []);
}

abbrev pub blocked : String → Error
blocked what = record {
  code = other;
  text = what <> " blocked: lazy-pages is still transferring pages";
}

-- The value of the line TracerPid of /proc/PID/status, if there is one.
abbrev pub second_field : List String → Option ℤ
second_field [] = none
second_field (a ∷ []) = none
second_field (a ∷ b ∷ rest) = atoi b

unfoldable pub tracer_pid_in : List String → Option ℤ
tracer_pid_in [] = none
tracer_pid_in (line ∷ rest) =
    if has_prefix line "TracerPid:" then second_field (fields_of line) else tracer_pid_in rest

abbrev pub untraced : Option ℤ → Option (Unit {0})
untraced (some (pos zero)) = some tt
untraced _ = none

unfoldable pub tracer_of : Result String → Option ℤ
unfolding tracer_pid_in
tracer_of (err e) = none
tracer_of (ok text) = tracer_pid_in (split_on 10 text)

unfoldable pub hot_iovs : List HotRegion → List (String × String)
hot_iovs [] = []
hot_iovs (r ∷ rest) = ("0x" <> hex r.start_addr, "0x" <> hex r.end_addr) ∷ hot_iovs rest

abbrev pub strategy_or_default : String → String
strategy_or_default strategy = if str_eq strategy "" then "lazy-hybrid" else strategy

-- The hot chunks and the details of all, as they were before the clean-up.
pub record Saved : Type 0 where
  pub hot : List HotRegion
  pub details : List VmaHotDetail

abbrev pub no_saved : Saved
no_saved = record { hot = []; details = [] }

abbrev pub is_empty : Saved → Bool
is_empty s = length s.hot == 0 && length s.details == 0
