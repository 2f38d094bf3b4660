-- ===== src/Agent/Manager/Keeping.antt =====
-- What the CheckpointManager only reads does not change it.
use criu_migration_operator.Base.{String, List, [], ◌∷◌, Option, none, some, ◌≡◌, refl, arith}
use criu_migration_operator.Base.Splitting.{path_join}
use criu_migration_operator.Cluster.{Result, ok, err}
use criu_migration_operator.Host.{Host, Act, World, ask}
use criu_migration_operator.Profiler.Areas.{AddrRange}
use criu_migration_operator.Agent.Manager.{
  Manager, ExcludeArgs, exclude_args, exclude_range_args, parent_args, count_pages, count_pages_of,
  count_pages_in,
}

-- The manager is the same.
abbrev pub IsKeeping : {A : Type 0} → Act Manager A → Type 0
IsKeeping m = (w : World Manager) → (m w).1.self ≡ w.self

module _ (host : Host) where
  exclude_range_args-IsKeeping :
      (dir : String) (ranges : List AddrRange) → IsKeeping (exclude_range_args host dir ranges)
  unfolding exclude_range_args
  exclude_range_args-IsKeeping dir ranges w = ground arith

  pub exclude_args-IsKeeping :
      (args : Option ExcludeArgs) (dir : String) → IsKeeping (exclude_args host args dir)
  unfolding exclude_args
  exclude_args-IsKeeping none dir w = refl
  exclude_args-IsKeeping (some args) dir w = exclude_range_args-IsKeeping dir args.exclude_ranges w

  pub parent_args-IsKeeping : (parent_id : String) → IsKeeping (parent_args host parent_id)
  unfolding parent_args
  parent_args-IsKeeping parent_id w = ground arith

  count_pages-IsKeeping : (files : List String) → IsKeeping (count_pages host files)
  unfolding count_pages
  count_pages-IsKeeping [] w = refl
  count_pages-IsKeeping (file ∷ rest) w = count_pages-IsKeeping rest _

  count_pages_of-IsKeeping : (files : Result (List String)) → IsKeeping (count_pages_of host files)
  unfolding count_pages_of
  count_pages_of-IsKeeping (err e) w = refl
  count_pages_of-IsKeeping (ok files) w = count_pages-IsKeeping files w

  pub count_pages_in-IsKeeping : (dir : String) → IsKeeping (count_pages_in host dir)
  unfolding count_pages_in
  count_pages_in-IsKeeping dir w =
      let (files, u) = ask host (λ n. host.glob n (path_join dir "pages-*.img")) w in
      count_pages_of-IsKeeping files u
