-- ===== src/Repeater/Regions/Reached.antt =====
-- The tables that the operations lead to, in whatever order they come and whether they fail or not.
use mcrs.Prelude.{
  ℕ, Bool, Option, none, some, List, list_eq, is_empty, ◌||◌, inl, inr, Bool-cases, Option-cases,
}
use mcrs.Prelude.Text.{ascii}
use mcrs.Repeater.Regions.{
  RegionMap, Outcome, done, failed, new, put_region, remove_region, set_flood_allowed, star,
  set_default, find_by_name_prefix, answered, answered_then, set_region_from_config,
  set_default_from_config,
}
use mcrs.Repeater.Regions.Operations.{
  IfDone, put_region-IsValid, remove_region-IsValid, set_flood_allowed-IsValid, set_default-IsValid,
}
use mcrs.Repeater.Regions.Table.{IsValid, new-IsValid}

answered-IsValid :
    (m : RegionMap) (r : Outcome RegionMap)
    → IsValid m
    → IfDone IsValid r
    → IsValid (answered m r).1
unfolding answered IfDone
answered-IsValid m (failed e) v h = v
answered-IsValid m (done after) v h = h

answered_then-IsValid :
    (m : RegionMap) (r : Outcome RegionMap) (next : RegionMap → Outcome RegionMap)
    → IsValid m
    → IfDone IsValid r
    → ((after : RegionMap) → IsValid after → IfDone IsValid (next after))
    → IsValid (answered_then m r next).1
unfolding answered_then IfDone
answered_then-IsValid m (failed e) next v h k = v
answered_then-IsValid m (done after) next v h k = answered-IsValid after (next after) h (k after h)

set_region_from_config-IsValid :
    (m : RegionMap) (name : List ℕ) (allowed : Bool)
    → IsValid m
    → IsValid (set_region_from_config m name allowed).1
unfolding set_region_from_config
set_region_from_config-IsValid m name allowed v =
    elim (Bool-cases (list_eq name (ascii "default"))) [
      | inl y ↦ rw y v
      | inr n ↦ elim (Bool-cases (list_eq name star)) [
        | inl y ↦
            rw (n, y)
              (answered-IsValid m (set_flood_allowed m name allowed) v
                (set_flood_allowed-IsValid m name allowed v))
        | inr k ↦
            rw (n, k)
              (answered_then-IsValid m (put_region m name)
                (λ after. set_flood_allowed after name allowed) v (put_region-IsValid m name v)
                (λ after w. set_flood_allowed-IsValid after name allowed w))
      ]
    ]

set_default_from_config-IsValid :
    (m : RegionMap) (name : List ℕ) → IsValid m → IsValid (set_default_from_config m name).1
unfolding set_default_from_config
set_default_from_config-IsValid m name v =
    elim (Bool-cases (list_eq name (ascii "<null>") || is_empty name)) [
      | inl y ↦ rw y (answered-IsValid m (set_default m none) v (set_default-IsValid m none v))
      | inr n ↦ elim (Option-cases (find_by_name_prefix m name)) [
        | inl gone ↦
            rw (n, gone)
              (answered_then-IsValid m (put_region m name) (λ after. set_default after (some name))
                v (put_region-IsValid m name v)
                (λ after w. set_default-IsValid after (some name) w))
        | inr (region, y) ↦
            rw (n, y)
              (answered-IsValid m (set_default m (some name)) v
                (set_default-IsValid m (some name) v))
      ]
    ]

-- The tables that the calls lead to, the calls that answer an error included.
pub data ReachableMap : RegionMap → Type 0 where
  at_start : ReachableMap new
  by_put :
      {m : RegionMap} (name : List ℕ)
      → ReachableMap m
      → ReachableMap (answered m (put_region m name)).1
  by_remove :
      {m : RegionMap} (name : List ℕ)
      → ReachableMap m
      → ReachableMap (answered m (remove_region m name)).1
  by_flood :
      {m : RegionMap} (name : List ℕ) (allowed : Bool)
      → ReachableMap m
      → ReachableMap (answered m (set_flood_allowed m name allowed)).1
  by_default :
      {m : RegionMap} (name : Option (List ℕ))
      → ReachableMap m
      → ReachableMap (answered m (set_default m name)).1
  by_config :
      {m : RegionMap} (name : List ℕ) (allowed : Bool)
      → ReachableMap m
      → ReachableMap (set_region_from_config m name allowed).1
  by_config_default :
      {m : RegionMap} (name : List ℕ)
      → ReachableMap m
      → ReachableMap (set_default_from_config m name).1

-- In every table that the calls on regions lead to, in whatever order and those that answer an
-- error included, there are at most 32 regions, and no two have the same name up to a leading hash
-- sign.
pub ReachableMap-IsValid : {m : RegionMap} → ReachableMap m → IsValid m
ReachableMap-IsValid at_start = new-IsValid
ReachableMap-IsValid (by_put {m} name r) =
    let v : IsValid m = ReachableMap-IsValid r in
    answered-IsValid m (put_region m name) v (put_region-IsValid m name v)
ReachableMap-IsValid (by_remove {m} name r) =
    let v : IsValid m = ReachableMap-IsValid r in
    answered-IsValid m (remove_region m name) v (remove_region-IsValid m name v)
ReachableMap-IsValid (by_flood {m} name allowed r) =
    let v : IsValid m = ReachableMap-IsValid r in
    answered-IsValid m (set_flood_allowed m name allowed) v
      (set_flood_allowed-IsValid m name allowed v)
ReachableMap-IsValid (by_default {m} name r) =
    let v : IsValid m = ReachableMap-IsValid r in
    answered-IsValid m (set_default m name) v (set_default-IsValid m name v)
ReachableMap-IsValid (by_config {m} name allowed r) =
    set_region_from_config-IsValid m name allowed (ReachableMap-IsValid r)
ReachableMap-IsValid (by_config_default {m} name r) =
    set_default_from_config-IsValid m name (ReachableMap-IsValid r)
