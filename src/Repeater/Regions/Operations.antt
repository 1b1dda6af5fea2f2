-- ===== src/Repeater/Regions/Operations.antt =====
-- Every operation on the table keeps it valid.
use mcrs.Prelude.{
  ℕ, ◌≤◌, ◌≡◌, refl, Bool, true, Option, none, some, List, length, list_eq, leb, arith, inl, inr,
  Bool-cases, Option-cases,
}
use mcrs.Prelude.Positions.{position, modify_at, remove_at, length-modify_at, length-remove_at}
use mcrs.Repeater.Regions.{
  RegionEntry, RegionMap, Outcome, done, failed, has_name, strip_hash, with_flags, change_flag,
  entry_index_by_name, put_name, push_region, put_region, remove_region, remove_index, or_not_found,
  set_flood_allowed, normalize_region_name, max_regions, star, option_eq, id_at, with_default,
  choose_default, is_wildcard, set_default, find_by_name_prefix, ◌>>=◌,
}
use mcrs.Repeater.Regions.Table.{
  IsValid, Distinct, Distinct-modify_at, Distinct-remove_at, Distinct-append, remove_at-position,
  length_append,
}

-- What an operation leaves where it does not fail.
unfoldable pub IfDone : (RegionMap → Type 0) → Outcome RegionMap → Type 0
IfDone P (done m) = P m
IfDone P (failed e) = Unit

modified-IsValid :
    (m : RegionMap) (i : ℕ) (f : RegionEntry → RegionEntry) (flags : ℕ)
    → ((e : RegionEntry) → (f e).name ≡ e.name)
    → IsValid m
    → IsValid (record {
      next_id = m.next_id;
      default_id = m.default_id;
      wildcard_flags = flags;
      entries = modify_at i f m.entries;
    })
modified-IsValid m i f flags same v = record {
  room = omega (arith, length-modify_at i f m.entries, v.room);
  distinct = Distinct-modify_at i f m.entries same v.distinct;
}

push_region-IsValid :
    (m : RegionMap) (name : List ℕ)
    → position (has_name (strip_hash name)) m.entries ≡ none
    → IsValid m
    → IfDone IsValid (push_region m name)
unfolding push_region IfDone
push_region-IsValid m name h v =
    let e : RegionEntry = record { id = m.next_id; flags = 0; name = name } in
    elim (Bool-cases (leb max_regions (length m.entries))) [
      | inl y ↦ rw y tt
      | inr n ↦ rw n (record {
        room = ground (arith, n, length_append e m.entries);
        distinct = Distinct-append e m.entries h v.distinct;
      })
    ]

put_name-IsValid : (m : RegionMap) (name : List ℕ) → IsValid m → IfDone IsValid (put_name m name)
unfolding put_name entry_index_by_name IfDone
put_name-IsValid m name v = elim (Bool-cases (list_eq name star)) [
  | inl y ↦ rw y tt
  | inr n ↦ elim (Option-cases (position (has_name (strip_hash name)) m.entries)) [
    | inl gone ↦ rw (n, gone) (push_region-IsValid m name gone v)
    | inr (i, y) ↦ rw (n, y) (modified-IsValid m i (with_flags 0) m.wildcard_flags (λ e. refl) v)
  ]
]

IfDone-bind :
    {A : Type 0} (P : RegionMap → Type 0) (r : Outcome A) (next : A → Outcome RegionMap)
    → ((a : A) → IfDone P (next a))
    → IfDone P (r >>= next)
unfolding IfDone
IfDone-bind P (failed e) next h = tt
IfDone-bind P (done a) next h = h a

-- As above, where what comes first leaves something.
IfDone-then :
    (P Q : RegionMap → Type 0) (r : Outcome RegionMap) (next : RegionMap → Outcome RegionMap)
    → IfDone P r
    → ((m : RegionMap) → P m → IfDone Q (next m))
    → IfDone Q (r >>= next)
unfolding IfDone
IfDone-then P Q (failed e) next p h = tt
IfDone-then P Q (done m) next p h = h m p

-- Adding a region never goes over 32 and never gives a second region the same name.
pub put_region-IsValid :
    (m : RegionMap) (name : List ℕ) → IsValid m → IfDone IsValid (put_region m name)
unfolding put_region
put_region-IsValid m name v =
    IfDone-bind IsValid (normalize_region_name name) (put_name m)
      (λ clean. put_name-IsValid m clean v)

IfDone-or_not_found :
    {A : Type 0} (P : RegionMap → Type 0) (o : Option A) (next : A → Outcome RegionMap)
    → ((a : A) → IfDone P (next a))
    → IfDone P (or_not_found o next)
unfolding IfDone or_not_found
IfDone-or_not_found P none next h = tt
IfDone-or_not_found P (some a) next h = h a

remove_index-IsValid : (m : RegionMap) (i : ℕ) → IsValid m → IsValid (remove_index m i)
unfolding remove_index
remove_index-IsValid m i v =
    let room : length (remove_at i m.entries) ≤ max_regions =
      omega (arith, length-remove_at i m.entries, v.room) in
    let distinct : Distinct (remove_at i m.entries) = Distinct-remove_at i m.entries v.distinct in
    elim (Bool-cases (option_eq m.default_id (id_at i m.entries))) [
      | inl same ↦ rw same (record { room = room; distinct = distinct })
      | inr other ↦ rw other (record { room = room; distinct = distinct })
    ]

pub remove_region-IsValid :
    (m : RegionMap) (name : List ℕ) → IsValid m → IfDone IsValid (remove_region m name)
unfolding remove_region IfDone
remove_region-IsValid m name v =
    IfDone-or_not_found IsValid (entry_index_by_name m name) (λ i. done (remove_index m i))
      (λ i. remove_index-IsValid m i v)

entry_index-remove_index :
    (m : RegionMap) (name : List ℕ) (i : ℕ)
    → IsValid m
    → entry_index_by_name m name ≡ some i
    → entry_index_by_name (remove_index m i) name ≡ none
unfolding entry_index_by_name remove_index
entry_index-remove_index m name i v h = elim (Bool-cases (list_eq name star)) [
  | inl y ↦ rw y refl
  | inr n ↦
      let at : position (has_name (strip_hash name)) m.entries ≡ some i = ground (arith, h, n) in
      let gone : position (has_name (strip_hash name)) (remove_at i m.entries) ≡ none =
        remove_at-position (strip_hash name) m.entries i v.distinct at in
      elim (Bool-cases (option_eq m.default_id (id_at i m.entries))) [
        | inl same ↦ rw (n, same) gone
        | inr other ↦ rw (n, other) gone
      ]
]

-- A region that was removed is in the table no longer.
pub remove_region-gone :
    (m : RegionMap) (name : List ℕ)
    → IsValid m
    → IfDone (λ m'. entry_index_by_name m' name ≡ none) (remove_region m name)
unfolding remove_region IfDone or_not_found
remove_region-gone m name v = elim (Option-cases (entry_index_by_name m name)) [
  | inl n ↦ rw (n, IfDone) tt
  | inr (i, y) ↦ rw (y, IfDone) (entry_index-remove_index m name i v y)
]

pub set_flood_allowed-IsValid :
    (m : RegionMap) (name : List ℕ) (allowed : Bool)
    → IsValid m
    → IfDone IsValid (set_flood_allowed m name allowed)
unfolding set_flood_allowed IfDone
set_flood_allowed-IsValid m name allowed v = elim (Bool-cases (list_eq name star)) [
  | inl y ↦ rw y (record { room = v.room; distinct = v.distinct })
  | inr n ↦ elim (Option-cases (entry_index_by_name m name)) [
    | inl gone ↦ rw (n, gone) tt
    | inr (i, y) ↦
        rw (n, y) (modified-IsValid m i (change_flag allowed) m.wildcard_flags (λ e. refl) v)
  ]
]

with_default-IsValid : (m : RegionMap) (id : Option ℕ) → IsValid m → IsValid (with_default m id)
with_default-IsValid m id v = record { room = v.room; distinct = v.distinct }

choose_default-IsValid :
    (m : RegionMap) (name : List ℕ) (region : RegionEntry)
    → IsValid m
    → IfDone IsValid (choose_default m name region)
unfolding choose_default IfDone
choose_default-IsValid m name region v =
    let chosen : IfDone IsValid
        (do m ← set_flood_allowed m name true; done (with_default m (some region.id))) =
      IfDone-then IsValid IsValid (set_flood_allowed m name true)
        (λ m'. done (with_default m' (some region.id))) (set_flood_allowed-IsValid m name true v)
        (λ m' w. with_default-IsValid m' (some region.id) w) in
    elim (Bool-cases (is_wildcard region)) [
      | inl y ↦ rw y (with_default-IsValid m none v)
      | inr n ↦ rw n chosen
    ]

pub set_default-IsValid :
    (m : RegionMap) (name : Option (List ℕ)) → IsValid m → IfDone IsValid (set_default m name)
unfolding set_default IfDone
set_default-IsValid m none v = with_default-IsValid m none v
set_default-IsValid m (some name) v =
    IfDone-or_not_found IsValid (find_by_name_prefix m name) (choose_default m name)
      (λ region. choose_default-IsValid m name region v)
