-- ===== src/Repeater/Regions/Table.antt =====
-- The table of regions: what a change of its entries does to the names in it.
use mathlib.Core.Path.{subst}
use mcrs.Prelude.{
  ℕ, zero, suc, ◌≤◌, ◌≡◌, refl, sym, ap, ◌∙◌, Bool, false, none, some, List, [], ◌∷◌, ◌++◌, length,
  list_eq, list_eq_iff, arith, inl, inr, Bool-cases, Option-cases,
}
use mcrs.Prelude.Positions.{position, modify_at, remove_at}
use mcrs.Repeater.Regions.{RegionEntry, RegionMap, new, has_name, strip_hash, max_regions}

-- No two regions have one name, up to a leading `#`.
unfoldable pub Distinct : List RegionEntry → Type 0
Distinct [] = Unit
Distinct (e ∷ es) = (position (has_name (strip_hash e.name)) es ≡ none) × Distinct es

pub record IsValid (m : RegionMap) : Type 0 where
  pub room : length m.entries ≤ max_regions
  pub distinct : Distinct m.entries

pub new-IsValid : IsValid new
unfolding new Distinct
new-IsValid = record { room = omega arith; distinct = tt }

position-modify_at :
    (test : RegionEntry → Bool) (i : ℕ) (f : RegionEntry → RegionEntry) (es : List RegionEntry)
    → ((e : RegionEntry) → test (f e) ≡ test e)
    → position test (modify_at i f es) ≡ position test es
unfolding position modify_at
position-modify_at test i f [] same = refl
position-modify_at test zero f (e ∷ es) same = rw (same e) refl
position-modify_at test (suc i) f (e ∷ es) same = rw (position-modify_at test i f es same) refl

pub Distinct-modify_at :
    (i : ℕ) (f : RegionEntry → RegionEntry) (es : List RegionEntry)
    → ((e : RegionEntry) → (f e).name ≡ e.name)
    → Distinct es
    → Distinct (modify_at i f es)
unfolding Distinct modify_at
Distinct-modify_at i f [] same d = tt
Distinct-modify_at zero f (e ∷ es) same (a, d) =
    (subst (λ n. position (has_name (strip_hash n)) es ≡ none) (sym (same e)) a, d)
Distinct-modify_at (suc i) f (e ∷ es) same (a, d) = (
  position-modify_at (has_name (strip_hash e.name)) i f es
        (λ x. ap (λ n. list_eq (strip_hash n) (strip_hash e.name)) (same x))
      ∙ a,
  Distinct-modify_at i f es same d,
)

absent-remove_at :
    (test : RegionEntry → Bool) (i : ℕ) (es : List RegionEntry)
    → position test es ≡ none
    → position test (remove_at i es) ≡ none
unfolding position remove_at
absent-remove_at test i [] h = refl
absent-remove_at test zero (e ∷ es) h = elim (Bool-cases (test e)) [
  | inl y ↦ absurd (ground (arith, h, y))
  | inr n ↦ elim (Option-cases (position test es)) [
    | inl gone ↦ gone
    | inr (j, y) ↦ absurd (ground (arith, h, n, y))
  ]
]
absent-remove_at test (suc i) (e ∷ es) h = elim (Bool-cases (test e)) [
  | inl y ↦ absurd (ground (arith, h, y))
  | inr n ↦ elim (Option-cases (position test es)) [
    | inl gone ↦ rw (n, absent-remove_at test i es gone) refl
    | inr (j, y) ↦ absurd (ground (arith, h, n, y))
  ]
]

pub Distinct-remove_at : (i : ℕ) (es : List RegionEntry) → Distinct es → Distinct (remove_at i es)
unfolding Distinct remove_at
Distinct-remove_at i [] d = tt
Distinct-remove_at zero (e ∷ es) (a, d) = d
Distinct-remove_at (suc i) (e ∷ es) (a, d) =
    (absent-remove_at (has_name (strip_hash e.name)) i es a, Distinct-remove_at i es d)

list_eq_swap : (x y : List ℕ) → list_eq x y ≡ false → list_eq y x ≡ false
list_eq_swap x y h = ground (arith, list_eq_iff y x, list_eq_iff x x)

absent-append :
    (test : RegionEntry → Bool) (e : RegionEntry) (es : List RegionEntry)
    → test e ≡ false
    → position test es ≡ none
    → position test (es ++ (e ∷ [])) ≡ none
unfolding position
absent-append test e [] n h = rw n refl
absent-append test e (x ∷ es) n h = elim (Bool-cases (test x)) [
  | inl y ↦ absurd (ground (arith, h, y))
  | inr m ↦ elim (Option-cases (position test es)) [
    | inl gone ↦ rw (m, absent-append test e es n gone) refl
    | inr (j, y) ↦ absurd (ground (arith, h, m, y))
  ]
]

absent-head :
    (test : RegionEntry → Bool) (e : RegionEntry) (es : List RegionEntry)
    → position test (e ∷ es) ≡ none
    → (test e ≡ false) × (position test es ≡ none)
unfolding position
absent-head test e es h = elim (Bool-cases (test e)) [
  | inl y ↦ absurd (ground (arith, h, y))
  | inr n ↦ elim (Option-cases (position test es)) [
    | inl gone ↦ (n, gone)
    | inr (j, y) ↦ absurd (ground (arith, h, n, y))
  ]
]

pub Distinct-append :
    (e : RegionEntry) (es : List RegionEntry)
    → position (has_name (strip_hash e.name)) es ≡ none
    → Distinct es
    → Distinct (es ++ (e ∷ []))
unfolding Distinct position
Distinct-append e [] h d = (refl, tt)
Distinct-append e (x ∷ es) h (a, d) =
    let (apart, rest) = absent-head (has_name (strip_hash e.name)) x es h in
    (
      absent-append (has_name (strip_hash x.name)) e es
          (list_eq_swap (strip_hash x.name) (strip_hash e.name) apart) a,
      Distinct-append e es rest d,
    )

pub length_append :
    (e : RegionEntry) (es : List RegionEntry) → length (es ++ (e ∷ [])) ≡ suc (length es)
length_append e [] = refl
length_append e (x ∷ es) = omega (arith, length_append e es)

-- The entry that is found by its name was the only one of that name.
pub remove_at-position :
    (name : List ℕ) (es : List RegionEntry) (i : ℕ)
    → Distinct es
    → position (has_name name) es ≡ some i
    → position (has_name name) (remove_at i es) ≡ none
unfolding position remove_at Distinct
remove_at-position name [] i d h = absurd (ground arith)
remove_at-position name (e ∷ es) i (a, d) h = elim (Bool-cases (has_name name e)) [
  | inl y ↦
      let first : 0 ≡ i = ground (arith, h, y) in
      let same : strip_hash e.name ≡ name = (list_eq_iff (strip_hash e.name) name).0 y in
      subst (λ j. position (has_name name) (remove_at j (e ∷ es)) ≡ none) first
        (subst (λ n. position (has_name n) es ≡ none) same a)
  | inr n ↦ elim (Option-cases (position (has_name name) es)) [
    | inl gone ↦ absurd (ground (arith, h, n, gone))
    | inr (j, y) ↦
        let next : suc j ≡ i = ground (arith, h, n, y) in
        let rest : position (has_name name) (remove_at j es) ≡ none =
          remove_at-position name es j d y in
        subst (λ k. position (has_name name) (remove_at k (e ∷ es)) ≡ none) next (rw (n, rest) refl)
  ]
]
