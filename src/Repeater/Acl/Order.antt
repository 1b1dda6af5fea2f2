-- ===== src/Repeater/Acl/Order.antt =====
-- The rules stay in the order of their keys, so that a key has one rule at most.
use mcrs.Prelude.{
  ℕ, ◌≡◌, refl, true, false, Option, none, some, List, [], ◌∷◌, list_eq, list_eq_iff, arith, inl,
  inr, Bool-cases,
}
use mcrs.Repeater.Acl.{Role, Rule, Acl, without, key_lt, insert_sorted, set_role}

unfoldable pub AllAfter : List ℕ → Acl → Type 0
AllAfter key [] = Unit
AllAfter key (r ∷ rs) = (key_lt key r.key ≡ true) × AllAfter key rs

-- Each key is before all that follow it.
unfoldable pub IsSorted : Acl → Type 0
IsSorted [] = Unit
IsSorted (r ∷ rs) = AllAfter r.key rs × IsSorted rs

unfoldable pub NotIn : List ℕ → Acl → Type 0
NotIn key [] = Unit
NotIn key (r ∷ rs) = (list_eq r.key key ≡ false) × NotIn key rs

key_lt_trans : (x y z : List ℕ) → key_lt x y ≡ true → key_lt y z ≡ true → key_lt x z ≡ true
unfolding key_lt
key_lt_trans [] [] z h k = absurd (ground arith)
key_lt_trans [] (y ∷ ys) [] h k = absurd (ground arith)
key_lt_trans [] (y ∷ ys) (z ∷ zs) h k = refl
key_lt_trans (x ∷ xs) [] z h k = absurd (ground arith)
key_lt_trans (x ∷ xs) (y ∷ ys) [] h k = absurd (ground arith)
key_lt_trans (x ∷ xs) (y ∷ ys) (z ∷ zs) h k = ground (arith, key_lt_trans xs ys zs)

key_lt_antisym : (x y : List ℕ) → key_lt x y ≡ false → key_lt y x ≡ false → x ≡ y
unfolding key_lt
key_lt_antisym [] [] h k = refl
key_lt_antisym [] (y ∷ ys) h k = absurd (ground arith)
key_lt_antisym (x ∷ xs) [] h k = absurd (ground arith)
key_lt_antisym (x ∷ xs) (y ∷ ys) h k = ground (arith, key_lt_antisym xs ys)

key_lt_total : (x y : List ℕ) → key_lt x y ≡ false → list_eq y x ≡ false → key_lt y x ≡ true
key_lt_total x y h n = ground (arith, key_lt_antisym x y, list_eq_iff y x)

AllAfter-trans : (x y : List ℕ) (acl : Acl) → key_lt x y ≡ true → AllAfter y acl → AllAfter x acl
unfolding AllAfter
AllAfter-trans x y [] h a = tt
AllAfter-trans x y (r ∷ rs) h (a, rest) = (key_lt_trans x y r.key h a, AllAfter-trans x y rs h rest)

AllAfter-without : (x key : List ℕ) (acl : Acl) → AllAfter x acl → AllAfter x (without key acl)
unfolding AllAfter without
AllAfter-without x key [] a = tt
AllAfter-without x key (r ∷ rs) (a, rest) = elim (Bool-cases (list_eq r.key key)) [
  | inl y ↦ rw y (AllAfter-without x key rs rest)
  | inr n ↦ rw n (a, AllAfter-without x key rs rest)
]

IsSorted-without : (key : List ℕ) (acl : Acl) → IsSorted acl → IsSorted (without key acl)
unfolding IsSorted without
IsSorted-without key [] s = tt
IsSorted-without key (r ∷ rs) (a, s) = elim (Bool-cases (list_eq r.key key)) [
  | inl y ↦ rw y (IsSorted-without key rs s)
  | inr n ↦ rw n (AllAfter-without r.key key rs a, IsSorted-without key rs s)
]

NotIn-without : (key : List ℕ) (acl : Acl) → NotIn key (without key acl)
unfolding NotIn without
NotIn-without key [] = tt
NotIn-without key (r ∷ rs) = elim (Bool-cases (list_eq r.key key)) [
  | inl y ↦ rw y (NotIn-without key rs)
  | inr n ↦ rw n (n, NotIn-without key rs)
]

AllAfter-insert_sorted :
    (x : List ℕ) (rule : Rule) (acl : Acl)
    → key_lt x rule.key ≡ true
    → AllAfter x acl
    → AllAfter x (insert_sorted rule acl)
unfolding AllAfter insert_sorted
AllAfter-insert_sorted x rule [] h a = (h, tt)
AllAfter-insert_sorted x rule (r ∷ rs) h (a, rest) = elim (Bool-cases (key_lt rule.key r.key)) [
  | inl y ↦ rw y (h, (a, rest))
  | inr n ↦ rw n (a, AllAfter-insert_sorted x rule rs h rest)
]

IsSorted-insert_sorted :
    (rule : Rule) (acl : Acl)
    → NotIn rule.key acl
    → IsSorted acl
    → IsSorted (insert_sorted rule acl)
unfolding IsSorted AllAfter insert_sorted NotIn
IsSorted-insert_sorted rule [] n s = (tt, tt)
IsSorted-insert_sorted rule (r ∷ rs) (n, ns) (a, s) = elim (Bool-cases (key_lt rule.key r.key)) [
  | inl y ↦ rw y ((y, AllAfter-trans rule.key r.key rs y a), (a, s))
  | inr later ↦ rw later (
    AllAfter-insert_sorted r.key rule rs (key_lt_total rule.key r.key later n) a,
    IsSorted-insert_sorted rule rs ns s,
  )
]

-- Setting or unsetting a rule keeps the list in order, each key once.
pub set_role-IsSorted :
    (acl : Acl) (key : List ℕ) (rule : Option Role)
    → IsSorted acl
    → IsSorted (set_role acl key rule)
unfolding set_role
set_role-IsSorted acl key none s = IsSorted-without key acl s
set_role-IsSorted acl key (some role) s =
    IsSorted-insert_sorted (record { key = key; role = role }) (without key acl)
      (NotIn-without key acl) (IsSorted-without key acl s)
