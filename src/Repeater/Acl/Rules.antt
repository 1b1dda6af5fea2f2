-- ===== src/Repeater/Acl/Rules.antt =====
-- The rule of a key after a rule is set, and the keys whose rules two lists disagree on.
use mathlib.Core.Path.{subst}
use mcrs.Prelude.{
  ℕ, ◌≡◌, refl, sym, ap, ◌∙◌, Bool, true, false, not, Option, none, some, List, [], ◌∷◌, ◌++◌,
  list_eq, list_eq_iff, arith, inl, inr, Bool-cases, Option-cases, if◌then◌else◌,
}
use mcrs.Repeater.Acl.{
  Role, Rule, Acl, role, without, insert_sorted, set_role, role_eq, changed, changed_keys,
}

list_eq_refl : (x : List ℕ) → list_eq x x ≡ true
list_eq_refl x = ground (arith, list_eq_iff x x)

role-without : (key : List ℕ) (acl : Acl) → role (without key acl) key ≡ none
unfolding role without
role-without key [] = refl
role-without key (r ∷ rs) = ground (arith, role-without key rs)

role-without_other :
    (key k : List ℕ) (acl : Acl) → list_eq key k ≡ false → role (without key acl) k ≡ role acl k
unfolding role without
role-without_other key k [] n = refl
role-without_other key k (r ∷ rs) n = elim (Bool-cases (list_eq r.key key)) [
  | inl y ↦
      let q : r.key ≡ key = (list_eq_iff r.key key).0 y in
      let miss : list_eq r.key k ≡ false = subst (λ x. list_eq x k ≡ false) (sym q) n in
      rw (y, miss) (role-without_other key k rs n)
  | inr m ↦ ground (arith, m, role-without_other key k rs n)
]

role-insert_sorted :
    (rule : Rule) (acl : Acl)
    → role acl rule.key ≡ none
    → role (insert_sorted rule acl) rule.key ≡ some rule.role
unfolding role insert_sorted
role-insert_sorted rule [] h = rw (list_eq_refl rule.key) refl
role-insert_sorted rule (r ∷ rs) h =
    ground (arith, h, list_eq_refl rule.key, role-insert_sorted rule rs)

role-insert_sorted_other :
    (rule : Rule) (k : List ℕ) (acl : Acl)
    → list_eq rule.key k ≡ false
    → role (insert_sorted rule acl) k ≡ role acl k
unfolding role insert_sorted
role-insert_sorted_other rule k [] n = rw n refl
role-insert_sorted_other rule k (r ∷ rs) n = ground (arith, n, role-insert_sorted_other rule k rs n)

role-set_role_other :
    (acl : Acl) (key : List ℕ) (rule : Option Role) (k : List ℕ)
    → list_eq key k ≡ false
    → role (set_role acl key rule) k ≡ role acl k
unfolding set_role
role-set_role_other acl key none k n = role-without_other key k acl n
role-set_role_other acl key (some r) k n =
    role-insert_sorted_other (record { key = key; role = r }) k (without key acl) n
    ∙ role-without_other key k acl n

role-set_role_same :
    (acl : Acl) (key : List ℕ) (rule : Option Role) → role (set_role acl key rule) key ≡ rule
unfolding set_role
role-set_role_same acl key none = role-without key acl
role-set_role_same acl key (some r) =
    role-insert_sorted (record { key = key; role = r }) (without key acl) (role-without key acl)

-- After a rule is set or unset for a key, that key has the new rule or none, and every other key
-- has the rule it had.
pub role-set_role :
    (acl : Acl) (key : List ℕ) (rule : Option Role) (k : List ℕ)
    → role (set_role acl key rule) k ≡ (if list_eq key k then rule else role acl k)
role-set_role acl key rule k = elim (Bool-cases (list_eq key k)) [
  | inl y ↦
      let same : key ≡ k = (list_eq_iff key k).0 y in
      rw y
        (subst (λ x. role (set_role acl key rule) x ≡ rule) same (role-set_role_same acl key rule))
  | inr n ↦ rw n (role-set_role_other acl key rule k n)
]

-- Whether a list of keys holds the key.
unfoldable pub listed : List ℕ → List (List ℕ) → Bool
listed key [] = false
listed key (k ∷ ks) = let rest = listed key ks in if list_eq k key then true else rest

changed-differs :
    (a b : Acl) (key : List ℕ) (xs : Acl)
    → listed key (changed a b xs) ≡ true
    → role_eq (role a key) (role b key) ≡ false
unfolding changed listed
changed-differs a b key [] h = absurd (ground arith)
changed-differs a b key (r ∷ rs) h = elim (Bool-cases (role_eq (role a r.key) (role b r.key))) [
  | inl y ↦ changed-differs a b key rs (ground (arith, h, y))
  | inr n ↦ elim (Bool-cases (list_eq r.key key)) [
    | inl hit ↦ subst (λ k. role_eq (role a k) (role b k) ≡ false) ((list_eq_iff r.key key).0 hit) n
    | inr miss ↦ changed-differs a b key rs (ground (arith, h, n, miss))
  ]
]

listed-changed_right :
    (a b : Acl) (key : List ℕ) (xs ys : Acl)
    → listed key (changed a b ys) ≡ true
    → listed key (changed a b (xs ++ ys)) ≡ true
unfolding changed listed
listed-changed_right a b key [] ys h = h
listed-changed_right a b key (r ∷ rs) ys h = ground (arith, listed-changed_right a b key rs ys h)

listed-changed :
    (a b : Acl) (key : List ℕ) (rule : Role) (xs ys : Acl)
    → role xs key ≡ some rule
    → role_eq (role a key) (role b key) ≡ false
    → listed key (changed a b (xs ++ ys)) ≡ true
unfolding changed listed role
listed-changed a b key rule [] ys h d = absurd (ground arith)
listed-changed a b key rule (r ∷ rs) ys h d = elim (Bool-cases (list_eq r.key key)) [
  | inl hit ↦
      let differs : role_eq (role a r.key) (role b r.key) ≡ false =
        subst (λ k. role_eq (role a k) (role b k) ≡ false) (sym ((list_eq_iff r.key key).0 hit))
          d in
      rw (differs, hit) refl
  | inr miss ↦
      let rest : listed key (changed a b (rs ++ ys)) ≡ true =
        listed-changed a b key rule rs ys (ground (arith, h, miss)) d in
      ground (arith, rest)
]

right-changed :
    (a b : Acl) (key : List ℕ) (rule : Role) (xs : Acl)
    → role b key ≡ some rule
    → role_eq (role a key) (role b key) ≡ false
    → listed key (changed a b (xs ++ (b ++ []))) ≡ true
right-changed a b key rule xs h d =
    listed-changed_right a b key xs (b ++ []) (listed-changed a b key rule b [] h d)

none_same : role_eq none none ≡ true
unfolding role_eq
none_same = refl

append_nil : (xs : Acl) → xs ++ [] ≡ xs
append_nil [] = refl
append_nil (x ∷ xs) = ap (λ r. x ∷ r) (append_nil xs)

changed_keys-differs :
    (a b : Acl) (key : List ℕ)
    → role_eq (role a key) (role b key) ≡ false
    → listed key (changed_keys a b) ≡ true
unfolding changed_keys
changed_keys-differs a b key d = elim (Option-cases (role a key)) [
  | inr (r, y) ↦ listed-changed a b key r a b y d
  | inl n ↦ elim (Option-cases (role b key)) [
    | inr (r, y) ↦
        subst (λ bs. listed key (changed a b (a ++ bs)) ≡ true) (append_nil b)
          (right-changed a b key r a y d)
    | inl m ↦ absurd (
        ground (
          arith,
          subst (λ x. role_eq x none ≡ false) n (subst (λ x. role_eq (role a key) x ≡ false) m d),
          none_same,
        ))
  ]
]

-- The keys named as changed between two access lists are exactly those that the lists give
-- different rules.
pub listed-changed_keys :
    (a b : Acl) (key : List ℕ)
    → listed key (changed_keys a b) ≡ not (role_eq (role a key) (role b key))
unfolding changed_keys
listed-changed_keys a b key = elim (Bool-cases (listed key (changed_keys a b))) [
  | inl y ↦ rw (y, changed-differs a b key (a ++ b) y) refl
  | inr n ↦ elim (Bool-cases (role_eq (role a key) (role b key))) [
    | inl same ↦ rw (n, same) refl
    | inr d ↦ absurd (ground (arith, n, changed_keys-differs a b key d))
  ]
]
