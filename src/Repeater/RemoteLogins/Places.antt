-- ===== src/Repeater/RemoteLogins/Places.antt =====
-- One table of logins: what the operations on its places keep, and what is found in it.
use mathlib.Core.Path.{subst}
use mcrs.Prelude.{
  ℕ, zero, suc, ◌+◌, ◌<◌, ◌≡◌, ◌⊎◌, refl, sym, ap, true, false, Option, none, some, List, [], ◌∷◌,
  length, list_eq, list_eq_iff, ltb, arith, inl, inr, Bool-cases, Option-cases,
}
use mcrs.Repeater.RemoteLogins.{
  RemoteLogin, is_stale, prune_entries, find_login, change_login, remove_login, first_empty_index,
  oldest_from, oldest_index, set_at, free_index,
}

abbrev pub Places : Type 0
Places = List (Option RemoteLogin)

-- No two places hold one key.
unfoldable pub Distinct : Places → Type 0
Distinct [] = Unit
Distinct (none ∷ es) = Distinct es
Distinct (some l ∷ es) = (find_login l.public_key es ≡ none) × Distinct es

list_eq_refl : (x : List ℕ) → list_eq x x ≡ true
list_eq_refl x = ground (arith, list_eq_iff x x)

pub length-prune : (now : ℕ) (es : Places) → length (prune_entries now es) ≡ length es
unfolding prune_entries
length-prune now [] = refl
length-prune now (none ∷ es) = omega (arith, length-prune now es)
length-prune now (some l ∷ es) = ground (arith, length-prune now es)

pub length-remove : (key : List ℕ) (es : Places) → length (remove_login key es) ≡ length es
unfolding remove_login
length-remove key [] = refl
length-remove key (none ∷ es) = omega (arith, length-remove key es)
length-remove key (some l ∷ es) = ground (arith, length-remove key es)

pub length-set_at :
    (i : ℕ) (e : Option RemoteLogin) (es : Places) → length (set_at i e es) ≡ length es
unfolding set_at
length-set_at i e [] = refl
length-set_at zero e (x ∷ es) = refl
length-set_at (suc i) e (x ∷ es) = omega (arith, length-set_at i e es)

pub length-change :
    (key : List ℕ) (f : RemoteLogin → RemoteLogin) (es : Places)
    → length (change_login key f es) ≡ length es
unfolding change_login
length-change key f [] = refl
length-change key f (none ∷ es) = omega (arith, length-change key f es)
length-change key f (some l ∷ es) = ground (arith, length-change key f es)

-- What is absent stays absent.
pub absent-prune :
    (key : List ℕ) (now : ℕ) (es : Places)
    → find_login key es ≡ none
    → find_login key (prune_entries now es) ≡ none
unfolding prune_entries find_login
absent-prune key now [] h = refl
absent-prune key now (none ∷ es) h = absent-prune key now es h
absent-prune key now (some l ∷ es) h = ground (arith, absent-prune key now es)

pub absent-remove :
    (key key' : List ℕ) (es : Places)
    → find_login key es ≡ none
    → find_login key (remove_login key' es) ≡ none
unfolding remove_login find_login
absent-remove key key' [] h = refl
absent-remove key key' (none ∷ es) h = absent-remove key key' es h
absent-remove key key' (some l ∷ es) h = ground (arith, absent-remove key key' es)

pub absent-change :
    (key key' : List ℕ) (f : RemoteLogin → RemoteLogin) (es : Places)
    → ((l : RemoteLogin) → (f l).public_key ≡ l.public_key)
    → find_login key es ≡ none
    → find_login key (change_login key' f es) ≡ none
unfolding change_login find_login
absent-change key key' f [] same h = refl
absent-change key key' f (none ∷ es) same h = absent-change key key' f es same h
absent-change key key' f (some l ∷ es) same h =
    ground (arith, absent-change key key' f es same, same l)

pub Distinct-prune : (now : ℕ) (es : Places) → Distinct es → Distinct (prune_entries now es)
unfolding prune_entries Distinct
Distinct-prune now [] d = tt
Distinct-prune now (none ∷ es) d = Distinct-prune now es d
Distinct-prune now (some l ∷ es) d =
    ground (arith, Distinct-prune now es d.1, absent-prune l.public_key now es d.0)

pub Distinct-remove : (key : List ℕ) (es : Places) → Distinct es → Distinct (remove_login key es)
unfolding remove_login Distinct
Distinct-remove key [] d = tt
Distinct-remove key (none ∷ es) d = Distinct-remove key es d
Distinct-remove key (some l ∷ es) d =
    ground (arith, Distinct-remove key es d.1, absent-remove l.public_key key es d.0)

-- A removed key is absent.
pub find-remove :
    (key : List ℕ) (es : Places) → Distinct es → find_login key (remove_login key es) ≡ none
unfolding remove_login find_login Distinct
find-remove key [] d = refl
find-remove key (none ∷ es) d = find-remove key es d
find-remove key (some l ∷ es) d = elim (Bool-cases (list_eq l.public_key key)) [
  | inl y ↦
      let q : l.public_key ≡ key = (list_eq_iff l.public_key key).0 y in
      rw y (subst (λ k. find_login k es ≡ none) q d.0)
  | inr n ↦ ground (arith, n, find-remove key es d.1)
]

pub list_eq_swap : (x y : List ℕ) → list_eq x y ≡ false → list_eq y x ≡ false
list_eq_swap x y h = ground (arith, list_eq_iff y x, list_eq_refl x)

-- A key that is absent and not the new one stays absent.
pub absent-set_at :
    (key : List ℕ) (i : ℕ) (l : RemoteLogin) (es : Places)
    → list_eq l.public_key key ≡ false
    → find_login key es ≡ none
    → find_login key (set_at i (some l) es) ≡ none
unfolding set_at find_login
absent-set_at key i l [] n h = refl
absent-set_at key zero l (none ∷ es) n h = ground (arith, n, h)
absent-set_at key zero l (some x ∷ es) n h = ground (arith, n, h)
absent-set_at key (suc i) l (none ∷ es) n h = absent-set_at key i l es n h
absent-set_at key (suc i) l (some x ∷ es) n h = ground (arith, absent-set_at key i l es n)

pub Distinct-set_at :
    (i : ℕ) (l : RemoteLogin) (es : Places)
    → find_login l.public_key es ≡ none
    → Distinct es
    → Distinct (set_at i (some l) es)
unfolding set_at Distinct find_login
Distinct-set_at i l [] h d = tt
Distinct-set_at zero l (none ∷ es) h d = (h, d)
Distinct-set_at zero l (some x ∷ es) h d = ground (arith, h, d)
Distinct-set_at (suc i) l (none ∷ es) h d = Distinct-set_at i l es h d
Distinct-set_at (suc i) l (some x ∷ es) h d =
    let apart : list_eq x.public_key l.public_key ≡ false = ground (arith, h) in
    let rest : find_login l.public_key es ≡ none = ground (arith, h) in
    (
      absent-set_at x.public_key i l es (list_eq_swap x.public_key l.public_key apart) d.0,
      Distinct-set_at i l es rest d.1,
    )

-- A new login that is placed within the table is found.
pub find-set_at :
    (i : ℕ) (l : RemoteLogin) (es : Places)
    → i < length es
    → find_login l.public_key es ≡ none
    → find_login l.public_key (set_at i (some l) es) ≡ some l
unfolding set_at find_login
find-set_at i l [] b h = absurd (omega arith)
find-set_at zero l (x ∷ es) b h = rw (list_eq_refl l.public_key) refl
find-set_at (suc i) l (none ∷ es) b h = find-set_at i l es (omega arith) h
find-set_at (suc i) l (some x ∷ es) b h =
    let apart : list_eq x.public_key l.public_key ≡ false = ground (arith, h) in
    let rest : find_login l.public_key es ≡ none = ground (arith, h) in
    rw apart (find-set_at i l es (omega arith) rest)

-- Another key is found as before, or its place was taken.
pub other-set_at :
    (key : List ℕ) (i : ℕ) (l : RemoteLogin) (es : Places)
    → list_eq l.public_key key ≡ false
    → Distinct es
    → (find_login key (set_at i (some l) es) ≡ none)
      ⊎ (find_login key (set_at i (some l) es) ≡ find_login key es)
unfolding set_at find_login Distinct
other-set_at key i l [] n d = inl refl
other-set_at key zero l (none ∷ es) n d = inr (rw n refl)
other-set_at key zero l (some y ∷ es) n d = elim (Bool-cases (list_eq y.public_key key)) [
  | inl hit ↦
      let q : y.public_key ≡ key = (list_eq_iff y.public_key key).0 hit in
      inl (rw n (subst (λ k. find_login k es ≡ none) q d.0))
  | inr miss ↦ inr (rw (n, miss) refl)
]
other-set_at key (suc i) l (none ∷ es) n d = other-set_at key i l es n d
other-set_at key (suc i) l (some y ∷ es) n d = ground (arith, other-set_at key i l es n d.1)

pub find-remove_other :
    (key key' : List ℕ) (es : Places)
    → list_eq key' key ≡ false
    → find_login key (remove_login key' es) ≡ find_login key es
unfolding remove_login find_login
find-remove_other key key' [] n = refl
find-remove_other key key' (none ∷ es) n = find-remove_other key key' es n
find-remove_other key key' (some l ∷ es) n = elim (Bool-cases (list_eq l.public_key key')) [
  | inl y ↦
      let q : l.public_key ≡ key' = (list_eq_iff l.public_key key').0 y in
      let miss : list_eq l.public_key key ≡ false = subst (λ k. list_eq k key ≡ false) (sym q) n in
      rw (y, miss) refl
  | inr m ↦ ground (arith, m, find-remove_other key key' es n)
]

first_empty-bound : (es : Places) (i : ℕ) → first_empty_index es ≡ some i → i < length es
unfolding first_empty_index
first_empty-bound [] i e = absurd (ground arith)
first_empty-bound (none ∷ es) i e = ground arith
first_empty-bound (some l ∷ es) i e = elim (Option-cases (first_empty_index es)) [
  | inl n ↦ absurd (ground (arith, n))
  | inr (j, y) ↦
      let same : suc j ≡ i = ground (arith, y) in
      let below : j < length es = first_empty-bound es j y in omega (arith, same, below)
]

oldest_from-bound :
    (index oldest seen : ℕ) (es : Places)
    → oldest < index + length es
    → oldest_from index oldest seen es < index + length es
unfolding oldest_from
oldest_from-bound index oldest seen [] h = h
oldest_from-bound index oldest seen (none ∷ es) h = omega arith
oldest_from-bound index oldest seen (some l ∷ es) h = elim (Bool-cases (ltb l.last_seen_ms seen)) [
  | inl y ↦
      let rest : oldest_from (suc index) index l.last_seen_ms es < suc index + length es =
        oldest_from-bound (suc index) index l.last_seen_ms es (omega arith) in
      rw y (omega (arith, rest))
  | inr n ↦
      let rest : oldest_from (suc index) oldest seen es < suc index + length es =
        oldest_from-bound (suc index) oldest seen es (omega (arith, h)) in
      rw n (omega (arith, rest))
]

pub free_index-bound : (es : Places) → 0 < length es → free_index es < length es
unfolding free_index oldest_index
free_index-bound es h = elim (Option-cases (first_empty_index es)) [
  | inl n ↦
      let o : oldest_from 0 0 18446744073709551615 es < 0 + length es =
        oldest_from-bound 0 0 18446744073709551615 es (omega (arith, h)) in
      rw n (omega (arith, o))
  | inr (i, y) ↦ rw y (first_empty-bound es i y)
]

-- A login that is fresh is found after stale ones were dropped.
pub find-prune :
    (key : List ℕ) (now : ℕ) (l : RemoteLogin) (es : Places)
    → is_stale now l ≡ false
    → find_login key es ≡ some l
    → find_login key (prune_entries now es) ≡ some l
unfolding prune_entries find_login
find-prune key now l [] f h = h
find-prune key now l (none ∷ es) f h = find-prune key now l es f h
find-prune key now l (some x ∷ es) f h = elim (Bool-cases (list_eq x.public_key key)) [
  | inl y ↦
      let same : x ≡ l = ground (arith, h, y) in
      let fresh : is_stale now x ≡ false = subst (λ z. is_stale now z ≡ false) (sym same) f in
      rw (fresh, y) (ap some same)
  | inr n ↦ ground (arith, n, h, find-prune key now l es f)
]

-- The login that is found is the changed one.
pub find-change :
    (key : List ℕ) (f : RemoteLogin → RemoteLogin) (l : RemoteLogin) (es : Places)
    → ((x : RemoteLogin) → (f x).public_key ≡ x.public_key)
    → find_login key es ≡ some l
    → find_login key (change_login key f es) ≡ some (f l)
unfolding change_login find_login
find-change key f l [] same h = absurd (ground arith)
find-change key f l (none ∷ es) same h = find-change key f l es same h
find-change key f l (some x ∷ es) same h = elim (Bool-cases (list_eq x.public_key key)) [
  | inl y ↦
      let one : x ≡ l = ground (arith, h, y) in
      let hit : list_eq (f x).public_key key ≡ true =
        subst (λ k. list_eq k key ≡ true) (sym (same x)) y in
      rw (y, hit) (ap (λ z. some (f z)) one)
  | inr n ↦ ground (arith, n, h, find-change key f l es same)
]

pub Distinct-change :
    (key : List ℕ) (f : RemoteLogin → RemoteLogin) (es : Places)
    → ((x : RemoteLogin) → (f x).public_key ≡ x.public_key)
    → Distinct es
    → Distinct (change_login key f es)
unfolding change_login Distinct
Distinct-change key f [] same d = tt
Distinct-change key f (none ∷ es) same d = Distinct-change key f es same d
Distinct-change key f (some l ∷ es) same d = elim (Bool-cases (list_eq l.public_key key)) [
  | inl y ↦ rw (y, same l) d
  | inr n ↦ rw n (absent-change l.public_key key f es same d.0, Distinct-change key f es same d.1)
]
