-- ===== src/Repeater/RemoteLogins/Sessions.antt =====
-- The two tables together: a key has one privilege, which only its own login gives it, and an old
-- timestamp is not accepted again.
use mathlib.Core.Path.{subst}
use mcrs.Prelude.{
  ℕ, ◌≡◌, ◌⊎◌, refl, ◌∙◌, Option, none, some, List, length, list_eq, list_eq_iff, arith, inl, inr,
  Bool-cases,
}
use mcrs.Repeater.RemoteLogins.{
  RemoteLogin, RemoteLoginTable, RemotePrivilege, guest, admin, new, prune, find_login, remove,
  set_at, free_index, entries_of, place_login,
}
use mcrs.Repeater.RemoteLogins.Places

-- Four places for each privilege, and a key in one place of one of them at most.
pub record IsValid (t : RemoteLoginTable) : Type 0 where
  pub admins : length t.admin_entries ≡ 4
  pub guests : length t.guest_entries ≡ 4
  pub admins_distinct : Places.Distinct t.admin_entries
  pub guests_distinct : Places.Distinct t.guest_entries
  pub apart :
      (key : List ℕ)
      → (find_login key t.admin_entries ≡ none) ⊎ (find_login key t.guest_entries ≡ none)

pub new-IsValid : IsValid new
unfolding new Places.Distinct find_login
new-IsValid = record {
  admins = refl;
  guests = refl;
  admins_distinct = tt;
  guests_distinct = tt;
  apart = λ key. inl refl;
}

pub prune-IsValid : (t : RemoteLoginTable) (now : ℕ) → IsValid t → IsValid (prune t now)
unfolding prune
prune-IsValid t now v = record {
  admins = Places.length-prune now t.admin_entries ∙ v.admins;
  guests = Places.length-prune now t.guest_entries ∙ v.guests;
  admins_distinct = Places.Distinct-prune now t.admin_entries v.admins_distinct;
  guests_distinct = Places.Distinct-prune now t.guest_entries v.guests_distinct;
  apart = λ key. elim (v.apart key) [
    | inl a ↦ inl (Places.absent-prune key now t.admin_entries a)
    | inr g ↦ inr (Places.absent-prune key now t.guest_entries g)
  ];
}

pub remove-IsValid : (t : RemoteLoginTable) (key : List ℕ) → IsValid t → IsValid (remove t key)
unfolding remove
remove-IsValid t key v = record {
  admins = Places.length-remove key t.admin_entries ∙ v.admins;
  guests = Places.length-remove key t.guest_entries ∙ v.guests;
  admins_distinct = Places.Distinct-remove key t.admin_entries v.admins_distinct;
  guests_distinct = Places.Distinct-remove key t.guest_entries v.guests_distinct;
  apart = λ k. elim (v.apart k) [
    | inl a ↦ inl (Places.absent-remove k key t.admin_entries a)
    | inr g ↦ inr (Places.absent-remove k key t.guest_entries g)
  ];
}

-- The privilege that a key has in the tables as they are.
abbrev pub by_tables : Option RemoteLogin → Option RemoteLogin → Option RemotePrivilege
by_tables (some l) g = some admin
by_tables none (some l) = some guest
by_tables none none = none

unfoldable pub holds : RemoteLoginTable → List ℕ → Option RemotePrivilege
holds t key = by_tables (find_login key t.admin_entries) (find_login key t.guest_entries)

-- Neither table holds the key.
abbrev pub IsAbsent : List ℕ → RemoteLoginTable → Type 0
IsAbsent key t = (find_login key t.admin_entries ≡ none) × (find_login key t.guest_entries ≡ none)

pub remove-IsAbsent :
    (t : RemoteLoginTable) (key : List ℕ) → IsValid t → IsAbsent key (remove t key)
unfolding remove
remove-IsAbsent t key v = (
  Places.find-remove key t.admin_entries v.admins_distinct,
  Places.find-remove key t.guest_entries v.guests_distinct,
)

place_login-apart :
    (l : RemoteLogin) (i : ℕ) (es others : Places.Places) (key : List ℕ)
    → find_login l.public_key others ≡ none
    → (find_login key es ≡ none) ⊎ (find_login key others ≡ none)
    → (find_login key (set_at i (some l) es) ≡ none) ⊎ (find_login key others ≡ none)
place_login-apart l i es others key h (inr o) = inr o
place_login-apart l i es others key h (inl e) = elim (Bool-cases (list_eq l.public_key key)) [
  | inl y ↦ inr (subst (λ k. find_login k others ≡ none) ((list_eq_iff l.public_key key).0 y) h)
  | inr n ↦ inl (Places.absent-set_at key i l es n e)
]

pub swapped : {A B : Type 0} → A ⊎ B → B ⊎ A
swapped (inl a) = inr a
swapped (inr b) = inl b

pub place_login-IsValid :
    (privilege : RemotePrivilege) (l : RemoteLogin) (t : RemoteLoginTable)
    → IsAbsent l.public_key t
    → IsValid t
    → IsValid (place_login privilege l t)
unfolding place_login entries_of
place_login-IsValid admin l t (a, g) v =
    let i : ℕ = free_index t.admin_entries in
    record {
      admins = Places.length-set_at i (some l) t.admin_entries ∙ v.admins;
      guests = v.guests;
      admins_distinct = Places.Distinct-set_at i l t.admin_entries a v.admins_distinct;
      guests_distinct = v.guests_distinct;
      apart = λ key. place_login-apart l i t.admin_entries t.guest_entries key g (v.apart key);
    }
place_login-IsValid guest l t (a, g) v =
    let i : ℕ = free_index t.guest_entries in
    record {
      admins = v.admins;
      guests = Places.length-set_at i (some l) t.guest_entries ∙ v.guests;
      admins_distinct = v.admins_distinct;
      guests_distinct = Places.Distinct-set_at i l t.guest_entries g v.guests_distinct;
      apart = λ key.
          swapped
            (place_login-apart l i t.guest_entries t.admin_entries key a (swapped (v.apart key)));
    }

pub place_login-holds :
    (privilege : RemotePrivilege) (l : RemoteLogin) (t : RemoteLoginTable)
    → IsAbsent l.public_key t
    → IsValid t
    → (holds (place_login privilege l t) l.public_key ≡ some privilege)
      × (find_login l.public_key (entries_of privilege (place_login privilege l t)) ≡ some l)
unfolding place_login entries_of holds
place_login-holds admin l t (a, g) v =
    let found : find_login l.public_key
          (set_at (free_index t.admin_entries) (some l) t.admin_entries)
        ≡ some l =
      Places.find-set_at (free_index t.admin_entries) l t.admin_entries
        (Places.free_index-bound t.admin_entries (omega (arith, v.admins))) a in
    (rw found refl, found)
place_login-holds guest l t (a, g) v =
    let found : find_login l.public_key
          (set_at (free_index t.guest_entries) (some l) t.guest_entries)
        ≡ some l =
      Places.find-set_at (free_index t.guest_entries) l t.guest_entries
        (Places.free_index-bound t.guest_entries (omega (arith, v.guests))) g in
    (rw (a, found) refl, found)
