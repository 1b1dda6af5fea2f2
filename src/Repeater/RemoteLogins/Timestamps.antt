-- ===== src/Repeater/RemoteLogins/Timestamps.antt =====
-- Commands with timestamps: an old timestamp is not accepted again.
use mathlib.Core.Path.{subst}
use mcrs.Prelude.{
  ℕ, ◌≤◌, ◌≡◌, ◌⊎◌, refl, ap, ◌∙◌, true, false, none, some, List, [], ◌∷◌, list_eq, list_eq_iff,
  leb, le→leb, arith, inl, inr, Bool-cases, Option-cases,
}
use mcrs.Repeater.RemoteLogins.{
  RemoteLogin, RemoteLoginTable, RemotePrivilege, guest, admin, is_stale, prune, prune_entries,
  find_login, change_login, entries_of, with_entries, stamped, accept_newer_timestamp,
  timestamp_answer,
}
use mcrs.Repeater.RemoteLogins.Places
use mcrs.Repeater.RemoteLogins.Sessions.{IsValid, prune-IsValid, swapped}

-- A login is kept or goes stale, and no other takes its part.
find-prune_either :
    (key : List ℕ) (now : ℕ) (l : RemoteLogin) (es : Places.Places)
    → Places.Distinct es
    → find_login key es ≡ some l
    → (find_login key (prune_entries now es) ≡ none)
      ⊎ (find_login key (prune_entries now es) ≡ some l)
unfolding prune_entries find_login Places.Distinct
find-prune_either key now l [] d h = absurd (ground arith)
find-prune_either key now l (none ∷ es) d h = find-prune_either key now l es d h
find-prune_either key now l (some x ∷ es) d h = elim (Bool-cases (list_eq x.public_key key)) [
  | inl y ↦
      let same : x ≡ l = ground (arith, h, y) in
      let q : x.public_key ≡ key = (list_eq_iff x.public_key key).0 y in
      let gone : find_login key (prune_entries now es) ≡ none =
        Places.absent-prune key now es (subst (λ k. find_login k es ≡ none) q d.0) in
      elim (Bool-cases (is_stale now x)) [
        | inl s ↦ inl (rw s gone)
        | inr f ↦ inr (rw (f, y) (ap some same))
      ]
  | inr n ↦ ground (arith, n, h, find-prune_either key now l es d.1)
]

Distinct-entries_of :
    (privilege : RemotePrivilege) (t : RemoteLoginTable)
    → IsValid t
    → Places.Distinct (entries_of privilege t)
unfolding entries_of
Distinct-entries_of admin t v = v.admins_distinct
Distinct-entries_of guest t v = v.guests_distinct

entries_of-with_entries :
    (privilege : RemotePrivilege) (t : RemoteLoginTable) (es : Places.Places)
    → entries_of privilege (with_entries privilege t es) ≡ es
unfolding entries_of
entries_of-with_entries admin t es = refl
entries_of-with_entries guest t es = refl

entries_of-prune :
    (privilege : RemotePrivilege) (t : RemoteLoginTable) (now : ℕ)
    → entries_of privilege (prune t now) ≡ prune_entries now (entries_of privilege t)
unfolding entries_of prune
entries_of-prune admin t now = refl
entries_of-prune guest t now = refl

change-apart :
    (key k : List ℕ) (f : RemoteLogin → RemoteLogin) (es others : Places.Places)
    → ((l : RemoteLogin) → (f l).public_key ≡ l.public_key)
    → (find_login k es ≡ none) ⊎ (find_login k others ≡ none)
    → (find_login k (change_login key f es) ≡ none) ⊎ (find_login k others ≡ none)
change-apart key k f es others same (inl e) = inl (Places.absent-change k key f es same e)
change-apart key k f es others same (inr o) = inr o

change-IsValid :
    (privilege : RemotePrivilege) (t : RemoteLoginTable) (key : List ℕ)
    (f : RemoteLogin → RemoteLogin)
    → ((l : RemoteLogin) → (f l).public_key ≡ l.public_key)
    → IsValid t
    → IsValid (with_entries privilege t (change_login key f (entries_of privilege t)))
unfolding entries_of
change-IsValid admin t key f same v = record {
  admins = Places.length-change key f t.admin_entries ∙ v.admins;
  guests = v.guests;
  admins_distinct = Places.Distinct-change key f t.admin_entries same v.admins_distinct;
  guests_distinct = v.guests_distinct;
  apart = λ k. change-apart key k f t.admin_entries t.guest_entries same (v.apart k);
}
change-IsValid guest t key f same v = record {
  admins = v.admins;
  guests = Places.length-change key f t.guest_entries ∙ v.guests;
  admins_distinct = v.admins_distinct;
  guests_distinct = Places.Distinct-change key f t.guest_entries same v.guests_distinct;
  apart = λ k.
      swapped (change-apart key k f t.guest_entries t.admin_entries same (swapped (v.apart k)));
}

-- A login whose last timestamp is not before this one refuses it.
refused-by :
    (privilege : RemotePrivilege) (t : RemoteLoginTable) (key : List ℕ) (timestamp now : ℕ)
    (l : RemoteLogin)
    → timestamp ≤ l.last_timestamp
    → IsValid t
    → find_login key (entries_of privilege t) ≡ some l
    → (accept_newer_timestamp t key privilege timestamp now).0 ≡ false
unfolding accept_newer_timestamp timestamp_answer
refused-by privilege t key timestamp now l h v found =
    elim (find-prune_either key now l (entries_of privilege t) (Distinct-entries_of privilege t v)
      found) [
        | inl gone ↦ rw (entries_of-prune privilege t now, gone) refl
        | inr kept ↦
            rw (entries_of-prune privilege t now, kept, le→leb timestamp l.last_timestamp h) refl
      ]

-- What an accepted timestamp leaves: the login of the key, with that timestamp.
accepted :
    (privilege : RemotePrivilege) (t : RemoteLoginTable) (key : List ℕ) (timestamp now : ℕ)
    → (accept_newer_timestamp t key privilege timestamp now).0 ≡ true
    → (l : RemoteLogin) × (l.last_timestamp ≡ timestamp)
      × (find_login key
            (entries_of privilege (accept_newer_timestamp t key privilege timestamp now).1)
          ≡ some l)
unfolding accept_newer_timestamp timestamp_answer
accepted privilege t key timestamp now h =
    let p : RemoteLoginTable = prune t now in
    let f : RemoteLogin → RemoteLogin = stamped timestamp now in
    elim (Option-cases (find_login key (entries_of privilege p))) [
      | inl n ↦ absurd (ground (arith, h, n))
      | inr (l, y) ↦ elim (Bool-cases (leb timestamp l.last_timestamp)) [
        | inl old ↦ absurd (ground (arith, h, y, old))
        | inr newer ↦
            let found : find_login key (change_login key f (entries_of privilege p)) ≡ some (f l) =
              Places.find-change key f l (entries_of privilege p) (λ x. refl) y in
            let at : entries_of privilege
                  (with_entries privilege p (change_login key f (entries_of privilege p)))
                ≡ change_login key f (entries_of privilege p) =
              entries_of-with_entries privilege p (change_login key f (entries_of privilege p)) in
            (f l, refl, rw (y, newer) (ap (find_login key) at ∙ found))
      ]
    ]

-- Checking a timestamp keeps the tables valid.
pub accept_newer_timestamp-IsValid :
    (privilege : RemotePrivilege) (t : RemoteLoginTable) (key : List ℕ) (timestamp now : ℕ)
    → IsValid t
    → IsValid (accept_newer_timestamp t key privilege timestamp now).1
unfolding accept_newer_timestamp timestamp_answer
accept_newer_timestamp-IsValid privilege t key timestamp now v =
    let p : IsValid (prune t now) = prune-IsValid t now v in
    let changed =
      change-IsValid privilege (prune t now) key (stamped timestamp now) (λ x. refl) p in
    elim (Option-cases (find_login key (entries_of privilege (prune t now)))) [
      | inl n ↦ rw n p
      | inr (l, y) ↦ elim (Bool-cases (leb timestamp l.last_timestamp)) [
        | inl old ↦ rw (y, old) p
        | inr newer ↦ rw (y, newer) changed
      ]
    ]

-- In valid tables, once a timestamp was accepted for a key and privilege, neither it nor an older
-- one is accepted for them right after, at any time.
pub accept_newer_timestamp_once :
    (privilege : RemotePrivilege) (t : RemoteLoginTable) (key : List ℕ)
    (timestamp now again later : ℕ)
    → IsValid t
    → (accept_newer_timestamp t key privilege timestamp now).0 ≡ true
    → again ≤ timestamp
    → (accept_newer_timestamp
        (accept_newer_timestamp t key privilege timestamp now).1
        key
        privilege
        again
        later).0
      ≡ false
accept_newer_timestamp_once privilege t key timestamp now again later v h le =
    let (l, same, found) = accepted privilege t key timestamp now h in
    refused-by privilege (accept_newer_timestamp t key privilege timestamp now).1 key again later l
      (omega (arith, same, le)) (accept_newer_timestamp-IsValid privilege t key timestamp now v)
      found
