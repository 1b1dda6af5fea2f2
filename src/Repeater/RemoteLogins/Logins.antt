-- ===== src/Repeater/RemoteLogins/Logins.antt =====
-- Logging in, being asked for a privilege, being removed, and commands with timestamps.
use mcrs.Prelude.{
  ℕ, ◌-◌, ◌≤◌, ◌≡◌, ◌⊎◌, refl, sym, ◌∙◌, false, none, some, List, list_eq, le→not-ltb, arith, inl,
  inr, Option-cases,
}
use mcrs.Protocol.NodePath.{NodePath}
use mcrs.Repeater.RemoteLogins.{
  RemoteLogin, RemoteLoginTable, RemotePrivilege, guest, admin, is_stale, prune, prune_entries,
  find_login, remove, privilege_answer, guest_answer, free_index, entries_of, place_login,
  authenticate, privilege_for, remote_login_ttl_ms,
}
use mcrs.Repeater.RemoteLogins.Places
use mcrs.Repeater.RemoteLogins.Sessions.{
  IsValid, IsAbsent, prune-IsValid, remove-IsValid, remove-IsAbsent, place_login-IsValid,
  place_login-holds, holds,
}

-- The answer of `privilege_for` is the privilege held after stale logins were dropped.
pub privilege_for-holds :
    (t : RemoteLoginTable) (key : List ℕ) (now : ℕ)
    → (privilege_for t key now).0 ≡ holds (prune t now) key
unfolding privilege_for privilege_answer guest_answer holds
privilege_for-holds t key now = elim (Option-cases (find_login key (prune t now).admin_entries)) [
  | inr (l, y) ↦ rw y refl
  | inl n ↦ elim (Option-cases (find_login key (prune t now).guest_entries)) [
    | inr (l, y) ↦ rw (n, y) refl
    | inl m ↦ rw (n, m) refl
  ]
]

abbrev pub login_of : List ℕ → List ℕ → ℕ → ℕ → NodePath → RemoteLogin
login_of key secret timestamp now path = record {
  public_key = key;
  shared_secret = secret;
  last_seen_ms = now;
  last_timestamp = timestamp;
  reply_path = path;
}

-- Logging in keeps the tables valid: four places each, no key in two places of a table or in both
-- tables.
pub authenticate-IsValid :
    (t : RemoteLoginTable) (key secret : List ℕ) (privilege : RemotePrivilege) (timestamp now : ℕ)
    (path : NodePath)
    → IsValid t
    → IsValid (authenticate t key secret privilege timestamp now path)
unfolding authenticate
authenticate-IsValid t key secret privilege timestamp now path v =
    let p : IsValid (prune t now) = prune-IsValid t now v in
    place_login-IsValid privilege (login_of key secret timestamp now path)
      (remove (prune t now) key) (remove-IsAbsent (prune t now) key p)
      (remove-IsValid (prune t now) key p)

fresh-holds :
    (privilege : RemotePrivilege) (t : RemoteLoginTable) (key : List ℕ) (l : RemoteLogin)
    (later : ℕ)
    → IsValid t
    → find_login key (entries_of privilege t) ≡ some l
    → is_stale later l ≡ false
    → holds (prune t later) key ≡ some privilege
unfolding holds prune entries_of
fresh-holds admin t key l later v f s = rw (Places.find-prune key later l t.admin_entries s f) refl
fresh-holds guest t key l later v f s = elim (v.apart key) [
  | inl a ↦
      rw
        (
          Places.absent-prune key later t.admin_entries a,
          Places.find-prune key later l t.guest_entries s f,
        )
        refl
  | inr g ↦ absurd (ground (arith, f, g))
]

-- In valid tables, whoever logged in has the privilege of the login, whatever privilege the key
-- had before, when the tables that this login left are asked next, at any time within the time to
-- live.
pub authenticate-privilege :
    (t : RemoteLoginTable) (key secret : List ℕ) (privilege : RemotePrivilege)
    (timestamp now later : ℕ) (path : NodePath)
    → IsValid t
    → later - now ≤ remote_login_ttl_ms
    → (privilege_for (authenticate t key secret privilege timestamp now path) key later).0
      ≡ some privilege
unfolding authenticate
authenticate-privilege t key secret privilege timestamp now later path v h =
    let p : IsValid (prune t now) = prune-IsValid t now v in
    let l : RemoteLogin = login_of key secret timestamp now path in
    let cleared : RemoteLoginTable = remove (prune t now) key in
    let absent : IsAbsent key cleared = remove-IsAbsent (prune t now) key p in
    let valid : IsValid cleared = remove-IsValid (prune t now) key p in
    let after : RemoteLoginTable = place_login privilege l cleared in
    privilege_for-holds after key later
    ∙ fresh-holds privilege after key l later (place_login-IsValid privilege l cleared absent valid)
        (place_login-holds privilege l cleared absent valid).1
        (le→not-ltb (later - now) remote_login_ttl_ms h)

-- In valid tables, a key that was removed has no privilege at any time.
pub remove-privilege :
    (t : RemoteLoginTable) (key : List ℕ) (now : ℕ)
    → IsValid t
    → (privilege_for (remove t key) key now).0 ≡ none
unfolding holds prune
remove-privilege t key now v =
    let (a, g) = remove-IsAbsent t key v in
    let a' : find_login key (prune_entries now (remove t key).admin_entries) ≡ none =
      Places.absent-prune key now (remove t key).admin_entries a in
    let g' : find_login key (prune_entries now (remove t key).guest_entries) ≡ none =
      Places.absent-prune key now (remove t key).guest_entries g in
    privilege_for-holds (remove t key) key now ∙ rw (a', g') refl

tables_other :
    (privilege : RemotePrivilege) (l : RemoteLogin) (t : RemoteLoginTable) (key : List ℕ)
    → list_eq l.public_key key ≡ false
    → IsValid t
    → (holds (place_login privilege l t) key ≡ none)
      ⊎ (holds (place_login privilege l t) key ≡ holds t key)
unfolding place_login entries_of holds
tables_other admin l t key n v =
    elim (Places.other-set_at key (free_index t.admin_entries) l t.admin_entries n
      v.admins_distinct) [
        | inr same ↦ inr (rw same refl)
        | inl gone ↦ elim (v.apart key) [
          | inl a ↦ inr (rw (gone, a) refl)
          | inr g ↦ inl (rw (gone, g) refl)
        ]
      ]
tables_other guest l t key n v =
    elim (Places.other-set_at key (free_index t.guest_entries) l t.guest_entries n
      v.guests_distinct) [
        | inr same ↦ inr (rw same refl)
        | inl gone ↦ elim (v.apart key) [
          | inl a ↦ inl (rw (gone, a) refl)
          | inr g ↦ inr (rw (gone, g) refl)
        ]
      ]

holds-remove_other :
    (t : RemoteLoginTable) (key key' : List ℕ)
    → list_eq key key' ≡ false
    → holds (remove t key) key' ≡ holds t key'
unfolding holds remove
holds-remove_other t key key' n =
    rw
      (
        Places.find-remove_other key' key t.admin_entries n,
        Places.find-remove_other key' key t.guest_entries n,
      )
      refl

-- In valid tables, a login leaves another key with the privilege it would be found to have at that
-- time, or ends that key's session; it never gives it another privilege.
pub authenticate_other :
    (t : RemoteLoginTable) (key secret : List ℕ) (privilege : RemotePrivilege) (timestamp now : ℕ)
    (path : NodePath) (key' : List ℕ)
    → IsValid t
    → list_eq key key' ≡ false
    → (holds (authenticate t key secret privilege timestamp now path) key' ≡ none)
      ⊎ (holds (authenticate t key secret privilege timestamp now path) key'
          ≡ (privilege_for t key' now).0)
unfolding authenticate
authenticate_other t key secret privilege timestamp now path key' v n =
    let p : IsValid (prune t now) = prune-IsValid t now v in
    let cleared : RemoteLoginTable = remove (prune t now) key in
    let l : RemoteLogin = login_of key secret timestamp now path in
    elim (tables_other privilege l cleared key' n (remove-IsValid (prune t now) key p)) [
      | inl gone ↦ inl gone
      | inr same ↦ inr (
          same ∙ holds-remove_other (prune t now) key key' n ∙ sym (privilege_for-holds t key' now))
    ]
