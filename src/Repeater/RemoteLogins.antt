-- ===== src/Repeater/RemoteLogins.antt =====
-- repeater/src/app/remote.rs: who is logged in. A table is an array of `max_remote_logins` places;
-- there is one for administrators and one for guests. Keys and text are lists of bytes.
use mcrs.Prelude.{
  ℕ, zero, suc, ◌+◌, ◌-◌, Bool, true, false, not, ◌&&◌, ◌||◌, Option, none, some, List, [], ◌∷◌,
  ◌++◌, length, list_eq, is_empty, leb, ltb, ◌==◌, if◌then◌else◌,
}
use mcrs.Prelude.Text.{ascii, trim, starts_with, strip_prefix}
use mcrs.Protocol.NodePath.{NodePath}
use mcrs.Repeater.Acl.{Role}
pub mod Places
pub mod Sessions
pub mod Logins
pub mod Timestamps

abbrev pub max_remote_logins : ℕ
max_remote_logins = 4

abbrev pub remote_login_ttl_ms : ℕ
remote_login_ttl_ms = 600000

pub record RemoteLogin : Type 0 where
  pub public_key : List ℕ
  pub shared_secret : List ℕ
  pub last_seen_ms : ℕ
  pub last_timestamp : ℕ
  pub reply_path : NodePath

pub data RemotePrivilege : Type 0 where
  guest admin : RemotePrivilege

pub record RemoteSession : Type 0 where
  pub public_key : List ℕ
  pub shared_secret : List ℕ
  pub privilege : RemotePrivilege
  pub reply_path : NodePath

pub record RemoteLoginTable : Type 0 where
  pub admin_entries : List (Option RemoteLogin)
  pub guest_entries : List (Option RemoteLogin)

abbrev pub empty_places : List (Option RemoteLogin)
empty_places = none ∷ none ∷ none ∷ none ∷ []

unfoldable pub new : RemoteLoginTable
new = record { admin_entries = empty_places; guest_entries = empty_places }

abbrev pub is_stale : ℕ → RemoteLogin → Bool
is_stale now login = ltb remote_login_ttl_ms (now - login.last_seen_ms)

unfoldable pub prune_entries : ℕ → List (Option RemoteLogin) → List (Option RemoteLogin)
prune_entries now [] = []
prune_entries now (none ∷ es) = none ∷ prune_entries now es
prune_entries now (some l ∷ es) =
    let rest = prune_entries now es in if is_stale now l then none ∷ rest else some l ∷ rest

unfoldable pub prune : RemoteLoginTable → ℕ → RemoteLoginTable
prune t now = record {
  admin_entries = prune_entries now t.admin_entries;
  guest_entries = prune_entries now t.guest_entries;
}

-- `find_login_mut`: the first login of the key, and the table with that login changed.
unfoldable pub find_login : List ℕ → List (Option RemoteLogin) → Option RemoteLogin
find_login key [] = none
find_login key (none ∷ es) = find_login key es
find_login key (some l ∷ es) =
    let rest = find_login key es in if list_eq l.public_key key then some l else rest

unfoldable pub change_login :
    List ℕ → (RemoteLogin → RemoteLogin) → List (Option RemoteLogin) → List (Option RemoteLogin)
change_login key f [] = []
change_login key f (none ∷ es) = none ∷ change_login key f es
change_login key f (some l ∷ es) =
    let rest = change_login key f es in
    if list_eq l.public_key key then some (f l) ∷ es else some l ∷ rest

unfoldable pub remove_login : List ℕ → List (Option RemoteLogin) → List (Option RemoteLogin)
remove_login key [] = []
remove_login key (none ∷ es) = none ∷ remove_login key es
remove_login key (some l ∷ es) =
    let rest = remove_login key es in if list_eq l.public_key key then none ∷ es else some l ∷ rest

unfoldable pub remove : RemoteLoginTable → List ℕ → RemoteLoginTable
remove t key = record {
  admin_entries = remove_login key t.admin_entries;
  guest_entries = remove_login key t.guest_entries;
}

unfoldable pub first_empty_index : List (Option RemoteLogin) → Option ℕ
first_empty_index [] = none
first_empty_index (none ∷ es) = some 0
first_empty_index (some l ∷ es) = elim (first_empty_index es) [
  | none ↦ none
  | some i ↦ some (suc i)
]

-- The loop of `oldest_index`, at `index`, with the oldest place and its time so far.
unfoldable pub oldest_from : ℕ → ℕ → ℕ → List (Option RemoteLogin) → ℕ
oldest_from index oldest seen [] = oldest
oldest_from index oldest seen (none ∷ es) = index
oldest_from index oldest seen (some l ∷ es) =
    let newer = oldest_from (suc index) oldest seen es in
    let older = oldest_from (suc index) index l.last_seen_ms es in
    if ltb l.last_seen_ms seen then older else newer

unfoldable pub oldest_index : List (Option RemoteLogin) → ℕ
oldest_index es = oldest_from 0 0 18446744073709551615 es

unfoldable pub set_at :
    ℕ → Option RemoteLogin → List (Option RemoteLogin) → List (Option RemoteLogin)
set_at i e [] = []
set_at zero e (x ∷ xs) = e ∷ xs
set_at (suc i) e (x ∷ xs) = x ∷ set_at i e xs

abbrev pub unwrap_or : Option ℕ → ℕ → ℕ
unwrap_or none d = d
unwrap_or (some i) d = i

-- The place for a new login: an empty one, or else the oldest.
unfoldable pub free_index : List (Option RemoteLogin) → ℕ
free_index es = unwrap_or (first_empty_index es) (oldest_index es)

unfoldable pub entries_of : RemotePrivilege → RemoteLoginTable → List (Option RemoteLogin)
entries_of admin t = t.admin_entries
entries_of guest t = t.guest_entries

abbrev pub with_entries :
    RemotePrivilege → RemoteLoginTable → List (Option RemoteLogin) → RemoteLoginTable
with_entries admin t es = record { admin_entries = es; guest_entries = t.guest_entries }
with_entries guest t es = record { admin_entries = t.admin_entries; guest_entries = es }

unfoldable pub place_login : RemotePrivilege → RemoteLogin → RemoteLoginTable → RemoteLoginTable
place_login privilege login t =
    let entries = entries_of privilege t in
    with_entries privilege t (set_at (free_index entries) (some login) entries)

unfoldable pub authenticate :
    RemoteLoginTable → List ℕ → List ℕ → RemotePrivilege → ℕ → ℕ → NodePath → RemoteLoginTable
authenticate t public_key shared_secret privilege last_timestamp now reply_path =
    place_login privilege
      (record {
        public_key = public_key;
        shared_secret = shared_secret;
        last_seen_ms = now;
        last_timestamp = last_timestamp;
        reply_path = reply_path;
      })
      (remove (prune t now) public_key)

abbrev pub seen_at : ℕ → RemoteLogin → RemoteLogin
seen_at now l = record {
  public_key = l.public_key;
  shared_secret = l.shared_secret;
  last_seen_ms = now;
  last_timestamp = l.last_timestamp;
  reply_path = l.reply_path;
}

-- The answer, and the table in which the login that was found was seen now.
unfoldable pub guest_answer :
    RemoteLoginTable → List ℕ → ℕ → Option RemoteLogin → Option RemotePrivilege × RemoteLoginTable
guest_answer t key now (some l) =
    (some guest, with_entries guest t (change_login key (seen_at now) t.guest_entries))
guest_answer t key now none = (none, t)

unfoldable pub privilege_answer :
    RemoteLoginTable → List ℕ → ℕ → Option RemoteLogin → Option RemotePrivilege × RemoteLoginTable
privilege_answer t key now (some l) =
    (some admin, with_entries admin t (change_login key (seen_at now) t.admin_entries))
privilege_answer t key now none = guest_answer t key now (find_login key t.guest_entries)

unfoldable pub privilege_for :
    RemoteLoginTable → List ℕ → ℕ → Option RemotePrivilege × RemoteLoginTable
privilege_for t key now =
    let t = prune t now in privilege_answer t key now (find_login key t.admin_entries)

abbrev pub stamped : ℕ → ℕ → RemoteLogin → RemoteLogin
stamped timestamp now l = record {
  public_key = l.public_key;
  shared_secret = l.shared_secret;
  last_seen_ms = now;
  last_timestamp = timestamp;
  reply_path = l.reply_path;
}

unfoldable pub timestamp_answer :
    RemoteLoginTable
    → List ℕ
    → RemotePrivilege
    → ℕ
    → ℕ
    → Option RemoteLogin
    → Bool × RemoteLoginTable
timestamp_answer t key privilege timestamp now none = (false, t)
timestamp_answer t key privilege timestamp now (some l) =
    if leb timestamp l.last_timestamp then (false, t) else (
      true,
      with_entries privilege t (change_login key (stamped timestamp now) (entries_of privilege t)),
    )

unfoldable pub accept_newer_timestamp :
    RemoteLoginTable → List ℕ → RemotePrivilege → ℕ → ℕ → Bool × RemoteLoginTable
accept_newer_timestamp t key privilege timestamp now =
    let t = prune t now in
    timestamp_answer t key privilege timestamp now (find_login key (entries_of privilege t))

abbrev pub head_is : ℕ → List ℕ → Bool
head_is hash [] = false
head_is hash (b ∷ bs) = b == hash

-- The sessions of the keys that begin with the hash; the array of the source has a place for each.
unfoldable pub matching_sessions :
    ℕ → RemotePrivilege → List (Option RemoteLogin) → List RemoteSession
matching_sessions hash privilege [] = []
matching_sessions hash privilege (none ∷ es) = matching_sessions hash privilege es
matching_sessions hash privilege (some l ∷ es) =
    let rest = matching_sessions hash privilege es in
    if head_is hash l.public_key
    then record {
      public_key = l.public_key;
      shared_secret = l.shared_secret;
      privilege = privilege;
      reply_path = l.reply_path;
    }
      ∷ rest
    else rest

unfoldable pub sessions_matching_source_hash :
    RemoteLoginTable → ℕ → ℕ → List RemoteSession × RemoteLoginTable
sessions_matching_source_hash t source_hash now =
    let t = prune t now in
    (
      matching_sessions source_hash admin t.admin_entries
          ++ matching_sessions source_hash guest t.guest_entries,
      t,
    )

-- The rules without an access list entry that decides.
unfoldable pub login_by_password : List ℕ → List ℕ → Option RemotePrivilege
login_by_password body password =
    if is_empty body || list_eq body (ascii "login")
    then some guest
    else if list_eq body password
    then some admin
    else elim (strip_prefix body (ascii "login ")) [
      | none ↦ none
      | some rest ↦
          let candidate = trim rest in
          if is_empty candidate
          then some guest
          else if list_eq candidate password
          then some admin
          else none
    ]

unfoldable pub login_privilege : List ℕ → List ℕ → Option Role → Option RemotePrivilege
login_privilege body password (some Role.deny) = none
login_privilege body password (some Role.admin) =
    if is_empty body
      || list_eq body (ascii "login")
      || starts_with body (ascii "login ")
      || list_eq body password
    then some admin
    else login_by_password body password
login_privilege body password none = login_by_password body password
