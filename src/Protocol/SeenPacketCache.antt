-- ===== src/Protocol/SeenPacketCache.antt =====
-- protocol/src/seen_packet_cache.rs: the signatures of the packets seen lately, oldest first.
-- Signatures are lists of bytes and ticks are native numbers; `saturating_sub` is subtraction on ℕ.
use mcrs.Prelude.{
  ℕ, ◌-◌, Bool, true, false, ◌||◌, List, [], ◌∷◌, ◌++◌, length, list_eq, leb, ◌==◌, if◌then◌else◌,
}
pub mod Entries
pub mod Memory
pub mod Behind
pub mod Remembered

abbrev default_max_entries : ℕ
default_max_entries = 256

pub record Entry : Type 0 where
  pub signature : List ℕ
  pub inserted : ℕ

pub record SeenPacketCache : Type 0 where
  pub ttl_ticks : ℕ
  pub max_entries : ℕ
  pub entries : List Entry

unfoldable pub new_with_capacity : ℕ → ℕ → SeenPacketCache
new_with_capacity ttl_ticks max_entries = record {
  ttl_ticks = ttl_ticks;
  max_entries = max_entries;
  entries = [];
}

unfoldable pub new : ℕ → SeenPacketCache
new ttl_ticks = new_with_capacity ttl_ticks default_max_entries

abbrev pub with_entries : SeenPacketCache → List Entry → SeenPacketCache
with_entries c entries = record {
  ttl_ticks = c.ttl_ticks;
  max_entries = c.max_entries;
  entries = entries;
}

-- The loop of `prune`: it stops at the first entry that is still fresh.
unfoldable pub drop_stale : ℕ → ℕ → List Entry → List Entry
drop_stale ttl now [] = []
drop_stale ttl now (e ∷ es) =
    let rest = drop_stale ttl now es in if leb (now - e.inserted) ttl then e ∷ es else rest

unfoldable pub prune : SeenPacketCache → ℕ → SeenPacketCache
prune c now = with_entries c (drop_stale c.ttl_ticks now c.entries)

unfoldable pub has_signature : List ℕ → List Entry → Bool
has_signature signature [] = false
has_signature signature (e ∷ es) = list_eq e.signature signature || has_signature signature es

-- `position` and `remove`: the first entry with the signature goes.
unfoldable pub remove_signature : List ℕ → List Entry → List Entry
remove_signature signature [] = []
remove_signature signature (e ∷ es) =
    let rest = remove_signature signature es in
    if list_eq e.signature signature then es else e ∷ rest

-- The `while` of `touch`, for a bound that is not 0.
unfoldable pub make_room : ℕ → List Entry → List Entry
make_room max [] = []
make_room max (e ∷ es) =
    let rest = make_room max es in if leb max (length (e ∷ es)) then rest else e ∷ es

unfoldable pub touch : SeenPacketCache → List ℕ → ℕ → SeenPacketCache
touch c signature now =
    let kept = remove_signature signature c.entries in
    if c.max_entries == 0
    then with_entries c kept
    else with_entries c
        (make_room c.max_entries kept ++ (record { signature = signature; inserted = now } ∷ []))

-- The answer, and the cache afterwards: `contains` prunes.
unfoldable pub contains : SeenPacketCache → List ℕ → ℕ → Bool × SeenPacketCache
contains c signature now =
    let pruned = prune c now in (has_signature signature pruned.entries, pruned)

unfoldable pub check_and_insert : SeenPacketCache → List ℕ → ℕ → Bool × SeenPacketCache
check_and_insert c signature now =
    let (seen, pruned) = contains c signature now in
    if seen then (false, pruned) else (true, touch pruned signature now)
