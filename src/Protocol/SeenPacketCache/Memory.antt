-- ===== src/Protocol/SeenPacketCache/Memory.antt =====
-- The cache of seen packets stays within its bound and holds a signature once.
use mcrs.Prelude.{
  ℕ, zero, suc, ◌≤◌, ◌<◌, ◌≡◌, refl, true, false, List, [], ◌∷◌, ◌++◌, length, ◌==◌, arith,
  length-append, Bool-cases, inl, inr, ◌⊎◌,
}
use mcrs.Protocol.SeenPacketCache.{
  Entry, SeenPacketCache, with_entries, prune, has_signature, remove_signature, make_room, touch,
  contains, check_and_insert, new_with_capacity,
}
use mcrs.Protocol.SeenPacketCache.Entries.{
  Distinct, length-drop_stale, drop_stale-Distinct, length-remove_signature,
  remove_signature-Distinct, has_signature-removed, length-make_room, make_room-Distinct,
  has_signature-make_room, Distinct-last,
}

pub record IsValid (c : SeenPacketCache) : Type 0 where
  pub bounded : length c.entries ≤ c.max_entries
  pub distinct : Distinct c.entries

pub new_with_capacity-IsValid : (ttl max : ℕ) → IsValid (new_with_capacity ttl max)
unfolding new_with_capacity Distinct
new_with_capacity-IsValid ttl max = record { bounded = omega arith; distinct = tt }

pub prune-IsValid : (c : SeenPacketCache) (now : ℕ) → IsValid c → IsValid (prune c now)
unfolding prune
prune-IsValid c now v = record {
  bounded = omega (arith, length-drop_stale c.ttl_ticks now c.entries, v.bounded);
  distinct = drop_stale-Distinct c.ttl_ticks now c.entries v.distinct;
}

nonzero : (n : ℕ) → (n ≡ 0) ⊎ ((n == 0) ≡ false) × (0 < n)
nonzero zero = inl refl
nonzero (suc n) = inr (ground arith, omega arith)

-- The entries after `touch`, when the cache can hold one.
abbrev pub touched : SeenPacketCache → List ℕ → ℕ → List Entry
touched c s now =
    make_room c.max_entries (remove_signature s c.entries)
    ++ (record { signature = s; inserted = now } ∷ [])

pub touch-touched :
    (c : SeenPacketCache) (s : List ℕ) (now : ℕ)
    → 0 < c.max_entries
    → touch c s now ≡ with_entries c (touched c s now)
unfolding touch
touch-touched c s now h = let n : (c.max_entries == 0) ≡ false = ground arith in rw n

touch_none :
    (c : SeenPacketCache) (s : List ℕ) (now : ℕ)
    → c.max_entries ≡ 0
    → touch c s now ≡ with_entries c (remove_signature s c.entries)
unfolding touch
touch_none c s now h = rw h

-- Recording a signature keeps the cache within its bound, with one entry for each signature.
pub touch-IsValid :
    (c : SeenPacketCache) (s : List ℕ) (now : ℕ) → IsValid c → IsValid (touch c s now)
touch-IsValid c s now v =
    let kept : List Entry = remove_signature s c.entries in
    let less : length kept ≤ length c.entries = length-remove_signature s c.entries in
    let d : Distinct kept = remove_signature-Distinct s c.entries v.distinct in
    elim (nonzero c.max_entries) [
      | inl z ↦
          rw (touch_none c s now z) (record { bounded = omega (arith, v.bounded); distinct = d })
      | inr (_, h) ↦
          let room : List Entry = make_room c.max_entries kept in
          let e : Entry = record { signature = s; inserted = now } in
          let gone : has_signature s room ≡ false =
            has_signature-make_room s c.max_entries kept
              (has_signature-removed s c.entries v.distinct) in
          rw (touch-touched c s now h) (record {
            bounded =
                omega (arith, length-append room (e ∷ []), length-make_room c.max_entries kept h);
            distinct = Distinct-last room e (make_room-Distinct c.max_entries kept d) gone;
          })
    ]

-- Checking and recording a signature keeps the cache within its bound, with one entry for each
-- signature.
pub check_and_insert-IsValid :
    (c : SeenPacketCache) (s : List ℕ) (now : ℕ) → IsValid c → IsValid (check_and_insert c s now).1
unfolding check_and_insert contains
check_and_insert-IsValid c s now v =
    let p : IsValid (prune c now) = prune-IsValid c now v in
    elim (Bool-cases (has_signature s (prune c now).entries)) [
      | inl y ↦ rw y p
      | inr n ↦ rw n (touch-IsValid (prune c now) s now p)
    ]

pub seen-check :
    (c : SeenPacketCache) (s : List ℕ) (now : ℕ)
    → (contains c s now).0 ≡ true
    → (check_and_insert c s now).0 ≡ false
unfolding check_and_insert contains
seen-check c s now h = rw h

pub new-check :
    (c : SeenPacketCache) (s : List ℕ) (now : ℕ)
    → (check_and_insert c s now).0 ≡ true
    → (check_and_insert c s now).1 ≡ touch (prune c now) s now
unfolding check_and_insert contains
new-check c s now h = ground arith
