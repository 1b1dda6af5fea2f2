-- ===== src/Repeater/Neighbours/Table.antt =====
-- The table of neighbours: no more than its capacity, each key once, and never the node's own.
use mathlib.Core.Path.{subst}
use mcrs.Prelude.{
  ℕ, zero, suc, ◌≤◌, ◌≡◌, refl, sym, false, Option, none, some, List, [], ◌∷◌, ◌++◌, length,
  list_eq, list_eq_iff, ltb, ◌==◌, arith, inl, inr, Bool-cases, Option-cases, All,
}
use mcrs.Prelude.Positions.{position, modify_at, length-modify_at}
use mcrs.Prelude.Words.{ℤ}
use mcrs.Protocol.Packet.{Packet}
use mcrs.Protocol.Payload.Advert.{Ed25519}
use mcrs.Repeater.Neighbours.{
  Neighbour, NeighbourTable, new, has_key, find_index, oldest_index, heard_again, discovered,
  observe_at, observe_public_key, observe_found, observe_packet, from_packet,
  public_key_matches_hash,
}

unfoldable pub Distinct : List Neighbour → Type 0
Distinct [] = Unit
Distinct (n ∷ ns) = (position (has_key n.public_key) ns ≡ none) × Distinct ns

abbrev pub IsOther : List ℕ → Neighbour → Type 0
IsOther local n = public_key_matches_hash n.public_key local ≡ false

pub record IsValid (local : List ℕ) (t : NeighbourTable) : Type 0 where
  pub room : length t.entries ≤ t.capacity
  pub distinct : Distinct t.entries
  pub others : All (IsOther local) t.entries

pub new-IsValid : (local : List ℕ) (capacity : ℕ) → IsValid local (new capacity)
unfolding new Distinct
new-IsValid local capacity = record { room = omega arith; distinct = tt; others = tt }

absent-head :
    (k : List ℕ) (n : Neighbour) (ns : List Neighbour)
    → position (has_key k) (n ∷ ns) ≡ none
    → (has_key k n ≡ false) × (position (has_key k) ns ≡ none)
unfolding position
absent-head k n ns h = elim (Bool-cases (list_eq n.public_key k)) [
  | inl y ↦ absurd (ground (arith, h, y))
  | inr m ↦ elim (Option-cases (position (has_key k) ns)) [
    | inl gone ↦ (m, gone)
    | inr (j, y) ↦ absurd (ground (arith, h, m, y))
  ]
]

absent-cons :
    (k : List ℕ) (n : Neighbour) (ns : List Neighbour)
    → has_key k n ≡ false
    → position (has_key k) ns ≡ none
    → position (has_key k) (n ∷ ns) ≡ none
unfolding position
absent-cons k n ns h gone = rw (h, gone) refl

list_eq_swap : (x y : List ℕ) → list_eq x y ≡ false → list_eq y x ≡ false
list_eq_swap x y h = ground (arith, list_eq_iff y x, list_eq_iff x x)

-- A place that keeps its key, or takes one that is not in the table.
absent-modify_at :
    (k : List ℕ) (i : ℕ) (f : Neighbour → Neighbour) (ns : List Neighbour)
    → ((n : Neighbour) → has_key k n ≡ false → has_key k (f n) ≡ false)
    → position (has_key k) ns ≡ none
    → position (has_key k) (modify_at i f ns) ≡ none
unfolding modify_at
absent-modify_at k i f [] keep h = h
absent-modify_at k zero f (n ∷ ns) keep h =
    let (a, rest) = absent-head k n ns h in absent-cons k (f n) ns (keep n a) rest
absent-modify_at k (suc i) f (n ∷ ns) keep h =
    let (a, rest) = absent-head k n ns h in
    absent-cons k n (modify_at i f ns) a (absent-modify_at k i f ns keep rest)

Distinct-heard :
    (i : ℕ) (f : Neighbour → Neighbour) (ns : List Neighbour)
    → ((n : Neighbour) → (f n).public_key ≡ n.public_key)
    → Distinct ns
    → Distinct (modify_at i f ns)
unfolding Distinct modify_at
Distinct-heard i f [] same d = tt
Distinct-heard zero f (n ∷ ns) same (a, d) =
    (subst (λ k. position (has_key k) ns ≡ none) (sym (same n)) a, d)
Distinct-heard (suc i) f (n ∷ ns) same (a, d) = (
  absent-modify_at n.public_key i f ns
      (λ m h. subst (λ k. list_eq k n.public_key ≡ false) (sym (same m)) h) a,
  Distinct-heard i f ns same d,
)

Distinct-replace :
    (i : ℕ) (x : Neighbour) (ns : List Neighbour)
    → position (has_key x.public_key) ns ≡ none
    → Distinct ns
    → Distinct (modify_at i (λ _. x) ns)
unfolding Distinct modify_at
Distinct-replace i x [] h d = tt
Distinct-replace zero x (n ∷ ns) h (a, d) = ((absent-head x.public_key n ns h).1, d)
Distinct-replace (suc i) x (n ∷ ns) h (a, d) =
    let (apart, rest) = absent-head x.public_key n ns h in
    (
      absent-modify_at n.public_key i (λ _. x) ns
          (λ m _. list_eq_swap n.public_key x.public_key apart) a,
      Distinct-replace i x ns rest d,
    )

absent-append :
    (k : List ℕ) (x : Neighbour) (ns : List Neighbour)
    → has_key k x ≡ false
    → position (has_key k) ns ≡ none
    → position (has_key k) (ns ++ (x ∷ [])) ≡ none
absent-append k x [] n h = absent-cons k x [] n h
absent-append k x (m ∷ ns) n h =
    let (a, rest) = absent-head k m ns h in
    absent-cons k m (ns ++ (x ∷ [])) a (absent-append k x ns n rest)

Distinct-append :
    (x : Neighbour) (ns : List Neighbour)
    → position (has_key x.public_key) ns ≡ none
    → Distinct ns
    → Distinct (ns ++ (x ∷ []))
unfolding Distinct position
Distinct-append x [] h d = (refl, tt)
Distinct-append x (n ∷ ns) h (a, d) =
    let (apart, rest) = absent-head x.public_key n ns h in
    (
      absent-append n.public_key x ns (list_eq_swap n.public_key x.public_key apart) a,
      Distinct-append x ns rest d,
    )

length-append_one :
    (x : Neighbour) (ns : List Neighbour) → length (ns ++ (x ∷ [])) ≡ suc (length ns)
length-append_one x [] = refl
length-append_one x (n ∷ ns) = omega (arith, length-append_one x ns)

others-append :
    (local : List ℕ) (x : Neighbour) (ns : List Neighbour)
    → IsOther local x
    → All (IsOther local) ns
    → All (IsOther local) (ns ++ (x ∷ []))
others-append local x [] o a = (o, tt)
others-append local x (n ∷ ns) o (h, a) = (h, others-append local x ns o a)

others-modify_at :
    (local : List ℕ) (i : ℕ) (f : Neighbour → Neighbour) (ns : List Neighbour)
    → ((n : Neighbour) → IsOther local n → IsOther local (f n))
    → All (IsOther local) ns
    → All (IsOther local) (modify_at i f ns)
unfolding modify_at
others-modify_at local i f [] keep a = tt
others-modify_at local zero f (n ∷ ns) keep (h, a) = (keep n h, a)
others-modify_at local (suc i) f (n ∷ ns) keep (h, a) = (h, others-modify_at local i f ns keep a)

discovered-IsValid :
    (local : List ℕ) (t : NeighbourTable) (n : Neighbour)
    → IsOther local n
    → find_index t n.public_key ≡ none
    → IsValid local t
    → IsValid local (discovered t n)
unfolding discovered find_index
discovered-IsValid local t n o h v = elim (Bool-cases (t.capacity == 0)) [
  | inl y ↦ rw y v
  | inr nonempty ↦ elim (Bool-cases (ltb (length t.entries) t.capacity)) [
    | inl y ↦
        let room : suc (length t.entries) ≤ t.capacity = ground (arith, y) in
        rw (nonempty, y)
          (record {
            room = omega (arith, length-append_one n t.entries, room);
            distinct = Distinct-append n t.entries h v.distinct;
            others = others-append local n t.entries o v.others;
          })
    | inr full ↦
        rw (nonempty, full)
          (record {
            room =
                omega (arith, length-modify_at (oldest_index t.entries) (λ _. n) t.entries, v.room);
            distinct = Distinct-replace (oldest_index t.entries) n t.entries h v.distinct;
            others =
                others-modify_at local (oldest_index t.entries) (λ _. n) t.entries (λ _ _. o)
                  v.others;
          })
  ]
]

observe_at-IsValid :
    (local : List ℕ) (t : NeighbourTable) (n : Neighbour) (at : Option ℕ)
    → IsOther local n
    → find_index t n.public_key ≡ at
    → IsValid local t
    → IsValid local (observe_at t n at)
unfolding observe_at
observe_at-IsValid local t n none o h v = discovered-IsValid local t n o h v
observe_at-IsValid local t n (some i) o h v =
    let f : Neighbour → Neighbour = heard_again n.last_rssi n.last_snr_quarters n.last_seen_ms in
    record {
      room = omega (arith, length-modify_at i f t.entries, v.room);
      distinct = Distinct-heard i f t.entries (λ _. refl) v.distinct;
      others = others-modify_at local i f t.entries (λ _ q. q) v.others;
    }

-- Hearing a key keeps the table valid.
pub observe_public_key-IsValid :
    (t : NeighbourTable) (key : List ℕ) (rssi snr : ℤ) (now : ℕ) (local : List ℕ)
    → IsValid local t
    → IsValid local (observe_public_key t key rssi snr now local)
unfolding observe_public_key
observe_public_key-IsValid t key rssi snr now local v =
    let n : Neighbour = record {
      public_key = key;
      last_seen_ms = now;
      last_rssi = rssi;
      last_snr_quarters = snr;
      packet_count = 1;
    } in
    elim (Bool-cases (public_key_matches_hash key local)) [
      | inl y ↦ rw y v
      | inr other ↦ rw other (observe_at-IsValid local t n (find_index t key) other refl v)
    ]

-- Whatever packet is heard, the table of neighbours keeps to its capacity, with each key once and
-- no key that matches the node's own hash.
pub observe_packet-IsValid :
    (ed : Ed25519) (t : NeighbourTable) (packet : Packet) (rssi snr : ℤ) (now : ℕ) (local : List ℕ)
    → IsValid local t
    → IsValid local (observe_packet ed t packet rssi snr now local)
unfolding observe_packet observe_found
observe_packet-IsValid ed t packet rssi snr now local v =
    elim (Option-cases (from_packet ed packet)) [
      | inl n ↦ rw n v
      | inr (key, y) ↦
          let next = observe_public_key-IsValid t key rssi snr now local v in
          elim (Bool-cases (public_key_matches_hash key local)) [
            | inl own ↦ rw (y, own) v
            | inr other ↦ rw (y, other) next
          ]
    ]
