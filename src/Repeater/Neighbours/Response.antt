-- ===== src/Repeater/Neighbours/Response.antt =====
-- The answer to a request for neighbours: how many results there are, and how long the answer is.
use native.Mathlib.Nat.{div-eq-sub-div, div-eq_of_lt, div-le_self, le_trans}
use mathlib.Core.Path.{subst}
use mcrs.Prelude.{
  ℕ, zero, suc, ◌+◌, ◌-◌, ◌*◌, ◌/◌, ◌≤◌, ◌≡◌, refl, ap, ◌∙◌, min, some, List, [], ◌∷◌, ◌++◌, length,
  take, drop, ltb, arith, inl, inr, Bool-cases, All, length-take, length-drop, length-append,
}
use mcrs.Prelude.Words.{u16_to_le_bytes, u32_to_le_bytes, u16_from_le_bytes}
use mcrs.Repeater.Neighbours.{
  Neighbour, NeighbourTable, selected, exchange, swap_first, sort_places, sort_neighbours,
  result_entry, write_results, response_of, encode_binary_response,
}

abbrev pub HasKey : Neighbour → Type 0
HasKey n = length n.public_key ≡ 32

abbrev pub AllKeys : List Neighbour → Type 0
AllKeys ns = All HasKey ns

-- What a loop keeps: the length, and that each key has 32 bytes.
abbrev pub Kept : List Neighbour → List Neighbour → Type 0
Kept ms ns = (length ms ≡ length ns) × AllKeys ms

exchange-Kept :
    (k : ℕ) (x : Neighbour) (ns : List Neighbour)
    → HasKey x
    → AllKeys ns
    → HasKey (exchange k x ns).0 × Kept (exchange k x ns).1 ns
unfolding exchange
exchange-Kept k x [] h a = (h, (refl, tt))
exchange-Kept zero x (n ∷ ns) h (b, a) = (b, (refl, (h, a)))
exchange-Kept (suc k) x (n ∷ ns) h (b, a) =
    let (c, (l, d)) = exchange-Kept k x ns h a in (c, (omega (arith, l), (b, d)))

swap_first-Kept :
    (k : ℕ) (x : Neighbour) (ns : List Neighbour)
    → HasKey x
    → AllKeys ns
    → HasKey (swap_first k x ns).0 × Kept (swap_first k x ns).1 ns
unfolding swap_first
swap_first-Kept zero x ns h a = (h, (refl, a))
swap_first-Kept (suc k) x ns h a = exchange-Kept k x ns h a

sort_places-Kept :
    (order_by left : ℕ) (ns : List Neighbour) → AllKeys ns → Kept (sort_places order_by left ns) ns
unfolding sort_places
sort_places-Kept order_by zero ns a = (refl, a)
sort_places-Kept order_by (suc left) [] a = (refl, tt)
sort_places-Kept order_by (suc left) (n ∷ ns) (h, a) =
    let k : ℕ = selected order_by 1 0 n ns in
    let (c, (l, d)) = swap_first-Kept k n ns h a in
    let (m, e) = sort_places-Kept order_by left (swap_first k n ns).1 d in
    (omega (arith, l, m), (c, e))

pub sort_neighbours-Kept :
    (ns : List Neighbour) (order_by : ℕ) → AllKeys ns → Kept (sort_neighbours ns order_by) ns
unfolding sort_neighbours
sort_neighbours-Kept ns order_by a = sort_places-Kept order_by (length ns) ns a

AllKeys-take : (k : ℕ) (ns : List Neighbour) → AllKeys ns → AllKeys (take k ns)
AllKeys-take zero ns a = tt
AllKeys-take (suc k) [] a = tt
AllKeys-take (suc k) (n ∷ ns) (h, a) = (h, AllKeys-take k ns a)

AllKeys-drop : (k : ℕ) (ns : List Neighbour) → AllKeys ns → AllKeys (drop k ns)
AllKeys-drop zero ns a = a
AllKeys-drop (suc k) [] a = tt
AllKeys-drop (suc k) (n ∷ ns) (h, a) = AllKeys-drop k ns a

length-result_entry :
    (p now : ℕ) (n : Neighbour) → p ≤ 32 → HasKey n → length (result_entry p now n) ≡ p + 5
unfolding result_entry u32_to_le_bytes
length-result_entry p now n h k = omega (
  arith,
  length-append (take p n.public_key)
      (u32_to_le_bytes (min ((now - n.last_seen_ms) / 1000) 4294967295) ++ _),
  length-take p n.public_key,
  h,
  k,
)

-- As many results as there are neighbours, and as fit in what is left of the 130 bytes.
write_results-count :
    (p now written : ℕ) (ns : List Neighbour)
    → written ≤ 130
    → (write_results p now written ns).1 ≡ min (length ns) ((130 - written) / (p + 5))
unfolding write_results
write_results-count p now written [] h = omega arith
write_results-count p now written (n ∷ ns) h = elim (Bool-cases (ltb 130 (written + (p + 4 + 1)))) [
  | inl y ↦
      let none_left : (130 - written) / (p + 5) ≡ 0 = div-eq_of_lt (ground (arith, y)) in
      rw y (omega (arith, none_left))
  | inr fits ↦
      let room : p + 5 ≤ 130 - written = ground (arith, fits) in
      let step : (130 - written) / (p + 5) ≡ (130 - written - (p + 5)) / (p + 5) + 1 =
        div-eq-sub-div (omega arith) room in
      let rest : (write_results p now (written + (p + 4 + 1)) ns).1
          ≡ min (length ns) ((130 - (written + (p + 4 + 1))) / (p + 5)) =
        write_results-count p now (written + (p + 4 + 1)) ns (omega (arith, room, h)) in
      let same : 130 - (written + (p + 4 + 1)) ≡ 130 - written - (p + 5) = omega arith in
      let rest' : (write_results p now (written + (p + 4 + 1)) ns).1
          ≡ min (length ns) ((130 - written - (p + 5)) / (p + 5)) =
        subst
          (λ z. (write_results p now (written + (p + 4 + 1)) ns).1 ≡ min (length ns) (z / (p + 5)))
          same rest in
      let small : (130 - written - (p + 5)) / (p + 5) ≤ 130 =
        small_quotient (130 - written - (p + 5)) (p + 5) (omega arith) in
      rw fits (omega (arith, step, rest', small))
]
  where
    small_quotient : (a b : ℕ) → a ≤ 130 → a / b ≤ 130
    small_quotient a b h = le_trans (div-le_self a b) h

-- Each result has the bytes of its key that were asked for, and five more.
write_results-length :
    (p now written : ℕ) (ns : List Neighbour)
    → p ≤ 32
    → written ≤ 130
    → AllKeys ns
    → length (write_results p now written ns).0 ≡ (write_results p now written ns).1 * (p + 5)
unfolding write_results
write_results-length p now written [] small h a = omega arith
write_results-length p now written (n ∷ ns) small h (k, a) =
    elim (Bool-cases (ltb 130 (written + (p + 4 + 1)))) [
      | inl y ↦ rw y (omega arith)
      | inr fits ↦
          let below : written + (p + 4 + 1) ≤ 130 = ground (arith, fits) in
          let rest : length (write_results p now (written + (p + 4 + 1)) ns).0
              ≡ (write_results p now (written + (p + 4 + 1)) ns).1 * (p + 5) =
            write_results-length p now (written + (p + 4 + 1)) ns small below a in
          let count = write_results-count p now (written + (p + 4 + 1)) ns below in
          let least : (130 - (written + (p + 4 + 1))) / (p + 5) ≤ 130 =
            le_trans (div-le_self (130 - (written + (p + 4 + 1))) (p + 5)) (omega arith) in
          let whole : min ((write_results p now (written + (p + 4 + 1)) ns).1 + 1) 65535
              ≡ (write_results p now (written + (p + 4 + 1)) ns).1 + 1 =
            omega (arith, count, least) in
          rw (fits, whole)
            (length-append (result_entry p now n) (write_results p now (written + (p + 4 + 1)) ns).0
              ∙ omega (arith, rest, length-result_entry p now n small k))
    ]

length-response_of : (total : ℕ) (r : List ℕ × ℕ) → length (response_of total r) ≡ 4 + length r.0
unfolding u16_to_le_bytes
length-response_of total (bytes, count) = omega arith

-- Where keys have 32 bytes and there are at most 65535 neighbours, a request of kind 6 and version
-- 0 is answered with the number of neighbours and as many results as were asked for, are left
-- behind the offset and fit in 130 bytes, each of the key bytes asked for and five more.
pub encode_binary_response-counts :
    (t : NeighbourTable) (count low high order_by prefix : ℕ) (rest : List ℕ) (now : ℕ)
    → AllKeys t.entries
    → length t.entries ≤ 65535
    → (r : List ℕ × ℕ) × (encode_binary_response t
          (6 ∷ 0 ∷ count ∷ low ∷ high ∷ order_by ∷ prefix ∷ rest)
          now
        ≡ some (response_of (length t.entries) r))
      × (r.1 ≡ min (min count (length t.entries - (low + high * 256))) (130 / (min prefix 32 + 5)))
      × (length r.0 ≡ r.1 * (min prefix 32 + 5))
unfolding encode_binary_response u16_from_le_bytes
encode_binary_response-counts t count low high order_by prefix rest now a b =
    let p : ℕ = min prefix 32 in
    let sorted : List Neighbour = sort_neighbours t.entries order_by in
    let (size, keys) = sort_neighbours-Kept t.entries order_by a in
    let shown : List Neighbour = take count (drop (low + high * 256) sorted) in
    let shown_keys : AllKeys shown =
      AllKeys-take count (drop (low + high * 256) sorted)
        (AllKeys-drop (low + high * 256) sorted keys) in
    let many : length shown ≡ min count (length t.entries - (low + high * 256)) = omega (
      arith,
      length-take count (drop (low + high * 256) sorted),
      length-drop (low + high * 256) sorted,
      size,
    ) in
    let total : min (length sorted) 65535 ≡ length t.entries = omega (arith, size, b) in
    let counted : (write_results p now 0 shown).1 ≡ min (length shown) (130 / (p + 5)) =
      write_results-count p now 0 shown (omega arith) in
    (
      write_results p now 0 shown,
      ap (λ n. some (response_of n (write_results p now 0 shown))) total,
      omega (arith, counted, many),
      write_results-length p now 0 shown (omega arith) (omega arith) shown_keys,
    )
