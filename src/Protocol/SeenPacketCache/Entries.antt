-- ===== src/Protocol/SeenPacketCache/Entries.antt =====
-- What the operations on the entries of the cache keep: their number, and one entry for a
-- signature.
use mcrs.Prelude.{
  ℕ, ◌≤◌, ◌<◌, ◌≡◌, refl, true, false, List, [], ◌∷◌, ◌++◌, length, list_eq, list_eq_iff, arith,
  Bool-cases, inl, inr,
}
use mcrs.Protocol.SeenPacketCache.{Entry, drop_stale, has_signature, remove_signature, make_room}

-- No two entries have one signature.
unfoldable pub Distinct : List Entry → Type 0
Distinct [] = Unit
Distinct (e ∷ es) = (has_signature e.signature es ≡ false) × Distinct es

pub list_eq_refl : (x : List ℕ) → list_eq x x ≡ true
list_eq_refl x = ground (arith, list_eq_iff x x)

pub length-drop_stale : (ttl now : ℕ) (es : List Entry) → length (drop_stale ttl now es) ≤ length es
unfolding drop_stale
length-drop_stale ttl now [] = omega arith
length-drop_stale ttl now (e ∷ es) = ground (arith, length-drop_stale ttl now es)

pub drop_stale-Distinct :
    (ttl now : ℕ) (es : List Entry) → Distinct es → Distinct (drop_stale ttl now es)
unfolding drop_stale Distinct
drop_stale-Distinct ttl now [] d = tt
drop_stale-Distinct ttl now (e ∷ es) d = ground (arith, drop_stale-Distinct ttl now es d.1)

pub length-remove_signature :
    (s : List ℕ) (es : List Entry) → length (remove_signature s es) ≤ length es
unfolding remove_signature
length-remove_signature s [] = omega arith
length-remove_signature s (e ∷ es) = ground (arith, length-remove_signature s es)

has_signature-remove :
    (t s : List ℕ) (es : List Entry)
    → has_signature t es ≡ false
    → has_signature t (remove_signature s es) ≡ false
unfolding remove_signature has_signature
has_signature-remove t s [] h = refl
has_signature-remove t s (e ∷ es) h = ground (arith, has_signature-remove t s es)

pub remove_signature-Distinct :
    (s : List ℕ) (es : List Entry) → Distinct es → Distinct (remove_signature s es)
unfolding remove_signature Distinct
remove_signature-Distinct s [] d = tt
remove_signature-Distinct s (e ∷ es) d =
    ground (arith, remove_signature-Distinct s es d.1, has_signature-remove e.signature s es d.0)

-- With one entry for a signature, removing it leaves none.
pub has_signature-removed :
    (s : List ℕ) (es : List Entry) → Distinct es → has_signature s (remove_signature s es) ≡ false
unfolding remove_signature has_signature Distinct
has_signature-removed s [] d = refl
has_signature-removed s (e ∷ es) d = elim (Bool-cases (list_eq e.signature s)) [
  | inl y ↦
      let (to, from) = list_eq_iff e.signature s in let q : e.signature ≡ s = to y in cc (y, q, d.0)
  | inr n ↦ ground (arith, n, has_signature-removed s es d.1)
]

pub length-make_room : (max : ℕ) (es : List Entry) → 0 < max → length (make_room max es) < max
unfolding make_room
length-make_room max [] h = omega arith
length-make_room max (e ∷ es) h = ground (arith, length-make_room max es h)

pub make_room-Distinct : (max : ℕ) (es : List Entry) → Distinct es → Distinct (make_room max es)
unfolding make_room Distinct
make_room-Distinct max [] d = tt
make_room-Distinct max (e ∷ es) d = ground (arith, make_room-Distinct max es d.1)

pub has_signature-make_room :
    (t : List ℕ) (max : ℕ) (es : List Entry)
    → has_signature t es ≡ false
    → has_signature t (make_room max es) ≡ false
unfolding make_room has_signature
has_signature-make_room t max [] h = refl
has_signature-make_room t max (e ∷ es) h = ground (arith, has_signature-make_room t max es)

pub has_signature-last :
    (t : List ℕ) (es : List Entry) (e : Entry)
    → has_signature t es ≡ false
    → list_eq e.signature t ≡ false
    → has_signature t (es ++ (e ∷ [])) ≡ false
unfolding has_signature
has_signature-last t [] e h n = ground arith
has_signature-last t (x ∷ xs) e h n = ground (arith, has_signature-last t xs e)

pub Distinct-last :
    (es : List Entry) (e : Entry)
    → Distinct es
    → has_signature e.signature es ≡ false
    → Distinct (es ++ (e ∷ []))
unfolding has_signature Distinct
Distinct-last [] e d h = (refl, tt)
Distinct-last (x ∷ xs) e d h =
    let swap : list_eq e.signature x.signature ≡ false =
      ground (arith, list_eq_iff e.signature x.signature, list_eq_refl x.signature) in
    ground (arith, has_signature-last x.signature xs e d.0 swap, Distinct-last xs e d.1)
