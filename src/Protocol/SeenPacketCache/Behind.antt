-- ===== src/Protocol/SeenPacketCache/Behind.antt =====
-- An entry of the cache of seen packets, and how many stand behind it after each operation.
use mcrs.Prelude.{
  ℕ, ◌+◌, ◌-◌, ◌≤◌, ◌<◌, ◌≡◌, ◌⊎◌, refl, true, false, List, [], ◌∷◌, ◌++◌, length, list_eq, le→leb,
  leb, arith, length-append, Bool-cases, inl, inr,
}
use mcrs.Protocol.SeenPacketCache.{Entry, drop_stale, has_signature, remove_signature, make_room}
use mcrs.Protocol.SeenPacketCache.Entries.{list_eq_refl, length-remove_signature}

-- The entry is in the list, with at most so many entries behind it.
unfoldable pub Behind : ℕ → Entry → List Entry → Type 0
Behind k e [] = ⊥
Behind k e (x ∷ xs) = ((x ≡ e) × (length xs ≤ k)) ⊎ Behind k e xs

pub Behind-drop_stale :
    (k ttl now : ℕ) (e : Entry) (es : List Entry)
    → now - e.inserted ≤ ttl
    → Behind k e es
    → Behind k e (drop_stale ttl now es)
unfolding Behind drop_stale
Behind-drop_stale k ttl now e [] h b = absurd b
Behind-drop_stale k ttl now e (x ∷ xs) h b = elim (Bool-cases (leb (now - x.inserted) ttl)) [
  | inl y ↦ rw y b
  | inr n ↦ elim b [
    | inl (same, _) ↦
        let fresh : leb (now - x.inserted) ttl ≡ true = rw same (le→leb (now - e.inserted) ttl h) in
        absurd (ground (arith, n, fresh))
    | inr later ↦ rw n (Behind-drop_stale k ttl now e xs h later)
  ]
]

pub Behind-remove_signature :
    (k : ℕ) (e : Entry) (t : List ℕ) (es : List Entry)
    → list_eq e.signature t ≡ false
    → Behind k e es
    → Behind k e (remove_signature t es)
unfolding Behind remove_signature
Behind-remove_signature k e t [] n b = absurd b
Behind-remove_signature k e t (x ∷ xs) n b = elim (Bool-cases (list_eq x.signature t)) [
  | inl y ↦ elim b [
    | inl (same, _) ↦
        let no : list_eq x.signature t ≡ false = rw same n in absurd (ground (arith, y, no))
    | inr later ↦ rw y later
  ]
  | inr m ↦ elim b [
    | inl (same, l) ↦ rw m (inl (same, omega (arith, l, length-remove_signature t xs)))
    | inr later ↦ rw m (inr (Behind-remove_signature k e t xs n later))
  ]
]

pub Behind-make_room :
    (k max : ℕ) (e : Entry) (es : List Entry)
    → k + 1 < max
    → Behind k e es
    → Behind k e (make_room max es)
unfolding Behind make_room
Behind-make_room k max e [] h b = absurd b
Behind-make_room k max e (x ∷ xs) h b = elim (Bool-cases (leb max (length (x ∷ xs)))) [
  | inr n ↦ rw n b
  | inl y ↦ elim b [
    | inl (_, l) ↦ absurd (ground (arith, y, l, h))
    | inr later ↦ rw y (Behind-make_room k max e xs h later)
  ]
]

pub Behind-append :
    (k : ℕ) (e y : Entry) (es : List Entry) → Behind k e es → Behind (k + 1) e (es ++ (y ∷ []))
unfolding Behind
Behind-append k e y [] b = absurd b
Behind-append k e y (x ∷ xs) (inl (same, l)) =
    inl (same, omega (arith, l, length-append xs (y ∷ [])))
Behind-append k e y (x ∷ xs) (inr later) = inr (Behind-append k e y xs later)

pub Behind-last : (e : Entry) (es : List Entry) → Behind 0 e (es ++ (e ∷ []))
unfolding Behind
Behind-last e [] = inl (refl, omega arith)
Behind-last e (x ∷ xs) = inr (Behind-last e xs)

pub Behind-more : (k l : ℕ) (e : Entry) (es : List Entry) → k ≤ l → Behind k e es → Behind l e es
unfolding Behind
Behind-more k l e [] h b = absurd b
Behind-more k l e (x ∷ xs) h (inl (same, m)) = inl (same, omega (arith, h, m))
Behind-more k l e (x ∷ xs) h (inr later) = inr (Behind-more k l e xs h later)

pub Behind-has_signature :
    (k : ℕ) (e : Entry) (es : List Entry) → Behind k e es → has_signature e.signature es ≡ true
unfolding Behind has_signature
Behind-has_signature k e [] b = absurd b
Behind-has_signature k e (x ∷ xs) (inl (same, _)) =
    let yes_ : list_eq x.signature e.signature ≡ true = rw same (list_eq_refl e.signature) in
    rw yes_ refl
Behind-has_signature k e (x ∷ xs) (inr later) = ground (arith, Behind-has_signature k e xs later)
