-- ===== src/Protocol/NodePath/Chunks.antt =====
-- The pieces of a slice that is a row of hashes of one size.
use mcrs.Prelude.{
  ℕ, zero, suc, ◌*◌, ◌≤◌, ◌<◌, ◌≡◌, refl, sym, ap, ◌∙◌, List, [], ◌∷◌, ◌++◌, length, take, drop,
  All, arith, length-append, length-take, length-drop, take-append-drop, take-append_length,
  drop-append_length, append_assoc,
}
use mcrs.Protocol.NodePath.{chunks, chunks_exact}

abbrev pub concat : List (List ℕ) → List ℕ
concat [] = []
concat (h ∷ hs) = h ++ concat hs

abbrev pub OfSize : ℕ → List (List ℕ) → Type 0
OfSize n = All (λ h. length h ≡ n)

pub length-concat : (n : ℕ) (hs : List (List ℕ)) → OfSize n hs → length (concat hs) ≡ length hs * n
length-concat n [] o = omega arith
length-concat n (h ∷ hs) o = omega (arith, length-append h (concat hs), length-concat n hs o.1)

pub concat-append : (xs ys : List (List ℕ)) → concat (xs ++ ys) ≡ concat xs ++ concat ys
concat-append [] ys = refl
concat-append (x ∷ xs) ys =
    ap (λ r. x ++ r) (concat-append xs ys) ∙ sym (append_assoc x (concat xs) (concat ys))

-- Any fuel that is enough gives the pieces of a row of hashes.
pub chunks-concat :
    (n fuel : ℕ) (hs : List (List ℕ))
    → 0 < n
    → OfSize n hs
    → length hs ≤ fuel
    → chunks fuel n (concat hs) ≡ hs
unfolding chunks
chunks-concat n zero [] p o f = refl
chunks-concat n (suc fuel) [] p o f = ground arith
chunks-concat n zero (h ∷ hs) p o f = absurd (omega arith)
chunks-concat n (suc fuel) (h ∷ hs) p o f =
    ground
      (arith, length-append h (concat hs), take-piece, drop-piece, chunks-concat n fuel hs p o.1)
  where
    take-piece : take n (h ++ concat hs) ≡ h
    take-piece = rw (← o.0) (take-append_length h (concat hs))

    drop-piece : drop n (h ++ concat hs) ≡ concat hs
    drop-piece = rw (← o.0) (drop-append_length h (concat hs))

pub chunks_exact-concat :
    (n : ℕ) (hs : List (List ℕ)) → 0 < n → OfSize n hs → chunks_exact n (concat hs) ≡ hs
unfolding chunks_exact
chunks_exact-concat n hs p o = chunks-concat n _ hs p o (grind (arith, length-concat n hs o))

-- Every slice whose length is a multiple of `n` is such a row.
pub split_row :
    (n k : ℕ) (bytes : List ℕ)
    → length bytes ≡ k * n
    → (hs : List (List ℕ)) × OfSize n hs × (concat hs ≡ bytes) × (length hs ≡ k)
split_row n zero [] e = ([], tt, refl, refl)
split_row n zero (b ∷ bs) e = absurd (omega arith)
split_row n (suc k) bytes e =
    let (hs, o, c, l) = split_row n k (drop n bytes) (omega (arith, length-drop n bytes)) in
    (
      take n bytes ∷ hs,
      (omega (arith, length-take n bytes), o),
      rw c (take-append-drop n bytes),
      ap suc l,
    )
