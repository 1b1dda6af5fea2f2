-- ===== src/Protocol/NodePath/Reversed.antt =====
-- path.rs: reversing a path, and what tells two paths apart.
use mathlib.Core.List.{reverse, reverse-cons, reverse-reverse}
use mcrs.Prelude.{
  ℕ, ◌*◌, ◌≡◌, refl, sym, ap, ◌∙◌, List, [], ◌∷◌, ◌++◌, length, arith, length-append, append_assoc,
  append-nil,
}
use mcrs.Protocol.HashSize.{size}
use mcrs.Protocol.NodePath.{NodePath, hop_count, hashes, reversed, extend_rev}
use mcrs.Protocol.NodePath.Chunks.{concat, OfSize, concat-append}
use mcrs.Protocol.NodePath.Hops.{
  IsValid, Row, IsValid-Row, hop_count-hashes, OfSize-append, Row-IsValid, hashes-Row, length-Row,
}

extend_rev-concat :
    (out : List ℕ) (hs : List (List ℕ)) → extend_rev out hs ≡ out ++ concat (reverse hs)
unfolding extend_rev
extend_rev-concat out [] = sym (append-nil out)
extend_rev-concat out (h ∷ hs) =
    rw
      (
        extend_rev-concat out hs,
        reverse-cons h hs,
        concat-append (reverse hs) (h ∷ []),
        append-nil h,
      )
      (append_assoc out (concat (reverse hs)) h)

OfSize-reverse : (n : ℕ) (hs : List (List ℕ)) → OfSize n hs → OfSize n (reverse hs)
OfSize-reverse n [] o = tt
OfSize-reverse n (h ∷ hs) o =
    rw (reverse-cons h hs)
      (OfSize-append n (reverse hs) (h ∷ []) (OfSize-reverse n hs o.1) (o.0, tt))

length-reverse : (hs : List (List ℕ)) → length (reverse hs) ≡ length hs
length-reverse [] = refl
length-reverse (h ∷ hs) =
    omega
      (arith, ap length (reverse-cons h hs), length-append (reverse hs) (h ∷ []), length-reverse hs)

reversed-Row : (p : NodePath) → IsValid p → Row (reversed p) (reverse (hashes p))
unfolding reversed hashes
reversed-Row p v = record {
  sized = OfSize-reverse _ (hashes p) (IsValid-Row p v).sized;
  joined = sym (extend_rev-concat [] (hashes p));
}

hash_size-reversed : (p : NodePath) → (reversed p).hash_size ≡ p.hash_size
unfolding reversed
hash_size-reversed p = refl

-- A reversed valid path has the hashes in reverse order, and is valid.
pub reversed-hashes :
    (p : NodePath)
    → IsValid p
    → (hashes (reversed p) ≡ reverse (hashes p))
      × IsValid (reversed p)
      × ((reversed p).hash_size ≡ p.hash_size)
reversed-hashes p v =
    let r : Row (reversed p) (reverse (hashes p)) = reversed-Row p v in
    let count : length (reverse (hashes p)) ≡ hop_count p =
      length-reverse (hashes p) ∙ sym (hop_count-hashes p v) in
    let same : length (reverse (hashes p)) * size (reversed p).hash_size ≡ length p.bytes =
      rw (length-reverse (hashes p), hash_size-reversed p)
        (sym (length-Row p (hashes p) (IsValid-Row p v))) in
    (
      hashes-Row (reversed p) _ r,
      Row-IsValid (reversed p) _ r (omega (arith, count, v.short)) (omega (arith, same, v.fits)),
      hash_size-reversed p,
    )

-- A valid path is determined by its hash size and its hashes.
pub path_ext :
    (p q : NodePath)
    → IsValid p
    → IsValid q
    → p.hash_size ≡ q.hash_size
    → hashes p ≡ hashes q
    → p ≡ q
path_ext p q v w s e =
    let bytes : p.bytes ≡ q.bytes =
      sym (IsValid-Row p v).joined ∙ ap concat e ∙ (IsValid-Row q w).joined in
    λ i. record { hash_size = s i; bytes = bytes i }

-- Reversing a valid path twice gives it back.
pub reversed-reversed : (p : NodePath) → IsValid p → reversed (reversed p) ≡ p
reversed-reversed p v =
    let (h, w, s) = reversed-hashes p v in
    let (h', w', s') = reversed-hashes (reversed p) w in
    path_ext (reversed (reversed p)) p w' v (s' ∙ s)
      (h' ∙ ap reverse h ∙ reverse-reverse (hashes p))
