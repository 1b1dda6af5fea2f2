-- ===== src/Protocol/Payload/Ack.antt =====
-- protocol/src/ack_payload.rs: the hash of an acknowledged message. `encode` gives the bytes that
-- the method appends to `out`.
use mcrs.Prelude.{
  ℕ, ◌≡◌, refl, sym, ap, ◌∙◌, List, [], ◌∷◌, ◌++◌, length, All, ◌!=◌, arith, length-append,
  append-nil,
}
use mcrs.Prelude.Bits.{IsByte}
use mcrs.Protocol.Error.{Result, ok, fail_if, ◌>>=◌, ◌>>◌, >>=-elim, invalid_length}
use mcrs.Protocol.Wire.{read_array}
use mcrs.Protocol.Wire.Cursor.{At, At-start, read_array_At}
use mcrs.Protocol.Wire.Inversion.{Cursor-start, read_array-elim}

pub record AckPayload : Type 0 where
  pub ack_hash : List ℕ

unfoldable pub decode : List ℕ → Result AckPayload
decode input = do
  fail_if (length input != 4) (invalid_length "ack payload")
  (ack_hash, offset) ← read_array 4 input 0 "ack payload"
  ok (record { ack_hash = ack_hash })

unfoldable pub encode : AckPayload → List ℕ
encode p = p.ack_hash

pub record IsValid (p : AckPayload) : Type 0 where
  pub hash_size : length p.ack_hash ≡ 4

-- An acknowledgement is read back from its encoding.
pub decode-encode : (p : AckPayload) → IsValid p → decode (encode p) ≡ ok p
unfolding decode encode
decode-encode p v =
    let c₀ : At p.ack_hash 0 (p.ack_hash ++ []) =
      rw append-nil (At-start p.ack_hash (omega (arith, v.hash_size))) in
    rw (v.hash_size, read_array_At p.ack_hash [] v.hash_size c₀ "ack payload")

-- What is decoded from a slice encodes to that slice.
pub encode-decode :
    (input : List ℕ) (p : AckPayload)
    → All IsByte input
    → decode input ≡ ok p
    → (encode p ≡ input) × IsValid p
unfolding decode encode
encode-decode input p h e =
    >>=-elim (fail_if (length input != 4) (invalid_length "ack payload")) _ e λ u f e₀.
      let four : length input ≡ 4 = ground arith in
      read_array-elim "ack payload" (Cursor-start input h (omega arith)) 4 _ e₀ λ hash o₁ r₁ e₁.
        let last : r₁.after ≡ [] =
          nothing_left hash r₁.after (ap length (sym r₁.split) ∙ four) r₁.count in
        let whole : input ≡ hash = r₁.split ∙ ap (λ x. hash ++ x) last ∙ append-nil hash in
        (cc whole, record { hash_size = cc })
  where
    nothing_left : (xs ys : List ℕ) → length (xs ++ ys) ≡ 4 → length xs ≡ 4 → ys ≡ []
    nothing_left xs [] l k = refl
    nothing_left xs (y ∷ ys) l k = absurd (omega (arith, length-append xs (y ∷ ys)))
