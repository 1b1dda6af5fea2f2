-- ===== src/Protocol/TransportCodes.antt =====
-- protocol/src/transport_codes.rs: the codes of a packet that is confined to a region. `encode`
-- gives the bytes that the method appends to `out`.
use mathlib.Core.Path.{subst}
use mcrs.Prelude.{
  ℕ, ◌≤◌, ◌≡◌, refl, sym, ap, ◌∙◌, List, ◌++◌, length, drop, All, arith, length-append,
  append_assoc,
}
use mcrs.Prelude.Bits.{IsByte}
use mcrs.Prelude.Words.{length-u16_to_le_bytes, IsU16, u16_to_le_bytes}
use mcrs.Protocol.Error.{Result, ok, ◌>>=◌}
use mcrs.Protocol.Wire.{read_u16_le}
use mcrs.Protocol.Wire.Cursor.{At, At-start, At-skip, read_u16_le-At}
use mcrs.Protocol.Wire.Inversion.{Cursor-start, read_u16_le-elim}

pub record TransportCodes : Type 0 where
  pub primary : ℕ
  pub secondary : ℕ

unfoldable pub new : ℕ → TransportCodes
new primary = record { primary = primary; secondary = 0 }

unfoldable pub decode : List ℕ → Result TransportCodes
decode input = do
  (primary, offset) ← read_u16_le input 0 "transport primary"
  (secondary, offset) ← read_u16_le input offset "transport secondary"
  ok (record { primary = primary; secondary = secondary })

unfoldable pub encode : TransportCodes → List ℕ
encode c = u16_to_le_bytes c.primary ++ u16_to_le_bytes c.secondary

pub record IsValid (c : TransportCodes) : Type 0 where
  pub first : IsU16 c.primary
  pub second : IsU16 c.secondary

pub length-encode : (c : TransportCodes) → length (encode c) ≡ 4
unfolding encode u16_to_le_bytes
length-encode c = refl

drop-codes : (c : TransportCodes) (rest : List ℕ) → drop 4 (encode c ++ rest) ≡ rest
unfolding encode u16_to_le_bytes
drop-codes c rest = refl

-- The codes at the front of a slice are read back, whatever follows them.
pub decode-encode :
    (c : TransportCodes) (rest : List ℕ)
    → IsValid c
    → length rest ≤ 255
    → decode (encode c ++ rest) ≡ ok c
unfolding decode encode
decode-encode c rest v short =
    let a : List ℕ = u16_to_le_bytes c.primary in
    let b : List ℕ = u16_to_le_bytes c.secondary in
    let input : List ℕ = (a ++ b) ++ rest in
    let small : length input ≤ 259 = omega (
      arith,
      length-append (a ++ b) rest,
      length-append a b,
      length-u16_to_le_bytes c.primary,
      length-u16_to_le_bytes c.secondary,
    ) in
    let c₀ : At input 0 (a ++ (b ++ rest)) =
      subst (At input 0) (append_assoc a b rest) (At-start input (omega arith)) in
    let c₁ : At input 2 (b ++ rest) = At-skip a (b ++ rest) (length-u16_to_le_bytes c.primary) c₀ in
    rw (
      read_u16_le-At (b ++ rest) "transport primary" c.primary v.first c₀,
      read_u16_le-At rest "transport secondary" c.secondary v.second c₁,
    )

-- What is decoded stands at the front of the slice.
pub encode-decode :
    (input : List ℕ) (c : TransportCodes)
    → All IsByte input
    → length input ≤ 255
    → decode input ≡ ok c
    → (encode c ++ drop 4 input ≡ input) × IsValid c × (4 ≤ length input)
unfolding decode encode
encode-decode input c h l e =
    read_u16_le-elim "transport primary" (Cursor-start input h (omega arith)) _ e λ a o₁ u₁ r₁ e₁.
      read_u16_le-elim "transport secondary" r₁.cursor _ e₁ λ b o₂ u₂ r₂ e₂.
        let q : TransportCodes = record { primary = a; secondary = b } in
        let same : q ≡ c = ground arith in
        let whole : encode q ++ r₂.after ≡ input =
          append_assoc (u16_to_le_bytes a) (u16_to_le_bytes b) r₂.after
          ∙ sym (r₁.split ∙ ap (λ x. u16_to_le_bytes a ++ x) r₂.split) in
        let tail : r₂.after ≡ drop 4 input =
          sym (ap (drop 4) (sym whole) ∙ drop-codes q r₂.after) in
        let four : 4 ≤ length input =
          omega (arith, ap length whole, length-append (encode q) r₂.after, length-encode q) in
        subst (λ x. (encode x ++ drop 4 input ≡ input) × IsValid x × (4 ≤ length input)) same
          (ap (λ x. encode q ++ x) (sym tail) ∙ whole, record { first = u₁; second = u₂ }, four)
