-- ===== src/Protocol/Plaintext/SubRequest.antt =====
-- protocol/src/repeater_sub_request_plaintext.rs: a request whose reply takes a given path.
use mathlib.Core.Path.{subst}
use mcrs.Prelude.{
  ℕ, ◌+◌, ◌≤◌, ◌≡◌, refl, sym, ap, ◌∙◌, false, List, [], ◌∷◌, ◌++◌, length-drop, length, drop, All,
  ◌!=◌, arith, length-append, append-nil,
}
use mcrs.Prelude.Bits.{IsByte}
use mcrs.Prelude.Words.{length-u32_to_le_bytes, IsU32, u32_to_le_bytes}
use mcrs.Protocol.Error.{Result, ok, fail_if, ◌>>=◌, ◌>>◌, >>=-elim, invalid_length}
use mcrs.Protocol.Wire.{max_packet_payload, read_u8, read_u32_le}
use mcrs.Protocol.Wire.Cursor.{At, At-start, At-skip, read_u8-At, read_u32_le-At, drop-At}
use mcrs.Protocol.Wire.Inversion.{Cursor-start, read_u8-elim, read_u32_le-elim}
use mcrs.Protocol.NodePath
use mcrs.Protocol.NodePath.Codec
use mcrs.Protocol.NodePath.Hops
use mcrs.Protocol.NodePath.{NodePath}

pub record RepeaterSubRequestPlaintext : Type 0 where
  pub timestamp : ℕ
  pub req_type : ℕ
  pub reply_path : NodePath

unfoldable pub decode : List ℕ → Result RepeaterSubRequestPlaintext
decode input = do
  (timestamp, offset) ← read_u32_le input 0 "repeater sub-request timestamp"
  (req_type, offset) ← read_u8 input offset "repeater sub-request type"
  (path_length, offset) ← read_u8 input offset "repeater sub-request reply_path_length"
  (reply_path, used) ← NodePath.decode_wire path_length (drop offset input)
  fail_if (offset + used != length input) (invalid_length "repeater sub-request reply_path")
  ok (record { timestamp = timestamp; req_type = req_type; reply_path = reply_path })

unfoldable pub encode : RepeaterSubRequestPlaintext → Result (List ℕ)
encode p = do
  path_length ← NodePath.encoded_length_byte p.reply_path
  ok (u32_to_le_bytes p.timestamp ++ (p.req_type ∷ path_length ∷ p.reply_path.bytes))

-- A sub-request that has an encoding is read back from it.
pub decode-encode :
    (p : RepeaterSubRequestPlaintext) (out : List ℕ)
    → IsU32 p.timestamp
    → encode p ≡ ok out
    → decode out ≡ ok p
unfolding decode encode
decode-encode p out t e = >>=-elim (NodePath.encoded_length_byte p.reply_path) _ e λ b f e'.
    let v : Hops.IsValid p.reply_path = Codec.encoded_length_byte-IsValid p.reply_path b f in
    let byte : Codec.length_byte p.reply_path ≡ b =
      ground (arith, Codec.encoded_length_byte_lem p.reply_path v) in
    let path : List ℕ = p.reply_path.bytes in
    let input : List ℕ = u32_to_le_bytes p.timestamp ++ (p.req_type ∷ b ∷ path) in
    let same : input ≡ out = ground arith in
    let len : length input ≡ 6 + length path = omega (
      arith,
      length-append (u32_to_le_bytes p.timestamp) (p.req_type ∷ b ∷ path),
      length-u32_to_le_bytes p.timestamp,
    ) in
    let c₀ : At input 0 input = At-start input (omega (arith, len, v.fits)) in
    let c₁ : At input 4 (p.req_type ∷ b ∷ path) =
      At-skip (u32_to_le_bytes p.timestamp) _ (length-u32_to_le_bytes p.timestamp) c₀ in
    let c₂ : At input 5 (b ∷ path) = At-skip (p.req_type ∷ []) _ refl c₁ in
    let c₃ : At input 6 path = At-skip (b ∷ []) path refl c₂ in
    let read : NodePath.decode_wire b path ≡ ok (p.reply_path, length path) =
      subst (λ x. NodePath.decode_wire x path ≡ ok (p.reply_path, length path)) byte
        (subst
          (λ x.
            NodePath.decode_wire (Codec.length_byte p.reply_path) x
            ≡ ok (p.reply_path, length path))
          (append-nil path) (Codec.decode_wire-bytes p.reply_path [] v)) in
    let end : (6 + length path != length input) ≡ false = ground (arith, len) in
    subst (λ x. decode x ≡ ok p) same
      (rw (
        read_u32_le-At (p.req_type ∷ b ∷ path) "repeater sub-request timestamp" p.timestamp t c₀,
        read_u8-At (b ∷ path) "repeater sub-request type" p.req_type c₁,
        read_u8-At path "repeater sub-request reply_path_length" b c₂,
        drop-At c₃,
        read,
        end,
      ))

-- What is decoded from a slice encodes to that slice.
pub encode-decode :
    (input : List ℕ) (p : RepeaterSubRequestPlaintext)
    → All IsByte input
    → length input ≤ max_packet_payload
    → decode input ≡ ok p
    → (encode p ≡ ok input) × IsU32 p.timestamp
unfolding decode encode
encode-decode input p h l e =
    read_u32_le-elim "repeater sub-request timestamp" (Cursor-start input h (omega arith)) _ e
      λ t o₁ u₁ r₁ e₁. read_u8-elim "repeater sub-request type" r₁.cursor _ e₁ λ k o₂ r₂ e₂.
        read_u8-elim "repeater sub-request reply_path_length" r₂.cursor _ e₂ λ n o₃ r₃ e₃.
          >>=-elim (NodePath.decode_wire n (drop o₃ input)) _ e₃ λ (path, used) f₄ e₄.
            >>=-elim
              (fail_if (o₃ + used != length input)
                (invalid_length "repeater sub-request reply_path"))
              _ e₄
              λ w f₅ e₅.
                let tail : drop o₃ input ≡ r₃.after = drop-At r₃.cursor.at in
                let (v, byte, count, split) =
                  Codec.decode_wire_accepts n (drop o₃ input) path used r₃.these.0 f₄ in
                let end : o₃ + used ≡ length input = ground arith in
                let left : length (drop used (drop o₃ input)) ≡ 0 =
                  omega (arith, length-drop used (drop o₃ input), length-drop o₃ input) in
                let whole : path.bytes ≡ r₃.after =
                  sym (append-nil path.bytes)
                  ∙ ap (λ x. path.bytes ++ x) (sym (no_bytes _ left))
                  ∙ split
                  ∙ tail in
                let q : RepeaterSubRequestPlaintext = record {
                  timestamp = t;
                  req_type = k;
                  reply_path = path;
                } in
                let same : q ≡ p = ground arith in
                let back : u32_to_le_bytes t ++ (k ∷ n ∷ path.bytes) ≡ input =
                  ap (λ x. u32_to_le_bytes t ++ (k ∷ n ∷ x)) whole
                  ∙ ap (λ x. u32_to_le_bytes t ++ (k ∷ x)) (sym r₃.split)
                  ∙ ap (λ x. u32_to_le_bytes t ++ x) (sym r₂.split)
                  ∙ sym r₁.split in
                subst
                  (λ (x : RepeaterSubRequestPlaintext). (encode x ≡ ok input) × IsU32 x.timestamp)
                  same (rw (Codec.encoded_length_byte_lem path v, byte) (ap ok back), u₁)
  where
    no_bytes : (xs : List ℕ) → length xs ≡ 0 → xs ≡ []
    no_bytes [] h = refl
    no_bytes (x ∷ xs) h = absurd (omega arith)
