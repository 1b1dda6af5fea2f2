-- ===== src/Protocol/NodePath/Codec.antt =====
-- A path on the wire: the length byte and the bytes behind it.
use mathlib.Core.Path.{subst}
use mcrs.Prelude.{
  ℕ, ◌+◌, ◌*◌, ◌/◌, ◌%◌, ◌≤◌, ◌≡◌, refl, sym, ap, ◌∙◌, bit_and, List, ◌++◌, length, take, drop,
  arith, length-append, length-take, take-append_length, take-append-drop, inl, inr, ltb,
}
use mcrs.Prelude.Bits.{IsByte, shr, bit_and_0x3f, bit_or_at_6}
use mcrs.Protocol.Error.{
  >>=-elim, ok, ok_or, fail_if, >>=-eq-ok, Result-cases, invalid_path_length, path_too_long,
  truncated,
}
use mcrs.Protocol.Wire.{max_path_size}
use mcrs.Protocol.HashSize.{
  HashSize, size, code, from_code, code-lt, from_code-code, code-from_code,
}
use mcrs.Protocol.NodePath.{
  NodePath, hop_count, validate, new, checked_mul, encoded_length_byte, decode_wire,
}
use mcrs.Protocol.NodePath.Hops.{IsValid, validate-IsValid, IsValid-validate, mul_size, div_size}

abbrev pub length_byte : NodePath → ℕ
length_byte p = code p.hash_size * 64 + hop_count p

pub encoded_length_byte_lem :
    (p : NodePath) → IsValid p → encoded_length_byte p ≡ ok (length_byte p)
unfolding encoded_length_byte
encoded_length_byte_lem p v =
    let wrap : hop_count p % 256 ≡ hop_count p = omega (arith, v.short) in
    rw (validate-IsValid p v, wrap)
      (ap ok (
        bit_or_at_6 (code p.hash_size) (hop_count p) (omega (arith, code-lt p.hash_size))
          (omega (arith, v.short))))

pub encoded_length_byte-IsValid : (p : NodePath) (b : ℕ) → encoded_length_byte p ≡ ok b → IsValid p
unfolding encoded_length_byte
encoded_length_byte-IsValid p b e = elim (Result-cases (validate p)) [
  | inl (u, done) ↦ IsValid-validate p done
  | inr (x, failed) ↦ absurd (ground arith)
]

pub new_lem : (p : NodePath) → IsValid p → new p.hash_size p.bytes ≡ ok p
unfolding new
new_lem p v = rw (validate-IsValid p v)

pub new-IsValid :
    (s : HashSize) (bytes : List ℕ) (p : NodePath)
    → new s bytes ≡ ok p
    → IsValid p × (p.hash_size ≡ s) × (p.bytes ≡ bytes)
unfolding new
new-IsValid s bytes p e =
    let q : NodePath = record { hash_size = s; bytes = bytes } in
    let (u, done, k) = >>=-eq-ok (validate q) _ e in
    let same : q ≡ p = ground arith in
    subst (λ (x : NodePath). IsValid x × (x.hash_size ≡ s) × (x.bytes ≡ bytes)) same
      (IsValid-validate q done, refl, refl)

length_bytes : (p : NodePath) → IsValid p → length p.bytes ≡ hop_count p * size p.hash_size
unfolding hop_count
length_bytes p v = mul_size p.hash_size _ v.whole

-- A valid path is read back from its length byte and its bytes, whatever follows them.
pub decode_wire-bytes :
    (p : NodePath) (rest : List ℕ)
    → IsValid p
    → decode_wire (length_byte p) (p.bytes ++ rest) ≡ ok (p, length p.bytes)
unfolding decode_wire checked_mul
decode_wire-bytes p rest v =
    let b : ℕ = length_byte p in
    let byte : IsByte b = omega (arith, v.short, code-lt p.hash_size) in
    let hash_size : from_code (shr b 6) ≡ ok p.hash_size =
      ap from_code (omega (arith, v.short)) ∙ from_code-code p.hash_size in
    let hops : bit_and b 0x3f ≡ hop_count p = bit_and_0x3f b byte ∙ omega (arith, v.short) in
    rw (hash_size, hops, ← length_bytes p v)
      (ground
        (arith, take-append_length p.bytes rest, new_lem p v, v.fits, length-append p.bytes rest))

hops_of :
    (q : NodePath) (s : HashSize) (len k : ℕ)
    → q.hash_size ≡ s
    → length q.bytes ≡ len
    → len ≡ k * size s
    → hop_count q ≡ k
unfolding hop_count
hops_of q s len k hs l e = rw (l, hs, e) (div_size s k)

-- A path that is read from the wire is valid, its length byte is the one that was read, and its
-- bytes are the first bytes behind it.
pub decode_wire_accepts :
    (b : ℕ) (input : List ℕ) (p : NodePath) (used : ℕ)
    → IsByte b
    → decode_wire b input ≡ ok (p, used)
    → IsValid p
      × (length_byte p ≡ b)
      × (used ≡ length p.bytes)
      × (p.bytes ++ drop used input ≡ input)
unfolding decode_wire checked_mul
decode_wire_accepts b input p used h e =
    let hops : bit_and b 0x3f ≡ b % 64 = bit_and_0x3f b h in
    >>=-elim (from_code (shr b 6)) _ e λ s es e₁.
      >>=-elim (ok_or (checked_mul (bit_and b 0x3f) (size s)) invalid_path_length) _ e₁ λ len el e₂.
        >>=-elim (fail_if (ltb max_path_size len) (path_too_long len)) _ e₂ λ u₁ f₁ e₃.
          >>=-elim (fail_if (ltb (length input) len) (truncated "path")) _ e₃ λ u₂ f₂ e₄.
            >>=-elim (new s (take len input)) _ e₄ λ q built e₅.
              let (valid, hash_size, bytes) = new-IsValid s (take len input) q built in
              let product : len ≡ b % 64 * size s = ground (arith, hops) in
              let enough : len ≤ length input = ground arith in
              let same : q ≡ p = ground arith in
              let end : len ≡ used = ground arith in
              let count : length q.bytes ≡ len =
                omega (arith, ap length bytes, length-take len input) in
              let n : hop_count q ≡ b % 64 = hops_of q s len (b % 64) hash_size count product in
              let code_of : code q.hash_size ≡ b / 64 =
                ap code hash_size ∙ code-from_code (shr b 6) es in
              rw (← same, ← end)
                (
                  valid,
                  omega (arith, n, code_of),
                  sym count,
                  ap (λ x. x ++ drop len input) bytes ∙ take-append-drop len input,
                )
