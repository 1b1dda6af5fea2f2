-- ===== src/Protocol/TracePath.antt =====
-- protocol/src/trace_path.rs: the signal-to-noise samples that a trace has gathered.
use mathlib.Core.Path.{subst, ap₂}
use mcrs.Prelude.{
  map, le→not-ltb, All-append, All-append_left, take-append-drop, take-append_length, length-take,
  ℕ, suc, ◌+◌, ◌%◌, ◌≤◌, ◌<◌, ◌≡◌, refl, ap, ◌∙◌, bit_and, false, ◌||◌, List, [], ◌∷◌, ◌++◌, length,
  take, drop, All, ◌!=◌, ltb, leb, arith, length-append,
}
use mcrs.Prelude.Bits.{IsByte, bit_and_0x3f, bit_and_0xc0}
use mcrs.Prelude.Words.{ℤ, IsI8, as_i8, as_u8, as_i8-as_u8, as_u8-as_i8, as_i8-IsI8}
use mcrs.Protocol.Error.{Result, ok, err, fail_if, ◌>>◌, >>=-elim, truncated}
use mcrs.Protocol.Error.{invalid_trace_path_length}

pub record TracePath : Type 0 where
  pub consumed_hops : ℕ
  pub snr_samples : List ℤ

unfoldable pub new : List ℤ → Result TracePath
new snr_samples = do
  fail_if (ltb 63 (length snr_samples)) (invalid_trace_path_length (length snr_samples % 256))
  ok (record { consumed_hops = length snr_samples % 256; snr_samples = snr_samples })

unfoldable pub decode : ℕ → List ℕ → Result (TracePath × ℕ)
decode path_length input = do
  fail_if (bit_and path_length 0xc0 != 0) (invalid_trace_path_length path_length)
  let consumed = bit_and path_length 0x3f
  fail_if (ltb (length input) consumed) (truncated "trace snr path")
  ok (record { consumed_hops = consumed; snr_samples = map as_i8 (take consumed input) }, consumed)

unfoldable pub encoded_length_byte : TracePath → Result ℕ
encoded_length_byte p = do
  fail_if (p.consumed_hops != length p.snr_samples || ltb 63 p.consumed_hops)
      (invalid_trace_path_length p.consumed_hops)
  ok p.consumed_hops

-- The bytes that the method appends to `out`.
unfoldable pub encode_bytes : TracePath → List ℕ
encode_bytes p = map as_u8 p.snr_samples

-- The path after the call.
unfoldable pub append_snr : TracePath → ℤ → Result TracePath
append_snr p snr_quarters = do
  fail_if (leb 63 p.consumed_hops) (invalid_trace_path_length p.consumed_hops)
  ok (record {
    consumed_hops = p.consumed_hops + 1;
    snr_samples = p.snr_samples ++ snr_quarters ∷ [];
  })

pub record IsValid (p : TracePath) : Type 0 where
  pub counted : p.consumed_hops ≡ length p.snr_samples
  pub short : p.consumed_hops ≤ 63
  pub samples : All IsI8 p.snr_samples

-- A valid trace path with room takes one more sample of 8 bits and stays valid; a full one refuses
-- it.
pub append_snr-IsValid :
    (p : TracePath) (snr : ℤ)
    → IsValid p
    → IsI8 snr
    → (p.consumed_hops < 63
        → (q : TracePath) × (append_snr p snr ≡ ok q)
          × IsValid q
          × (q.snr_samples ≡ p.snr_samples ++ snr ∷ []))
      × (p.consumed_hops ≡ 63 → append_snr p snr ≡ err (invalid_trace_path_length 63))
unfolding append_snr
append_snr-IsValid p snr v s = (
  (λ room. (
    record { consumed_hops = p.consumed_hops + 1; snr_samples = p.snr_samples ++ snr ∷ [] },
    ground arith,
    record {
      counted = omega (arith, v.counted, length-append p.snr_samples (snr ∷ []));
      short = omega arith;
      samples = All-append IsI8 p.snr_samples (snr ∷ []) v.samples (s, tt);
    },
    refl,
  )),
  λ full. ground arith,
)

map-as : (zs : List ℤ) → All IsI8 zs → map as_i8 (map as_u8 zs) ≡ zs
map-as [] h = refl
map-as (z ∷ zs) h = ap₂ ◌∷◌ (as_i8-as_u8 z h.0) (map-as zs h.1)

map-back : (bs : List ℕ) → All IsByte bs → map as_u8 (map as_i8 bs) ≡ bs
map-back [] h = refl
map-back (b ∷ bs) h = ap₂ ◌∷◌ (as_u8-as_i8 b h.0) (map-back bs h.1)

All-map-as : (bs : List ℕ) → All IsByte bs → All IsI8 (map as_i8 bs)
All-map-as [] h = tt
All-map-as (b ∷ bs) h = (as_i8-IsI8 b h.0, All-map-as bs h.1)

length-map-as_u8 : (zs : List ℤ) → length (map as_u8 zs) ≡ length zs
length-map-as_u8 [] = refl
length-map-as_u8 (z ∷ zs) = ap suc (length-map-as_u8 zs)

length-map-as_i8 : (bs : List ℕ) → length (map as_i8 bs) ≡ length bs
length-map-as_i8 [] = refl
length-map-as_i8 (b ∷ bs) = ap suc (length-map-as_i8 bs)

pub length-encode_bytes : (p : TracePath) → length (encode_bytes p) ≡ length p.snr_samples
unfolding encode_bytes
length-encode_bytes p = length-map-as_u8 p.snr_samples

pub encoded_length_byte_lem :
    (p : TracePath) → IsValid p → encoded_length_byte p ≡ ok p.consumed_hops
unfolding encoded_length_byte
encoded_length_byte_lem p v = ground (arith, v.counted, v.short)

pub encoded_length_byte_parts :
    (p : TracePath) (b : ℕ)
    → encoded_length_byte p ≡ ok b
    → (p.consumed_hops ≡ b) × (p.consumed_hops ≡ length p.snr_samples) × (p.consumed_hops ≤ 63)
unfolding encoded_length_byte
encoded_length_byte_parts p b e = ground arith

-- A trace path is read back from its length byte and its samples, whatever follows them.
pub decode-encode :
    (p : TracePath) (rest : List ℕ)
    → IsValid p
    → decode p.consumed_hops (encode_bytes p ++ rest) ≡ ok (p, p.consumed_hops)
unfolding decode encode_bytes
decode-encode p rest v =
    let n : ℕ = p.consumed_hops in
    let bytes : List ℕ = map as_u8 p.snr_samples in
    let count : length bytes ≡ n = omega (arith, length-map-as_u8 p.snr_samples, v.counted) in
    let high : bit_and n 0xc0 ≡ 0 =
      bit_and_0xc0 n (omega (arith, v.short)) ∙ omega (arith, v.short) in
    let low : bit_and n 0x3f ≡ n =
      bit_and_0x3f n (omega (arith, v.short)) ∙ omega (arith, v.short) in
    let front : take n (bytes ++ rest) ≡ bytes = rw (← count) (take-append_length bytes rest) in
    let long : ltb (length (bytes ++ rest)) n ≡ false =
      le→not-ltb n (length (bytes ++ rest)) (omega (arith, length-append bytes rest, count)) in
    rw (high, low, long, front, map-as p.snr_samples v.samples)

-- What is decoded has the length byte that was read, and its samples stand at the front of the
-- slice.
pub encode-decode :
    (b : ℕ) (input : List ℕ) (p : TracePath) (used : ℕ)
    → IsByte b
    → All IsByte input
    → decode b input ≡ ok (p, used)
    → IsValid p × (p.consumed_hops ≡ b) × (used ≡ b) × (encode_bytes p ++ drop used input ≡ input)
unfolding decode encode_bytes
encode-decode b input p used h bytes e =
    >>=-elim (fail_if (bit_and b 0xc0 != 0) (invalid_trace_path_length b)) _ e λ w₁ f₁ e₁.
      >>=-elim (fail_if (ltb (length input) (bit_and b 0x3f)) (truncated "trace snr path")) _ e₁
        λ w₂ f₂ e₂.
          let small : b < 64 = ground (arith, bit_and_0xc0 b h) in
          let low : bit_and b 0x3f ≡ b = bit_and_0x3f b h ∙ omega arith in
          let enough : b ≤ length input = ground (arith, low) in
          let front : List ℕ = take b input in
          let q : TracePath = record { consumed_hops = b; snr_samples = map as_i8 front } in
          let same : q ≡ p = ground (arith, low) in
          let end : used ≡ b = ground (arith, low) in
          let these : All IsByte front =
            All-append_left IsByte front (drop b input) (rw (take-append-drop b input) bytes) in
          let count : length front ≡ b = omega (arith, length-take b input) in
          subst
            (λ x.
              IsValid x
              × (x.consumed_hops ≡ b)
              × (used ≡ b)
              × (encode_bytes x ++ drop used input ≡ input))
            same
            (
              record {
                counted = omega (arith, length-map-as_i8 front, count);
                short = omega arith;
                samples = All-map-as front these;
              },
              refl,
              end,
              rw (end, map-back front these) (take-append-drop b input),
            )
