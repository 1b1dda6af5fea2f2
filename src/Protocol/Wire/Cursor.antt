-- ===== src/Protocol/Wire/Cursor.antt =====
-- A read at an offset is a step of a cursor over the input.
use mcrs.Prelude.{
  ℕ, ◌+◌, ◌-◌, ◌≤◌, ◌≡◌, refl, sym, ap, ◌∙◌, String, List, [], ◌∷◌, ◌++◌, length, take, drop, arith,
  length-append, take-append_length, drop-append_length, append_assoc, take-append-drop,
  length-take,
}
use mcrs.Protocol.Error.{ok, >>=-eq-ok}
use mcrs.Protocol.Wire.{
  usize_max, max_packet_payload, ensure_payload_len, read_bytes, read_array, read_u8, read_u16_le,
  read_u32_le, first_byte,
}
use mcrs.Prelude.{All, All-append_left, All-append_right}
use mcrs.Prelude.Bits.{IsByte}
use mcrs.Prelude.Words.{
  IsU16, IsU32, u16_to_le_bytes, u32_to_le_bytes, u16_from_le_bytes, u32_from_le_bytes,
  u16_from-to_le_bytes, u32_from-to_le_bytes,
}

-- `offset` bytes of the input have been read, and `rest` is what follows.
pub record At (input : List ℕ) (offset : ℕ) (rest : List ℕ) : Type 0 where
  pub front : List ℕ
  pub split : input ≡ front ++ rest
  pub read : length front ≡ offset
  pub fits : length input ≤ usize_max

pub At-start : (input : List ℕ) → length input ≤ usize_max → At input 0 input
At-start input h = record { front = []; split = refl; read = refl; fits = h }

module _ {input : List ℕ} {offset : ℕ} (bytes rest : List ℕ) where
  pub At-step : At input offset (bytes ++ rest) → At input (offset + length bytes) rest
  At-step c = record {
    front = c.front ++ bytes;
    split = c.split ∙ sym (append_assoc c.front bytes rest);
    read = omega (arith, length-append c.front bytes, c.read);
    fits = c.fits;
  }

  length-At : At input offset (bytes ++ rest) → length input ≡ offset + length bytes + length rest
  length-At c = omega (
    arith,
    ap length c.split,
    length-append c.front (bytes ++ rest),
    length-append bytes rest,
    c.read,
  )

pub drop-At :
    {input : List ℕ} {offset : ℕ} {rest : List ℕ} → At input offset rest → drop offset input ≡ rest
drop-At {rest = rest} c = rw (c.split, ← c.read) (drop-append_length c.front rest)

module _ {input : List ℕ} {offset : ℕ} (bytes rest : List ℕ) (field : String) where
  take-drop-At : At input offset (bytes ++ rest) → take (length bytes) (drop offset input) ≡ bytes
  take-drop-At c = rw (drop-At c) (take-append_length bytes rest)

  pub read_bytes-At :
      At input offset (bytes ++ rest)
      → read_bytes input offset (length bytes) field ≡ ok (bytes, offset + length bytes)
  unfolding read_bytes
  read_bytes-At c =
      let same : offset + length bytes - offset ≡ length bytes = omega arith in
      ground (arith, length-At bytes rest c, c.fits, take-drop-At c, same)

  pub read_array-At :
      At input offset (bytes ++ rest)
      → read_array (length bytes) input offset field ≡ ok (bytes, offset + length bytes)
  unfolding read_array
  read_array-At c = ground (arith, read_bytes-At c)

module _ {input : List ℕ} {offset n : ℕ} (bytes rest : List ℕ) (count : length bytes ≡ n)
    (c : At input offset (bytes ++ rest)) where
  -- The same for a number of bytes that is known.
  pub At-skip : At input (offset + n) rest
  At-skip = rw count at (At-step bytes rest c)

  pub read_array_At : (field : String) → read_array n input offset field ≡ ok (bytes, offset + n)
  read_array_At field = rw count at (read_array-At bytes rest field c)

module _ {input : List ℕ} {offset : ℕ} (rest : List ℕ) (field : String) where
  pub read_u8-At :
      (b : ℕ) → At input offset (b ∷ rest) → read_u8 input offset field ≡ ok (b, offset + 1)
  unfolding read_u8
  read_u8-At b c = ground (arith, read_bytes-At (b ∷ []) rest field c)

  pub read_u16_le-At :
      (v : ℕ)
      → IsU16 v
      → At input offset (u16_to_le_bytes v ++ rest)
      → read_u16_le input offset field ≡ ok (v, offset + 2)
  unfolding read_u16_le u16_to_le_bytes
  read_u16_le-At v h c =
      rw (read_array-At (u16_to_le_bytes v) rest field c, u16_from-to_le_bytes v h)

  pub read_u32_le-At :
      (v : ℕ)
      → IsU32 v
      → At input offset (u32_to_le_bytes v ++ rest)
      → read_u32_le input offset field ≡ ok (v, offset + 4)
  unfolding read_u32_le u32_to_le_bytes
  read_u32_le-At v h c =
      rw (read_array-At (u32_to_le_bytes v) rest field c, u32_from-to_le_bytes v h)

-- What a successful read says of the input.
pub record Took (input : List ℕ) (n : ℕ) (rest bytes : List ℕ) (end : ℕ) : Type 0 where
  pub after : List ℕ
  pub split : rest ≡ bytes ++ after
  pub count : length bytes ≡ n
  pub cursor : At input end after

module _ {input : List ℕ} {offset : ℕ} {rest : List ℕ} (n : ℕ) (c : At input offset rest) where
  length-take_At : offset + n ≤ length input → length (take n rest) ≡ n
  length-take_At l = omega (arith, length-take n rest, length-At [] rest c)

  take-At : At input offset (take n rest ++ drop n rest)
  take-At = rw (take-append-drop n rest) c

  take-Took : offset + n ≤ length input → Took input n rest (take n rest) (offset + n)
  take-Took l = record {
    after = drop n rest;
    split = sym (take-append-drop n rest);
    count = length-take_At l;
    cursor =
        let step : At input (offset + length (take n rest)) (drop n rest) =
          At-step (take n rest) (drop n rest) take-At in
        rw (length-take_At l) at step;
  }

module _ {input : List ℕ} {offset end : ℕ} {rest bytes : List ℕ} (n : ℕ) (field : String)
    (c : At input offset rest) where
  read_bytes_parts :
      read_bytes input offset n field ≡ ok (bytes, end)
      → (end ≡ offset + n) × (offset + n ≤ length input) × (bytes ≡ take n (drop offset input))
  unfolding read_bytes
  read_bytes_parts h = let same : offset + n - offset ≡ n = omega arith in ground (arith, same)

  pub read_bytes-Took :
      read_bytes input offset n field ≡ ok (bytes, end) → Took input n rest bytes end
  read_bytes-Took h = let (e, l, b) = read_bytes_parts h in rw (e, b, drop-At c) (take-Took n c l)

  read_array_parts :
      read_array n input offset field ≡ ok (bytes, end)
      → read_bytes input offset n field ≡ ok (bytes, end)
  unfolding read_array
  read_array_parts h =
      let (r, e, k) = >>=-eq-ok (read_bytes input offset n field) _ h in ground arith

  pub read_array-Took :
      read_array n input offset field ≡ ok (bytes, end) → Took input n rest bytes end
  read_array-Took h = read_bytes-Took (read_array_parts h)

pub Took-IsByte :
    {input : List ℕ} {n : ℕ} {rest bytes : List ℕ} {end : ℕ} (t : Took input n rest bytes end)
    → All IsByte rest
    → All IsByte bytes × All IsByte t.after
Took-IsByte {bytes = bytes} t h = (
  All-append_left IsByte bytes t.after (rw t.split at h),
  All-append_right IsByte bytes t.after (rw t.split at h),
)

one_byte : (bytes : List ℕ) → length bytes ≡ 1 → first_byte bytes ∷ [] ≡ bytes
unfolding first_byte
one_byte [] h = absurd (omega arith)
one_byte (b ∷ []) h = refl
one_byte (b ∷ c ∷ bs) h = absurd (omega arith)

u16_bytes :
    (bytes : List ℕ)
    → length bytes ≡ 2
    → All IsByte bytes
    → (u16_to_le_bytes (u16_from_le_bytes bytes) ≡ bytes) × IsU16 (u16_from_le_bytes bytes)
unfolding u16_from_le_bytes u16_to_le_bytes
u16_bytes (a ∷ b ∷ []) h p = (ground arith, omega arith)
u16_bytes _ h p = absurd (omega arith)

IsU32-bytes :
    (bytes : List ℕ)
    → length bytes ≡ 4
    → All IsByte bytes
    → (u32_to_le_bytes (u32_from_le_bytes bytes) ≡ bytes) × IsU32 (u32_from_le_bytes bytes)
unfolding u32_from_le_bytes u32_to_le_bytes
IsU32-bytes (a ∷ b ∷ c ∷ d ∷ []) h p = (ground arith, omega arith)
IsU32-bytes _ h p = absurd (omega arith)

module _ {input : List ℕ} {offset end : ℕ} {rest : List ℕ} {v : ℕ} (field : String)
    (c : At input offset rest) where
  pub read_u8-Took : read_u8 input offset field ≡ ok (v, end) → Took input 1 rest (v ∷ []) end
  unfolding read_u8
  read_u8-Took h =
      let ((bs, o), e, k) = >>=-eq-ok (read_bytes input offset 1 field) _ h in
      let t : Took input 1 rest bs o = read_bytes-Took 1 field c e in
      let parts : (first_byte bs ≡ v) × (o ≡ end) = ground arith in
      rw (← parts.0, ← parts.1, one_byte bs t.count) t

  module _ (bytes : All IsByte rest) where
    pub read_u16_le-Took :
        read_u16_le input offset field ≡ ok (v, end)
        → Took input 2 rest (u16_to_le_bytes v) end × IsU16 v
    unfolding read_u16_le
    read_u16_le-Took h =
        let ((bs, o), e, k) = >>=-eq-ok (read_array 2 input offset field) _ h in
        let t : Took input 2 rest bs o = read_array-Took 2 field c e in
        let parts : (u16_from_le_bytes bs ≡ v) × (o ≡ end) = ground arith in
        let (w, u) = u16_bytes bs t.count (Took-IsByte t bytes).0 in
        (rw (← parts.0, ← parts.1, w) t, rw (← parts.0) u)

    pub read_u32_le-Took :
        read_u32_le input offset field ≡ ok (v, end)
        → Took input 4 rest (u32_to_le_bytes v) end × IsU32 v
    unfolding read_u32_le
    read_u32_le-Took h =
        let ((bs, o), e, k) = >>=-eq-ok (read_array 4 input offset field) _ h in
        let t : Took input 4 rest bs o = read_array-Took 4 field c e in
        let parts : (u32_from_le_bytes bs ≡ v) × (o ≡ end) = ground arith in
        let (w, u) = IsU32-bytes bs t.count (Took-IsByte t bytes).0 in
        (rw (← parts.0, ← parts.1, w) t, rw (← parts.0) u)

pub ensure_payload_len_fits :
    (input : List ℕ) → length input ≤ max_packet_payload → ensure_payload_len input ≡ ok tt
unfolding ensure_payload_len
ensure_payload_len_fits input h = ground arith

pub fits-ensure_payload_len :
    (input : List ℕ) (u : Unit {0})
    → ensure_payload_len input ≡ ok u
    → length input ≤ max_packet_payload
unfolding ensure_payload_len
fits-ensure_payload_len input u h = ground arith
