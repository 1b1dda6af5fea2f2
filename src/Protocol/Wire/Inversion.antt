-- ===== src/Protocol/Wire/Inversion.antt =====
-- A decoder that succeeded, taken apart read by read.
use mcrs.Prelude.{ℕ, ◌≡◌, String, List, [], ◌∷◌, ◌++◌, length, All, ◌≤◌, arith}
use mcrs.Prelude.Bits.{IsByte}
use mcrs.Prelude.Words.{IsU16, IsU32, u16_to_le_bytes, u32_to_le_bytes}
use mcrs.Protocol.Error.{Result, ok, >>=-elim, ◌>>=◌}
use mcrs.Protocol.Wire.{
  read_array, read_u8, read_u16_le, read_u32_le, ensure_payload_len, max_packet_payload, usize_max,
}
use mcrs.Protocol.Wire.Cursor.{
  At, At-start, Took, Took-IsByte, read_array-Took, read_u8-Took, read_u16_le-Took,
  read_u32_le-Took, fits-ensure_payload_len,
}

-- The cursor of a decoder whose input is made of bytes.
pub record Cursor (input : List ℕ) (offset : ℕ) (rest : List ℕ) : Type 0 where
  pub at : At input offset rest
  pub are_bytes : All IsByte rest

pub record Read (input : List ℕ) (n : ℕ) (rest bytes : List ℕ) (end : ℕ) : Type 0 where
  pub after : List ℕ
  pub split : rest ≡ bytes ++ after
  pub count : length bytes ≡ n
  pub these : All IsByte bytes
  pub cursor : Cursor input end after

Read-Took :
    {input : List ℕ} {n : ℕ} {rest bytes : List ℕ} {end : ℕ}
    → Took input n rest bytes end
    → All IsByte rest
    → Read input n rest bytes end
Read-Took t h = record {
  after = t.after;
  split = t.split;
  count = t.count;
  these = (Took-IsByte t h).0;
  cursor = record { at = t.cursor; are_bytes = (Took-IsByte t h).1 };
}

pub Cursor-start :
    (input : List ℕ) → All IsByte input → length input ≤ usize_max → Cursor input 0 input
Cursor-start input h l = record { at = At-start input l; are_bytes = h }

module _ {ℓ} {P : Type ℓ} {B : Type 0} {b : B} {input : List ℕ} {offset : ℕ} {rest : List ℕ}
    (field : String) (c : Cursor input offset rest) where
  pub read_array-elim :
      (n : ℕ) (f : List ℕ × ℕ → Result B)
      → (read_array n input offset field >>= f) ≡ ok b
      → ((bytes : List ℕ) (end : ℕ) → Read input n rest bytes end → f (bytes, end) ≡ ok b → P)
      → P
  read_array-elim n f e k =
      >>=-elim (read_array n input offset field) f e
        λ (bytes, end) r e'. k bytes end (Read-Took (read_array-Took n field c.at r) c.are_bytes) e'

  module _ (f : ℕ × ℕ → Result B) where
    pub read_u8-elim :
        (read_u8 input offset field >>= f) ≡ ok b
        → ((v end : ℕ) → Read input 1 rest (v ∷ []) end → f (v, end) ≡ ok b → P)
        → P
    read_u8-elim e k =
        >>=-elim (read_u8 input offset field) f e
          λ (v, end) r e'. k v end (Read-Took (read_u8-Took field c.at r) c.are_bytes) e'

    pub read_u16_le-elim :
        (read_u16_le input offset field >>= f) ≡ ok b
        → ((v end : ℕ)
            → IsU16 v
            → Read input 2 rest (u16_to_le_bytes v) end
            → f (v, end) ≡ ok b
            → P)
        → P
    read_u16_le-elim e k = >>=-elim (read_u16_le input offset field) f e λ (v, end) r e'.
        let (t, u) = read_u16_le-Took field c.at c.are_bytes r in
        k v end u (Read-Took t c.are_bytes) e'

    pub read_u32_le-elim :
        (read_u32_le input offset field >>= f) ≡ ok b
        → ((v end : ℕ)
            → IsU32 v
            → Read input 4 rest (u32_to_le_bytes v) end
            → f (v, end) ≡ ok b
            → P)
        → P
    read_u32_le-elim e k = >>=-elim (read_u32_le input offset field) f e λ (v, end) r e'.
        let (t, u) = read_u32_le-Took field c.at c.are_bytes r in
        k v end u (Read-Took t c.are_bytes) e'

module _ {ℓ} {P : Type ℓ} {B : Type 0} {b : B} where
  pub ensure-elim :
      (input : List ℕ) (f : Unit {0} → Result B)
      → All IsByte input
      → (ensure_payload_len input >>= f) ≡ ok b
      → (length input ≤ max_packet_payload → Cursor input 0 input → f tt ≡ ok b → P)
      → P
  ensure-elim input f h e k = >>=-elim (ensure_payload_len input) f e λ u r e'.
      let fits : length input ≤ max_packet_payload = fits-ensure_payload_len input u r in
      k fits (Cursor-start input h (omega arith)) e'
