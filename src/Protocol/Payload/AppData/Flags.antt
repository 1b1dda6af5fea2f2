-- ===== src/Protocol/Payload/AppData/Flags.antt =====
-- The flags byte of an advert's app data: the node type in the low nibble, one bit for each field
-- that is there.
use mcrs.Prelude.{ℕ, ◌%◌, ◌<◌, ◌≡◌, refl, bit_and, Bool, true, false, ◌&&◌, arith, ◌==◌, ◌!=◌, leb}
use mcrs.Prelude.Bits.{IsByte, all_below, all_below_sound, agree_below}
use mcrs.Protocol.Payload.AppData.{flags_of}

every : (Bool → Bool) → Bool
every p = p true && p false

every_sound : (p : Bool → Bool) (b : Bool) → every p ≡ true → p b ≡ true
unfolding every
every_sound p true h = ground arith
every_sound p false h = ground arith

same_bool : Bool → Bool → Bool
same_bool true b = b
same_bool false true = false
same_bool false false = true

same_bool-eq : (a b : Bool) → same_bool a b ≡ true → a ≡ b
unfolding same_bool
same_bool-eq true true h = refl
same_bool-eq true false h = cc
same_bool-eq false true h = cc
same_bool-eq false false h = refl

reads_back : ℕ → Bool → Bool → Bool → Bool → Bool
reads_back n a b c d =
    let f = flags_of n a b c d in
    same_bool (bit_and f 0x10 != 0) a
    && (same_bool (bit_and f 0x20 != 0) b
        && (same_bool (bit_and f 0x40 != 0) c
            && (same_bool (bit_and f 0x80 != 0) d && (f % 16 == n && leb f 255))))

table : all_below 16 (λ n. every λ a. every λ b. every λ c. every λ d. reads_back n a b c d) ≡ true
unfolding all_below every reads_back same_bool flags_of
table = refl

module _ (n : ℕ) (h : n < 16) (a b c d : Bool) where
  entry : reads_back n a b c d ≡ true
  entry =
      let row =
        all_below_sound 16 (λ n. every λ a. every λ b. every λ c. every λ d. reads_back n a b c d) n
          table h in
      every_sound (reads_back n a b c) d (
        every_sound (λ c. every (reads_back n a b c)) c
          (every_sound (λ b. every λ c. every (reads_back n a b c)) b
            (every_sound (λ a. every λ b. every λ c. every (reads_back n a b c)) a row)))

  -- Each flag and the nibble are read from the byte that they make up.
  pub flags_fields :
      let f = flags_of n a b c d in
      ((bit_and f 0x10 != 0) ≡ a)
      × ((bit_and f 0x20 != 0) ≡ b)
      × ((bit_and f 0x40 != 0) ≡ c)
      × ((bit_and f 0x80 != 0) ≡ d)
      × (f % 16 ≡ n)
      × (f < 256)
  unfolding reads_back
  flags_fields =
      let f : ℕ = flags_of n a b c d in
      let e : reads_back n a b c d ≡ true = entry in
      (
        same_bool-eq _ a (ground (arith, e)),
        same_bool-eq _ b (ground (arith, e)),
        same_bool-eq _ c (ground (arith, e)),
        same_bool-eq _ d (ground (arith, e)),
        ground (arith, e),
        ground (arith, e),
      )

pub flags_of_byte :
    (f : ℕ)
    → IsByte f
    → flags_of
        (f % 16)
        (bit_and f 0x10 != 0)
        (bit_and f 0x20 != 0)
        (bit_and f 0x40 != 0)
        (bit_and f 0x80 != 0)
      ≡ f
unfolding all_below flags_of
flags_of_byte f h =
    agree_below 256
      (λ f.
        flags_of (f % 16) (bit_and f 0x10 != 0) (bit_and f 0x20 != 0) (bit_and f 0x40 != 0)
          (bit_and f 0x80 != 0))
      (λ f. f) refl f h
