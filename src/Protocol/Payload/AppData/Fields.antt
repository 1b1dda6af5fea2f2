-- ===== src/Protocol/Payload/AppData/Fields.antt =====
-- The optional fields of an advert's app data, one at a time, both ways.
use mcrs.Prelude.{
  ℕ, String, ◌+◌, ◌≡◌, refl, sym, ap, ◌∙◌, Bool, true, false, Option, none, some, List, [], ◌∷◌,
  ◌++◌, length, drop, ◌!=◌, arith, length-append, inl, inr, Bool-cases, append_assoc,
}
use mcrs.Prelude.Words.{
  length-u32_to_le_bytes, length-u16_to_le_bytes, ℤ, IsU16, IsI32, u32_to_le_bytes, as_i32, as_u32,
  as_i32-as_u32, as_u32-as_i32, as_u32-IsU32, as_i32-IsI32,
}
use mcrs.Protocol.Error.{
  Result, ok, err, fail_if, ◌>>=◌, ◌>>◌, >>=-elim, Result-cases, invalid_length,
}
use mcrs.Protocol.Wire.{read_array, read_u16_le, read_u32_le, read_i32_le}
use mcrs.Protocol.Wire.Cursor.{At, At-skip, read_u16_le-At, read_u32_le-At, drop-At}
use mcrs.Protocol.Wire.Inversion.{Cursor, Read, read_u16_le-elim, read_u32_le-elim}
use mcrs.Protocol.Payload.AppData.{
  read_location, read_feature, read_name, is_some, location_bytes, feature_bytes, name_bytes,
}
use mcrs.Prelude.Utf8.{is_utf8}

abbrev pub IsLocation : Option (ℤ × ℤ) → Type 0
IsLocation none = Unit
IsLocation (some (latitude, longitude)) = IsI32 latitude × IsI32 longitude

abbrev pub IsFeature : Option ℕ → Type 0
IsFeature none = Unit
IsFeature (some feature) = IsU16 feature

abbrev pub IsName : Option (List ℕ) → Type 0
IsName none = Unit
IsName (some name) = is_utf8 name ≡ true

read_i32_le-bind :
    {B : Type 0} (input : List ℕ) (offset : ℕ) (field : String) (f : ℤ × ℕ → Result B)
    → (read_i32_le input offset field >>= f)
      ≡ (read_u32_le input offset field >>= λ (v, end). f (as_i32 v, end))
unfolding read_i32_le read_u32_le
read_i32_le-bind input offset field f = elim (Result-cases (read_array 4 input offset field)) [
  | inl (r, e) ↦ rw e
  | inr (x, e) ↦ rw e
]

bind-ok : {A : Type 0} (m : Result A) → (m >>= ok) ≡ m
bind-ok (ok a) = refl
bind-ok (err e) = refl

read_i32_le-At :
    {input : List ℕ} {offset : ℕ} (rest : List ℕ) (field : String) (z : ℤ)
    → IsI32 z
    → At input offset (u32_to_le_bytes (as_u32 z) ++ rest)
    → read_i32_le input offset field ≡ ok (z, offset + 4)
read_i32_le-At {input} {offset} rest field z h c =
    sym (bind-ok (read_i32_le input offset field))
    ∙ read_i32_le-bind input offset field ok
    ∙ rw (read_u32_le-At rest field (as_u32 z) (as_u32-IsU32 z) c, as_i32-as_u32 z h)

module _ {input : List ℕ} {offset : ℕ} (rest : List ℕ) where
  pub read_location-At :
      (l : Option (ℤ × ℤ))
      → IsLocation l
      → At input offset (location_bytes l ++ rest)
      → read_location (is_some l) input offset ≡ ok (l, offset + length (location_bytes l))
  unfolding read_location
  read_location-At none v c = ap (λ o. ok (none, o)) (omega arith)
  read_location-At (some (latitude, longitude)) (va, vo) c =
      let a : List ℕ = u32_to_le_bytes (as_u32 latitude) in
      let o : List ℕ = u32_to_le_bytes (as_u32 longitude) in
      let c₁ : At input offset (a ++ (o ++ rest)) = rw append_assoc at c in
      let c₂ : At input (offset + 4) (o ++ rest) =
        At-skip a (o ++ rest) (length-u32_to_le_bytes (as_u32 latitude)) c₁ in
      let len : length (a ++ o) ≡ 8 = omega (
        arith,
        length-append a o,
        length-u32_to_le_bytes (as_u32 latitude),
        length-u32_to_le_bytes (as_u32 longitude),
      ) in
      let end : offset + 4 + 4 ≡ offset + length (a ++ o) = omega (arith, len) in
      rw
        (
          read_i32_le-At (o ++ rest) "advert latitude" latitude va c₁,
          read_i32_le-At rest "advert longitude" longitude vo c₂,
        )
        (ap (λ e. ok (some (latitude, longitude), e)) end)

  pub read_feature-At :
      (field : String) (f : Option ℕ)
      → IsFeature f
      → At input offset (feature_bytes f ++ rest)
      → read_feature field (is_some f) input offset ≡ ok (f, offset + length (feature_bytes f))
  unfolding read_feature
  read_feature-At field none v c = ap (λ o. ok (none, o)) (omega arith)
  read_feature-At field (some f) v c =
      rw (read_u16_le-At rest field f v c, length-u16_to_le_bytes f)

pub read_name-At :
    {input : List ℕ} {offset : ℕ} (n : Option (List ℕ))
    → IsName n
    → At input offset (name_bytes n)
    → read_name (is_some n) input offset ≡ ok n
unfolding read_name
read_name-At {input} {offset} none v c =
    let end : length input ≡ offset =
      omega (arith, ap length c.split, length-append c.front [], c.read) in
    ground (arith, end)
read_name-At (some name) v c = rw (drop-At c, v)

At-end :
    (input : List ℕ) (offset : ℕ) (rest : List ℕ)
    → At input offset rest
    → offset ≡ length input
    → rest ≡ []
At-end input offset [] c e = refl
At-end input offset (x ∷ xs) c e =
    absurd (omega (arith, ap length c.split, length-append c.front (x ∷ xs), c.read))

-- What a read of a field says of the input.
pub record Field (input rest bytes : List ℕ) (end : ℕ) : Type 0 where
  pub after : List ℕ
  pub split : rest ≡ bytes ++ after
  pub cursor : Cursor input end after

module _ {ℓ} {P : Type ℓ} {B : Type 0} {b : B} {input : List ℕ} {offset : ℕ} {rest : List ℕ}
    (c : Cursor input offset rest) where
  read_i32_le-elim :
      (field : String) (f : ℤ × ℕ → Result B)
      → (read_i32_le input offset field >>= f) ≡ ok b
      → ((z : ℤ) (end : ℕ)
          → IsI32 z
          → Read input 4 rest (u32_to_le_bytes (as_u32 z)) end
          → f (z, end) ≡ ok b
          → P)
      → P
  read_i32_le-elim field f e k =
      read_u32_le-elim field c _ (sym (read_i32_le-bind input offset field f) ∙ e)
        λ v end u r e'. k (as_i32 v) end (as_i32-IsI32 v u) (rw (as_u32-as_i32 v u) r) e'

  pub read_feature-elim :
      (field : String) (flag : Bool) (f : Option ℕ × ℕ → Result B)
      → (read_feature field flag input offset >>= f) ≡ ok b
      → ((o : Option ℕ) (end : ℕ)
          → IsFeature o
          → is_some o ≡ flag
          → Field input rest (feature_bytes o) end
          → f (o, end) ≡ ok b
          → P)
      → P
  unfolding read_feature
  read_feature-elim field false f e k =
      k none offset tt refl (record { after = rest; split = refl; cursor = c }) e
  read_feature-elim field true f e k =
      let g : ℕ × ℕ → Result (Option ℕ × ℕ) = λ (v, end). ok (some v, end) in
      >>=-elim (read_u16_le input offset field >>= g) f e λ (o, end) r e'.
        read_u16_le-elim field c g r λ v end' u t e''.
          k (some v) end' u refl (record { after = t.after; split = t.split; cursor = t.cursor })
            (ap f (ground arith) ∙ e')

  pub read_name-elim :
      (flag : Bool) (f : Option (List ℕ) → Result B)
      → (read_name flag input offset >>= f) ≡ ok b
      → ((o : Option (List ℕ)) → IsName o → is_some o ≡ flag → rest ≡ name_bytes o → f o ≡ ok b → P)
      → P
  unfolding read_name
  read_name-elim true f e k =
      let tail : drop offset input ≡ rest = drop-At c.at in
      elim (Bool-cases (is_utf8 (drop offset input))) [
        | inl good ↦ k (some rest) (rw tail at good) refl refl (ground (arith, good, tail))
        | inr bad ↦ absurd (ground (arith, bad))
      ]
  read_name-elim false f e k =
      >>=-elim (fail_if (offset != length input) (invalid_length "advert app_data") >> ok none) f e
        λ o r e'.
          let end : offset ≡ length input = ground arith in
          k none tt refl (At-end input offset rest c.at end) (ground arith)

module _ {ℓ} {P : Type ℓ} {B : Type 0} {b : B} {input : List ℕ} {offset : ℕ} {rest : List ℕ}
    (c : Cursor input offset rest) where
  pub read_location-elim :
      (flag : Bool) (f : Option (ℤ × ℤ) × ℕ → Result B)
      → (read_location flag input offset >>= f) ≡ ok b
      → ((l : Option (ℤ × ℤ)) (end : ℕ)
          → IsLocation l
          → is_some l ≡ flag
          → Field input rest (location_bytes l) end
          → f (l, end) ≡ ok b
          → P)
      → P
  unfolding read_location
  read_location-elim false f e k =
      k none offset tt refl (record { after = rest; split = refl; cursor = c }) e
  read_location-elim true f e k = >>=-elim (read_location true input offset) f e λ (l, end) r e'.
      read_i32_le-elim c "advert latitude" _ r λ latitude o₁ va t₁ r₁.
        read_i32_le-elim t₁.cursor "advert longitude" _ r₁ λ longitude o₂ vo t₂ r₂.
          let a : List ℕ = u32_to_le_bytes (as_u32 latitude) in
          let o : List ℕ = u32_to_le_bytes (as_u32 longitude) in
          let both : rest ≡ (a ++ o) ++ t₂.after =
            t₁.split ∙ ap (λ x. a ++ x) t₂.split ∙ sym (append_assoc a o t₂.after) in
          k (some (latitude, longitude)) o₂ (va, vo) refl
            (record { after = t₂.after; split = both; cursor = t₂.cursor })
            (ap f (ground arith) ∙ e')
