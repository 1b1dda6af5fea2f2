-- ===== src/Protocol/Payload/AppData/Codec.antt =====
-- The app data of an advert is read back as it was written, and written back as it was read.
use mathlib.Core.Path.{subst}
use mcrs.Prelude.{
  ℕ, ◌≤◌, ◌<◌, ◌≡◌, refl, sym, ap, ◌∙◌, bit_and, false, List, [], ◌∷◌, ◌++◌, length, All, ◌!=◌, ltb,
  arith,
}
use mcrs.Prelude.Bits.{IsByte}
use mcrs.Protocol.Error.{ok, fail_if, >>=-elim, invalid_length}
use mcrs.Protocol.Wire.{max_advert_data_size}
use mcrs.Protocol.Wire.Cursor.{At, At-start, At-skip, read_u8-At}
use mcrs.Protocol.Wire.Inversion.{Cursor-start, read_u8-elim}
use mcrs.Protocol.Wire.Cursor.{At-step}
use mcrs.Protocol.Payload.Control.NodeType.{
  IsNodeType, from_nibble, to_nibble, to_nibble-lt, from_nibble-to_nibble, to_nibble-from_nibble,
  from_nibble-IsNodeType,
}
use mcrs.Protocol.Payload.AppData.{
  AdvertAppData, decode, is_some, flags_of, location_bytes, feature_bytes, name_bytes, written,
  encode,
}
use mcrs.Protocol.Payload.AppData.Flags.{flags_fields, flags_of_byte}
use mcrs.Protocol.Payload.AppData.Fields.{
  IsLocation, IsFeature, IsName, read_location-At, read_feature-At, read_name-At,
  read_location-elim, read_feature-elim, read_name-elim,
}

pub record IsValid (d : AdvertAppData) : Type 0 where
  pub node : IsNodeType d.node_type
  pub located : IsLocation d.location
  pub first : IsFeature d.feature1
  pub second : IsFeature d.feature2
  pub named : IsName d.name

pub encode_parts :
    (d : AdvertAppData) (out : List ℕ)
    → encode d ≡ ok out
    → (out ≡ written d) × (length (written d) ≤ max_advert_data_size)
unfolding encode
encode_parts d out e = ground arith

encode-written :
    (d : AdvertAppData) → length (written d) ≤ max_advert_data_size → encode d ≡ ok (written d)
unfolding encode
encode-written d h = ground arith

decode-written :
    (d : AdvertAppData)
    → IsValid d
    → length (written d) ≤ max_advert_data_size
    → decode (written d) ≡ ok d
unfolding decode
decode-written d v fits =
    let n : ℕ = to_nibble d.node_type in
    let small : n < 16 = to_nibble-lt d.node_type v.node in
    let flags : ℕ =
      flags_of n (is_some d.location) (is_some d.feature1) (is_some d.feature2) (is_some d.name) in
    let (b₁, b₂, b₃, b₄, low, byte) =
      flags_fields n small (is_some d.location) (is_some d.feature1) (is_some d.feature2)
        (is_some d.name) in
    let input : List ℕ = written d in
    let t₃ : List ℕ = name_bytes d.name in
    let t₂ : List ℕ = feature_bytes d.feature2 ++ t₃ in
    let t₁ : List ℕ = feature_bytes d.feature1 ++ t₂ in
    let c₀ : At input 0 input = At-start input (omega arith) in
    let c₁ : At input 1 (location_bytes d.location ++ t₁) = At-skip (flags ∷ []) _ refl c₀ in
    let c₂ = At-step (location_bytes d.location) t₁ c₁ in
    let c₃ = At-step (feature_bytes d.feature1) t₂ c₂ in
    let c₄ = At-step (feature_bytes d.feature2) t₃ c₃ in
    let short : ltb max_advert_data_size (length input) ≡ false = ground arith in
    rw (
      short,
      read_u8-At _ "advert app_data flags" flags c₀,
      b₁,
      b₂,
      b₃,
      b₄,
      read_location-At t₁ d.location v.located c₁,
      read_feature-At t₂ "advert feature1" d.feature1 v.first c₂,
      read_feature-At t₃ "advert feature2" d.feature2 v.second c₃,
      read_name-At d.name v.named c₄,
      from_nibble-to_nibble d.node_type flags v.node byte low,
    )

-- Advert data that is valid and has an encoding is read back from it.
pub decode-encode_app_data :
    (d : AdvertAppData) (out : List ℕ) → IsValid d → encode d ≡ ok out → decode out ≡ ok d
decode-encode_app_data d out v e =
    let (same, fits) = encode_parts d out e in
    subst (λ x. decode x ≡ ok d) (sym same) (decode-written d v fits)

-- A list of bytes that decodes to advert data is its encoding, and the data is valid.
pub encode-decode_app_data :
    (input : List ℕ) (d : AdvertAppData)
    → All IsByte input
    → decode input ≡ ok d
    → (encode d ≡ ok input) × IsValid d
unfolding decode
encode-decode_app_data input d h e =
    >>=-elim (fail_if (ltb max_advert_data_size (length input)) (invalid_length "advert app_data"))
      _ e
      λ w f₀ e₀.
        let fits : length input ≤ max_advert_data_size = ground arith in
        read_u8-elim "advert app_data flags" (Cursor-start input h (omega arith)) _ e₀
          λ flags o₁ r₁ e₁.
            read_location-elim r₁.cursor (bit_and flags 0x10 != 0) _ e₁ λ location o₂ v₂ s₂ r₂ e₂.
              read_feature-elim r₂.cursor "advert feature1" (bit_and flags 0x20 != 0) _ e₂
                λ feature1 o₃ v₃ s₃ r₃ e₃.
                  read_feature-elim r₃.cursor "advert feature2" (bit_and flags 0x40 != 0) _ e₃
                    λ feature2 o₄ v₄ s₄ r₄ e₄.
                      read_name-elim r₄.cursor (bit_and flags 0x80 != 0) _ e₄ λ name v₅ s₅ r₅ e₅.
                        let byte : IsByte flags = r₁.these.0 in
                        let q : AdvertAppData = record {
                          node_type = from_nibble flags;
                          location = location;
                          feature1 = feature1;
                          feature2 = feature2;
                          name = name;
                        } in
                        let same : q ≡ d = ground arith in
                        let mark : flags_of (to_nibble (from_nibble flags)) (is_some location)
                              (is_some feature1) (is_some feature2) (is_some name)
                            ≡ flags =
                          rw (to_nibble-from_nibble flags byte, s₂, s₃, s₄, s₅)
                            (flags_of_byte flags byte) in
                        let back : written q ≡ input =
                          cc (mark, r₁.split, r₂.split, r₃.split, r₄.split, r₅) in
                        subst (λ x. (encode x ≡ ok input) × IsValid x) same
                          (
                            encode-written q (rw (ap length back) fits) ∙ ap ok back,
                            record {
                              node = from_nibble-IsNodeType flags byte;
                              located = v₂;
                              first = v₃;
                              second = v₄;
                              named = v₅;
                            },
                          )
