-- ===== src/Protocol/Payload/Advert/Codec.antt =====
-- An advert is read back as it was written, and written back as it was read.
use mathlib.Core.Path.{subst}
use mcrs.Prelude.{
  ℕ, ◌≤◌, ◌≡◌, refl, sym, ap, false, Option, none, some, List, [], ◌∷◌, ◌++◌, length, drop, All,
  ltb, arith, length-append,
}
use mcrs.Prelude.Bits.{IsByte}
use mcrs.Prelude.Words.{length-u32_to_le_bytes, IsU32, u32_to_le_bytes}
use mcrs.Protocol.Error.{ok, fail_if, >>=-elim, invalid_length}
use mcrs.Protocol.Wire.{pub_key_size, signature_size, max_packet_payload, max_advert_data_size}
use mcrs.Protocol.Wire.Cursor.{At, At-start, At-skip, read_u32_le-At, read_array_At, drop-At}
use mcrs.Protocol.Wire.Inversion.{Cursor-start, read_array-elim, read_u32_le-elim}
use mcrs.Protocol.Payload.AppData
use mcrs.Protocol.Payload.AppData.Codec
use mcrs.Protocol.Payload.AppData.{AdvertAppData}
use mcrs.Protocol.Payload.Advert.{AdvertPayload, decode_app_data, decode, encode_app_data, encode}

abbrev pub IsAppData : Option AdvertAppData → Type 0
IsAppData none = Unit
IsAppData (some d) = Codec.IsValid d

pub record IsValid (p : AdvertPayload) : Type 0 where
  pub key_size : length p.public_key ≡ pub_key_size
  pub time_fits : IsU32 p.timestamp
  pub sign_size : length p.signature ≡ signature_size
  pub about : IsAppData p.app_data

-- What `encode_app_data` writes fits, and is read back.
app_data-read :
    (o : Option AdvertAppData) (bytes : List ℕ)
    → IsAppData o
    → encode_app_data o ≡ ok bytes
    → (length bytes ≤ max_advert_data_size) × (decode_app_data bytes ≡ ok o)
unfolding encode_app_data decode_app_data
app_data-read none bytes v e =
    subst (λ x. (length x ≤ max_advert_data_size) × (decode_app_data x ≡ ok none)) (empty e)
      (omega arith, refl)
  where
    empty : ok [] ≡ ok bytes → [] ≡ bytes
    empty e = cc
app_data-read (some d) bytes v e =
    let (same, fits) = Codec.encode_parts d bytes e in
    let good : AppData.decode (AppData.written d) ≡ ok d =
      subst (λ x. AppData.decode x ≡ ok d) same (Codec.decode-encode_app_data d bytes v e) in
    subst (λ x. (length x ≤ max_advert_data_size) × (decode_app_data x ≡ ok (some d))) (sym same)
      (fits, rw good)

IsAppData-written :
    (bytes : List ℕ) (o : Option AdvertAppData)
    → All IsByte bytes
    → decode_app_data bytes ≡ ok o
    → (encode_app_data o ≡ ok bytes) × IsAppData o
unfolding encode_app_data decode_app_data
IsAppData-written [] o h e =
    let none_left : none ≡ o = ground arith in
    subst (λ x. (encode_app_data x ≡ ok []) × IsAppData x) none_left (refl, tt)
IsAppData-written (b ∷ bs) o h e = >>=-elim (AppData.decode (b ∷ bs)) _ e λ d r e'.
    let same : some d ≡ o = ground arith in
    subst (λ x. (encode_app_data x ≡ ok (b ∷ bs)) × IsAppData x) same
      (Codec.encode-decode_app_data (b ∷ bs) d h r)

decode_lem :
    (p : AdvertPayload) (app : List ℕ)
    → IsValid p
    → length app ≤ max_advert_data_size
    → decode_app_data app ≡ ok p.app_data
    → decode (p.public_key ++ (u32_to_le_bytes p.timestamp ++ (p.signature ++ app))) ≡ ok p
unfolding decode
decode_lem p app v fits good =
    let t₂ : List ℕ = p.signature ++ app in
    let t₁ : List ℕ = u32_to_le_bytes p.timestamp ++ t₂ in
    let input : List ℕ = p.public_key ++ t₁ in
    let small : length input ≤ 132 = omega (
      arith,
      length-append p.public_key t₁,
      length-append (u32_to_le_bytes p.timestamp) t₂,
      length-append p.signature app,
      length-u32_to_le_bytes p.timestamp,
      v.key_size,
      v.sign_size,
    ) in
    let c₀ : At input 0 input = At-start input (omega arith) in
    let c₁ : At input 32 t₁ = At-skip p.public_key t₁ v.key_size c₀ in
    let c₂ : At input 36 t₂ =
      At-skip (u32_to_le_bytes p.timestamp) t₂ (length-u32_to_le_bytes p.timestamp) c₁ in
    let short : ltb max_advert_data_size (length app) ≡ false = ground arith in
    rw (
      read_array_At p.public_key t₁ v.key_size c₀ "advert public_key",
      read_u32_le-At t₂ "advert timestamp" p.timestamp v.time_fits c₁,
      read_array_At p.signature app v.sign_size c₂ "advert signature",
      drop-At (At-skip p.signature app v.sign_size c₂),
      short,
      good,
    )

-- An advert that has an encoding is read back from it.
pub decode-encode_advert :
    (p : AdvertPayload) (out : List ℕ) → IsValid p → encode p ≡ ok out → decode out ≡ ok p
unfolding encode
decode-encode_advert p out v e = >>=-elim (encode_app_data p.app_data) _ e λ app written e'.
    let (fits, good) = app_data-read p.app_data app v.about written in
    let same : p.public_key ++ (u32_to_le_bytes p.timestamp ++ (p.signature ++ app)) ≡ out =
      ground arith in
    subst (λ x. decode x ≡ ok p) same (decode_lem p app v fits good)

-- A list of bytes within the size of a payload that decodes to an advert is its encoding, and the
-- advert is valid.
pub encode-decode_advert :
    (input : List ℕ) (p : AdvertPayload)
    → All IsByte input
    → length input ≤ max_packet_payload
    → decode input ≡ ok p
    → (encode p ≡ ok input) × IsValid p
unfolding decode encode
encode-decode_advert input p h l e =
    read_array-elim "advert public_key" (Cursor-start input h (omega arith)) pub_key_size _ e
      λ key o₁ r₁ e₁. read_u32_le-elim "advert timestamp" r₁.cursor _ e₁ λ time o₂ u r₂ e₂.
        read_array-elim "advert signature" r₂.cursor signature_size _ e₂ λ sign o₃ r₃ e₃.
          >>=-elim
            (fail_if (ltb max_advert_data_size (length (drop o₃ input)))
              (invalid_length "advert app_data"))
            _ e₃
            λ w f e₄. >>=-elim (decode_app_data (drop o₃ input)) _ e₄ λ app decoded e₅.
              let tail : drop o₃ input ≡ r₃.after = drop-At r₃.cursor.at in
              let (written, about) =
                IsAppData-written r₃.after app r₃.cursor.are_bytes (rw tail at decoded) in
              let q : AdvertPayload = record {
                public_key = key;
                timestamp = time;
                signature = sign;
                app_data = app;
              } in
              let same : q ≡ p = ground arith in
              let back : key ++ (u32_to_le_bytes time ++ (sign ++ r₃.after)) ≡ input =
                cc (r₁.split, r₂.split, r₃.split) in
              subst (λ x. (encode x ≡ ok input) × IsValid x) same
                (
                  rw written (ap ok back),
                  record {
                    key_size = r₁.count;
                    time_fits = u;
                    sign_size = r₃.count;
                    about = about;
                  },
                )
