-- ===== src/Protocol/Plaintext/Login.antt =====
-- protocol/src/repeater_login_response_plaintext.rs and login_constants.rs: the answer to a login.
use mathlib.Core.Path.{subst}
use mcrs.Prelude.{
  ℕ, ◌≤◌, ◌≡◌, refl, ap, ◌∙◌, List, [], ◌∷◌, ◌++◌, length, ◌!=◌, arith, length-append, append_assoc,
}
use mcrs.Prelude.Words.{length-u32_to_le_bytes, IsU32, u32_to_le_bytes}
use mcrs.Protocol.Error.{Result, ok, fail_if, ◌>>=◌, ◌>>◌, invalid_length}
use mcrs.Protocol.Wire.{max_packet_payload, read_array, read_u8, read_u32_le}
use mcrs.Protocol.Wire.Cursor.{At, At-start, At-skip, read_u8-At, read_u32_le-At, read_array_At}

abbrev pub resp_server_login_ok : ℕ
resp_server_login_ok = 0

abbrev pub encoded_len : ℕ
encoded_len = 13

pub record RepeaterLoginResponsePlaintext : Type 0 where
  pub server_timestamp : ℕ
  pub keep_alive_interval : ℕ
  pub legacy_permissions : ℕ
  pub acl_permissions : ℕ
  pub nonce : List ℕ
  pub firmware_version_level : ℕ

unfoldable pub decode : List ℕ → Result RepeaterLoginResponsePlaintext
decode input = do
  (server_timestamp, offset) ← read_u32_le input 0 "repeater login timestamp"
  (status, offset) ← read_u8 input offset "repeater login status"
  fail_if (status != resp_server_login_ok) (invalid_length "repeater login response status")
  (keep_alive_interval, offset) ← read_u8 input offset "repeater login keep_alive"
  (legacy_permissions, offset) ← read_u8 input offset "repeater login legacy_permissions"
  (acl_permissions, offset) ← read_u8 input offset "repeater login acl_permissions"
  (nonce, offset) ← read_array 4 input offset "repeater login nonce"
  (firmware_version_level, offset) ← read_u8 input offset "repeater login firmware"
  ok (record {
    server_timestamp = server_timestamp;
    keep_alive_interval = keep_alive_interval;
    legacy_permissions = legacy_permissions;
    acl_permissions = acl_permissions;
    nonce = nonce;
    firmware_version_level = firmware_version_level;
  })

unfoldable pub encode : RepeaterLoginResponsePlaintext → List ℕ
encode p =
    u32_to_le_bytes p.server_timestamp
    ++ (resp_server_login_ok
        ∷ p.keep_alive_interval
        ∷ p.legacy_permissions
        ∷ p.acl_permissions
        ∷ (p.nonce ++ (p.firmware_version_level ∷ [])))

pub record IsValid (p : RepeaterLoginResponsePlaintext) : Type 0 where
  pub time_fits : IsU32 p.server_timestamp
  pub nonce_size : length p.nonce ≡ 4

pub length-encode :
    (p : RepeaterLoginResponsePlaintext) → IsValid p → length (encode p) ≡ encoded_len
unfolding encode
length-encode p v = omega (
  arith,
  length-append (u32_to_le_bytes p.server_timestamp) (
      resp_server_login_ok
      ∷ p.keep_alive_interval
      ∷ p.legacy_permissions
      ∷ p.acl_permissions
      ∷ (p.nonce ++ (p.firmware_version_level ∷ []))),
  length-append p.nonce (p.firmware_version_level ∷ []),
  length-u32_to_le_bytes p.server_timestamp,
  v.nonce_size,
)

-- A login response is read back from its encoding, which has `encoded_len` bytes; bytes that follow
-- are not looked at.
pub decode-encode :
    (p : RepeaterLoginResponsePlaintext) (rest : List ℕ)
    → IsValid p
    → length rest ≤ max_packet_payload
    → (decode (encode p ++ rest) ≡ ok p) × (length (encode p) ≡ encoded_len)
unfolding decode encode
decode-encode p rest v l =
    let t₅ : List ℕ = p.firmware_version_level ∷ rest in
    let t₄ : List ℕ = p.nonce ++ t₅ in
    let t₃ : List ℕ = p.acl_permissions ∷ t₄ in
    let t₂ : List ℕ = p.legacy_permissions ∷ t₃ in
    let t₁ : List ℕ = p.keep_alive_interval ∷ t₂ in
    let t₀ : List ℕ = resp_server_login_ok ∷ t₁ in
    let time : List ℕ = u32_to_le_bytes p.server_timestamp in
    let input : List ℕ = encode p ++ rest in
    let same : input ≡ time ++ t₀ =
      append_assoc time _ rest
      ∙ ap
          (λ x.
            time
            ++ (resp_server_login_ok ∷ p.keep_alive_interval ∷ p.legacy_permissions
                ∷ p.acl_permissions ∷ x))
          (append_assoc p.nonce (p.firmware_version_level ∷ []) rest) in
    let small : length input ≤ 300 =
      omega (arith, length-append (encode p) rest, length-encode p v) in
    let c : At input 0 (time ++ t₀) = subst (At input 0) same (At-start input (omega arith)) in
    let c₀ : At input 4 t₀ = At-skip time t₀ (length-u32_to_le_bytes p.server_timestamp) c in
    let c₁ : At input 5 t₁ = At-skip (resp_server_login_ok ∷ []) t₁ refl c₀ in
    let c₂ : At input 6 t₂ = At-skip (p.keep_alive_interval ∷ []) t₂ refl c₁ in
    let c₃ : At input 7 t₃ = At-skip (p.legacy_permissions ∷ []) t₃ refl c₂ in
    let c₄ : At input 8 t₄ = At-skip (p.acl_permissions ∷ []) t₄ refl c₃ in
    let c₅ : At input 12 t₅ = At-skip p.nonce t₅ v.nonce_size c₄ in
    (
      rw (
        read_u32_le-At t₀ "repeater login timestamp" p.server_timestamp v.time_fits c,
        read_u8-At t₁ "repeater login status" resp_server_login_ok c₀,
        read_u8-At t₂ "repeater login keep_alive" p.keep_alive_interval c₁,
        read_u8-At t₃ "repeater login legacy_permissions" p.legacy_permissions c₂,
        read_u8-At t₄ "repeater login acl_permissions" p.acl_permissions c₃,
        read_array_At p.nonce t₅ v.nonce_size c₄ "repeater login nonce",
        read_u8-At rest "repeater login firmware" p.firmware_version_level c₅,
      ),
      length-encode p v,
    )
