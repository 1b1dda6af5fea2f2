-- ===== src/Protocol/Error.antt =====
-- protocol/src/error.rs and result.rs: the errors of the decoders and encoders as values. The
-- payload kinds stand here too, since an error can name one (payload_kind.rs).
use mcrs.Prelude.{ℕ, ◌≡◌, refl, String, Bool, true, false, Option, none, some, ◌⊎◌, inl, inr}

pub data PayloadKind : Type 0 where
  request response text_message ack advert group_text group_data anonymous_request : PayloadKind
  path trace multipart control : PayloadKind
  reserved : ℕ → PayloadKind
  raw_custom : PayloadKind

pub data Error : Type 0 where
  empty_packet invalid_header_sentinel : Error
  unsupported_payload_version packet_too_long payload_too_long path_too_long : ℕ → Error
  invalid_hash_size_code invalid_hash_size : ℕ → Error
  invalid_path_length : Error
  invalid_trace_path_length invalid_trace_flags : ℕ → Error
  truncated invalid_length : String → Error
  invalid_utf8 missing_transport_codes unexpected_transport_codes : Error
  invalid_zero_hop_control_route : Error
  payload_kind_mismatch : PayloadKind → PayloadKind → Error
  path_kind_mismatch : Error

pub data Result {ℓ} (A : Type ℓ) : Type ℓ where
  ok : A → Result A
  err : Error → Result A

-- The `?` operator: the first error ends the chain.
infixl 5 ◌>>=◌
abbrev pub ◌>>=◌ {ℓ κ} : {A : Type ℓ} {B : Type κ} → Result A → (A → Result B) → Result B
err failure >>= next = err failure
ok value >>= next = next value

-- `if bad { return Err(error); }`
abbrev pub fail_if : Bool → Error → Result (Unit {0})
fail_if true failure = err failure
fail_if false failure = ok tt

infixl 5 ◌>>◌
abbrev pub ◌>>◌ {ℓ} : {B : Type ℓ} → Result (Unit {0}) → Result B → Result B
check >> rest = check >>= λ done. rest

abbrev pub ok_or {ℓ} : {A : Type ℓ} → Option A → Error → Result A
ok_or none e = err e
ok_or (some a) e = ok a

-- Inversion of a chain that succeeded, by continuation, so that what the parts returned are
-- variables.
pub >>=-elim {ℓ κ μ} :
    {A : Type ℓ} {B : Type κ} {P : Type μ} (m : Result A) (f : A → Result B) {b : B}
    → (m >>= f) ≡ ok b
    → ((a : A) → m ≡ ok a → f a ≡ ok b → P)
    → P
>>=-elim (ok a) f h k = k a refl h
>>=-elim (err e) f h k = cc

-- The same as a triple.
pub >>=-eq-ok {ℓ κ} :
    {B : Type κ} {A : Type ℓ} (first : Result A) (next : A → Result B) {last : B}
    → (first >>= next) ≡ ok last
    → (value : A) × (first ≡ ok value) × (next value ≡ ok last)
>>=-eq-ok first next whole = >>=-elim first next whole λ value e k. (value, e, k)

pub Result-cases {ℓ} :
    {A : Type ℓ} (r : Result A) → ((a : A) × (r ≡ ok a)) ⊎ ((e : Error) × (r ≡ err e))
Result-cases (ok a) = inl (a, refl)
Result-cases (err e) = inr (e, refl)
