-- ===== src/Protocol/Payload/Codec.antt =====
-- Every payload is read back as it was written, and written back as it was read.
use mathlib.Core.Path.{subst}
use mcrs.Prelude.{ℕ, ◌≤◌, ◌<◌, ◌≡◌, refl, ap, List, length, All, arith}
use mcrs.Prelude.Bits.{IsByte}
use mcrs.Protocol.Error.{PayloadKind, Result, ok, ◌>>=◌, >>=-elim}
use mcrs.Protocol.Wire.{max_packet_payload, ensure_payload_len}
use mcrs.Protocol.Wire.Cursor.{ensure_payload_len_fits}
use mcrs.Protocol.Header.Codec.{IsKind}
use mcrs.Protocol.Payload.Direct
use mcrs.Protocol.Payload.Group
use mcrs.Protocol.Payload.Anonymous
use mcrs.Protocol.Payload.Ack
use mcrs.Protocol.Payload.Multipart
use mcrs.Protocol.Payload.Trace
use mcrs.Protocol.Payload.Control
use mcrs.Protocol.Payload.Advert
use mcrs.Protocol.Payload.Advert.Codec
use mcrs.Protocol.Wire.Cursor.{fits-ensure_payload_len}
use mcrs.Protocol.Payload.{
  Payload, request, response, text_message, ack, advert, group_text, group_data, anonymous_request,
  path, trace, multipart, control, reserved, raw_custom, kind, decode_kind, decode, encode,
}

-- The fields of the payload have the sizes and ranges of their Rust types.
abbrev pub IsValid : Payload → Type 0
IsValid (request p) = Direct.IsValid p
IsValid (response p) = Direct.IsValid p
IsValid (text_message p) = Direct.IsValid p
IsValid (path p) = Direct.IsValid p
IsValid (ack p) = Ack.IsValid p
IsValid (advert p) = Codec.IsValid p
IsValid (group_text p) = Group.IsValid p
IsValid (group_data p) = Group.IsValid p
IsValid (anonymous_request p) = Anonymous.IsValid p
IsValid (trace p) = Trace.IsValid p
IsValid (multipart p) = Multipart.IsValid p
IsValid (reserved k bytes) = (12 ≤ k) × (k < 15)
IsValid _ = Unit

pub kind-IsKind : (p : Payload) → IsValid p → IsKind (kind p)
unfolding kind
kind-IsKind (reserved k bytes) v = v
kind-IsKind _ v = tt

-- A payload without errors of its own encoder.
plain :
    {A : Type 0} (make : A → Payload) (write : A → List ℕ) (read : List ℕ → Result A) (p : A)
    (out : List ℕ)
    → ok (write p) ≡ ok out
    → length out ≤ max_packet_payload
    → (length (write p) ≤ max_packet_payload → read (write p) ≡ ok p)
    → (read out >>= λ q. ok (make q)) ≡ ok (make p)
plain make write read p out e fits back =
    let same : write p ≡ out = cc in
    let good : read out ≡ ok p =
      subst (λ x. read x ≡ ok p) same (back (rw (ap length same) fits)) in
    rw good

-- A valid payload whose encoding fits a packet is read back from it, for the kind of the payload.
pub decode-encode_payload :
    (p : Payload) (out : List ℕ)
    → IsValid p
    → encode p ≡ ok out
    → length out ≤ max_packet_payload
    → decode (kind p) out ≡ ok p
unfolding encode kind decode decode_kind
decode-encode_payload p out v e fits = rw (ensure_payload_len_fits out fits) (arm p v e)
  where
    arm : (p : Payload) → IsValid p → encode p ≡ ok out → decode_kind (kind p) out ≡ ok p
    arm (request p) v e =
        plain request Direct.encode Direct.decode p out e fits (Direct.decode-encode p v)
    arm (response p) v e =
        plain response Direct.encode Direct.decode p out e fits (Direct.decode-encode p v)
    arm (text_message p) v e =
        plain text_message Direct.encode Direct.decode p out e fits (Direct.decode-encode p v)
    arm (path p) v e =
        plain path Direct.encode Direct.decode p out e fits (Direct.decode-encode p v)
    arm (ack p) v e = plain ack Ack.encode Ack.decode p out e fits (λ _. Ack.decode-encode p v)
    arm (advert p) v e = rw (Codec.decode-encode_advert p out v e)
    arm (group_text p) v e =
        plain group_text Group.encode Group.decode p out e fits (Group.decode-encode p v)
    arm (group_data p) v e =
        plain group_data Group.encode Group.decode p out e fits (Group.decode-encode p v)
    arm (anonymous_request p) v e =
        plain anonymous_request Anonymous.encode Anonymous.decode p out e fits
          (Anonymous.decode-encode p v)
    arm (trace p) v e = rw (Trace.decode-encode p out v e fits)
    arm (multipart p) v e =
        plain multipart Multipart.encode Multipart.decode p out e fits (Multipart.decode-encode p v)
    arm (control p) v e =
        plain control Control.encode Control.decode p out e fits (Control.decode-encode p)
    arm (reserved k bytes) v e = cc
    arm (raw_custom bytes) v e = cc

abbrev Back : PayloadKind → List ℕ → Payload → Type 0
Back k input p = (encode p ≡ ok input) × (kind p ≡ k) × IsValid p

-- One arm of the match: the payload is what its own decoder returned.
module _ {A : Type 0} (make : A → Payload) (k : PayloadKind) (input : List ℕ) where
  read_arm :
      (read : List ℕ → Result A) (p : Payload)
      → (read input >>= λ q. ok (make q)) ≡ ok p
      → ((q : A) → read input ≡ ok q → Back k input (make q))
      → Back k input p
  read_arm read p e back =
      >>=-elim (read input) _ e
        λ q r e'. let same : make q ≡ p = ground arith in subst (Back k input) same (back q r)

-- A list of bytes that decodes to a payload of a kind that a nibble can name is its encoding, and
-- the payload is of that kind and valid.
pub encode-decode_payload :
    (k : PayloadKind) (input : List ℕ) (p : Payload)
    → IsKind k
    → All IsByte input
    → decode k input ≡ ok p
    → (encode p ≡ ok input) × (kind p ≡ k) × IsValid p
unfolding encode kind decode decode_kind
encode-decode_payload k input p c h e =
    >>=-elim (ensure_payload_len input) _ e λ u r e'. arm k c (fits-ensure_payload_len input u r) e'
  where
    arm :
        (k : PayloadKind)
        → IsKind k
        → length input ≤ max_packet_payload
        → decode_kind k input ≡ ok p
        → Back k input p
    arm PayloadKind.request c l e =
        read_arm request _ input Direct.decode p e
          λ q r. let (w, v) = Direct.encode-decode input q h r in (ap ok w, refl, v)
    arm PayloadKind.response c l e =
        read_arm response _ input Direct.decode p e
          λ q r. let (w, v) = Direct.encode-decode input q h r in (ap ok w, refl, v)
    arm PayloadKind.text_message c l e =
        read_arm text_message _ input Direct.decode p e
          λ q r. let (w, v) = Direct.encode-decode input q h r in (ap ok w, refl, v)
    arm PayloadKind.path c l e =
        read_arm path _ input Direct.decode p e
          λ q r. let (w, v) = Direct.encode-decode input q h r in (ap ok w, refl, v)
    arm PayloadKind.ack c l e =
        read_arm ack _ input Ack.decode p e
          λ q r. let (w, v) = Ack.encode-decode input q h r in (ap ok w, refl, v)
    arm PayloadKind.advert c l e =
        read_arm advert _ input Advert.decode p e
          λ q r. let (w, v) = Codec.encode-decode_advert input q h l r in (w, refl, v)
    arm PayloadKind.group_text c l e =
        read_arm group_text _ input Group.decode p e
          λ q r. let (w, v) = Group.encode-decode input q h r in (ap ok w, refl, v)
    arm PayloadKind.group_data c l e =
        read_arm group_data _ input Group.decode p e
          λ q r. let (w, v) = Group.encode-decode input q h r in (ap ok w, refl, v)
    arm PayloadKind.anonymous_request c l e =
        read_arm anonymous_request _ input Anonymous.decode p e
          λ q r. let (w, v) = Anonymous.encode-decode input q h r in (ap ok w, refl, v)
    arm PayloadKind.trace c l e =
        read_arm trace _ input Trace.decode p e
          λ q r. let (w, v) = Trace.encode-decode input q h r in (w, refl, v)
    arm PayloadKind.multipart c l e =
        read_arm multipart _ input Multipart.decode p e
          λ q r. let (w, v) = Multipart.encode-decode input q h r in (ap ok w, refl, v)
    arm PayloadKind.control c l e =
        read_arm control _ input Control.decode p e
          λ q r. (ap ok (Control.encode-decode input q r), refl, tt)
    arm (PayloadKind.reserved n) c l e =
        let same : reserved n input ≡ p = ground arith in
        subst (Back (PayloadKind.reserved n) input) same (refl, refl, c)
    arm PayloadKind.raw_custom c l e =
        let same : raw_custom input ≡ p = ground arith in
        subst (Back PayloadKind.raw_custom input) same (refl, refl, tt)
