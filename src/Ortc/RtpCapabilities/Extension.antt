-- ===== src/Ortc/RtpCapabilities/Extension.antt =====
-- Well-formed header extensions of RTP capabilities: what validateRtpHeaderExtension of
-- src/ortc.cpp establishes, and what it leaves as it is.
use libmediasoupclient.Prelude.{String, Bool, true, false, ◌||◌, ◌==◌, ◌≡◌, arith, Option, some}
use libmediasoupclient.Prelude.Result.{ok, >>=-eq-ok, check-eq-ok}
use libmediasoupclient.Json.{
  Json, boolean, string, object, Fields, is_string, is_boolean, is_number_integer, lookup,
}
use libmediasoupclient.Ortc.Checks.{
  holds, absent_or, present, is_nonempty_string, get_string, put_unless, lookup-put_unless,
  put_unless-true, IsObject, holds-absent_or, holds-present,
}
use libmediasoupclient.Ortc.RtpCapabilities.{validate_rtp_header_extension}

-- The kinds that an extension may name: the empty text stands for both.
abbrev pub is_extension_kind : String → Bool
is_extension_kind kind = kind == "" || kind == "audio" || kind == "video"

-- An extension with its kind, its encryption flag and its direction filled in.
pub record IsRtpHeaderExtension (e : Fields) : Type 0 where
  pub kind : String
  pub has_kind : lookup "kind" e ≡ some (string kind)
  pub known_kind : is_extension_kind kind ≡ true
  pub uri : holds is_nonempty_string (lookup "uri" e) ≡ true
  pub id : holds is_number_integer (lookup "preferredId" e) ≡ true
  pub encrypt : holds is_boolean (lookup "preferredEncrypt" e) ≡ true
  pub direction : holds is_string (lookup "direction" e) ≡ true

abbrev with_kind : Fields → Fields
with_kind e = put_unless (holds is_string (lookup "kind" e)) "kind" (string "") e

abbrev filled : Fields → Fields
filled e = put_unless (present (lookup "direction" e)) "direction" (string "sendrecv") (
    put_unless (present (lookup "preferredEncrypt" e)) "preferredEncrypt" (boolean false)
      (with_kind e))

-- What a run that does not throw has passed, and its result.
record Accepted (e : Fields) (w : Json) : Type 0 where
  kind : String
  got : get_string (lookup "kind" (with_kind e)) ≡ ok kind
  known_kind : is_extension_kind kind ≡ true
  uri : holds is_nonempty_string (lookup "uri" e) ≡ true
  id : holds is_number_integer (lookup "preferredId" e) ≡ true
  encrypt : absent_or is_boolean (lookup "preferredEncrypt" e) ≡ true
  direction : absent_or is_string (lookup "direction" e) ≡ true
  result : w ≡ object (filled e)

accepted : (e : Fields) (w : Json) → validate_rtp_header_extension (object e) ≡ ok w → Accepted e w
unfolding validate_rtp_header_extension
accepted e w h =
    let (kind, got, h₁) = >>=-eq-ok (get_string (lookup "kind" (with_kind e))) _ h in
    let (known, h₂) = check-eq-ok _ _ _ h₁ in
    let (uri, h₃) = check-eq-ok _ _ _ h₂ in
    let (id, h₄) = check-eq-ok _ _ _ h₃ in
    let (encrypt, h₅) = check-eq-ok _ _ _ h₄ in
    let (direction, h₆) = check-eq-ok _ _ _ h₅ in
    record {
      kind = kind;
      got = got;
      known_kind = known;
      uri = uri;
      id = id;
      encrypt = encrypt;
      direction = direction;
      result = cc h₆;
    }

get_string-eq-ok : (o : Option Json) {s : String} → get_string o ≡ ok s → o ≡ some (string s)
get_string-eq-ok o h = ground arith

Accepted-sound : {e : Fields} {w : Json} → Accepted e w → IsObject IsRtpHeaderExtension w
Accepted-sound {e} a = rw a.result (record {
  kind = a.kind;
  has_kind = simp lookup-put_unless (get_string-eq-ok _ (simp lookup-put_unless at a.got));
  known_kind = a.known_kind;
  uri = simp lookup-put_unless a.uri;
  id = simp lookup-put_unless a.id;
  encrypt = simp lookup-put_unless (ground (arith, a.encrypt));
  direction = simp lookup-put_unless (ground (arith, a.direction));
})

pub extension_sound :
    (j w : Json) → validate_rtp_header_extension j ≡ ok w → IsObject IsRtpHeaderExtension w
unfolding validate_rtp_header_extension
extension_sound (object e) w h = Accepted-sound (accepted e w h)
extension_sound _ w h = absurd (ground arith)

pub extension_stable :
    (e : Json) → IsObject IsRtpHeaderExtension e → validate_rtp_header_extension e ≡ ok e
unfolding validate_rtp_header_extension
extension_stable (object e) h = simp (
  h.has_kind,
  put_unless-true,
  h.known_kind,
  h.uri,
  h.id,
  holds-absent_or is_boolean (lookup "preferredEncrypt" e) h.encrypt,
  holds-present is_boolean (lookup "preferredEncrypt" e) h.encrypt,
  holds-absent_or is_string (lookup "direction" e) h.direction,
  holds-present is_string (lookup "direction" e) h.direction,
)
extension_stable _ h = absurd h
