-- ===== src/Ortc/RtpParameters/Parts.antt =====
-- Well-formed header extensions, encodings and RTCP parameters of RTP parameters, as the
-- validators of src/ortc.cpp leave them.
use libmediasoupclient.Prelude.{true, false, ◌||◌, ◌≡◌, refl, arith, some}
use libmediasoupclient.Prelude.Result.{ok, >>=-eq-ok, check-eq-ok}
use libmediasoupclient.Json.{
  Json, boolean, object, Fields, end, field, is_string, is_boolean, is_number, is_object,
  is_number_integer, lookup,
}
use libmediasoupclient.Ortc.Checks.{
  holds, absent_or, present, is_nonempty_string, fields_of, put_unless, lookup-put_unless,
  put_unless-true, IsObject, IsObject-ok, holds-absent_or, holds-present,
}
use libmediasoupclient.Ortc.RtpParameters.{
  check_extension_parameters, validate_rtp_header_extension_parameters, check_rtx,
  validate_rtp_encoding_parameters, validate_rtcp_parameters,
}

abbrev pub IsExtensionParameters : Fields → Type 0
IsExtensionParameters end = Unit
IsExtensionParameters (field key value fs) =
    ((is_string value || is_number value) ≡ true) × IsExtensionParameters fs

parameters_sound : (fs : Fields) → check_extension_parameters fs ≡ ok tt → IsExtensionParameters fs
unfolding check_extension_parameters
parameters_sound end h = tt
parameters_sound (field key value fs) h = (ground arith, parameters_sound fs (ground arith))

parameters_complete :
    (fs : Fields) → IsExtensionParameters fs → check_extension_parameters fs ≡ ok tt
unfolding check_extension_parameters
parameters_complete end h = refl
parameters_complete (field key value fs) (h, hs) = ground (arith, parameters_complete fs hs)

pub record IsHeaderExtensionParameters (e : Fields) : Type 0 where
  pub parameters : Fields
  pub uri : holds is_nonempty_string (lookup "uri" e) ≡ true
  pub id : holds is_number_integer (lookup "id" e) ≡ true
  pub encrypt : holds is_boolean (lookup "encrypt" e) ≡ true
  pub has_parameters : lookup "parameters" e ≡ some (object parameters)
  pub valid_parameters : IsExtensionParameters parameters

pub extension_sound :
    (j w : Json)
    → validate_rtp_header_extension_parameters j ≡ ok w
    → IsObject IsHeaderExtensionParameters w
unfolding validate_rtp_header_extension_parameters
extension_sound (object e) w h =
    let (uri, h₁) = check-eq-ok _ _ _ h in
    let (id, h₂) = check-eq-ok _ _ _ h₁ in
    let (encrypt, h₃) = check-eq-ok _ _ _ h₂ in
    let (_, checked, h₄) = >>=-eq-ok (check_extension_parameters _) _ h₃ in
    let filled =
      put_unless (holds is_object (lookup "parameters" e)) "parameters" (object end)
        (put_unless (present (lookup "encrypt" e)) "encrypt" (boolean false) e) in
    IsObject-ok IsHeaderExtensionParameters filled h₄ (record {
      parameters = fields_of (lookup "parameters" filled);
      uri = simp lookup-put_unless uri;
      id = simp lookup-put_unless id;
      encrypt = simp lookup-put_unless (ground (arith, encrypt));
      has_parameters = simp lookup-put_unless (ground arith);
      valid_parameters = parameters_sound _ checked;
    })
extension_sound _ w h = absurd (ground arith)

pub extension_stable :
    (e : Json)
    → IsObject IsHeaderExtensionParameters e
    → validate_rtp_header_extension_parameters e ≡ ok e
unfolding validate_rtp_header_extension_parameters
extension_stable (object e) h = simp (
  h.uri,
  h.id,
  holds-absent_or is_boolean (lookup "encrypt" e) h.encrypt,
  holds-present is_boolean (lookup "encrypt" e) h.encrypt,
  put_unless-true,
  h.has_parameters,
  parameters_complete h.parameters h.valid_parameters,
)
extension_stable _ h = absurd h

pub record IsEncodingParameters (e : Fields) : Type 0 where
  pub ssrc : absent_or is_number_integer (lookup "ssrc" e) ≡ true
  pub rid : absent_or is_nonempty_string (lookup "rid" e) ≡ true
  pub rtx : check_rtx (lookup "rtx" e) ≡ ok tt
  pub dtx : holds is_boolean (lookup "dtx" e) ≡ true
  pub scalability_mode : absent_or is_nonempty_string (lookup "scalabilityMode" e) ≡ true

pub encoding_sound :
    (j w : Json) → validate_rtp_encoding_parameters j ≡ ok w → IsObject IsEncodingParameters w
unfolding validate_rtp_encoding_parameters
encoding_sound (object e) w h =
    let (ssrc, h₁) = check-eq-ok _ _ _ h in
    let (rid, h₂) = check-eq-ok _ _ _ h₁ in
    let (_, rtx, h₃) = >>=-eq-ok (check_rtx (lookup "rtx" e)) _ h₂ in
    let (mode, h₄) =
      check-eq-ok (absent_or is_nonempty_string (lookup "scalabilityMode" e)) _ _ h₃ in
    let filled = put_unless (holds is_boolean (lookup "dtx" e)) "dtx" (boolean false) e in
    IsObject-ok IsEncodingParameters filled h₄ (record {
      ssrc = simp lookup-put_unless ssrc;
      rid = simp lookup-put_unless rid;
      rtx = simp lookup-put_unless rtx;
      dtx = simp lookup-put_unless (ground arith);
      scalability_mode = simp lookup-put_unless mode;
    })
encoding_sound _ w h = absurd (ground arith)

pub encoding_stable :
    (e : Json) → IsObject IsEncodingParameters e → validate_rtp_encoding_parameters e ≡ ok e
unfolding validate_rtp_encoding_parameters
encoding_stable (object e) h =
    simp (h.ssrc, h.rid, h.rtx, h.dtx, put_unless-true, h.scalability_mode)
encoding_stable _ h = absurd h

pub record IsRtcpParameters (r : Fields) : Type 0 where
  pub cname : absent_or is_string (lookup "cname" r) ≡ true
  pub reduced_size : holds is_boolean (lookup "reducedSize" r) ≡ true

pub rtcp_sound : (j w : Json) → validate_rtcp_parameters j ≡ ok w → IsObject IsRtcpParameters w
unfolding validate_rtcp_parameters
rtcp_sound (object r) w h =
    let (cname, h₁) = check-eq-ok _ _ _ h in
    let filled =
      put_unless (holds is_boolean (lookup "reducedSize" r)) "reducedSize" (boolean true) r in
    IsObject-ok IsRtcpParameters filled h₁ (record {
      cname = simp lookup-put_unless cname;
      reduced_size = simp lookup-put_unless (ground arith);
    })
rtcp_sound _ w h = absurd (ground arith)

pub rtcp_stable : (r : Json) → IsObject IsRtcpParameters r → validate_rtcp_parameters r ≡ ok r
unfolding validate_rtcp_parameters
rtcp_stable (object r) h = simp (h.cname, h.reduced_size, put_unless-true)
rtcp_stable _ h = absurd h
