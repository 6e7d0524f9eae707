-- ===== src/Ortc/RtpParameters/WellFormed.antt =====
-- Well-formed RTP parameters: what validateRtpParameters of src/ortc.cpp establishes, and what it
-- leaves as it is.
use libmediasoupclient.Prelude.{true, ◌≡◌, refl, arith, some}
use libmediasoupclient.Prelude.Result.{ok, >>=-eq-ok, check-eq-ok}
use libmediasoupclient.Json.{
  is_array, is_object, insert, end, nil, Json, Items, array, object, Fields, lookup,
}
use libmediasoupclient.Json.Access.{lookup-insert, insert-present}
use libmediasoupclient.Ortc.Checks.{
  holds, put_unless, present, absent_or, is_nonempty_string, each, AllItems, each_sound,
  each_stable, lookup-put_unless, put_unless-true, IsObject, IsObject-ok,
}
use libmediasoupclient.Ortc.RtpParameters.{
  validate_rtp_parameters, validate_rtp_codec_parameters, validate_rtp_header_extension_parameters,
  validate_rtp_encoding_parameters, validate_rtcp_parameters,
}
use libmediasoupclient.Ortc.RtpParameters.Codec.{IsRtpCodecParameters, codec_sound, codec_stable}
use libmediasoupclient.Ortc.RtpParameters.Parts.{
  IsHeaderExtensionParameters, extension_sound, extension_stable, IsEncodingParameters,
  encoding_sound, encoding_stable, IsRtcpParameters, rtcp_sound, rtcp_stable,
}

-- Parameters with their arrays and their RTCP object there, and every part of them well formed.
pub record IsRtpParameters (p : Fields) : Type 0 where
  pub codecs : Items
  pub extensions : Items
  pub encodings : Items
  pub rtcp : Fields
  pub mid : absent_or is_nonempty_string (lookup "mid" p) ≡ true
  pub has_codecs : lookup "codecs" p ≡ some (array codecs)
  pub valid_codecs : AllItems (IsObject IsRtpCodecParameters) codecs
  pub has_extensions : lookup "headerExtensions" p ≡ some (array extensions)
  pub valid_extensions : AllItems (IsObject IsHeaderExtensionParameters) extensions
  pub has_encodings : lookup "encodings" p ≡ some (array encodings)
  pub valid_encodings : AllItems (IsObject IsEncodingParameters) encodings
  pub has_rtcp : lookup "rtcp" p ≡ some (object rtcp)
  pub valid_rtcp : IsRtcpParameters rtcp

ruleset written = (lookup-insert, lookup-put_unless)

object_of : (P : Fields → Type 0) (w : Json) → IsObject P w → (fs : Fields) × (w ≡ object fs) × P fs
object_of P (object fs) h = (fs, refl, h)
object_of P _ h = absurd h

module _ (p : Fields) (codecs extensions encodings : Items) where
  abbrev with_extensions : Fields
  with_extensions =
      put_unless (present (lookup "headerExtensions" p)) "headerExtensions" (array nil)
        (insert "codecs" (array codecs) p)

  abbrev with_encodings : Fields
  with_encodings =
      put_unless (present (lookup "encodings" p)) "encodings" (array nil)
        (insert "headerExtensions" (array extensions) with_extensions)

  abbrev with_rtcp : Fields
  with_rtcp =
      put_unless (present (lookup "rtcp" p)) "rtcp" (object end)
        (insert "encodings" (array encodings) with_encodings)

  -- The parameters that a run returns, from the results of its loops.
  filled-IsRtpParameters :
      (rtcp : Fields)
      → absent_or is_nonempty_string (lookup "mid" p) ≡ true
      → AllItems (IsObject IsRtpCodecParameters) codecs
      → AllItems (IsObject IsHeaderExtensionParameters) extensions
      → AllItems (IsObject IsEncodingParameters) encodings
      → IsRtcpParameters rtcp
      → IsRtpParameters (insert "rtcp" (object rtcp) with_rtcp)
  filled-IsRtpParameters rtcp mid c x e r = record {
    codecs = codecs;
    extensions = extensions;
    encodings = encodings;
    rtcp = rtcp;
    mid = simp written mid;
    has_codecs = simp written;
    valid_codecs = c;
    has_extensions = simp written;
    valid_extensions = x;
    has_encodings = simp written;
    valid_encodings = e;
    has_rtcp = simp written;
    valid_rtcp = r;
  }

-- What validateRtpParameters returns is an object with arrays of well-formed codecs, header
-- extensions and encodings and with well-formed RTCP parameters, whatever it was given.
pub parameters_sound : (j w : Json) → validate_rtp_parameters j ≡ ok w → IsObject IsRtpParameters w
unfolding validate_rtp_parameters
parameters_sound (object p) w h =
    let (mid, h₁) = check-eq-ok (absent_or is_nonempty_string (lookup "mid" p)) _ _ h in
    let (_, h₂) = check-eq-ok (holds is_array (lookup "codecs" p)) _ _ h₁ in
    let (codecs, c, h₃) = >>=-eq-ok (each validate_rtp_codec_parameters _) _ h₂ in
    let (_, h₄) = check-eq-ok (absent_or is_array (lookup "headerExtensions" p)) _ _ h₃ in
    let (extensions, x, h₅) = >>=-eq-ok (each validate_rtp_header_extension_parameters _) _ h₄ in
    let (_, h₆) = check-eq-ok (absent_or is_array (lookup "encodings" p)) _ _ h₅ in
    let (encodings, e, h₇) = >>=-eq-ok (each validate_rtp_encoding_parameters _) _ h₆ in
    let (_, h₈) = check-eq-ok (absent_or is_object (lookup "rtcp" p)) _ _ h₇ in
    let (rtcp, r, h₉) = >>=-eq-ok (validate_rtcp_parameters _) _ h₈ in
    let (fields, is_fields, valid) = object_of IsRtcpParameters rtcp (rtcp_sound _ _ r) in
    let final = insert "rtcp" (object fields) (with_rtcp p codecs extensions encodings) in
    IsObject-ok IsRtpParameters final (rw is_fields at h₉) (
      filled-IsRtpParameters p codecs extensions encodings fields mid
        (each_sound validate_rtp_codec_parameters (IsObject IsRtpCodecParameters) codec_sound _ _ c)
        (each_sound validate_rtp_header_extension_parameters (IsObject IsHeaderExtensionParameters)
          extension_sound _ _ x)
        (each_sound validate_rtp_encoding_parameters (IsObject IsEncodingParameters) encoding_sound
          _ _ e)
        valid)
parameters_sound _ w h = absurd (ground arith)

-- Well-formed parameters pass, and nothing of them is changed.
pub parameters_stable : (p : Json) → IsObject IsRtpParameters p → validate_rtp_parameters p ≡ ok p
unfolding validate_rtp_parameters
parameters_stable (object p) h = simp (
  h.mid,
  h.has_codecs,
  each_stable validate_rtp_codec_parameters (IsObject IsRtpCodecParameters) codec_stable h.codecs
      h.valid_codecs,
  insert-present "codecs" (array h.codecs) p h.has_codecs,
  h.has_extensions,
  put_unless-true,
  each_stable validate_rtp_header_extension_parameters (IsObject IsHeaderExtensionParameters)
      extension_stable h.extensions h.valid_extensions,
  insert-present "headerExtensions" (array h.extensions) p h.has_extensions,
  h.has_encodings,
  each_stable validate_rtp_encoding_parameters (IsObject IsEncodingParameters) encoding_stable
      h.encodings h.valid_encodings,
  insert-present "encodings" (array h.encodings) p h.has_encodings,
  h.has_rtcp,
  rtcp_stable (object h.rtcp) h.valid_rtcp,
  insert-present "rtcp" (object h.rtcp) p h.has_rtcp,
)
parameters_stable _ h = absurd h

-- Validating parameters a second time succeeds and changes nothing.
pub validate_parameters_idempotent :
    (j w : Json) → validate_rtp_parameters j ≡ ok w → validate_rtp_parameters w ≡ ok w
validate_parameters_idempotent j w h = parameters_stable w (parameters_sound j w h)
