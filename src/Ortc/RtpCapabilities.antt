-- ===== src/Ortc/RtpCapabilities.antt =====
-- src/ortc.cpp: validateRtpCapabilities, validateRtpCodecCapability, validateRtpHeaderExtension.
pub mod Codec
pub mod Extension
mod Tests
pub mod WellFormed
use libmediasoupclient.Prelude.{false, ◌||◌, ◌==◌}
use libmediasoupclient.Prelude.Result.{Result, ok, err, type_error, check, ◌>>=◌, ◌>>◌}
use libmediasoupclient.Json.{
  Json, boolean, string, array, object, nil, end, is_string, is_boolean, is_array, is_object,
  is_number_integer, lookup, insert,
}
use libmediasoupclient.Ortc.Checks.{
  holds, absent_or, present, is_nonempty_string, get_string, items_of, fields_of, put_unless, each,
}
use libmediasoupclient.Ortc.Rtp.{
  validate_rtcp_feedback, match_mime_type, fill_channels, check_codec_parameters,
}

-- validateRtpCodecCapability
unfoldable pub validate_rtp_codec_capability : Json → Result Json
validate_rtp_codec_capability (object codec) = do
  let mime_type_it = lookup "mimeType" codec
  let preferred_payload_type_it = lookup "preferredPayloadType" codec
  let clock_rate_it = lookup "clockRate" codec
  let channels_it = lookup "channels" codec
  let parameters_it = lookup "parameters" codec
  let rtcp_feedback_it = lookup "rtcpFeedback" codec
  check (holds is_string mime_type_it) "missing codec.mimeType"
  kind ← match_mime_type mime_type_it
  let with_kind = insert "kind" (string kind) codec
  check (absent_or is_number_integer preferred_payload_type_it) "invalid codec.preferredPayloadType"
  check (holds is_number_integer clock_rate_it) "missing codec.clockRate"
  let with_channels = fill_channels kind channels_it with_kind
  let with_parameters =
      put_unless (holds is_object parameters_it) "parameters" (object end) with_channels
  check_codec_parameters (fields_of (lookup "parameters" with_parameters))
  let filled =
      put_unless (holds is_array rtcp_feedback_it) "rtcpFeedback" (array nil) with_parameters
  feedback ← each validate_rtcp_feedback (items_of (lookup "rtcpFeedback" filled))
  ok (object (insert "rtcpFeedback" (array feedback) filled))
validate_rtp_codec_capability _ = err (type_error "codec is not an object")

-- validateRtpHeaderExtension
unfoldable pub validate_rtp_header_extension : Json → Result Json
validate_rtp_header_extension (object ext) = do
  let kind_it = lookup "kind" ext
  let uri_it = lookup "uri" ext
  let preferred_id_it = lookup "preferredId" ext
  let preferred_encrypt_it = lookup "preferredEncrypt" ext
  let direction_it = lookup "direction" ext
  let with_kind = put_unless (holds is_string kind_it) "kind" (string "") ext
  kind ← get_string (lookup "kind" with_kind)
  check (kind == "" || kind == "audio" || kind == "video") "invalid ext.kind"
  check (holds is_nonempty_string uri_it) "missing ext.uri"
  check (holds is_number_integer preferred_id_it) "missing ext.preferredId"
  check (absent_or is_boolean preferred_encrypt_it) "invalid ext.preferredEncrypt"
  let with_encrypt =
      put_unless (present preferred_encrypt_it) "preferredEncrypt" (boolean false) with_kind
  check (absent_or is_string direction_it) "invalid ext.direction"
  ok (object (put_unless (present direction_it) "direction" (string "sendrecv") with_encrypt))
validate_rtp_header_extension _ = err (type_error "ext is not an object")

-- validateRtpCapabilities
unfoldable pub validate_rtp_capabilities : Json → Result Json
validate_rtp_capabilities (object caps) = do
  let codecs_it = lookup "codecs" caps
  let header_extensions_it = lookup "headerExtensions" caps
  check (absent_or is_array codecs_it) "caps.codecs is not an array"
  let with_codecs = put_unless (present codecs_it) "codecs" (array nil) caps
  codecs ← each validate_rtp_codec_capability (items_of (lookup "codecs" with_codecs))
  let valid_codecs = insert "codecs" (array codecs) with_codecs
  check (absent_or is_array header_extensions_it) "caps.headerExtensions is not an array"
  let with_extensions =
      put_unless (present header_extensions_it) "headerExtensions" (array nil) valid_codecs
  extensions ←
      each validate_rtp_header_extension (items_of (lookup "headerExtensions" with_extensions))
  ok (object (insert "headerExtensions" (array extensions) with_extensions))
validate_rtp_capabilities _ = err (type_error "caps is not an object")
