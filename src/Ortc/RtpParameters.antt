-- ===== src/Ortc/RtpParameters.antt =====
-- src/ortc.cpp: validateRtpParameters and the validators that it calls.
pub mod Codec
pub mod Parts
pub mod WellFormed
mod Tests
use libmediasoupclient.Prelude.{true, false, ◌||◌, Option, none, some}
use libmediasoupclient.Prelude.Result.{Result, ok, err, type_error, check, ◌>>=◌, ◌>>◌}
use libmediasoupclient.Json.{
  Json, boolean, array, object, nil, end, field, Fields, is_string, is_boolean, is_array, is_object,
  is_number, is_number_integer, lookup, insert,
}
use libmediasoupclient.Ortc.Checks.{
  holds, absent_or, present, is_nonempty_string, items_of, fields_of, put_unless, each,
}
use libmediasoupclient.Ortc.Rtp.{
  validate_rtcp_feedback, match_mime_type, fill_channels, check_codec_parameters,
}

-- validateRtpCodecParameters
unfoldable pub validate_rtp_codec_parameters : Json → Result Json
validate_rtp_codec_parameters (object codec) = do
  let mime_type_it = lookup "mimeType" codec
  let payload_type_it = lookup "payloadType" codec
  let clock_rate_it = lookup "clockRate" codec
  let channels_it = lookup "channels" codec
  let parameters_it = lookup "parameters" codec
  let rtcp_feedback_it = lookup "rtcpFeedback" codec
  check (holds is_string mime_type_it) "missing codec.mimeType"
  kind ← match_mime_type mime_type_it
  check (holds is_number_integer payload_type_it) "missing codec.payloadType"
  check (holds is_number_integer clock_rate_it) "missing codec.clockRate"
  let with_channels = fill_channels kind channels_it codec
  let with_parameters =
      put_unless (holds is_object parameters_it) "parameters" (object end) with_channels
  check_codec_parameters (fields_of (lookup "parameters" with_parameters))
  let filled =
      put_unless (holds is_array rtcp_feedback_it) "rtcpFeedback" (array nil) with_parameters
  feedback ← each validate_rtcp_feedback (items_of (lookup "rtcpFeedback" filled))
  ok (object (insert "rtcpFeedback" (array feedback) filled))
validate_rtp_codec_parameters _ = err (type_error "codec is not an object")

-- The loop over the parameters of a header extension.
unfoldable pub check_extension_parameters : Fields → Result (Unit {0})
check_extension_parameters end = ok tt
check_extension_parameters (field key value fs) = do
  check (is_string value || is_number value) "invalid header extension parameter"
  check_extension_parameters fs

-- validateRtpHeaderExtensionParameters
unfoldable pub validate_rtp_header_extension_parameters : Json → Result Json
validate_rtp_header_extension_parameters (object ext) = do
  let uri_it = lookup "uri" ext
  let id_it = lookup "id" ext
  let encrypt_it = lookup "encrypt" ext
  let parameters_it = lookup "parameters" ext
  check (holds is_nonempty_string uri_it) "missing ext.uri"
  check (holds is_number_integer id_it) "missing ext.id"
  check (absent_or is_boolean encrypt_it) "invalid ext.encrypt"
  let with_encrypt = put_unless (present encrypt_it) "encrypt" (boolean false) ext
  let filled = put_unless (holds is_object parameters_it) "parameters" (object end) with_encrypt
  check_extension_parameters (fields_of (lookup "parameters" filled))
  ok (object filled)
validate_rtp_header_extension_parameters _ = err (type_error "ext is not an object")

-- The branch on `rtx` of validateRtpEncodingParameters.
abbrev pub check_rtx : Option Json → Result (Unit {0})
check_rtx none = ok tt
check_rtx (some (object rtx)) =
    check (holds is_number_integer (lookup "ssrc" rtx)) "missing encoding.rtx.ssrc"
check_rtx (some _) = err (type_error "invalid encoding.rtx")

-- validateRtpEncodingParameters
unfoldable pub validate_rtp_encoding_parameters : Json → Result Json
validate_rtp_encoding_parameters (object encoding) = do
  let ssrc_it = lookup "ssrc" encoding
  let rid_it = lookup "rid" encoding
  let rtx_it = lookup "rtx" encoding
  let dtx_it = lookup "dtx" encoding
  let scalability_mode_it = lookup "scalabilityMode" encoding
  check (absent_or is_number_integer ssrc_it) "invalid encoding.ssrc"
  check (absent_or is_nonempty_string rid_it) "invalid encoding.rid"
  check_rtx rtx_it
  let filled = put_unless (holds is_boolean dtx_it) "dtx" (boolean false) encoding
  check (absent_or is_nonempty_string scalability_mode_it) "invalid encoding.scalabilityMode"
  ok (object filled)
validate_rtp_encoding_parameters _ = err (type_error "encoding is not an object")

-- validateRtcpParameters
unfoldable pub validate_rtcp_parameters : Json → Result Json
validate_rtcp_parameters (object rtcp) = do
  let cname_it = lookup "cname" rtcp
  let reduced_size_it = lookup "reducedSize" rtcp
  check (absent_or is_string cname_it) "invalid rtcp.cname"
  ok (object (put_unless (holds is_boolean reduced_size_it) "reducedSize" (boolean true) rtcp))
validate_rtcp_parameters _ = err (type_error "rtcp is not an object")

-- validateRtpParameters
unfoldable pub validate_rtp_parameters : Json → Result Json
validate_rtp_parameters (object params) = do
  let mid_it = lookup "mid" params
  let codecs_it = lookup "codecs" params
  let header_extensions_it = lookup "headerExtensions" params
  let encodings_it = lookup "encodings" params
  let rtcp_it = lookup "rtcp" params
  check (absent_or is_nonempty_string mid_it) "params.mid is not a string"
  check (holds is_array codecs_it) "missing params.codecs"
  codecs ← each validate_rtp_codec_parameters (items_of codecs_it)
  let valid_codecs = insert "codecs" (array codecs) params
  check (absent_or is_array header_extensions_it) "params.headerExtensions is not an array"
  let with_extensions =
      put_unless (present header_extensions_it) "headerExtensions" (array nil) valid_codecs
  extensions ←
      each validate_rtp_header_extension_parameters
        (items_of (lookup "headerExtensions" with_extensions))
  let valid_extensions = insert "headerExtensions" (array extensions) with_extensions
  check (absent_or is_array encodings_it) "params.encodings is not an array"
  let with_encodings = put_unless (present encodings_it) "encodings" (array nil) valid_extensions
  encodings ← each validate_rtp_encoding_parameters (items_of (lookup "encodings" with_encodings))
  let valid_encodings = insert "encodings" (array encodings) with_encodings
  check (absent_or is_object rtcp_it) "params.rtcp is not an object"
  let with_rtcp = put_unless (present rtcp_it) "rtcp" (object end) valid_encodings
  rtcp ← validate_rtcp_parameters (object (fields_of (lookup "rtcp" with_rtcp)))
  ok (object (insert "rtcp" rtcp with_rtcp))
validate_rtp_parameters _ = err (type_error "params is not an object")
