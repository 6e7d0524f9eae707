-- ===== src/Ortc/Rtp.antt =====
-- src/ortc.cpp: what RTP capabilities and RTP parameters share, which is the RTCP feedback, the
-- codec parameters, and the codec fields that default by kind.
pub mod WellFormed
use libmediasoupclient.Prelude.{String, ◌||◌, ◌==◌, Option, none, some, if◌then◌else◌}
use libmediasoupclient.Prelude.Result.{Result, ok, err, type_error, check, ◌>>◌}
use libmediasoupclient.Json.{
  Json, integer, pos, string, object, Fields, end, field, is_null, is_string, is_number,
  is_number_integer, lookup, remove,
}
use libmediasoupclient.Ortc.Checks.{holds, present, put_unless}
use libmediasoupclient.Ortc.MimeType.{mime_kind}

-- validateRtcpFeedback
unfoldable pub validate_rtcp_feedback : Json → Result Json
validate_rtcp_feedback (object fb) = do
  let type_it = lookup "type" fb
  let parameter_it = lookup "parameter" fb
  check (holds is_string type_it) "missing fb.type"
  ok (object (put_unless (holds is_string parameter_it) "parameter" (string "") fb))
validate_rtcp_feedback _ = err (type_error "fb is not an object")

-- The match of the mime type against the regular expression.
abbrev pub match_mime_type : Option Json → Result String
match_mime_type (some (string s)) = elim (mime_kind s) [
  | none ↦ err (type_error "invalid codec.mimeType")
  | some kind ↦ ok kind
]
match_mime_type _ = err (type_error "missing codec.mimeType")

-- `channels` is set for audio, and erased for any other kind.
unfoldable pub fill_channels : String → Option Json → Fields → Fields
fill_channels kind channels_it codec =
    if kind == "audio"
    then put_unless (holds is_number_integer channels_it) "channels" (integer (pos 1)) codec
    else if present channels_it
    then remove "channels" codec
    else codec

-- The body of the loop over the codec parameters, and the loop.
unfoldable pub check_codec_parameter : String → Json → Result (Unit {0})
check_codec_parameter key value = do
  check (is_string value || is_number value || is_null value) "invalid codec parameter"
  if key == "apt" then check (is_number_integer value) "invalid codec apt parameter" else ok tt

unfoldable pub check_codec_parameters : Fields → Result (Unit {0})
unfolding check_codec_parameter
check_codec_parameters end = ok tt
check_codec_parameters (field key value fs) = do
  check_codec_parameter key value
  check_codec_parameters fs
