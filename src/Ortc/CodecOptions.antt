-- ===== src/Ortc/CodecOptions.antt =====
-- src/ortc.cpp: validateProducerCodecOptions.

use libmediasoupclient.Prelude.Result.{Result, ok, err, type_error, check, ◌>>◌}
use libmediasoupclient.Json.{
  Json, object, is_boolean, is_number_unsigned, is_number_integer, lookup,
}
use libmediasoupclient.Ortc.Checks.{absent_or}

-- validateProducerCodecOptions
unfoldable pub validate_producer_codec_options : Json → Result Json
validate_producer_codec_options (object params) = do
  check (absent_or is_boolean (lookup "opusStereo" params)) "invalid params.opusStereo"
  check (absent_or is_boolean (lookup "opusFec" params)) "invalid params.opusFec"
  check (absent_or is_boolean (lookup "opusDtx" params)) "invalid params.opusDtx"
  check (absent_or is_number_unsigned (lookup "opusMaxPlaybackRate" params))
      "invalid params.opusMaxPlaybackRate"
  check (absent_or is_number_integer (lookup "opusPtime" params)) "invalid params.opusPtime"
  check (absent_or is_number_integer (lookup "videoGoogleStartBitrate" params))
      "invalid params.videoGoogleStartBitrate"
  check (absent_or is_number_integer (lookup "videoGoogleMaxBitrate" params))
      "invalid params.videoGoogleMaxBitrate"
  check (absent_or is_number_integer (lookup "videoGoogleMinBitrate" params))
      "invalid params.videoGoogleMinBitrate"
  ok (object params)
validate_producer_codec_options _ = err (type_error "params is not an object")
