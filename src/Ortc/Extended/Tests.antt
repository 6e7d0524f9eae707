-- ===== src/Ortc/Extended/Tests.antt =====
-- A run of getExtendedRtpCapabilities of src/ortc.cpp on two sides with VP8 and RTX.
use libmediasoupclient.Prelude.{◌≡◌, refl}
use libmediasoupclient.Prelude.Result.{ok}
use libmediasoupclient.Json.{lookup, insert, remove}
use libmediasoupclient.Json.Number.{json_eq}
use libmediasoupclient.Ortc.MimeType.{matches_lower, mime_kind, to_lower}
use libmediasoupclient.Ortc.Rtp.{check_codec_parameters, fill_channels}
use libmediasoupclient.Ortc.Checks.{each, put_unless}
use libmediasoupclient.Ortc.RtpCapabilities.{
  validate_rtp_codec_capability, validate_rtp_capabilities,
}
use libmediasoupclient.Ortc.Matching.{is_rtx_codec, match_codecs, reduce_rtcp_feedback}
use libmediasoupclient.Ortc.Extended.{
  extended_codec, find_rtx, link_rtx, find_local, match_media, match_extensions,
  get_extended_rtp_capabilities,
}
use libmediasoupclient.Ortc.Samples.{every_profile, capabilities, extended}
use libmediasoupclient.Ortc.Extended.Rtx.{ExtendedFrom, get_extended-ExtendedFrom}

run :
    get_extended_rtp_capabilities every_profile (capabilities 96 97) (capabilities 101 102)
    ≡ ok extended
unfolding get_extended_rtp_capabilities match_media find_local extended_codec find_rtx link_rtx
    match_extensions validate_rtp_capabilities lookup insert remove each put_unless is_rtx_codec
    match_codecs reduce_rtcp_feedback matches_lower json_eq to_lower validate_rtp_codec_capability
    mime_kind check_codec_parameters fill_channels
run = refl

get_extended-ExtendedFrom_example :
    ExtendedFrom every_profile (capabilities 96 97) (capabilities 101 102) extended
get_extended-ExtendedFrom_example =
    get_extended-ExtendedFrom every_profile (capabilities 96 97) (capabilities 101 102) extended run
