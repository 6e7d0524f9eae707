-- ===== src/Ortc/RtpCapabilities/Tests.antt =====
-- Runs of validateRtpCapabilities of src/ortc.cpp on the capabilities of an audio device.
use libmediasoupclient.Prelude.{false, [], ◌∷◌, ◌≡◌, refl}
use libmediasoupclient.Prelude.Result.{ok}
use libmediasoupclient.Json.{
  Json, boolean, integer, pos, string, unsigned, array, object, nil, cons, end, lookup, insert,
}
use libmediasoupclient.Ortc.MimeType.{mime_kind}
use libmediasoupclient.Ortc.Rtp.{check_codec_parameters, fill_channels}
use libmediasoupclient.Ortc.Checks.{IsObject, each, put_unless}
use libmediasoupclient.Ortc.Objects.{build}
use libmediasoupclient.Ortc.RtpCapabilities.{
  validate_rtp_codec_capability, validate_rtp_header_extension, validate_rtp_capabilities,
}
use libmediasoupclient.Ortc.RtpCapabilities.WellFormed.{
  IsRtpCapabilities, capabilities_sound, capabilities_stable,
}

abbrev given : Json
given = object (
    build (
      (
        "codecs",
        array (
            cons
              (object
                (build (("mimeType", string "audio/opus") ∷ ("clockRate", unsigned 48000) ∷ [])))
              nil),
      )
      ∷ (
        "headerExtensions",
        array (
            cons
              (object (
                build (
                  ("uri", string "urn:ietf:params:rtp-hdrext:sdes:mid")
                  ∷ ("preferredId", unsigned 1)
                  ∷ [])))
              nil),
      )
      ∷ []))

abbrev filled : Json
filled = object (
    build (
      (
        "codecs",
        array (
            cons
              (object (
                build (
                  ("kind", string "audio")
                  ∷ ("mimeType", string "audio/opus")
                  ∷ ("clockRate", unsigned 48000)
                  ∷ ("channels", integer (pos 1))
                  ∷ ("parameters", object end)
                  ∷ ("rtcpFeedback", array nil)
                  ∷ [])))
              nil),
      )
      ∷ (
        "headerExtensions",
        array (
            cons
              (object (
                build (
                  ("kind", string "")
                  ∷ ("uri", string "urn:ietf:params:rtp-hdrext:sdes:mid")
                  ∷ ("preferredId", unsigned 1)
                  ∷ ("preferredEncrypt", boolean false)
                  ∷ ("direction", string "sendrecv")
                  ∷ [])))
              nil),
      )
      ∷ []))

run : validate_rtp_capabilities given ≡ ok filled
unfolding validate_rtp_capabilities validate_rtp_codec_capability validate_rtp_header_extension
    lookup insert each put_unless mime_kind check_codec_parameters fill_channels
run = refl

capabilities_sound_example : IsObject IsRtpCapabilities filled
capabilities_sound_example = capabilities_sound given filled run

capabilities_stable_example : validate_rtp_capabilities filled ≡ ok filled
capabilities_stable_example = capabilities_stable filled (capabilities_sound given filled run)
