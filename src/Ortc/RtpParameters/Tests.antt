-- ===== src/Ortc/RtpParameters/Tests.antt =====
-- A run of validateRtpParameters of src/ortc.cpp on the parameters of a video stream.
use libmediasoupclient.Prelude.{false, true, [], ◌∷◌, ◌≡◌, refl}
use libmediasoupclient.Prelude.Result.{ok}
use libmediasoupclient.Json.{
  Json, boolean, string, unsigned, array, object, nil, cons, end, lookup, insert, remove,
}
use libmediasoupclient.Ortc.MimeType.{mime_kind}
use libmediasoupclient.Ortc.Rtp.{validate_rtcp_feedback, check_codec_parameters, fill_channels}
use libmediasoupclient.Ortc.Checks.{IsObject, each, put_unless}
use libmediasoupclient.Ortc.Objects.{build}
use libmediasoupclient.Ortc.RtpParameters.{
  validate_rtp_codec_parameters, validate_rtp_header_extension_parameters,
  check_extension_parameters, validate_rtp_encoding_parameters, validate_rtcp_parameters,
  validate_rtp_parameters,
}
use libmediasoupclient.Ortc.RtpParameters.WellFormed.{
  IsRtpParameters, parameters_sound, parameters_stable,
}

abbrev given : Json
given = object (
    build (
      (
        "codecs",
        array (
            cons
              (object (
                build (
                  ("mimeType", string "video/VP8")
                  ∷ ("payloadType", unsigned 96)
                  ∷ ("clockRate", unsigned 90000)
                  ∷ ("channels", unsigned 1)
                  ∷ (
                    "rtcpFeedback",
                    array (cons (object (build (("type", string "nack") ∷ []))) nil),
                  )
                  ∷ [])))
              nil),
      )
      ∷ (
        "headerExtensions",
        array (
            cons
              (object
                (build (("uri", string "urn:3gpp:video-orientation") ∷ ("id", unsigned 4) ∷ [])))
              nil),
      )
      ∷ ("encodings", array (cons (object (build (("ssrc", unsigned 1111) ∷ []))) nil))
      ∷ []))

abbrev filled : Json
filled = object (
    build (
      (
        "codecs",
        array (
            cons
              (object (
                build (
                  ("mimeType", string "video/VP8")
                  ∷ ("payloadType", unsigned 96)
                  ∷ ("clockRate", unsigned 90000)
                  ∷ ("parameters", object end)
                  ∷ (
                    "rtcpFeedback",
                    array (
                        cons
                          (object (build (("type", string "nack") ∷ ("parameter", string "") ∷ [])))
                          nil),
                  )
                  ∷ [])))
              nil),
      )
      ∷ (
        "headerExtensions",
        array (
            cons
              (object (
                build (
                  ("uri", string "urn:3gpp:video-orientation")
                  ∷ ("id", unsigned 4)
                  ∷ ("encrypt", boolean false)
                  ∷ ("parameters", object end)
                  ∷ [])))
              nil),
      )
      ∷ (
        "encodings",
        array (cons (object (build (("ssrc", unsigned 1111) ∷ ("dtx", boolean false) ∷ []))) nil),
      )
      ∷ ("rtcp", object (build (("reducedSize", boolean true) ∷ [])))
      ∷ []))

run : validate_rtp_parameters given ≡ ok filled
unfolding validate_rtp_codec_parameters validate_rtp_header_extension_parameters
    check_extension_parameters validate_rtp_encoding_parameters validate_rtcp_parameters
    validate_rtp_parameters lookup insert remove each put_unless mime_kind validate_rtcp_feedback
    check_codec_parameters fill_channels
run = refl

parameters_sound_example : IsObject IsRtpParameters filled
parameters_sound_example = parameters_sound given filled run

parameters_stable_example : validate_rtp_parameters filled ≡ ok filled
parameters_stable_example = parameters_stable filled (parameters_sound given filled run)
