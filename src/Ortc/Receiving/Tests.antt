-- ===== src/Ortc/Receiving/Tests.antt =====
-- Runs of canReceive and of the header extensions of getRecvRtpCapabilities of src/ortc.cpp.
use libmediasoupclient.Prelude.{none, false, true, [], ◌∷◌, ◌≡◌, refl}
use libmediasoupclient.Prelude.Result.{ok, err, undefined}
use libmediasoupclient.Json.{
  Json, boolean, string, unsigned, array, object, nil, cons, end, lookup, insert,
}
use libmediasoupclient.Json.Number.{json_eq}
use libmediasoupclient.Ortc.MimeType.{mime_kind}
use libmediasoupclient.Ortc.Rtp.{check_codec_parameters, fill_channels}
use libmediasoupclient.Ortc.Checks.{IsObject, each, items_of, put_unless}
use libmediasoupclient.Ortc.Objects.{find, build}
use libmediasoupclient.Ortc.RtpParameters.{
  validate_rtp_codec_parameters, validate_rtcp_parameters, validate_rtp_parameters,
}
use libmediasoupclient.Ortc.RtpParameters.WellFormed.{IsRtpParameters}
use libmediasoupclient.Ortc.Extended.{extended_extension, flip_direction}
use libmediasoupclient.Ortc.Receiving.{
  has_remote_payload_type, receives, receiving_extensions, can_receive,
}
use libmediasoupclient.Ortc.Receiving.Answer.{Answer, can_receive-Answer}
use libmediasoupclient.Ortc.Receiving.Direction.{unknown_direction_undefined}

abbrev params : Json
params = object (
    build (
      (
        "codecs",
        array (
            cons
              (object (
                build (
                  ("mimeType", string "video/VP8")
                  ∷ ("payloadType", unsigned 101)
                  ∷ ("clockRate", unsigned 90000)
                  ∷ ("parameters", object end)
                  ∷ ("rtcpFeedback", array nil)
                  ∷ [])))
              nil),
      )
      ∷ ("headerExtensions", array nil)
      ∷ ("encodings", array nil)
      ∷ ("rtcp", object (build (("reducedSize", boolean true) ∷ [])))
      ∷ []))

abbrev extended : Json
extended = object (
    build (
      (
        "codecs",
        array (
            cons (object (build (("remotePayloadType", unsigned 100) ∷ [])))
              (cons (object (build (("remotePayloadType", unsigned 101) ∷ []))) nil)),
      )
      ∷ ("headerExtensions", array nil)
      ∷ []))

run : can_receive params extended ≡ ok (params, true)
unfolding can_receive receives has_remote_payload_type validate_rtp_parameters lookup insert json_eq
    each validate_rtp_codec_parameters mime_kind check_codec_parameters put_unless fill_channels
    validate_rtcp_parameters
run = refl

can_receive-Answer_example :
    IsObject IsRtpParameters params × Answer extended (items_of (find "codecs" params)) true
can_receive-Answer_example = can_receive-Answer params extended params true run

abbrev remote_extension : Json
remote_extension = object (
    build (
      ("kind", string "video")
      ∷ ("uri", string "urn:3gpp:video-orientation")
      ∷ ("preferredId", unsigned 4)
      ∷ ("preferredEncrypt", boolean false)
      ∷ ("direction", string "both")
      ∷ []))

abbrev extension : Json
extension = object (
    build (
      ("kind", string "video")
      ∷ ("uri", string "urn:3gpp:video-orientation")
      ∷ ("sendId", unsigned 4)
      ∷ ("recvId", unsigned 4)
      ∷ ("encrypt", boolean false)
      ∷ []))

unknown_direction_undefined_example :
    (find "direction" extension ≡ none)
    × (receiving_extensions (cons extension nil) ≡ err undefined)
unfolding extended_extension flip_direction lookup insert
unknown_direction_undefined_example =
    unknown_direction_undefined remote_extension remote_extension extension nil "both" refl
      (refl, refl, refl, refl) refl
