-- ===== src/Ortc/Sending/Tests.antt =====
-- Runs of getSendingRtpParameters, getSendingRemoteRtpParameters and canSend of src/ortc.cpp on
-- the extended capabilities of a video codec with an RTX codec.
use libmediasoupclient.Prelude.{false, String, [], ◌∷◌, ◌≡◌, refl}
use libmediasoupclient.Prelude.Result.{ok}
use libmediasoupclient.Json.{
  Json, null, boolean, string, unsigned, array, object, Items, nil, cons, end, lookup, insert,
}
use libmediasoupclient.Json.Number.{get_uint8}
use libmediasoupclient.Ortc.Checks.{each, items_of}
use libmediasoupclient.Ortc.Objects.{find, build}
use libmediasoupclient.Ortc.Sending.{
  sending_codecs_of, sending_codecs, sending_extension, sending_extensions, sending_parameters,
  get_sending_rtp_parameters, transport_cc_uri, has_uri, congestion, is_dropped, drop_feedback,
  reduce_codec, get_sending_remote_rtp_parameters, can_send,
}
use libmediasoupclient.Ortc.Sending.Codecs.{
  is_nonempty, FirstOfKind, MediaThenRtx, can_send-codecs, sending_first_codec,
}
use libmediasoupclient.Ortc.Sending.Feedback.{RemoteFeedback, remote_feedback}

abbrev feedback_entry : String → Json
feedback_entry type = object (build (("type", string type) ∷ ("parameter", string "") ∷ []))

abbrev extended : Json
extended = object (
    build (
      (
        "codecs",
        array (
            cons
              (object (
                build (
                  ("mimeType", string "video/VP8")
                  ∷ ("kind", string "video")
                  ∷ ("clockRate", unsigned 90000)
                  ∷ ("localPayloadType", unsigned 96)
                  ∷ ("localRtxPayloadType", unsigned 97)
                  ∷ ("remotePayloadType", unsigned 101)
                  ∷ ("remoteRtxPayloadType", unsigned 102)
                  ∷ ("localParameters", object end)
                  ∷ ("remoteParameters", object end)
                  ∷ (
                    "rtcpFeedback",
                    array (
                        cons (feedback_entry "goog-remb")
                          (cons (feedback_entry "transport-cc") nil)),
                  )
                  ∷ [])))
              nil),
      )
      ∷ (
        "headerExtensions",
        array (
            cons
              (object (
                build (
                  ("kind", string "video")
                  ∷ ("uri", string transport_cc_uri)
                  ∷ ("sendId", unsigned 3)
                  ∷ ("recvId", unsigned 5)
                  ∷ ("encrypt", boolean false)
                  ∷ ("direction", string "sendrecv")
                  ∷ [])))
              nil),
      )
      ∷ []))

-- The parameters, with the feedback of the media codec.
abbrev params : Items → Json
params feedback = object (
    build (
      ("mid", null)
      ∷ (
        "codecs",
        array (
            cons
              (object (
                build (
                  ("mimeType", string "video/VP8")
                  ∷ ("payloadType", unsigned 96)
                  ∷ ("clockRate", unsigned 90000)
                  ∷ ("parameters", object end)
                  ∷ ("rtcpFeedback", array feedback)
                  ∷ [])))
              (cons
                (object (
                  build (
                    ("mimeType", string "video/rtx")
                    ∷ ("payloadType", unsigned 97)
                    ∷ ("clockRate", unsigned 90000)
                    ∷ ("parameters", object (build (("apt", unsigned 96) ∷ [])))
                    ∷ ("rtcpFeedback", array nil)
                    ∷ [])))
                nil)),
      )
      ∷ (
        "headerExtensions",
        array (
            cons
              (object (
                build (
                  ("uri", string transport_cc_uri)
                  ∷ ("id", unsigned 3)
                  ∷ ("encrypt", boolean false)
                  ∷ ("parameters", object end)
                  ∷ [])))
              nil),
      )
      ∷ ("encodings", array nil)
      ∷ ("rtcp", object end)
      ∷ []))

abbrev local_params : Json
local_params = params (cons (feedback_entry "goog-remb") (cons (feedback_entry "transport-cc") nil))

abbrev remote_params : Json
remote_params = params (cons (feedback_entry "transport-cc") nil)

local_run : get_sending_rtp_parameters "video" extended ≡ ok local_params
unfolding sending_codecs_of sending_codecs sending_extension sending_extensions sending_parameters
    get_sending_rtp_parameters lookup insert get_uint8
local_run = refl

remote_run : get_sending_remote_rtp_parameters "video" extended ≡ ok remote_params
unfolding sending_codecs_of sending_codecs sending_extension sending_extensions sending_parameters
    get_sending_remote_rtp_parameters has_uri congestion is_dropped drop_feedback reduce_codec
    lookup insert each get_uint8
remote_run = refl

can_send-codecs_example :
    can_send "video" extended ≡ ok (is_nonempty (items_of (find "codecs" local_params)))
can_send-codecs_example = can_send-codecs "video" extended local_params local_run

sending_first_codec_example :
    (c : Json) × FirstOfKind "video" (items_of (find "codecs" extended)) c
    × MediaThenRtx c (items_of (find "codecs" local_params))
unfolding lookup insert
sending_first_codec_example = sending_first_codec "video" extended local_params local_run refl

remote_feedback_example : RemoteFeedback "video" extended remote_params
remote_feedback_example = remote_feedback "video" extended remote_params remote_run
