-- ===== src/Ortc/Samples.antt =====
-- RTP capabilities that the tests of src/ortc.cpp and src/Device.cpp use.
use libmediasoupclient.Prelude.{ℕ, true, [], ◌∷◌, none, some}
use libmediasoupclient.Json.{Json, boolean, string, unsigned, array, object, nil, cons, end}
use libmediasoupclient.Ortc.Objects.{build}
use libmediasoupclient.Ortc.Matching.{H264}

abbrev pub every_profile : H264
every_profile = record {
  is_same_profile = λ a b. true;
  generate_profile_level_id = λ a b. some none;
}

-- VP8 and its RTX codec under two payload types.
abbrev pub capabilities : ℕ → ℕ → Json
capabilities vp8 rtx = object (
    build (
      (
        "codecs",
        array (
            cons
              (object (
                build (
                  ("mimeType", string "video/VP8")
                  ∷ ("kind", string "video")
                  ∷ ("preferredPayloadType", unsigned vp8)
                  ∷ ("clockRate", unsigned 90000)
                  ∷ [])))
              (cons
                (object (
                  build (
                    ("mimeType", string "video/rtx")
                    ∷ ("kind", string "video")
                    ∷ ("preferredPayloadType", unsigned rtx)
                    ∷ ("clockRate", unsigned 90000)
                    ∷ ("parameters", object (build (("apt", unsigned vp8) ∷ [])))
                    ∷ [])))
                nil)),
      )
      ∷ []))

abbrev pub extended : Json
extended = object (
    build (
      (
        "codecs",
        array (
            cons
              (object (
                build (
                  ("mimeType", string "video/VP8")
                  ∷ ("kind", string "video")
                  ∷ ("clockRate", unsigned 90000)
                  ∷ ("localPayloadType", unsigned 96)
                  ∷ ("localRtxPayloadType", unsigned 97)
                  ∷ ("remotePayloadType", unsigned 101)
                  ∷ ("remoteRtxPayloadType", unsigned 102)
                  ∷ ("localParameters", object end)
                  ∷ ("remoteParameters", object end)
                  ∷ ("rtcpFeedback", array nil)
                  ∷ [])))
              nil),
      )
      ∷ ("headerExtensions", array nil)
      ∷ []))

-- The parameters of a VP8 stream under a payload type.
abbrev pub video_parameters : ℕ → Json
video_parameters payload_type = object (
    build (
      (
        "codecs",
        array (
            cons
              (object (
                build (
                  ("mimeType", string "video/VP8")
                  ∷ ("payloadType", unsigned payload_type)
                  ∷ ("clockRate", unsigned 90000)
                  ∷ ("parameters", object end)
                  ∷ ("rtcpFeedback", array nil)
                  ∷ [])))
              nil),
      )
      ∷ ("headerExtensions", array nil)
      ∷ ("encodings", array nil)
      ∷ ("rtcp", object (build (("reducedSize", boolean true) ∷ [])))
      ∷ []))
