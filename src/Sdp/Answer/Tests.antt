-- ===== src/Sdp/Answer/Tests.antt =====
-- AnswerMediaSection of src/sdp/MediaSection.cpp for an Opus stream with the option opusStereo.
use libmediasoupclient.Prelude.{ℕ, String, true, false, [], ◌∷◌, ◌≡◌, ◌==◌, ◌||◌, some, refl}
use libmediasoupclient.Prelude.Result.{ok, value_or}
use libmediasoupclient.Json.{
  Json, null, boolean, unsigned, string, array, object, Items, nil, cons, end, lookup, insert,
}
use libmediasoupclient.Json.Number.{get_uint8, json_eq}
use libmediasoupclient.Json.Text.{to_string, to_string_ℤ, get_int32}
use libmediasoupclient.Ortc.Checks.{each}
use libmediasoupclient.Ortc.MimeType.{before_slash, after_slash, is_media, matches_lower, to_lower}
use libmediasoupclient.Ortc.Objects.{at, string_at, build}
use libmediasoupclient.Sdp.MediaSection.{MediaSection, answer, is_closed}
use libmediasoupclient.Sdp.Section.{
  section_fields, codec_name, with_channels, config_text, get_uint32,
}
use libmediasoupclient.Sdp.Answer.Options.{
  stereo_option, flag_option, number_option, opus_options, apply_options, change_offered,
  codec_parameters,
}
use libmediasoupclient.Sdp.Answer.{
  answer_rtp, answer_codecs, answer_payloads, has_extension, answer_extensions, with_simulcast,
  answer_media, AnswerArguments, answer_body, answer_media_section,
}
use libmediasoupclient.Sdp.Answer.Opened.{SharesExtensions}
use libmediasoupclient.Sdp.Answer.Made.{answer_media_section-built}

abbrev extension : String → ℕ → Json
extension uri id = object (build (("uri", string uri) ∷ ("id", unsigned id) ∷ []))

-- The parameters of a stream.
abbrev params : Json
params = object (
    build (
      (
        "codecs",
        array (
            cons
              (object (
                build (
                  ("mimeType", string "audio/opus")
                  ∷ ("payloadType", unsigned 100)
                  ∷ ("clockRate", unsigned 48000)
                  ∷ ("channels", unsigned 2)
                  ∷ ("parameters", object end)
                  ∷ ("rtcpFeedback", array nil)
                  ∷ [])))
              nil),
      )
      ∷ ("headerExtensions", array (cons (extension "mid" 1) (cons (extension "level" 2) nil)))
      ∷ []))

abbrev offered : Json
offered = object (
    build (
      ("type", string "audio")
      ∷ ("mid", string "0")
      ∷ ("protocol", string "UDP/TLS/RTP/SAVPF")
      ∷ ("ext", array (cons (extension "level" 7) nil))
      ∷ []))

abbrev arguments : AnswerArguments
arguments = record {
  ice_parameters =
      object (build (("usernameFragment", string "user") ∷ ("password", string "secret") ∷ []));
  ice_candidates = nil;
  dtls_parameters = object (build (("role", string "auto") ∷ []));
  sctp_parameters = null;
  offer_media_object = offered;
  offer_rtp_parameters = params;
  answer_rtp_parameters = params;
  codec_options = some (object (build (("opusStereo", boolean true) ∷ [])));
}

abbrev float_text : ℕ → String
float_text bits = ""

abbrev made : MediaSection × Items
made =
    value_or (record { side = answer; media_object = end }, nil)
      (answer_media_section float_text arguments)

run : answer_media_section float_text arguments ≡ ok made
unfolding answer_media_section answer_body answer_media with_simulcast answer_extensions
    has_extension answer_payloads answer_codecs answer_rtp codec_parameters change_offered
    apply_options opus_options number_option flag_option stereo_option get_uint32 config_text
    with_channels codec_name section_fields matches_lower to_lower before_slash after_slash is_media
    each get_int32 to_string to_string_ℤ get_uint8 json_eq lookup insert
run = refl

is_audio : string_at "type" offered ≡ ok "audio"
unfolding lookup insert
is_audio = refl

answer_media_section-built_example :
    (is_closed made.0 ≡ ok false)
    × (at "mid" offered ≡ at "mid" (object made.0.media_object))
    × (("audio" == "audio" || "audio" == "video") ≡ true
        → SharesExtensions offered params made.0.media_object)
answer_media_section-built_example =
    answer_media_section-built float_text arguments "audio" made.0 made.1 run is_audio
