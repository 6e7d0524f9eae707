-- ===== src/Sdp/Answer.antt =====
-- The constructor AnswerMediaSection of src/sdp/MediaSection.cpp.
pub mod Options
pub mod Extensions
pub mod Opened
pub mod Made
mod Tests
use Prim.Native.String
use libmediasoupclient.Prelude.{
  ℕ, String, Bool, true, false, not, ◌||◌, Option, none, some, [], ◌∷◌, ◌==◌, if◌then◌else◌,
}
use libmediasoupclient.Prelude.Result.{Result, ok, err, json_error, undefined, ◌>>=◌}
use libmediasoupclient.Json.{
  Json, null, integer, pos, string, array, object, Items, nil, cons, Fields, insert, is_object,
  is_array, is_string,
}
use libmediasoupclient.Json.Number.{get_uint8, json_eq}
use libmediasoupclient.Json.Text.{to_string}
use libmediasoupclient.Ortc.Checks.{append, each, items_of, holds}
use libmediasoupclient.Ortc.Matching.{or_null}
use libmediasoupclient.Ortc.Objects.{at, string_at, find, build}
use libmediasoupclient.Sdp.MediaSection.{MediaSection, answer, set_setup}
use libmediasoupclient.Sdp.Section.{
  section_fields, codec_name, with_channels, config_text, fields_in, fmtp_items, separated,
  Described,
}
use libmediasoupclient.Sdp.Offer.{application_media}
use libmediasoupclient.Sdp.Answer.Options.{codec_parameters}

-- The entry of `rtp` for a codec that is not constant: a key that is missing is null.
unfoldable pub answer_rtp : Json → Result Json
answer_rtp codec = do
  mime_type ← string_at "mimeType" codec
  rtp ← with_channels (find "channels" codec) (
      build (
        ("payload", or_null (find "payloadType" codec))
        ∷ ("codec", string (codec_name mime_type))
        ∷ ("rate", or_null (find "clockRate" codec))
        ∷ []))
  ok (object rtp)

abbrev pub answer_feedback : Json → Items → Items
answer_feedback codec nil = nil
answer_feedback codec (cons fb rest) =
    cons
      (object (
        build (
          ("payload", or_null (find "payloadType" codec))
          ∷ ("type", or_null (find "type" fb))
          ∷ ("subtype", or_null (find "parameter" fb))
          ∷ [])))
      (answer_feedback codec rest)

-- The loop over the codecs of the answer, with the codecs of the offer as it changes them.
unfoldable pub answer_codecs :
    (ℕ → String) → Option Json → Items → Items → Result (Described × Items)
answer_codecs float_text options nil offered =
    ok (record { rtp = nil; fmtp = nil; rtcp_fb = nil }, offered)
answer_codecs float_text options (cons codec rest) offered = do
  rtp ← answer_rtp codec
  parameters ← codec_parameters options codec offered
  let config = config_text float_text (fields_in parameters.0) ""
  later ← answer_codecs float_text options rest parameters.1
  ok (
    record {
      rtp = cons rtp later.0.rtp;
      fmtp = append (fmtp_items (or_null (find "payloadType" codec)) config) later.0.fmtp;
      rtcp_fb =
          append (answer_feedback codec (items_of (find "rtcpFeedback" codec))) later.0.rtcp_fb;
    },
    later.1,
  )

unfoldable pub answer_payloads : Items → String → Result String
answer_payloads nil payloads = ok payloads
answer_payloads (cons codec rest) payloads = do
  n ← get_uint8 (or_null (find "payloadType" codec))
  answer_payloads rest (String.◌++◌ (separated " " payloads) (to_string n))

-- `find_if` of a header extension of the offer.
unfoldable pub has_extension : Json → Items → Result Bool
has_extension uri nil = ok false
has_extension uri (cons local rest) = do
  local_uri ← at "uri" local
  elim (json_eq local_uri uri) [ true ↦ ok true | false ↦ has_extension uri rest ]

abbrev pub keep_if : Bool → Json → Items → Items
keep_if true x xs = cons x xs
keep_if false x xs = xs

-- The loop over the header extensions of the answer.
unfoldable pub answer_extensions : Json → Items → Result Items
answer_extensions offer_media_object nil = ok nil
answer_extensions offer_media_object (cons ext rest) = do
  local ← at "ext" offer_media_object
  known ← has_extension (or_null (find "uri" ext)) (items_of (some local))
  later ← answer_extensions offer_media_object rest
  ok (
      keep_if known
        (object
          (build (("uri", or_null (find "uri" ext)) ∷ ("value", or_null (find "id" ext)) ∷ [])))
        later)

-- The RIDs that the answer receives.
unfoldable pub answer_rids : Items → Result Items
answer_rids nil = ok nil
answer_rids (cons rid rest) = do
  direction ← at "direction" rid
  here ← elim (json_eq direction (string "send")) [
    | false ↦ ok nil
    | true ↦ do
      id ← at "id" rid
      ok (cons (object (build (("id", id) ∷ ("direction", string "recv") ∷ []))) nil)
  ]
  later ← answer_rids rest
  ok (append here later)

unfoldable pub with_simulcast : Option Json → Option Json → Fields → Result Fields
with_simulcast (some (object simulcast)) none fs = err undefined
with_simulcast (some (object simulcast)) (some (array rids)) fs = do
  list ← at "list1" (object simulcast)
  answered ← answer_rids rids
  ok (
      insert "rids" (array answered)
        (insert "simulcast" (object (build (("dir1", string "recv") ∷ ("list1", list) ∷ []))) fs))
with_simulcast _ _ fs = ok fs

abbrev pub with_mixed : Json → Fields → Fields
with_mixed offer_media_object fs =
    if holds is_string (find "extmapAllowMixed" offer_media_object)
    then insert "extmapAllowMixed" (string "extmap-allow-mixed") fs
    else fs

-- The part of AnswerMediaSection for audio and video, with the parameters of the offer as it leaves
-- their codecs.
unfoldable pub answer_media :
    (ℕ → String) → Option Json → Json → Json → Json → Fields → Result (Fields × Items)
answer_media float_text options offer_media_object offer_parameters answer_parameters fs = do
  let codecs = items_of (find "codecs" answer_parameters)
  described ← answer_codecs float_text options codecs (items_of (find "codecs" offer_parameters))
  payloads ← answer_payloads codecs ""
  ext ← answer_extensions offer_media_object (items_of (find "headerExtensions" answer_parameters))
  let with_codecs = insert "ext" (array ext) (
      insert "payloads" (string payloads) (
        insert "fmtp" (array described.0.fmtp) (
          insert "rtcpFb" (array described.0.rtcp_fb)
            (insert "rtp" (array described.0.rtp) (insert "direction" (string "recvonly") fs)))))
  simulcast ←
      with_simulcast (find "simulcast" offer_media_object) (find "rids" offer_media_object)
        (with_mixed offer_media_object with_codecs)
  ok (
    insert "rtcpRsize" (string "rtcp-rsize") (insert "rtcpMux" (string "rtcp-mux") simulcast),
    described.1,
  )

-- The arguments of the constructor of AnswerMediaSection.
pub record AnswerArguments : Type 0 where
  pub ice_parameters : Json
  pub ice_candidates : Items
  pub dtls_parameters : Json
  pub sctp_parameters : Json
  pub offer_media_object : Json
  pub offer_rtp_parameters : Json
  pub answer_rtp_parameters : Json
  pub codec_options : Option Json

unfoldable pub answer_application : AnswerArguments → Fields → Result (Fields × Items)
answer_application a fs = do
  application ← application_media a.sctp_parameters fs
  ok (application, items_of (find "codecs" a.offer_rtp_parameters))

unfoldable pub answer_body :
    (ℕ → String) → AnswerArguments → String → Fields → Result (Fields × Items)
answer_body float_text a type fs =
    if type == "audio" || type == "video"
    then answer_media float_text a.codec_options a.offer_media_object a.offer_rtp_parameters
        a.answer_rtp_parameters fs
    else if type == "application"
    then answer_application a fs
    else ok (fs, items_of (find "codecs" a.offer_rtp_parameters))

-- AnswerMediaSection, with the codecs of the offer's parameters as it leaves them.
unfoldable pub answer_media_section : (ℕ → String) → AnswerArguments → Result (MediaSection × Items)
answer_media_section float_text a = do
  base ← section_fields a.ice_parameters a.ice_candidates
  type ← string_at "type" a.offer_media_object
  mid ← at "mid" a.offer_media_object
  protocol ← at "protocol" a.offer_media_object
  role ← string_at "role" a.dtls_parameters
  let head = set_setup role (
      insert "port" (integer (pos 7)) (
        insert "connection"
          (object (build (("ip", string "127.0.0.1") ∷ ("version", integer (pos 4)) ∷ [])))
          (insert "protocol" protocol (insert "type" (string type) (insert "mid" mid base)))))
  made ← answer_body float_text a type head
  ok (record { side = answer; media_object = made.0 }, made.1)
