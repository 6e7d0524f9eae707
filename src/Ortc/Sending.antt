-- ===== src/Ortc/Sending.antt =====
-- src/ortc.cpp: getSendingRtpParameters, getSendingRemoteRtpParameters and canSend.
pub mod Codecs
pub mod Control
pub mod Feedback
mod Tests
use Prim.Native.String
use libmediasoupclient.Prelude.{String, Bool, true, false, not, ◌||◌, ◌==◌, [], ◌∷◌, if◌then◌else◌}
use libmediasoupclient.Prelude.Result.{Result, ok, err, json_error, ◌>>=◌}
use libmediasoupclient.Json.{
  Json, null, unsigned, string, array, object, Items, nil, cons, Fields, end, is_null, lookup,
  insert,
}
use libmediasoupclient.Json.Number.{get_uint8}
use libmediasoupclient.Ortc.Checks.{items_of, each}
use libmediasoupclient.Ortc.Objects.{at, string_at, items_at, build, copy_if_present}

-- A media codec of the extended capabilities as a codec to send, and its RTX codec if it has one.
-- The two functions differ in the key of the parameters.
unfoldable pub sending_codecs_of : String → Json → Result Items
sending_codecs_of parameters_key extended = do
  mime_type ← at "mimeType" extended
  payload_type ← at "localPayloadType" extended
  clock_rate ← at "clockRate" extended
  parameters ← at parameters_key extended
  feedback ← at "rtcpFeedback" extended
  let codec = copy_if_present "channels" extended (
      build (
        ("mimeType", mime_type)
        ∷ ("payloadType", payload_type)
        ∷ ("clockRate", clock_rate)
        ∷ ("parameters", parameters)
        ∷ ("rtcpFeedback", feedback)
        ∷ []))
  rtx_payload_type ← at "localRtxPayloadType" extended
  if is_null rtx_payload_type then ok (cons (object codec) nil) else do
    kind ← string_at "kind" extended
    apt ← get_uint8 payload_type
    let rtx_codec = build (
        ("mimeType", string (String.◌++◌ kind "/rtx"))
        ∷ ("payloadType", rtx_payload_type)
        ∷ ("clockRate", clock_rate)
        ∷ ("parameters", object (build (("apt", unsigned apt) ∷ [])))
        ∷ ("rtcpFeedback", array nil)
        ∷ [])
    ok (cons (object codec) (cons (object rtx_codec) nil))

-- The loop over the codecs: it goes on at another kind, and breaks after the first codec of the
-- kind.
unfoldable pub sending_codecs : String → String → Items → Result Items
sending_codecs parameters_key kind nil = ok nil
sending_codecs parameters_key kind (cons extended rest) = do
  extended_kind ← string_at "kind" extended
  let later = sending_codecs parameters_key kind rest
  if kind == extended_kind then sending_codecs_of parameters_key extended else later

-- One header extension to send.
unfoldable pub sending_extension : Json → Result Json
sending_extension extended = do
  uri ← at "uri" extended
  id ← at "sendId" extended
  encrypt ← at "encrypt" extended
  ok (
      object (
        build (("uri", uri) ∷ ("id", id) ∷ ("encrypt", encrypt) ∷ ("parameters", object end) ∷ [])))

-- The loop over the header extensions: those of the kind that are valid for sending.
unfoldable pub sending_extensions : String → Items → Result Items
sending_extensions kind nil = ok nil
sending_extensions kind (cons extended rest) = do
  extended_kind ← string_at "kind" extended
  let later = sending_extensions kind rest
  if not (kind == extended_kind) then later else do
    direction ← string_at "direction" extended
    if not (direction == "sendrecv" || direction == "sendonly")
        then later
        else do ext ← sending_extension extended; exts ← later; ok (cons ext exts)

-- The parameters, before any feedback is reduced.
unfoldable pub sending_parameters : String → String → Json → Result Json
sending_parameters parameters_key kind extended = do
  extended_codecs ← items_at "codecs" extended
  codecs ← sending_codecs parameters_key kind extended_codecs
  extended_extensions ← items_at "headerExtensions" extended
  extensions ← sending_extensions kind extended_extensions
  ok (
      object (
        build (
          ("mid", null)
          ∷ ("codecs", array codecs)
          ∷ ("headerExtensions", array extensions)
          ∷ ("encodings", array nil)
          ∷ ("rtcp", object end)
          ∷ [])))

-- getSendingRtpParameters
unfoldable pub get_sending_rtp_parameters : String → Json → Result Json
get_sending_rtp_parameters = sending_parameters "localParameters"

abbrev pub transport_cc_uri : String
transport_cc_uri = "http://www.ietf.org/id/draft-holmer-rmcat-transport-wide-cc-extensions-01"

abbrev pub abs_send_time_uri : String
abs_send_time_uri = "http://www.webrtc.org/experiments/rtp-hdrext/abs-send-time"

-- `std::find_if` of an extension with the URI, up to whether there is one.
unfoldable pub has_uri : String → Items → Result Bool
has_uri uri nil = ok false
has_uri uri (cons ext rest) = do
  found ← string_at "uri" ext
  let later = has_uri uri rest
  if found == uri then ok true else later

-- The loop that erases the feedback whose type is dropped.
unfoldable pub drop_feedback : (String → Bool) → Items → Result Items
drop_feedback dropped nil = ok nil
drop_feedback dropped (cons fb rest) = do
  type ← string_at "type" fb
  later ← drop_feedback dropped rest
  ok (if dropped type then later else cons fb later)

-- The loop over the codecs of the parameters.
unfoldable pub reduce_codec : (String → Bool) → Json → Result Json
reduce_codec dropped (object codec) = do
  kept ← drop_feedback dropped (items_of (lookup "rtcpFeedback" codec))
  ok (object (insert "rtcpFeedback" (array kept) codec))
reduce_codec dropped _ = err json_error

-- The congestion control that the extensions allow: Transport-CC if it is available, and REMB
-- otherwise.
pub data Congestion : Type 0 where
  transport_cc remb neither : Congestion

unfoldable pub congestion : Items → Result Congestion
congestion extensions = do
  has_transport_cc ← has_uri transport_cc_uri extensions
  if has_transport_cc then ok transport_cc else do
    has_abs_send_time ← has_uri abs_send_time_uri extensions
    ok (if has_abs_send_time then remb else neither)

-- The feedback types that are dropped.
unfoldable pub is_dropped : Congestion → String → Bool
is_dropped transport_cc type = type == "goog-remb"
is_dropped remb type = type == "transport-cc"
is_dropped neither type = type == "transport-cc" || type == "goog-remb"

-- `params["codecs"] = codecs`
abbrev set_codecs : Items → Json → Result Json
set_codecs codecs (object params) = ok (object (insert "codecs" (array codecs) params))
set_codecs codecs _ = err json_error

-- getSendingRemoteRtpParameters
unfoldable pub get_sending_remote_rtp_parameters : String → Json → Result Json
get_sending_remote_rtp_parameters kind extended = do
  params ← sending_parameters "remoteParameters" kind extended
  extensions ← items_at "headerExtensions" params
  mode ← congestion extensions
  codecs ← items_at "codecs" params
  reduced ← each (reduce_codec (is_dropped mode)) codecs
  set_codecs reduced params

-- The search for a codec of the kind.
unfoldable pub has_kind : String → Items → Result Bool
has_kind kind nil = ok false
has_kind kind (cons codec rest) = do
  codec_kind ← string_at "kind" codec
  let later = has_kind kind rest
  if kind == codec_kind then ok true else later

-- canSend
unfoldable pub can_send : String → Json → Result Bool
can_send kind extended = do codecs ← items_at "codecs" extended; has_kind kind codecs
