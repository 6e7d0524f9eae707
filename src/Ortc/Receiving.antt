-- ===== src/Ortc/Receiving.antt =====
-- src/ortc.cpp: getRecvRtpCapabilities, generateProbatorRtpParameters and canReceive.
pub mod Answer
pub mod Direction
mod Tests
use Prim.Native.String
use libmediasoupclient.Prelude.{
  ℕ, String, Bool, true, false, not, ◌||◌, [], ◌∷◌, ◌==◌, some, if◌then◌else◌,
}
use libmediasoupclient.Prelude.Result.{Result, ok, err, ◌>>=◌}
use libmediasoupclient.Json.{
  Json, null, integer, unsigned, string, array, object, Items, nil, cons, Fields, is_null, lookup,
}
use libmediasoupclient.Json.Number.{get_uint8, json_eq}
use libmediasoupclient.Ortc.Checks.{items_of, get_string, append}
use libmediasoupclient.Ortc.Objects.{at, string_at, items_at, find, build, copy_if_present}
use libmediasoupclient.Ortc.Matching.{or_null}
use libmediasoupclient.Ortc.RtpParameters.{validate_rtp_parameters}
use libmediasoupclient.Ortc.Sending.{transport_cc_uri, abs_send_time_uri}

-- The codecs that one codec of the extended capabilities gives: itself, and its RTX codec if the
-- remote side has one.
unfoldable pub receiving_codecs_of : Json → Result Items
receiving_codecs_of extended = do
  mime_type ← at "mimeType" extended
  kind ← at "kind" extended
  payload_type ← at "remotePayloadType" extended
  clock_rate ← at "clockRate" extended
  parameters ← at "localParameters" extended
  feedback ← at "rtcpFeedback" extended
  let codec = copy_if_present "channels" extended (
      build (
        ("mimeType", mime_type)
        ∷ ("kind", kind)
        ∷ ("preferredPayloadType", payload_type)
        ∷ ("clockRate", clock_rate)
        ∷ ("parameters", parameters)
        ∷ ("rtcpFeedback", feedback)
        ∷ []))
  rtx_payload_type ← at "remoteRtxPayloadType" extended
  if is_null rtx_payload_type then ok (cons (object codec) nil) else do
    kind_text ← get_string (some kind)
    apt ← get_uint8 payload_type
    let rtx_codec = build (
        ("mimeType", string (String.◌++◌ kind_text "/rtx"))
        ∷ ("kind", kind)
        ∷ ("preferredPayloadType", rtx_payload_type)
        ∷ ("clockRate", clock_rate)
        ∷ ("parameters", object (build (("apt", unsigned apt) ∷ [])))
        ∷ ("rtcpFeedback", array nil)
        ∷ [])
    ok (cons (object codec) (cons (object rtx_codec) nil))

unfoldable pub receiving_codecs : Items → Result Items
receiving_codecs nil = ok nil
receiving_codecs (cons extended rest) = do
  codecs ← receiving_codecs_of extended
  later ← receiving_codecs rest
  ok (append codecs later)

-- The loop over the header extensions: those that are valid for receiving.
unfoldable pub receiving_extensions : Items → Result Items
receiving_extensions nil = ok nil
receiving_extensions (cons extended rest) = do
  direction ← string_at "direction" extended
  let later = receiving_extensions rest
  if not (direction == "sendrecv" || direction == "recvonly") then later else do
    kind ← at "kind" extended
    uri ← at "uri" extended
    id ← at "recvId" extended
    encrypt ← at "encrypt" extended
    exts ← later
    ok (
        cons
          (object (
            build (
              ("kind", kind)
              ∷ ("uri", uri)
              ∷ ("preferredId", id)
              ∷ ("preferredEncrypt", encrypt)
              ∷ ("direction", string direction)
              ∷ [])))
          exts)

-- getRecvRtpCapabilities
unfoldable pub get_recv_rtp_capabilities : Json → Result Json
get_recv_rtp_capabilities extended = do
  extended_codecs ← items_at "codecs" extended
  codecs ← receiving_codecs extended_codecs
  extended_extensions ← items_at "headerExtensions" extended
  extensions ← receiving_extensions extended_extensions
  ok (object (build (("codecs", array codecs) ∷ ("headerExtensions", array extensions) ∷ [])))

-- `j[0]` of an array that is not constant: null if it is empty.
abbrev first_item : Items → Json
first_item nil = null
first_item (cons x xs) = x

-- The header extensions that a probator keeps.
unfoldable pub probator_extensions : Items → Items
probator_extensions nil = nil
probator_extensions (cons ext rest) =
    let later = probator_extensions rest in
    let uri = or_null (find "uri" ext) in
    if json_eq uri (string abs_send_time_uri) || json_eq uri (string transport_cc_uri)
    then cons ext later
    else later

abbrev probator_ssrc : ℕ
probator_ssrc = 1234

-- generateProbatorRtpParameters
unfoldable pub generate_probator_rtp_parameters : Json → Result Json
generate_probator_rtp_parameters video = do
  validated ← validate_rtp_parameters video
  let codec = first_item (items_of (find "codecs" validated))
  let extensions = probator_extensions (items_of (find "headerExtensions" validated))
  ok (
      object (
        build (
          ("mid", string "probator")
          ∷ ("codecs", array (cons codec nil))
          ∷ ("headerExtensions", array extensions)
          ∷ ("encodings", array (cons (object (build (("ssrc", unsigned probator_ssrc) ∷ []))) nil))
          ∷ ("rtcp", object (build (("cname", string "probator") ∷ [])))
          ∷ [])))

-- The search of canReceive for a codec with the payload type.
unfoldable pub has_remote_payload_type : Json → Items → Result Bool
has_remote_payload_type payload_type nil = ok false
has_remote_payload_type payload_type (cons codec rest) = do
  remote ← at "remotePayloadType" codec
  let later = has_remote_payload_type payload_type rest
  if json_eq remote payload_type then ok true else later

-- What canReceive answers for valid codecs: false if there are none.
unfoldable pub receives : Items → Json → Result Bool
receives nil extended = ok false
receives (cons first rest) extended = do
  codecs ← items_at "codecs" extended
  has_remote_payload_type (or_null (find "payloadType" first)) codecs

-- canReceive, which leaves the parameters validated.
unfoldable pub can_receive : Json → Json → Result (Json × Bool)
can_receive parameters extended = do
  validated ← validate_rtp_parameters parameters
  answer ← receives (items_of (find "codecs" validated)) extended
  ok (validated, answer)
