-- ===== src/Ortc/Extended.antt =====
-- src/ortc.cpp: getExtendedRtpCapabilities. The matching writes the profile level of the local H264
-- codecs, which later matches read, so the local codecs are passed on from match to match.
pub mod Found
pub mod Media
pub mod Rtx
pub mod RtxIn
mod Tests
use libmediasoupclient.Prelude.{
  String, Bool, true, false, [], ◌∷◌, Option, none, some, ◌==◌, if◌then◌else◌,
}
use libmediasoupclient.Prelude.Result.{Result, ok, err, json_error, ◌>>=◌}
use libmediasoupclient.Json.{
  Json, null, string, array, object, Items, nil, cons, Fields, lookup, insert,
}
use libmediasoupclient.Json.Number.{json_eq}
use libmediasoupclient.Ortc.Checks.{items_of, each}
use libmediasoupclient.Ortc.Objects.{at, string_at, find, build, copy_if_present}
use libmediasoupclient.Ortc.RtpCapabilities.{validate_rtp_capabilities}
use libmediasoupclient.Ortc.Matching.{
  H264, or_null, is_rtx_codec, match_codecs, match_header_extensions, reduce_rtcp_feedback,
}

-- One codec of the extended capabilities, before the RTX codecs are matched.
unfoldable pub extended_codec : Fields → Fields → Result Json
extended_codec local remote = do
  feedback ←
      reduce_rtcp_feedback (items_of (lookup "rtcpFeedback" local))
        (items_of (lookup "rtcpFeedback" remote))
  ok (
      object (
        copy_if_present "channels" (object local) (
          build (
            ("mimeType", or_null (lookup "mimeType" local))
            ∷ ("kind", or_null (lookup "kind" local))
            ∷ ("clockRate", or_null (lookup "clockRate" local))
            ∷ ("localPayloadType", or_null (lookup "preferredPayloadType" local))
            ∷ ("localRtxPayloadType", null)
            ∷ ("remotePayloadType", or_null (lookup "preferredPayloadType" remote))
            ∷ ("remoteRtxPayloadType", null)
            ∷ ("localParameters", or_null (lookup "parameters" local))
            ∷ ("remoteParameters", or_null (lookup "parameters" remote))
            ∷ ("rtcpFeedback", array feedback)
            ∷ []))))

-- Whether an RTX codec is for the payload type.
abbrev is_rtx_of : Json → Json → Result Bool
is_rtx_of payload_type codec = do
  is_rtx ← is_rtx_codec codec
  (if is_rtx
      then (do
        parameters ← at "parameters" codec
        apt ← at "apt" parameters
        ok (json_eq apt payload_type))
      else ok false)

-- The first RTX codec for the payload type.
unfoldable pub find_rtx : Json → Items → Result (Option Json)
find_rtx payload_type nil = ok none
find_rtx payload_type (cons codec rest) = do
  found ← is_rtx_of payload_type codec
  let later = find_rtx payload_type rest
  if found then ok (some codec) else later

-- The body of the loop that matches RTX codecs.
unfoldable pub link_rtx : Items → Items → Json → Result Json
link_rtx local_codecs remote_codecs (object extended) = do
  local_rtx ← find_rtx (or_null (lookup "localPayloadType" extended)) local_codecs
  elim local_rtx [
    | none ↦ ok (object extended)
    | some local ↦ do
      remote_rtx ← find_rtx (or_null (lookup "remotePayloadType" extended)) remote_codecs
      elim remote_rtx [
        | none ↦ ok (object extended)
        | some remote ↦ ok (
            object (
              insert "remoteRtxPayloadType" (or_null (find "preferredPayloadType" remote)) (
                insert "localRtxPayloadType" (or_null (find "preferredPayloadType" local))
                  extended)))
      ]
  ]
link_rtx local_codecs remote_codecs _ = err json_error

-- The direction as the other side sees it; any other text gives none.
unfoldable pub flip_direction : String → Option String
flip_direction direction =
    if direction == "sendrecv"
    then some "sendrecv"
    else if direction == "recvonly"
    then some "sendonly"
    else if direction == "sendonly"
    then some "recvonly"
    else if direction == "inactive"
    then some "inactive"
    else none

abbrev set_direction : Option String → Fields → Fields
set_direction none ext = ext
set_direction (some direction) ext = insert "direction" (string direction) ext

unfoldable pub extended_extension : Json → Json → Result Json
extended_extension local remote = do
  direction ← string_at "direction" remote
  ok (
      object (
        set_direction (flip_direction direction) (
          build (
            ("kind", or_null (find "kind" remote))
            ∷ ("uri", or_null (find "uri" remote))
            ∷ ("sendId", or_null (find "preferredId" local))
            ∷ ("recvId", or_null (find "preferredId" remote))
            ∷ ("encrypt", or_null (find "preferredEncrypt" local))
            ∷ []))))

unfoldable pub find_extension : Json → Items → Result (Option Json)
find_extension remote nil = ok none
find_extension remote (cons local rest) = do
  found ← match_header_extensions local remote
  let later = find_extension remote rest
  if found then ok (some local) else later

-- The loop over the header extensions of the remote side.
unfoldable pub match_extensions : Items → Items → Result Items
match_extensions local_exts nil = ok nil
match_extensions local_exts (cons remote rest) = do
  found ← find_extension remote local_exts
  later ← match_extensions local_exts rest
  elim found [
    | none ↦ ok later
    | some local ↦ do ext ← extended_extension local remote; ok (cons ext later)
  ]

module _ (h264 : H264) where
  -- The first local codec that matches, and the local codecs as the match leaves them.
  unfoldable pub find_local : Fields → Items → Result (Option (Fields × Items))
  find_local remote nil = ok none
  find_local remote (cons (object local) rest) = do
    matched ← match_codecs h264 true true local remote
    elim matched [
      | some local' ↦ ok (some (local', cons (object local') rest))
      | none ↦ do
        later ← find_local remote rest
        elim later [
          | none ↦ ok none
          | some (found, rest') ↦ ok (some (found, cons (object local) rest'))
        ]
    ]
  find_local remote (cons _ rest) = err json_error

  -- The loop over the codecs of the remote side, in their order.
  unfoldable pub match_media : Items → Items → Result (Items × Items)
  match_media nil local_codecs = ok (nil, local_codecs)
  match_media (cons (object remote) rest) local_codecs = do
    is_rtx ← is_rtx_codec (object remote)
    elim is_rtx [
      | true ↦ match_media rest local_codecs
      | false ↦ do
        matched ← find_local remote local_codecs
        elim matched [
          | none ↦ match_media rest local_codecs
          | some (local, local_codecs') ↦ do
            extended ← extended_codec local remote
            later ← match_media rest local_codecs'
            ok (cons extended later.0, later.1)
        ]
    ]
  match_media (cons _ rest) local_codecs = err json_error

  -- getExtendedRtpCapabilities
  unfoldable pub get_extended_rtp_capabilities : Json → Json → Result Json
  get_extended_rtp_capabilities local_caps remote_caps = do
    local ← validate_rtp_capabilities local_caps
    remote ← validate_rtp_capabilities remote_caps
    let remote_codecs = items_of (find "codecs" remote)
    matched ← match_media remote_codecs (items_of (find "codecs" local))
    codecs ← each (link_rtx matched.1 remote_codecs) matched.0
    extensions ←
        match_extensions (items_of (find "headerExtensions" local))
          (items_of (find "headerExtensions" remote))
    ok (object (build (("codecs", array codecs) ∷ ("headerExtensions", array extensions) ∷ [])))
