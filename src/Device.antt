-- ===== src/Device.antt =====
-- The class of src/Device.cpp: what it computes from the capabilities of the router and of the local
-- side, and the transports that it makes.
pub mod Failure
pub mod Loaded
mod Tests
pub mod Transports
use libmediasoupclient.Prelude.{
  String, Bool, true, false, not, ◌&&◌, ◌||◌, List, [], ◌∷◌, Option, none, some, ◌==◌,
  if◌then◌else◌,
}
use libmediasoupclient.Prelude.Result.{
  Result, ok, err, Error, type_error, invalid_state_error, require,
}
use libmediasoupclient.Prelude.Action.{Action, get, update, lift, ◌>>=◌, ◌>>◌}
use libmediasoupclient.Json.{Json, null, unsigned, object}
use libmediasoupclient.Ortc.Objects.{build}
use libmediasoupclient.Ortc.Matching.{H264}
use libmediasoupclient.Ortc.RtpCapabilities.{validate_rtp_capabilities}
use libmediasoupclient.Ortc.Extended.{get_extended_rtp_capabilities}
use libmediasoupclient.Ortc.Receiving.{get_recv_rtp_capabilities}
use libmediasoupclient.Ortc.Sending.{can_send}
use libmediasoupclient.Ortc.Sctp.{validate_sctp_capabilities}

pub record Device : Type 0 where
  pub loaded : Bool
  pub extended_rtp_capabilities : Json
  pub recv_rtp_capabilities : Json
  pub sctp_capabilities : Json
  pub can_produce_by_kind : List (String × Bool)

unfoldable pub new_device : Device
new_device = record {
  loaded = false;
  extended_rtp_capabilities = null;
  recv_rtp_capabilities = null;
  sctp_capabilities = null;
  can_produce_by_kind = ("audio", false) ∷ ("video", false) ∷ [];
}

-- `canProduceByKind[kind] = can`, and the value of `canProduceByKind[kind]`.
abbrev pub set_kind : String → Bool → List (String × Bool) → List (String × Bool)
set_kind kind can [] = (kind, can) ∷ []
set_kind kind can ((k, b) ∷ rest) =
    let later = set_kind kind can rest in if k == kind then (k, can) ∷ rest else (k, b) ∷ later

abbrev pub kind_of : String → List (String × Bool) → Bool
kind_of kind [] = false
kind_of kind ((k, b) ∷ rest) = let later = kind_of kind rest in if k == kind then b else later

-- GetNativeSctpCapabilities of src/Handler.cpp.
unfoldable pub native_sctp_capabilities : Json
native_sctp_capabilities = object (
    build
      (("numStreams", object (build (("OS", unsigned 1024) ∷ ("MIS", unsigned 1024) ∷ []))) ∷ []))

abbrev pub not_loaded : Error
not_loaded = invalid_state_error "not loaded"

unfoldable pub get_rtp_capabilities : Device → Result Json
get_rtp_capabilities d = if d.loaded then ok d.recv_rtp_capabilities else err not_loaded

unfoldable pub get_sctp_capabilities : Device → Result Json
get_sctp_capabilities d = if d.loaded then ok d.sctp_capabilities else err not_loaded

-- The kinds of media.
abbrev pub is_kind : String → Bool
is_kind kind = kind == "audio" || kind == "video"

unfoldable pub can_produce : String → Device → Result Bool
can_produce kind d =
    if not d.loaded
    then err not_loaded
    else if not (is_kind kind)
    then err (type_error "invalid kind")
    else ok (kind_of kind d.can_produce_by_kind)

-- `native` is what GetNativeRtpCapabilities of src/Handler.cpp makes of an offer of the peer
-- connection.
module _ (h264 : H264) (native : Result Json) where
  unfoldable pub load : Json → Action Device (Unit {0})
  load router_rtp_capabilities = do
    d ← get
    lift (require (not d.loaded) (invalid_state_error "already loaded"))
    router ← lift (validate_rtp_capabilities router_rtp_capabilities)
    native_rtp_capabilities ← lift native
    local ← lift (validate_rtp_capabilities native_rtp_capabilities)
    extended ← lift (get_extended_rtp_capabilities h264 local router)
    update (λ d. record d { extended_rtp_capabilities = extended })
    audio ← lift (can_send "audio" extended)
    update (λ d. record d { can_produce_by_kind = set_kind "audio" audio d.can_produce_by_kind })
    video ← lift (can_send "video" extended)
    update (λ d. record d { can_produce_by_kind = set_kind "video" video d.can_produce_by_kind })
    recv ← lift (get_recv_rtp_capabilities extended)
    update (λ d. record d { recv_rtp_capabilities = recv })
    valid ← lift (validate_rtp_capabilities recv)
    update (λ d. record d { recv_rtp_capabilities = valid })
    update (λ d. record d { sctp_capabilities = native_sctp_capabilities })
    sctp ← lift (validate_sctp_capabilities native_sctp_capabilities)
    update (λ d. record d { sctp_capabilities = sctp })
    update (λ d. record d { loaded = true })
