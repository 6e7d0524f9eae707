-- ===== src/Session/SendTransport.antt =====
-- SendTransport of src/Transport.cpp, with the closing of its producers (src/Producer.cpp) and data
-- producers (src/DataProducer.cpp).
pub mod Closing
pub mod Life
pub mod Outcome
mod Tests
use libmediasoupclient.Prelude.{
  ℕ, String, Bool, true, false, not, List, [], ◌∷◌, Option, none, some, ◌==◌, if◌then◌else◌,
}
use libmediasoupclient.Prelude.Lists.{length}
use libmediasoupclient.Prelude.Result.{
  Result, ok, err, Error, type_error, unsupported_error, invalid_state_error, require,
  is_media_soup_error, ◌>>=◌, ◌>>◌,
}
use libmediasoupclient.Json.{ℤ, Json}
use libmediasoupclient.Json.Text.{to_string}
use libmediasoupclient.Ortc.CodecOptions.{validate_producer_codec_options}
use libmediasoupclient.Ortc.RtpParameters.{validate_rtp_parameters}
use libmediasoupclient.DataChannel
use libmediasoupclient.Session.Registry.{
  Registry, Entry, empty, register, register_as, close, close_all,
}

-- What is known of a `webrtc::MediaStreamTrackInterface*` that is not null.
pub record Track : Type 0 where
  pub pointer : ℕ
  pub kind : String
  pub ended : Bool

-- The members of a Producer that the registry leaves open.
pub record Producer : Type 0 where
  pub track : ℕ
  pub max_spatial_layer : ℕ
  pub rtp_parameters : Json

pub record DataProducer : Type 0 where
  pub sctp_stream_parameters : Json

-- SendHandler::SendResult, without the sender.
pub record SendResult : Type 0 where
  pub local_id : String
  pub rtp_parameters : Json

-- `sends` has the tracks that Send of the handler was called with, and `stopped` the local ids that
-- StopSending was called with, the latest first.
pub record SendTransport : Type 0 where
  pub closed : Bool
  pub has_sctp_parameters : Bool
  pub can_produce_by_kind : List (String × Bool)
  pub next_stream_id : ℕ
  pub producers : Registry Producer
  pub data_producers : Registry DataProducer
  pub sends : List ℕ
  pub stopped : List String

unfoldable pub new_send_transport : Bool → List (String × Bool) → SendTransport
new_send_transport has_sctp_parameters can_produce_by_kind = record {
  closed = false;
  has_sctp_parameters = has_sctp_parameters;
  can_produce_by_kind = can_produce_by_kind;
  next_stream_id = 0;
  producers = empty;
  data_producers = empty;
  sends = [];
  stopped = [];
}

-- `canProduceByKind->find(kind) != canProduceByKind->end()`
unfoldable pub has_key : String → List (String × Bool) → Bool
has_key kind [] = false
has_key kind ((k, can) ∷ rest) = let later = has_key kind rest in if k == kind then true else later

abbrev pub check_options : Option Json → Result (Unit {0})
check_options none = ok tt
check_options (some options) = do checked ← validate_producer_codec_options options; ok tt

-- What Produce checks before it sends.
unfoldable pub check_produce : SendTransport → Option Track → Option Json → Result Track
check_produce s none options = do
  require (not s.closed) (invalid_state_error "SendTransport closed")
  err (type_error "missing track")
check_produce s (some track) options = do
  require (not s.closed) (invalid_state_error "SendTransport closed")
  require (not track.ended) (invalid_state_error "track ended")
  require (has_key track.kind s.can_produce_by_kind) (unsupported_error "cannot produce track kind")
  check_options options
  ok track

abbrev pub with_send : Track → SendTransport → SendTransport
with_send track s = record s { sends = track.pointer ∷ s.sends }

abbrev pub stop : String → SendTransport → SendTransport
stop local_id s = record s { stopped = local_id ∷ s.stopped }

abbrev pub with_producer : String → SendResult → Track → Json → SendTransport → SendTransport
with_producer id sent track rtp_parameters s = record s {
  producers =
      register id sent.local_id
        (record { track = track.pointer; max_spatial_layer = 0; rtp_parameters = rtp_parameters })
        s.producers;
}

-- Produce, with what the handler's Send and the listener's OnProduce do: the transport as it leaves
-- it, and the pointer to the new producer or the exception.
module _ (send : Track → Option Json → Result SendResult)
    (on_produce : String → Json → Result String) where
  -- The part of the `try` block.
  unfoldable pub announce : Track → SendResult → Result (Json × String)
  announce track sent = do
    rtp_parameters ← validate_rtp_parameters sent.rtp_parameters
    id ← on_produce track.kind rtp_parameters
    ok (rtp_parameters, id)

  unfoldable pub produce : Option Track → Option Json → SendTransport → SendTransport × Result ℕ
  produce track options s = elim (check_produce s track options) [
    | err e ↦ (s, err e)
    | ok t ↦ elim (send t options) [
      | err e ↦ (with_send t s, err e)
      | ok sent ↦ elim (announce t sent) [
        | err e ↦ (
          if is_media_soup_error e then stop sent.local_id (with_send t s) else with_send t s,
          err e,
        )
        | ok (rtp_parameters, id) ↦ (
          with_producer id sent t rtp_parameters (with_send t s),
          ok (length s.producers.objects),
        )
      ]
    ]
  ]

-- Close of a producer, and OnClose of the transport that it calls.
unfoldable pub close_producer : ℕ → SendTransport → SendTransport
close_producer p s =
    let (producers, was_open) = close p s.producers in
    let s' = record s { producers = producers } in
    elim was_open [ none ↦ s' | some e ↦ if s.closed then s' else stop e.local_id s' ]

-- ProduceData until the data channel is created, with what CreateDataChannel of the peer connection
-- does.
unfoldable pub open_stream :
    Result (Unit {0}) → String → Bool → ℤ → ℤ → SendTransport → Result (Json × ℕ)
open_stream opened protocol ordered max_retransmits max_packet_life_time s = do
  stream ←
      DataChannel.produce_data s.has_sctp_parameters s.next_stream_id protocol ordered
        max_retransmits max_packet_life_time
  opened
  ok stream

-- ProduceData, with what CreateDataChannel, the negotiation of the first data channel and the
-- listener's OnProduceData do, and the value that the flag `closed` of the new data producer has: its
-- constructor does not set it.
module _ (opened negotiated : Result (Unit {0})) (on_produce_data : Json → Result String)
    (unset : Bool) where
  unfoldable pub produce_data : String → Bool → ℤ → ℤ → SendTransport → SendTransport × Result ℕ
  produce_data protocol ordered max_retransmits max_packet_life_time s =
      elim (open_stream opened protocol ordered max_retransmits max_packet_life_time s) [
        | err e ↦ (s, err e)
        | ok (params, next) ↦
            let s' = record s { next_stream_id = next } in
            elim (negotiated >> on_produce_data params) [
              | err e ↦ (s', err e)
              | ok id ↦ (
                record s' {
                  data_producers =
                      register_as unset id (to_string s.next_stream_id)
                        (record { sctp_stream_parameters = params }) s.data_producers;
                },
                ok (length s.data_producers.objects),
              )
            ]
      ]

-- Close of a data producer, and OnClose of the transport that it calls.
unfoldable pub close_data_producer : ℕ → SendTransport → SendTransport
close_data_producer p s = record s { data_producers = (close p s.data_producers).0 }

-- Close of the transport.
unfoldable pub close_send_transport : SendTransport → SendTransport
close_send_transport s = if s.closed then s else record s {
  closed = true;
  producers = close_all s.producers;
  data_producers = close_all s.data_producers;
}
