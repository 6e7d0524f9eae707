-- ===== src/Session/RecvTransport.antt =====
-- RecvTransport of src/Transport.cpp, with the closing of its consumers (src/Consumer.cpp) and data
-- consumers (src/DataConsumer.cpp), and the stream ids of ReceiveDataChannel of src/Handler.cpp.
pub mod Closing
pub mod Life
pub mod Outcome
mod Tests
use libmediasoupclient.Prelude.{
  ℕ, ◌+◌, ◌%◌, String, Bool, true, false, not, ◌&&◌, ◌||◌, List, [], ◌∷◌, Option, none, some, ◌==◌,
  if◌then◌else◌,
}
use libmediasoupclient.Prelude.Lists.{length}
use libmediasoupclient.Prelude.Result.{
  Result, ok, err, Error, json_error, undefined, foreign_error, type_error, unsupported_error,
  invalid_state_error, require, ◌>>=◌, ◌>>◌,
}
use libmediasoupclient.Json.{Json, boolean, unsigned, object}
use libmediasoupclient.Json.Text.{to_string}
use libmediasoupclient.Ortc.Objects.{build}
use libmediasoupclient.Ortc.Receiving.{can_receive, generate_probator_rtp_parameters}
use libmediasoupclient.Ortc.Sctp.{validate_sctp_stream_parameters}
use libmediasoupclient.DataChannel.{sctp_num_streams_mis}
use libmediasoupclient.Session.Registry.{Registry, Entry, empty, register, close, close_all}

pub record Consumer : Type 0 where
  pub producer_id : String
  pub track : ℕ
  pub rtp_parameters : Json

pub record DataConsumer : Type 0 where
  pub producer_id : String
  pub sctp_stream_parameters : Json

-- RecvHandler::RecvResult, without the receiver.
pub record RecvResult : Type 0 where
  pub local_id : String
  pub track : ℕ

-- `stopped` has the local ids that StopReceiving of the handler was called with, the latest first.
pub record RecvTransport : Type 0 where
  pub closed : Bool
  pub has_sctp_parameters : Bool
  pub extended_rtp_capabilities : Json
  pub next_stream_id : ℕ
  pub consumers : Registry Consumer
  pub data_consumers : Registry DataConsumer
  pub probator_consumer_created : Bool
  pub stopped : List String

unfoldable pub new_recv_transport : Bool → Json → RecvTransport
new_recv_transport has_sctp_parameters extended_rtp_capabilities = record {
  closed = false;
  has_sctp_parameters = has_sctp_parameters;
  extended_rtp_capabilities = extended_rtp_capabilities;
  next_stream_id = 0;
  consumers = empty;
  data_consumers = empty;
  probator_consumer_created = false;
  stopped = [];
}

-- The arguments of Consume, without the listener.
pub record Consumption : Type 0 where
  pub id : String
  pub producer_id : String
  pub kind : String
  pub rtp_parameters : Option Json
  pub app_data_is_object : Bool

abbrev pub given_parameters : Option Json → Result Json
given_parameters none = err (type_error "missing rtpParameters")
given_parameters (some rtp_parameters) = ok rtp_parameters

-- What Consume checks, with the parameters as validateRtpParameters leaves them.
unfoldable pub check_consume : RecvTransport → Consumption → Result Json
check_consume s c = do
  require (not s.closed) (invalid_state_error "RecvTransport closed")
  require (not (c.id == "")) (type_error "missing id")
  require (not (c.producer_id == "")) (type_error "missing producerId")
  require (c.kind == "audio" || c.kind == "video") (type_error "invalid kind")
  rtp_parameters ← given_parameters c.rtp_parameters
  require c.app_data_is_object (type_error "appData must be a JSON object")
  answer ← can_receive rtp_parameters s.extended_rtp_capabilities
  require answer.1 (unsupported_error "cannot consume this Producer")
  ok answer.0

-- `catch (std::runtime_error& error)`: the exceptions of the library are runtime errors, those of the
-- JSON library are not; an application's exception may be one.
abbrev pub is_runtime_error : Bool → Error → Bool
is_runtime_error foreign json_error = false
is_runtime_error foreign undefined = false
is_runtime_error foreign foreign_error = foreign
is_runtime_error foreign _ = true

abbrev pub with_consumer : Consumption → Json → RecvResult → RecvTransport → RecvTransport
with_consumer c rtp_parameters received s = record s {
  consumers =
      register c.id received.local_id
        (record {
          producer_id = c.producer_id;
          track = received.track;
          rtp_parameters = rtp_parameters;
        })
        s.consumers;
}

-- Consume, with what Receive of the handler does for an id, a kind and parameters, and whether an
-- exception of another class is a runtime error.
module _ (receive : String → String → Json → Result RecvResult) (foreign : Bool) where
  unfoldable pub check_and_receive : RecvTransport → Consumption → Result (Json × RecvResult)
  check_and_receive s c = do
    rtp_parameters ← check_consume s c
    received ← receive c.id c.kind rtp_parameters
    ok (rtp_parameters, received)

  unfoldable pub receive_probator : String → Json → Result RecvResult
  receive_probator kind rtp_parameters = do
    probator ← generate_probator_rtp_parameters rtp_parameters
    receive "probator" kind probator

  -- The consumer for RTP probation, made with the first video consumer.
  unfoldable pub probate : String → Json → ℕ → RecvTransport → RecvTransport × Result ℕ
  probate kind rtp_parameters consumer s =
      if not s.probator_consumer_created && kind == "video"
      then elim (receive_probator kind rtp_parameters) [
        | ok _ ↦ (record s { probator_consumer_created = true }, ok consumer)
        | err e ↦ (s, if is_runtime_error foreign e then ok consumer else err e)
      ]
      else (s, ok consumer)

  unfoldable pub consume : Consumption → RecvTransport → RecvTransport × Result ℕ
  consume c s = elim (check_and_receive s c) [
    | err e ↦ (s, err e)
    | ok (rtp_parameters, received) ↦
        probate c.kind rtp_parameters (length s.consumers.objects)
          (with_consumer c rtp_parameters received s)
  ]

-- Close of a consumer, and OnClose of the transport that it calls.
unfoldable pub close_consumer : ℕ → RecvTransport → RecvTransport
close_consumer p s =
    let (consumers, was_open) = close p s.consumers in
    let s' = record s { consumers = consumers } in
    elim was_open [
      | none ↦ s'
      | some e ↦ if s.closed then s' else record s' { stopped = e.local_id ∷ s.stopped }
    ]

-- The stream parameters of ReceiveDataChannel of the handler.
unfoldable pub received_stream : ℕ → Bool → Result Json
received_stream stream_id ordered =
    validate_sctp_stream_parameters
      (object (build (("streamId", unsigned stream_id) ∷ ("ordered", boolean ordered) ∷ [])))

-- What ConsumeData checks.
unfoldable pub check_consume_data : RecvTransport → String → String → Result (Unit {0})
check_consume_data s id producer_id = do
  require (not s.closed) (invalid_state_error "RecvTransport closed")
  require (not (id == "")) (type_error "missing id")
  require (not (producer_id == "")) (type_error "missing producerId")
  require s.has_sctp_parameters
      (type_error "Cannot use DataChannels with this transport. SctpParameters are not set.")

-- ConsumeData until the data channel is created.
unfoldable pub check_and_stream :
    Result (Unit {0}) → RecvTransport → String → String → Bool → Result Json
check_and_stream opened s id producer_id ordered = do
  check_consume_data s id producer_id
  params ← received_stream s.next_stream_id ordered
  opened
  ok params

-- ConsumeData, with the default of `ordered` in webrtc::DataChannelInit, and what CreateDataChannel
-- and the negotiation of the first data channel do.
unfoldable pub consume_data :
    Bool
    → Result (Unit {0})
    → Result (Unit {0})
    → String
    → String
    → RecvTransport
    → RecvTransport × Result ℕ
consume_data ordered opened negotiated id producer_id s =
    elim (check_and_stream opened s id producer_id ordered) [
      | err e ↦ (s, err e)
      | ok params ↦
          let s' = record s { next_stream_id = (s.next_stream_id + 1) % sctp_num_streams_mis } in
          elim negotiated [
            | err e ↦ (s', err e)
            | ok _ ↦ (
              record s' {
                data_consumers =
                    register id (to_string s.next_stream_id)
                      (record { producer_id = producer_id; sctp_stream_parameters = params })
                      s.data_consumers;
              },
              ok (length s.data_consumers.objects),
            )
          ]
    ]

-- Close of a data consumer, and OnClose of the transport that it calls.
unfoldable pub close_data_consumer : ℕ → RecvTransport → RecvTransport
close_data_consumer p s = record s { data_consumers = (close p s.data_consumers).0 }

-- Close of the transport.
unfoldable pub close_recv_transport : RecvTransport → RecvTransport
close_recv_transport s = if s.closed then s else record s {
  closed = true;
  consumers = close_all s.consumers;
  data_consumers = close_all s.data_consumers;
}
