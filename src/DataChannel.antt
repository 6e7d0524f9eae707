-- ===== src/DataChannel.antt =====
-- Data channels to send: the retransmission limits of SendTransport::ProduceData of
-- src/Transport.cpp, and the stream parameters and ids of SendHandler::SendDataChannel of
-- src/Handler.cpp.
pub mod Limits
mod Tests
use libmediasoupclient.Prelude.{
  ℕ, ◌+◌, ◌%◌, String, Bool, true, false, not, ◌&&◌, Option, none, some, [], ◌∷◌, if◌then◌else◌,
}
use libmediasoupclient.Prelude.Result.{Result, ok, err, plain_error, ◌>>=◌}
use libmediasoupclient.Json.{
  ℤ, pos, negsuc, Json, boolean, integer, unsigned, string, object, Fields, insert,
}
use libmediasoupclient.Json.Number.{eq_ℤ}
use libmediasoupclient.Ortc.Objects.{build}
use libmediasoupclient.Ortc.Sctp.{validate_sctp_stream_parameters}

-- `webrtc::DataChannelInit`, with the fields that are set before the handler has it.
pub record DataChannelInit : Type 0 where
  pub protocol : String
  pub ordered : Bool
  pub max_retransmits : Option ℤ
  pub max_retransmit_time : Option ℤ

abbrev pub unless_zero : ℤ → Option ℤ
unless_zero n = if eq_ℤ n (pos 0) then none else some n

-- The part of ProduceData before its call of the handler.
unfoldable pub data_channel_init : Bool → String → Bool → ℤ → ℤ → Result DataChannelInit
data_channel_init has_sctp_parameters protocol ordered max_retransmits max_packet_life_time =
    if not has_sctp_parameters
    then err (plain_error "SctpParameters are mandatory when using data producer listener")
    else if not (eq_ℤ max_retransmits (negsuc 0)) && not (eq_ℤ max_packet_life_time (pos 0))
    then err (plain_error "Cannot set both maxRetransmits and maxPacketLifeTime")
    else ok (record {
      protocol = protocol;
      ordered = ordered;
      max_retransmits = unless_zero max_retransmits;
      max_retransmit_time = unless_zero max_packet_life_time;
    })

abbrev pub set_limit : String → Option ℤ → Fields → Fields
set_limit key none params = params
set_limit key (some n) params = insert key (integer n) params

-- The stream parameters of a channel, before they are validated.
abbrev pub stream_fields : ℕ → DataChannelInit → Fields
stream_fields stream_id init = set_limit "maxRetransmits" init.max_retransmits (
    set_limit "maxPacketLifeTime" init.max_retransmit_time (
      build (
        ("streamId", unsigned stream_id)
        ∷ ("ordered", boolean init.ordered)
        ∷ ("protocol", string init.protocol)
        ∷ [])))

abbrev pub sctp_num_streams_mis : ℕ
sctp_num_streams_mis = 1024

-- The stream parameters of a new channel, and the stream id of the one that comes next.
unfoldable pub stream_parameters : ℕ → DataChannelInit → Result (Json × ℕ)
stream_parameters stream_id init = do
  params ← validate_sctp_stream_parameters (object (stream_fields stream_id init))
  ok (params, (stream_id + 1) % sctp_num_streams_mis)

-- ProduceData, up to the parameters that it sends to the listener.
unfoldable pub produce_data : Bool → ℕ → String → Bool → ℤ → ℤ → Result (Json × ℕ)
produce_data has_sctp_parameters stream_id protocol ordered max_retransmits max_packet_life_time =
    do
      init ←
          data_channel_init has_sctp_parameters protocol ordered max_retransmits
            max_packet_life_time
      stream_parameters stream_id init
