-- ===== src/Ortc/Sctp.antt =====
-- src/ortc.cpp: the validators of SCTP capabilities, parameters and streams.
pub mod Streams
mod Tests
use libmediasoupclient.Prelude.{true, false, not, ◌&&◌, ◌||◌}
use libmediasoupclient.Prelude.Result.{Result, ok, err, type_error, check, ◌>>=◌, ◌>>◌}
use libmediasoupclient.Json.{
  Json, boolean, unsigned, string, object, is_string, is_boolean, is_object, is_number_integer,
  lookup, insert,
}
use libmediasoupclient.Ortc.Checks.{holds, present, is_true, fields_of, put_unless}

-- validateNumSctpStreams
unfoldable pub validate_num_sctp_streams : Json → Result Json
validate_num_sctp_streams (object num_streams) = do
  check (holds is_number_integer (lookup "OS" num_streams)) "missing numStreams.OS"
  check (holds is_number_integer (lookup "MIS" num_streams)) "missing numStreams.MIS"
  ok (object num_streams)
validate_num_sctp_streams _ = err (type_error "numStreams is not an object")

-- validateSctpCapabilities
unfoldable pub validate_sctp_capabilities : Json → Result Json
validate_sctp_capabilities (object caps) = do
  let num_streams_it = lookup "numStreams" caps
  check (holds is_object num_streams_it) "missing caps.numStreams"
  num_streams ← validate_num_sctp_streams (object (fields_of num_streams_it))
  ok (object (insert "numStreams" num_streams caps))
validate_sctp_capabilities _ = err (type_error "caps is not an object")

-- validateSctpParameters
unfoldable pub validate_sctp_parameters : Json → Result Json
validate_sctp_parameters (object params) = do
  check (holds is_number_integer (lookup "port" params)) "missing params.port"
  check (holds is_number_integer (lookup "OS" params)) "missing params.OS"
  check (holds is_number_integer (lookup "MIS" params)) "missing params.MIS"
  check (holds is_number_integer (lookup "maxMessageSize" params)) "missing params.maxMessageSize"
  ok (object params)
validate_sctp_parameters _ = err (type_error "params is not an object")

-- validateSctpStreamParameters
unfoldable pub validate_sctp_stream_parameters : Json → Result Json
validate_sctp_stream_parameters (object params) = do
  let stream_id_it = lookup "streamId" params
  let ordered_it = lookup "ordered" params
  let max_packet_life_time_it = lookup "maxPacketLifeTime" params
  let max_retransmits_it = lookup "maxRetransmits" params
  let label_it = lookup "label" params
  let protocol_it = lookup "protocol" params
  check (holds is_number_integer stream_id_it) "missing params.streamId"
  let ordered_given = holds is_boolean ordered_it
  let with_ordered = put_unless ordered_given "ordered" (boolean true) params
  let with_life_time =
      put_unless (holds is_number_integer max_packet_life_time_it) "maxPacketLifeTime" (unsigned 0)
        with_ordered
  let with_retransmits =
      put_unless (holds is_number_integer max_retransmits_it) "maxRetransmits" (unsigned 0)
        with_life_time
  check (not (present max_packet_life_time_it && present max_retransmits_it))
      "cannot provide both maxPacketLifeTime and maxRetransmits"
  let limited = present max_packet_life_time_it || present max_retransmits_it
  check (not (ordered_given && is_true (lookup "ordered" with_retransmits) && limited))
      "cannot be ordered with maxPacketLifeTime or maxRetransmits"
  let unordered =
      put_unless (not (not ordered_given && limited)) "ordered" (boolean false) with_retransmits
  let with_label = put_unless (holds is_string label_it) "label" (string "") unordered
  ok (object (put_unless (holds is_string protocol_it) "protocol" (string "") with_label))
validate_sctp_stream_parameters _ = err (type_error "params is not an object")
