-- ===== src/Session/RecvTransport/Tests.antt =====
-- A RecvTransport of src/Transport.cpp that consumes a video.
use libmediasoupclient.Prelude.{ℕ, String, true, false, ◌≡◌, some, refl, ap, subst}
use libmediasoupclient.Prelude.Result.{Result, ok}
use libmediasoupclient.Json.{Json, lookup, insert}
use libmediasoupclient.Json.Number.{json_eq}
use libmediasoupclient.Index.{find_index}
use libmediasoupclient.Ortc.MimeType.{mime_kind}
use libmediasoupclient.Ortc.Rtp.{check_codec_parameters, fill_channels}
use libmediasoupclient.Ortc.Checks.{each, put_unless}
use libmediasoupclient.Ortc.RtpParameters.{
  validate_rtp_codec_parameters, validate_rtcp_parameters, validate_rtp_parameters,
}
use libmediasoupclient.Ortc.Receiving.{
  has_remote_payload_type, receives, can_receive, generate_probator_rtp_parameters,
  probator_extensions,
}
use libmediasoupclient.Ortc.Samples.{video_parameters, extended}
use libmediasoupclient.Session.Registry.{empty, register, register_as}
use libmediasoupclient.Session.RecvTransport.{
  RecvTransport, Consumption, RecvResult, new_recv_transport, check_consume, check_and_receive,
  receive_probator, probate, with_consumer, consume, close_recv_transport,
}
use libmediasoupclient.Session.Registry.Notified.{IsShutDown}
use libmediasoupclient.Session.RecvTransport.Closing.{close_recv_transport-shuts}
use libmediasoupclient.Session.RecvTransport.Life.{
  IsRecvTransport, IsFresh, Reachable, start, step, calls_consume, Reachable-IsRecvTransport,
}

abbrev consumption : Consumption
consumption = record {
  id = "consumer";
  producer_id = "producer";
  kind = "video";
  rtp_parameters = some (video_parameters 101);
  app_data_is_object = true;
}

abbrev received : RecvResult
received = record { local_id = "0"; track = 9 }

abbrev receive : String → String → Json → Result RecvResult
receive id kind params = ok received

abbrev fresh_transport : RecvTransport
fresh_transport = new_recv_transport false extended

abbrev consuming : RecvTransport
consuming = record (with_consumer consumption (video_parameters 101) received fresh_transport) {
  probator_consumer_created = true;
}

run : consume receive false consumption fresh_transport ≡ (consuming, ok 0)
unfolding consume check_and_receive check_consume can_receive receives has_remote_payload_type
    validate_rtp_parameters lookup insert json_eq each validate_rtp_codec_parameters mime_kind
    check_codec_parameters put_unless fill_channels validate_rtcp_parameters probate
    receive_probator generate_probator_rtp_parameters probator_extensions new_recv_transport
    register register_as empty
run = refl

fresh : IsFresh "consumer" fresh_transport.consumers
unfolding new_recv_transport empty find_index
fresh = refl

reached : Reachable false extended consuming
reached =
    subst (Reachable false extended) (ap (λ (x : RecvTransport × Result ℕ). x.0) run)
      (step start (calls_consume receive false consumption fresh))

Reachable-IsRecvTransport_example : IsRecvTransport consuming
Reachable-IsRecvTransport_example = Reachable-IsRecvTransport reached

consuming_open : consuming.closed ≡ false
unfolding new_recv_transport
consuming_open = refl

close_recv_transport-shuts_example :
    ((close_recv_transport consuming).closed ≡ true)
    × IsShutDown consuming.consumers (close_recv_transport consuming).consumers
    × IsShutDown consuming.data_consumers (close_recv_transport consuming).data_consumers
close_recv_transport-shuts_example =
    close_recv_transport-shuts consuming (Reachable-IsRecvTransport reached) consuming_open
