-- ===== src/Session/SendTransport/Tests.antt =====
-- A SendTransport of src/Transport.cpp that produces a video.
use libmediasoupclient.Prelude.{
  ℕ, String, true, false, [], ◌∷◌, ◌≡◌, some, none, refl, ap, subst, Option,
}
use libmediasoupclient.Prelude.Result.{Result, ok}
use libmediasoupclient.Json.{Json, lookup, insert}
use libmediasoupclient.Index.{find_index}
use libmediasoupclient.Ortc.MimeType.{mime_kind}
use libmediasoupclient.Ortc.Rtp.{check_codec_parameters, fill_channels}
use libmediasoupclient.Ortc.Checks.{each, put_unless}
use libmediasoupclient.Ortc.RtpParameters.{
  validate_rtp_codec_parameters, validate_rtcp_parameters, validate_rtp_parameters,
}
use libmediasoupclient.Ortc.Samples.{video_parameters}
use libmediasoupclient.Session.Registry.{empty, register, register_as}
use libmediasoupclient.Session.Registry.Notified.{IsShutDown}
use libmediasoupclient.Session.SendTransport.{
  SendTransport, Track, SendResult, new_send_transport, has_key, check_produce, announce, produce,
  with_send, with_producer, close_send_transport,
}
use libmediasoupclient.Session.SendTransport.Outcome.{Outcome}
use libmediasoupclient.Session.SendTransport.Life.{
  IsSendTransport, calls_produce, Reachable, start, step, IsFresh, Reachable-IsSendTransport,
}
use libmediasoupclient.Session.SendTransport.Closing.{close_send_transport-shuts}

abbrev camera : Track
camera = record { pointer = 7; kind = "video"; ended = false }

abbrev sent : SendResult
sent = record { local_id = "0"; rtp_parameters = video_parameters 96 }

abbrev send : Track → Option Json → Result SendResult
send track options = ok sent

abbrev on_produce : String → Json → Result String
on_produce kind params = ok "producer"

abbrev fresh_transport : SendTransport
fresh_transport = new_send_transport true (("audio", true) ∷ ("video", true) ∷ [])

abbrev producing : SendTransport
producing =
    with_producer "producer" sent camera (video_parameters 96) (with_send camera fresh_transport)

run : produce send on_produce (some camera) none fresh_transport ≡ (producing, ok 0)
unfolding produce check_produce announce has_key new_send_transport validate_rtp_parameters lookup
    insert each validate_rtp_codec_parameters mime_kind check_codec_parameters put_unless
    fill_channels validate_rtcp_parameters register register_as empty
run = refl

fresh : IsFresh send on_produce fresh_transport
unfolding new_send_transport empty find_index
fresh kind params id answered = refl

reached : Reachable true (("audio", true) ∷ ("video", true) ∷ []) producing
reached =
    subst (Reachable true (("audio", true) ∷ ("video", true) ∷ []))
      (ap (λ (x : SendTransport × Result ℕ). x.0) run)
      (step start (calls_produce send on_produce (some camera) none fresh))

Reachable-IsSendTransport_example : IsSendTransport producing
Reachable-IsSendTransport_example = Reachable-IsSendTransport reached

producing_open : producing.closed ≡ false
unfolding new_send_transport
producing_open = refl

close_send_transport-shuts_example :
    ((close_send_transport producing).closed ≡ true)
    × IsShutDown producing.producers (close_send_transport producing).producers
    × IsShutDown producing.data_producers (close_send_transport producing).data_producers
close_send_transport-shuts_example =
    close_send_transport-shuts producing (Reachable-IsSendTransport reached) producing_open
