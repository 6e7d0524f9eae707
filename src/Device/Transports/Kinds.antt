-- ===== src/Device/Transports/Kinds.antt =====
-- Which kinds of tracks a transport of a loaded device of src/Device.cpp takes.
use libmediasoupclient.Prelude.{
  String, Bool, true, false, ◌≡◌, ◌∙◌, refl, ap, sym, subst, none, some,
}
use libmediasoupclient.Prelude.Result.{ok, ok-injective, >>=-eq-ok}
use libmediasoupclient.Json.{Json}
use libmediasoupclient.Ortc.Checks.{items_of}
use libmediasoupclient.Ortc.Objects.{find}
use libmediasoupclient.Ortc.Sending.{get_sending_rtp_parameters}
use libmediasoupclient.Ortc.Sending.Codecs.{is_nonempty, can_send-codecs}
use libmediasoupclient.Device.{Device, is_kind, kind_of, can_produce}
use libmediasoupclient.Device.Loaded.{IsLoaded}
use libmediasoupclient.Device.Transports.{
  Parameters, Sending, check_arguments, sending, create_send_transport,
}
use libmediasoupclient.Session.SendTransport.{
  SendTransport, Track, new_send_transport, check_produce,
}

-- For a kind of media whose sending parameters can be generated from its extended capabilities, a
-- loaded device answers CanProduce by whether they have a codec.
pub can_produce-codecs :
    (d : Device) (kind : String) (p : Json)
    → IsLoaded d
    → is_kind kind ≡ true
    → get_sending_rtp_parameters kind d.extended_rtp_capabilities ≡ ok p
    → can_produce kind d ≡ ok (is_nonempty (items_of (find "codecs" p)))
unfolding can_produce
can_produce-codecs d kind p l k h =
    let answered = can_send-codecs kind d.extended_rtp_capabilities p h in
    let same : kind_of kind d.can_produce_by_kind ≡ is_nonempty (items_of (find "codecs" p)) =
      ok-injective (sym (l.kinds kind k).0 ∙ answered) in
    rw (l.is_loaded, k, same) refl

-- A transport that a loaded device makes lets every track of a kind of media pass that has not ended,
-- also a track of a kind that CanProduce answers false for.
pub check_produce-passes :
    (d : Device) (app_data_is_object : Bool) (p valid : Parameters) (rtp : Sending)
    (s : SendTransport) (track : Track)
    → IsLoaded d
    → create_send_transport d app_data_is_object p ≡ ok (valid, rtp, s)
    → is_kind track.kind ≡ true
    → track.ended ≡ false
    → check_produce s (some track) none ≡ ok track
unfolding create_send_transport new_send_transport check_produce
check_produce-passes d app_data_is_object p valid rtp s track l h k live =
    let (v, _, h₁) = >>=-eq-ok (check_arguments d app_data_is_object p) _ h in
    let (r, _, h₂) = >>=-eq-ok (sending d.extended_rtp_capabilities) _ h₁ in
    let same = ap (λ (x : Parameters × Sending × SendTransport). x.2) (ok-injective h₂) in
    subst (λ t. check_produce t (some track) none ≡ ok track) same
      (rw (live, (l.kinds track.kind k).1) refl)
