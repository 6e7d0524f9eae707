-- ===== src/Session/SendTransport/Closing.antt =====
-- Close of the SendTransport of src/Transport.cpp.
use libmediasoupclient.Prelude.{true, false, ◌≡◌, refl, sym, subst}
use libmediasoupclient.Session.Registry.Notified.{IsShutDown, close_all-IsShutDown}
use libmediasoupclient.Session.SendTransport.{SendTransport, close_send_transport}
use libmediasoupclient.Session.SendTransport.Life.{IsSendTransport, close_open}

-- Closing an open transport, whose maps have its open objects, shuts every producer and every data
-- producer, and calls OnTransportClose of each one that was open exactly once and of no other one.
pub close_send_transport-shuts :
    (s : SendTransport)
    → IsSendTransport s
    → s.closed ≡ false
    → ((close_send_transport s).closed ≡ true)
      × IsShutDown s.producers (close_send_transport s).producers
      × IsShutDown s.data_producers (close_send_transport s).data_producers
close_send_transport-shuts s old is_open =
    let (own, own_data) = old.owned is_open in
    subst
      (λ t.
        (t.closed ≡ true)
        × IsShutDown s.producers t.producers
        × IsShutDown s.data_producers t.data_producers)
      (sym (close_open s is_open))
      (refl, close_all-IsShutDown s.producers own, close_all-IsShutDown s.data_producers own_data)
