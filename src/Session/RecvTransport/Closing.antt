-- ===== src/Session/RecvTransport/Closing.antt =====
-- Close of the RecvTransport of src/Transport.cpp.
use libmediasoupclient.Prelude.{true, false, ◌≡◌, refl, sym, subst}
use libmediasoupclient.Session.Registry.Notified.{IsShutDown, close_all-IsShutDown}
use libmediasoupclient.Session.RecvTransport.{RecvTransport, close_recv_transport}
use libmediasoupclient.Session.RecvTransport.Life.{IsRecvTransport, close_open}

-- Closing an open transport, whose maps have its open objects, shuts every consumer and every data
-- consumer, and calls OnTransportClose of each one that was open exactly once and of no other one.
pub close_recv_transport-shuts :
    (s : RecvTransport)
    → IsRecvTransport s
    → s.closed ≡ false
    → ((close_recv_transport s).closed ≡ true)
      × IsShutDown s.consumers (close_recv_transport s).consumers
      × IsShutDown s.data_consumers (close_recv_transport s).data_consumers
close_recv_transport-shuts s old is_open =
    subst
      (λ t.
        (t.closed ≡ true)
        × IsShutDown s.consumers t.consumers
        × IsShutDown s.data_consumers t.data_consumers)
      (sym (close_open s is_open))
      (
        refl,
        close_all-IsShutDown s.consumers (old.consumers.owned is_open),
        close_all-IsShutDown s.data_consumers (old.data_consumers.owned is_open),
      )
