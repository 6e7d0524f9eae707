-- ===== src/Session/RecvTransport/Life.antt =====
-- The states of a RecvTransport of src/Transport.cpp from its construction on.
use libmediasoupclient.Prelude.{
  ℕ, String, Bool, true, false, none, ◌≡◌, if◌then◌else◌, refl, arith, ap, sym, subst, inl, inr,
  Bool-cases, Option-cases, not,
}
use libmediasoupclient.Prelude.Result.{Result, ok, Result-cases, >>=-eq-ok, require-eq-ok}
use libmediasoupclient.Json.{Json}
use libmediasoupclient.Json.Text.{to_string}
use libmediasoupclient.Index.{find_index}
use libmediasoupclient.Session.Registry.{Registry, close, close_all}
use libmediasoupclient.Session.Registry.Kept.{
  IsKept, empty-IsKept, register-IsKept, close-IsKept, close_all-IsKept,
}
use libmediasoupclient.Session.RecvTransport.{
  RecvTransport, Consumption, RecvResult, new_recv_transport, consume, close_consumer,
  check_consume_data, check_and_stream, consume_data, close_data_consumer, close_recv_transport,
}
use libmediasoupclient.Session.RecvTransport.Outcome.{
  Consumed, refused, not_received, made, Probation, not_needed, started, not_started, thrown,
  consume-Consumed,
}

pub record IsRecvTransport (s : RecvTransport) : Type 0 where
  pub consumers : IsKept s.closed s.consumers
  pub data_consumers : IsKept s.closed s.data_consumers

new-IsRecvTransport :
    (has_sctp : Bool) (extended : Json) → IsRecvTransport (new_recv_transport has_sctp extended)
unfolding new_recv_transport
new-IsRecvTransport has_sctp extended = record {
  consumers = empty-IsKept;
  data_consumers = empty-IsKept;
}

-- The id of a consumer is new.
abbrev pub IsFresh {ℓ} : {A : Type ℓ} → String → Registry A → Type 0
IsFresh id r = find_index id r.by_id ≡ none

module _ (receive : String → String → Json → Result RecvResult) (foreign : Bool) where
  Probation-IsRecvTransport :
      {kind : String} {params : Json} {p : ℕ} {s : RecvTransport} {t : RecvTransport × Result ℕ}
      → Probation receive foreign kind params p s t
      → IsRecvTransport s
      → IsRecvTransport t.0
  Probation-IsRecvTransport (not_needed n) old = old
  Probation-IsRecvTransport (started received f r) old = record {
    consumers = old.consumers;
    data_consumers = old.data_consumers;
  }
  Probation-IsRecvTransport (not_started e d f c) old = old
  Probation-IsRecvTransport (thrown e d f c) old = old

  Consumed-IsRecvTransport :
      {c : Consumption} {s : RecvTransport} {t : RecvTransport × Result ℕ}
      → Consumed receive foreign c s t
      → IsFresh c.id s.consumers
      → IsRecvTransport s
      → IsRecvTransport t.0
  Consumed-IsRecvTransport (refused e failed) new old = old
  Consumed-IsRecvTransport (not_received params e may failed) new old = old
  Consumed-IsRecvTransport {c} {s} (made params received may r tried) new old =
      Probation-IsRecvTransport tried (record {
        consumers =
            register-IsKept s.closed c.id received.local_id _ s.consumers old.consumers may.is_open
              new;
        data_consumers = old.data_consumers;
      })

close_consumer-consumers :
    (p : ℕ) (s : RecvTransport)
    → ((close_consumer p s).consumers ≡ (close p s.consumers).0)
      × ((close_consumer p s).closed ≡ s.closed)
      × ((close_consumer p s).data_consumers ≡ s.data_consumers)
close_consumer-consumers p s = elim (Option-cases (close p s.consumers).1) [
  | inl none_open ↦ unfold close_consumer in rw (none_open, close_consumer) (refl, refl, refl)
  | inr (e, was_open) ↦ elim (Bool-cases s.closed) [
    | inl closed ↦ unfold close_consumer in rw (was_open, closed, close_consumer) (refl, refl, refl)
    | inr is_open ↦
        unfold close_consumer in rw (was_open, is_open, close_consumer) (refl, refl, refl)
  ]
]

close_consumer-IsRecvTransport :
    (p : ℕ) (s : RecvTransport) → IsRecvTransport s → IsRecvTransport (close_consumer p s)
close_consumer-IsRecvTransport p s old =
    let (cs, c, ds) = close_consumer-consumers p s in
    record {
      consumers =
          subst (λ b. IsKept b (close_consumer p s).consumers) (sym c)
            (subst (IsKept s.closed) (sym cs) (close-IsKept s.closed p s.consumers old.consumers));
      data_consumers =
          subst (λ b. IsKept b (close_consumer p s).data_consumers) (sym c)
            (subst (IsKept s.closed) (sym ds) old.data_consumers);
    }

check_and_stream-open :
    (opened : Result (Unit {0})) (s : RecvTransport) (id producer_id : String) (ordered : Bool)
    (params : Json)
    → check_and_stream opened s id producer_id ordered ≡ ok params
    → s.closed ≡ false
unfolding check_and_stream check_consume_data
check_and_stream-open opened s id producer_id ordered params h =
    let (_, passed, _) = >>=-eq-ok (check_consume_data s id producer_id) _ h in
    let (is_open, _) = require-eq-ok (not s.closed) _ _ passed in ground (arith, is_open)

consume_data-IsRecvTransport :
    (ordered : Bool) (opened negotiated : Result (Unit {0})) (id producer_id : String)
    (s : RecvTransport)
    → IsFresh id s.data_consumers
    → IsRecvTransport s
    → IsRecvTransport (consume_data ordered opened negotiated id producer_id s).0
unfolding consume_data
consume_data-IsRecvTransport ordered opened negotiated id producer_id s new old =
    elim (Result-cases (check_and_stream opened s id producer_id ordered)) [
      | inl (e, failed) ↦ rw (failed, consume_data) old
      | inr (params, passed) ↦ elim (Result-cases negotiated) [
        | inl (e, failed) ↦
            rw (passed, failed, consume_data)
              (record { consumers = old.consumers; data_consumers = old.data_consumers })
        | inr (_, done) ↦
            rw (passed, done, consume_data)
              (record {
                consumers = old.consumers;
                data_consumers =
                    register-IsKept s.closed id (to_string s.next_stream_id) _ s.data_consumers
                      old.data_consumers
                      (check_and_stream-open opened s id producer_id ordered params passed) new;
              })
      ]
    ]

abbrev pub all_closed : RecvTransport → RecvTransport
all_closed s = record s {
  closed = true;
  consumers = close_all s.consumers;
  data_consumers = close_all s.data_consumers;
}

close_closed : (s : RecvTransport) → s.closed ≡ true → close_recv_transport s ≡ s
unfolding close_recv_transport
close_closed s closed = ap (λ b. if b then s else all_closed s) closed

pub close_open : (s : RecvTransport) → s.closed ≡ false → close_recv_transport s ≡ all_closed s
unfolding close_recv_transport
close_open s is_open = ap (λ b. if b then s else all_closed s) is_open

close_recv_transport-IsRecvTransport :
    (s : RecvTransport) → IsRecvTransport s → IsRecvTransport (close_recv_transport s)
close_recv_transport-IsRecvTransport s old = elim (Bool-cases s.closed) [
  | inl closed ↦ subst IsRecvTransport (sym (close_closed s closed)) old
  | inr is_open ↦ subst IsRecvTransport (sym (close_open s is_open)) (record {
    consumers = close_all-IsKept s.consumers (old.consumers.owned is_open);
    data_consumers = close_all-IsKept s.data_consumers (old.data_consumers.owned is_open);
  })
]

-- A call of a method of the transport, of a consumer or of a data consumer.
pub data Step (s : RecvTransport) : RecvTransport → Type 0 where
  calls_consume :
      (receive : String → String → Json → Result RecvResult) (foreign : Bool) (c : Consumption)
      → IsFresh c.id s.consumers
      → Step s (consume receive foreign c s).0
  closes_consumer : (p : ℕ) → Step s (close_consumer p s)
  calls_consume_data :
      (ordered : Bool) (opened negotiated : Result (Unit {0})) (id producer_id : String)
      → IsFresh id s.data_consumers
      → Step s (consume_data ordered opened negotiated id producer_id s).0
  closes_data_consumer : (p : ℕ) → Step s (close_data_consumer p s)
  closes_transport : Step s (close_recv_transport s)

pub data Reachable (has_sctp : Bool) (extended : Json) : RecvTransport → Type 0 where
  start : Reachable has_sctp extended (new_recv_transport has_sctp extended)
  step :
      {s t : RecvTransport}
      → Reachable has_sctp extended s
      → Step s t
      → Reachable has_sctp extended t

Step-IsRecvTransport : {s t : RecvTransport} → Step s t → IsRecvTransport s → IsRecvTransport t
unfolding close_data_consumer
Step-IsRecvTransport {s = s} (calls_consume receive foreign c new) old =
    Consumed-IsRecvTransport receive foreign (consume-Consumed receive foreign c s) new old
Step-IsRecvTransport {s = s} (closes_consumer p) old = close_consumer-IsRecvTransport p s old
Step-IsRecvTransport {s = s} (calls_consume_data ordered opened done id producer_id new) old =
    consume_data-IsRecvTransport ordered opened done id producer_id s new old
Step-IsRecvTransport {s = s} (closes_data_consumer p) old = record {
  consumers = old.consumers;
  data_consumers = close-IsKept s.closed p s.data_consumers old.data_consumers;
}
Step-IsRecvTransport {s = s} closes_transport old = close_recv_transport-IsRecvTransport s old

-- In every state that calls with new ids lead to, the maps of an open transport have exactly the open
-- consumers and data consumers, each under its id, and a closed transport has no open one of either.
pub Reachable-IsRecvTransport :
    {has_sctp : Bool} {extended : Json} {s : RecvTransport}
    → Reachable has_sctp extended s
    → IsRecvTransport s
Reachable-IsRecvTransport {has_sctp} {extended} start = new-IsRecvTransport has_sctp extended
Reachable-IsRecvTransport (step before move) =
    Step-IsRecvTransport move (Reachable-IsRecvTransport before)
