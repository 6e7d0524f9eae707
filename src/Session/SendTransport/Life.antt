-- ===== src/Session/SendTransport/Life.antt =====
-- The states of a SendTransport of src/Transport.cpp from its construction on.
use libmediasoupclient.Prelude.{
  ℕ, String, Bool, true, false, List, Option, none, ◌≡◌, ◌∙◌, if◌then◌else◌, refl, arith, ap, sym,
  subst, inl, inr, Bool-cases, Option-cases,
}
use libmediasoupclient.Prelude.Result.{Result, ok, >>=-eq-ok, ◌>>◌, Result-cases}
use libmediasoupclient.Json.{ℤ, Json}
use libmediasoupclient.Json.Text.{to_string}
use libmediasoupclient.Index.{find_index}
use libmediasoupclient.Session.Registry.{Registry, Entry, register, register_as, close, close_all}
use libmediasoupclient.Session.Registry.Owned.{
  IsOwned, IsShut, empty-IsOwned, register-IsOwned, close-IsOwned, close_all-IsShut, close_shut,
}
use libmediasoupclient.Session.SendTransport.{
  SendTransport, Producer, Track, SendResult, new_send_transport, produce, close_producer,
  open_stream, produce_data, close_data_producer, close_send_transport,
}
use libmediasoupclient.Session.SendTransport.Outcome.{
  Outcome, refused, not_sent, stopped, left_sending, made, produce-Outcome,
}

-- An open transport has exactly its open producers and data producers in its maps; a closed one has
-- no open producer.
pub record IsSendTransport (s : SendTransport) : Type 0 where
  pub owned : s.closed ≡ false → IsOwned s.producers × IsOwned s.data_producers
  pub all_shut : s.closed ≡ true → (p : ℕ) → IsShut p s.producers

new-IsSendTransport :
    (has_sctp : Bool) (kinds : List (String × Bool))
    → IsSendTransport (new_send_transport has_sctp kinds)
unfolding new_send_transport
new-IsSendTransport has_sctp kinds = record {
  owned = λ o. (empty-IsOwned, empty-IsOwned);
  all_shut = λ c. absurd (ground (arith, c));
}

module _ (send : Track → Option Json → Result SendResult)
    (on_produce : String → Json → Result String) where
  -- The ids that the listener answers are new.
  abbrev pub IsFresh : SendTransport → Type 0
  IsFresh s =
      (kind : String) (params : Json) (id : String)
      → on_produce kind params ≡ ok id
      → find_index id s.producers.by_id ≡ none

  Outcome-IsSendTransport :
      {given : Option Track} {options : Option Json} {s : SendTransport}
      {t : SendTransport × Result ℕ}
      → Outcome send on_produce given options s t
      → IsFresh s
      → IsSendTransport s
      → IsSendTransport t.0
  Outcome-IsSendTransport (refused e failed) fresh old = old
  Outcome-IsSendTransport (not_sent track e is_sent failed) fresh old = record {
    owned = old.owned;
    all_shut = old.all_shut;
  }
  Outcome-IsSendTransport (stopped track sent e is_sent w failed ours) fresh old = record {
    owned = old.owned;
    all_shut = old.all_shut;
  }
  Outcome-IsSendTransport (left_sending track sent e is_sent w failed foreign) fresh old = record {
    owned = old.owned;
    all_shut = old.all_shut;
  }
  Outcome-IsSendTransport {s = s} (made track sent params id may was_sent v w answered) fresh old =
      record {
        owned = λ o. (
          register-IsOwned id sent.local_id _ s.producers (old.owned o).0
              (fresh track.kind params id answered),
          (old.owned o).1,
        );
        all_shut = λ c. absurd (ground (arith, c, may.1.is_open));
      }

close_producer-producers :
    (p : ℕ) (s : SendTransport)
    → ((close_producer p s).producers ≡ (close p s.producers).0)
      × ((close_producer p s).closed ≡ s.closed)
      × ((close_producer p s).data_producers ≡ s.data_producers)
close_producer-producers p s = elim (Option-cases (close p s.producers).1) [
  | inl none_open ↦ unfold close_producer in rw (none_open, close_producer) (refl, refl, refl)
  | inr (e, was_open) ↦ elim (Bool-cases s.closed) [
    | inl closed ↦ unfold close_producer in rw (was_open, closed, close_producer) (refl, refl, refl)
    | inr is_open ↦
        unfold close_producer in rw (was_open, is_open, close_producer) (refl, refl, refl)
  ]
]

pub close_producer-IsSendTransport :
    (p : ℕ) (s : SendTransport) → IsSendTransport s → IsSendTransport (close_producer p s)
close_producer-IsSendTransport p s old =
    let (ps, c, ds) = close_producer-producers p s in
    record {
      owned = λ o.
          (let (own, own_data) = old.owned (sym c ∙ o) in
            (
              subst (λ r. IsOwned r) (sym ps) (close-IsOwned p s.producers own),
              subst (λ r. IsOwned r) (sym ds) own_data,
            ));
      all_shut = λ done q.
          (let before = old.all_shut (sym c ∙ done) in
            subst (IsShut q)
              (sym (
                ps
                ∙ ap (λ (x : Registry Producer × Option (Entry Producer)). x.0)
                    (close_shut p s.producers (before p))))
              (before q));
    }

close_data_producer-IsSendTransport :
    (p : ℕ) (s : SendTransport) → IsSendTransport s → IsSendTransport (close_data_producer p s)
unfolding close_data_producer
close_data_producer-IsSendTransport p s old = record {
  owned = λ o. ((old.owned o).0, close-IsOwned p s.data_producers (old.owned o).1);
  all_shut = old.all_shut;
}

-- The id that the listener answers is new among the data producers.
abbrev pub IsFreshData : (Json → Result String) → SendTransport → Type 0
IsFreshData on_produce_data s =
    (params : Json) (id : String)
    → on_produce_data params ≡ ok id
    → find_index id s.data_producers.by_id ≡ none

produce_data-IsSendTransport :
    (opened negotiated : Result (Unit {0})) (on_produce_data : Json → Result String)
    (protocol : String) (ordered : Bool) (max_retransmits max_packet_life_time : ℤ)
    (s : SendTransport)
    → IsFreshData on_produce_data s
    → IsSendTransport s
    → IsSendTransport
        (produce_data opened negotiated on_produce_data false protocol ordered max_retransmits
          max_packet_life_time s).0
unfolding produce_data register register_as
produce_data-IsSendTransport opened negotiated on_produce_data protocol ordered max_retransmits
      max_packet_life_time s fresh old =
    elim (Result-cases
      (open_stream opened protocol ordered max_retransmits max_packet_life_time s)) [
        | inl (e, failed) ↦ rw (failed, produce_data) old
        | inr ((params, next), passed) ↦
            elim (Result-cases (negotiated >> on_produce_data params)) [
              | inl (e, failed) ↦
                  rw (passed, failed, produce_data)
                    (record { owned = old.owned; all_shut = old.all_shut })
              | inr (id, done) ↦
                  let (_, _, answered) = >>=-eq-ok negotiated _ done in
                  rw (passed, done, produce_data)
                    (record {
                      owned = λ o. (
                        (old.owned o).0,
                        register-IsOwned id (to_string s.next_stream_id) _ s.data_producers
                            (old.owned o).1 (fresh params id answered),
                      );
                      all_shut = old.all_shut;
                    })
            ]
      ]

abbrev pub all_closed : SendTransport → SendTransport
all_closed s = record s {
  closed = true;
  producers = close_all s.producers;
  data_producers = close_all s.data_producers;
}

pub close_closed : (s : SendTransport) → s.closed ≡ true → close_send_transport s ≡ s
unfolding close_send_transport
close_closed s closed = ap (λ b. if b then s else all_closed s) closed

pub close_open : (s : SendTransport) → s.closed ≡ false → close_send_transport s ≡ all_closed s
unfolding close_send_transport
close_open s is_open = ap (λ b. if b then s else all_closed s) is_open

close_send_transport-IsSendTransport :
    (s : SendTransport) → IsSendTransport s → IsSendTransport (close_send_transport s)
close_send_transport-IsSendTransport s old = elim (Bool-cases s.closed) [
  | inl closed ↦ subst IsSendTransport (sym (close_closed s closed)) old
  | inr is_open ↦ subst IsSendTransport (sym (close_open s is_open)) (record {
    owned = λ o. absurd (ground (arith, o));
    all_shut = λ c. close_all-IsShut s.producers (old.owned is_open).0;
  })
]

-- A call of a method of the transport, of a producer or of a data producer; the flag of a new data
-- producer is supposed to be false.
pub data Step (s : SendTransport) : SendTransport → Type 0 where
  calls_produce :
      (send : Track → Option Json → Result SendResult) (on_produce : String → Json → Result String)
      (given : Option Track) (options : Option Json)
      → IsFresh send on_produce s
      → Step s (produce send on_produce given options s).0
  closes_producer : (p : ℕ) → Step s (close_producer p s)
  calls_produce_data :
      (opened negotiated : Result (Unit {0})) (on_produce_data : Json → Result String)
      (protocol : String) (ordered : Bool) (max_retransmits max_packet_life_time : ℤ)
      → IsFreshData on_produce_data s
      → Step s
          (produce_data opened negotiated on_produce_data false protocol ordered max_retransmits
            max_packet_life_time s).0
  closes_data_producer : (p : ℕ) → Step s (close_data_producer p s)
  closes_transport : Step s (close_send_transport s)

pub data Reachable (has_sctp : Bool) (kinds : List (String × Bool)) : SendTransport → Type 0 where
  start : Reachable has_sctp kinds (new_send_transport has_sctp kinds)
  step : {s t : SendTransport} → Reachable has_sctp kinds s → Step s t → Reachable has_sctp kinds t

Step-IsSendTransport : {s t : SendTransport} → Step s t → IsSendTransport s → IsSendTransport t
Step-IsSendTransport {s = s} (calls_produce send on_produce given options fresh) old =
    Outcome-IsSendTransport send on_produce (produce-Outcome send on_produce given options s) fresh
      old
Step-IsSendTransport {s = s} (closes_producer p) old = close_producer-IsSendTransport p s old
Step-IsSendTransport {s = s} (calls_produce_data opened done answer protocol ordered n time fresh)
      old =
    produce_data-IsSendTransport opened done answer protocol ordered n time s fresh old
Step-IsSendTransport {s = s} (closes_data_producer p) old =
    close_data_producer-IsSendTransport p s old
Step-IsSendTransport {s = s} closes_transport old = close_send_transport-IsSendTransport s old

-- In every state that calls lead to, with new ids from the listener and the flag of each new data
-- producer false, the maps of an open transport have exactly the open producers and data producers,
-- each under its id, and a closed transport has no open producer.
pub Reachable-IsSendTransport :
    {has_sctp : Bool} {kinds : List (String × Bool)} {s : SendTransport}
    → Reachable has_sctp kinds s
    → IsSendTransport s
Reachable-IsSendTransport {has_sctp} {kinds} start = new-IsSendTransport has_sctp kinds
Reachable-IsSendTransport (step before move) =
    Step-IsSendTransport move (Reachable-IsSendTransport before)
