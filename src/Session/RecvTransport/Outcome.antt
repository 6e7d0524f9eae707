-- ===== src/Session/RecvTransport/Outcome.antt =====
-- What Consume of src/Transport.cpp does on each of its paths.
use libmediasoupclient.Prelude.{
  ℕ, String, Bool, true, false, not, ◌&&◌, ◌||◌, Option, none, some, ◌≡◌, ◌⊎◌, ◌==◌, arith, ap,
  subst, inl, inr, Bool-cases,
}
use libmediasoupclient.Prelude.Lists.{length}
use libmediasoupclient.Prelude.Result.{
  Result, ok, err, Error, >>=-eq-ok, Result-cases, ok-injective, require-eq-ok,
}
use libmediasoupclient.Json.{Json}
use libmediasoupclient.Ortc.Checks.{IsObject, items_of}
use libmediasoupclient.Ortc.Objects.{find}
use libmediasoupclient.Ortc.Receiving.{can_receive}
use libmediasoupclient.Ortc.Receiving.Answer.{Answer, can_receive-Answer}
use libmediasoupclient.Ortc.RtpParameters.WellFormed.{IsRtpParameters}
use libmediasoupclient.Session.RecvTransport.{
  RecvTransport, Consumption, RecvResult, given_parameters, check_consume, check_and_receive,
  with_consumer, consume, probate, is_runtime_error, receive_probator,
}

-- What holds of a transport and of the arguments that pass the checks.
pub record MayConsume (s : RecvTransport) (c : Consumption) (valid : Json) : Type 0 where
  pub is_open : s.closed ≡ false
  pub has_id : (c.id == "") ≡ false
  pub has_producer_id : (c.producer_id == "") ≡ false
  pub is_kind : (c.kind == "audio" || c.kind == "video") ≡ true
  pub has_app_data : c.app_data_is_object ≡ true
  pub well_formed : IsObject IsRtpParameters valid
  pub receivable : Answer s.extended_rtp_capabilities (items_of (find "codecs" valid)) true

given_parameters-eq-ok :
    (given : Option Json) (j : Json) → given_parameters given ≡ ok j → given ≡ some j
given_parameters-eq-ok none j h = absurd (ground (arith, h))
given_parameters-eq-ok (some x) j h = ap some (ok-injective h)

pub check_consume-MayConsume :
    (s : RecvTransport) (c : Consumption) (valid : Json)
    → check_consume s c ≡ ok valid
    → MayConsume s c valid
unfolding check_consume
check_consume-MayConsume s c valid h =
    let (is_open, h₁) = require-eq-ok (not s.closed) _ _ h in
    let (has_id, h₂) = require-eq-ok (not (c.id == "")) _ _ h₁ in
    let (has_producer_id, h₃) = require-eq-ok (not (c.producer_id == "")) _ _ h₂ in
    let (kind, h₄) = require-eq-ok (c.kind == "audio" || c.kind == "video") _ _ h₃ in
    let (given, is_given, h₅) = >>=-eq-ok (given_parameters c.rtp_parameters) _ h₄ in
    let (app_data, h₆) = require-eq-ok c.app_data_is_object _ _ h₅ in
    let ((checked, answer), a, h₇) =
      >>=-eq-ok (can_receive given s.extended_rtp_capabilities) _ h₆ in
    let (yes_answer, h₈) = require-eq-ok answer _ _ h₇ in
    let same : checked ≡ valid = ok-injective h₈ in
    let answered = can_receive-Answer given s.extended_rtp_capabilities checked answer a in
    subst (MayConsume s c) same (record {
      is_open = ground (arith, is_open);
      has_id = ground (arith, has_id);
      has_producer_id = ground (arith, has_producer_id);
      is_kind = kind;
      has_app_data = app_data;
      well_formed = answered.0;
      receivable =
          subst (Answer s.extended_rtp_capabilities (items_of (find "codecs" checked))) yes_answer
            answered.1;
    })

-- A probator is received for a video, while there is none.
abbrev pub IsDue : String → RecvTransport → Type 0
IsDue kind s = ((kind == "video") ≡ true) × (s.probator_consumer_created ≡ false)

no_need-cases :
    (kind : String) (s : RecvTransport)
    → (not s.probator_consumer_created && kind == "video") ≡ false
    → ((kind == "video") ≡ false) ⊎ (s.probator_consumer_created ≡ true)
no_need-cases kind s h = elim (Bool-cases s.probator_consumer_created) [
  | inl there ↦ inr there
  | inr missing ↦ inl (ground (arith, h, missing))
]

module _ (receive : String → String → Json → Result RecvResult) (foreign : Bool) where
  -- What follows when a consumer is made: nothing more, for a kind that is not video or if a probator
  -- was received; for a video, if none was, a probator is received, or that fails, and the exception
  -- is caught exactly if it is a runtime error.
  pub data Probation (kind : String) (params : Json) (p : ℕ) (s : RecvTransport)
      : RecvTransport × Result ℕ → Type 0 where
    not_needed :
        ((kind == "video") ≡ false) ⊎ (s.probator_consumer_created ≡ true)
        → Probation kind params p s (s, ok p)
    started :
        (received : RecvResult)
        → IsDue kind s
        → receive_probator receive foreign kind params ≡ ok received
        → Probation kind params p s (record s { probator_consumer_created = true }, ok p)
    not_started :
        (e : Error)
        → IsDue kind s
        → receive_probator receive foreign kind params ≡ err e
        → is_runtime_error foreign e ≡ true
        → Probation kind params p s (s, ok p)
    thrown :
        (e : Error)
        → IsDue kind s
        → receive_probator receive foreign kind params ≡ err e
        → is_runtime_error foreign e ≡ false
        → Probation kind params p s (s, err e)

  probate-Probation :
      (kind : String) (params : Json) (p : ℕ) (s : RecvTransport)
      → Probation kind params p s (probate receive foreign kind params p s)
  probate-Probation kind params p s =
      elim (Bool-cases (not s.probator_consumer_created && kind == "video")) [
        | inr no_need ↦
            unfold probate in rw (no_need, probate) (not_needed (no_need-cases kind s no_need))
        | inl need ↦
            let due : IsDue kind s = (ground (arith, need), ground (arith, need)) in
            elim (Result-cases (receive_probator receive foreign kind params)) [
              | inr (received, r) ↦ unfold probate in rw (need, r, probate) (started received due r)
              | inl (e, failed) ↦ elim (Bool-cases (is_runtime_error foreign e)) [
                | inl caught ↦
                    unfold probate in
                    rw (need, failed, caught, probate) (not_started e due failed caught)
                | inr not_caught ↦
                    unfold probate in
                    rw (need, failed, not_caught, probate) (thrown e due failed not_caught)
              ]
            ]
      ]

  -- The ways of a call: a check fails, or the handler's Receive does, and nothing is changed; or it makes one open consumer, with the
  -- parameters that were checked, and then tries the probation if that is needed.
  pub data Consumed (c : Consumption) (s : RecvTransport) : RecvTransport × Result ℕ → Type 0 where
    refused : (e : Error) → check_consume s c ≡ err e → Consumed c s (s, err e)
    not_received :
        (params : Json) (e : Error)
        → MayConsume s c params
        → receive c.id c.kind params ≡ err e
        → Consumed c s (s, err e)
    made :
        (params : Json) (received : RecvResult) {t : RecvTransport × Result ℕ}
        → MayConsume s c params
        → receive c.id c.kind params ≡ ok received
        → Probation c.kind params (length s.consumers.objects) (with_consumer c params received s) t
        → Consumed c s t

  pub consume-Consumed :
      (c : Consumption) (s : RecvTransport) → Consumed c s (consume receive foreign c s)
  consume-Consumed c s = elim (Result-cases (check_consume s c)) [
    | inl (e, failed) ↦
        unfold consume check_and_receive in
        rw (failed, consume, check_and_receive) (refused e failed)
    | inr (params, passed) ↦
        let may = check_consume-MayConsume s c params passed in
        elim (Result-cases (receive c.id c.kind params)) [
          | inl (e, failed) ↦
              unfold consume check_and_receive in
              rw (passed, failed, consume, check_and_receive) (not_received params e may failed)
          | inr (received, r) ↦
              unfold consume check_and_receive in
              rw (passed, r, consume, check_and_receive)
                (made params received may r (
                  probate-Probation c.kind params (length s.consumers.objects)
                    (with_consumer c params received s)))
        ]
  ]
