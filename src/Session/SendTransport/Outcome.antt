-- ===== src/Session/SendTransport/Outcome.antt =====
-- What Produce of src/Transport.cpp does on each of its paths.
use libmediasoupclient.Prelude.{
  ℕ, String, true, false, not, Option, none, some, ◌≡◌, ◌∙◌, if◌then◌else◌, arith, ap, sym, subst,
  inl, inr, Bool-cases,
}
use libmediasoupclient.Prelude.Lists.{length}
use libmediasoupclient.Prelude.Result.{
  Result, ok, err, Error, is_media_soup_error, >>=-eq-ok, Result-cases, ok-injective, require-eq-ok,
}
use libmediasoupclient.Json.{Json}
use libmediasoupclient.Ortc.Checks.{IsObject}
use libmediasoupclient.Ortc.RtpParameters.{validate_rtp_parameters}
use libmediasoupclient.Ortc.RtpParameters.WellFormed.{IsRtpParameters, parameters_sound}
use libmediasoupclient.Session.SendTransport.{
  SendTransport, Track, SendResult, has_key, check_options, check_produce, announce, with_send,
  produce, stop, with_producer,
}

-- What holds of a transport and a track that pass the checks.
pub record MayProduce (s : SendTransport) (track : Track) : Type 0 where
  pub is_open : s.closed ≡ false
  pub not_ended : track.ended ≡ false
  pub known_kind : has_key track.kind s.can_produce_by_kind ≡ true

pub check_produce-MayProduce :
    (s : SendTransport) (given : Option Track) (options : Option Json) (track : Track)
    → check_produce s given options ≡ ok track
    → (given ≡ some track) × MayProduce s track
unfolding check_produce
check_produce-MayProduce s none options track h =
    let (_, h₁) = require-eq-ok (not s.closed) _ _ h in absurd (ground (arith, h₁))
check_produce-MayProduce s (some t) options track h =
    let (is_open, h₁) = require-eq-ok (not s.closed) _ _ h in
    let (not_ended, h₂) = require-eq-ok (not t.ended) _ _ h₁ in
    let (known, h₃) = require-eq-ok (has_key t.kind s.can_produce_by_kind) _ _ h₂ in
    let (_, _, h₄) = >>=-eq-ok (check_options options) _ h₃ in
    let may : MayProduce s t = record {
      is_open = ground (arith, is_open);
      not_ended = ground (arith, not_ended);
      known_kind = known;
    } in
    (ap some (ok-injective h₄), subst (MayProduce s) (ok-injective h₄) may)

-- The track is the given one, and may be produced.
abbrev pub IsSent : Option Track → SendTransport → Track → Type 0
IsSent given s track = (given ≡ some track) × MayProduce s track

module _ (send : Track → Option Json → Result SendResult)
    (on_produce : String → Json → Result String) where
  -- The ways of a call: a check fails, and Send is not called; Send fails; it throws after that, with
  -- the sending stopped exactly if the exception is one of the library; or it makes a producer, with
  -- the well-formed parameters that it announced and the id that the listener answered.
  pub data Outcome (given : Option Track) (options : Option Json) (s : SendTransport)
      : SendTransport × Result ℕ → Type 0 where
    refused :
        (e : Error) → check_produce s given options ≡ err e → Outcome given options s (s, err e)
    not_sent :
        (track : Track) (e : Error)
        → IsSent given s track
        → send track options ≡ err e
        → Outcome given options s (with_send track s, err e)
    stopped :
        (track : Track) (sent : SendResult) (e : Error)
        → IsSent given s track
        → send track options ≡ ok sent
        → announce send on_produce track sent ≡ err e
        → is_media_soup_error e ≡ true
        → Outcome given options s (stop sent.local_id (with_send track s), err e)
    left_sending :
        (track : Track) (sent : SendResult) (e : Error)
        → IsSent given s track
        → send track options ≡ ok sent
        → announce send on_produce track sent ≡ err e
        → is_media_soup_error e ≡ false
        → Outcome given options s (with_send track s, err e)
    made :
        (track : Track) (sent : SendResult) (rtp_parameters : Json) (id : String)
        → IsSent given s track
        → send track options ≡ ok sent
        → validate_rtp_parameters sent.rtp_parameters ≡ ok rtp_parameters
        → IsObject IsRtpParameters rtp_parameters
        → on_produce track.kind rtp_parameters ≡ ok id
        → Outcome given options s (
          with_producer id sent track rtp_parameters (with_send track s),
          ok (length s.producers.objects),
        )

  -- The `catch` block.
  after :
      {given : Option Track} {options : Option Json} {s : SendTransport} (track : Track)
      (sent : SendResult) (e : Error)
      → IsSent given s track
      → send track options ≡ ok sent
      → announce send on_produce track sent ≡ err e
      → Outcome given options s (
        if is_media_soup_error e then stop sent.local_id (with_send track s) else with_send track s,
        err e,
      )
  after track sent e may was_sent failed = elim (Bool-cases (is_media_soup_error e)) [
    | inl ours ↦ rw ours (stopped track sent e may was_sent failed ours)
    | inr foreign ↦ rw foreign (left_sending track sent e may was_sent failed foreign)
  ]

  announced :
      (track : Track) (sent : SendResult) (rtp_parameters : Json) (id : String)
      → announce send on_produce track sent ≡ ok (rtp_parameters, id)
      → (validate_rtp_parameters sent.rtp_parameters ≡ ok rtp_parameters)
        × (on_produce track.kind rtp_parameters ≡ ok id)
  unfolding announce
  announced track sent rtp_parameters id h =
      let (v, valid, h₁) = >>=-eq-ok (validate_rtp_parameters sent.rtp_parameters) _ h in
      let (i, answered, last) = >>=-eq-ok (on_produce track.kind v) _ h₁ in
      let same : (v, i) ≡ (rtp_parameters, id) = ok-injective last in
      let same_v = ap (λ (x : Json × String). x.0) same in
      let same_i = ap (λ (x : Json × String). x.1) same in
      (valid ∙ ap ok same_v, ap (on_produce track.kind) (sym same_v) ∙ answered ∙ ap ok same_i)

  pub produce-Outcome :
      (given : Option Track) (options : Option Json) (s : SendTransport)
      → Outcome given options s (produce send on_produce given options s)
  unfolding produce
  produce-Outcome given options s = elim (Result-cases (check_produce s given options)) [
    | inl (e, failed) ↦ rw (failed, produce) (refused e failed)
    | inr (track, passed) ↦
        let is_sent : IsSent given s track =
          check_produce-MayProduce s given options track passed in
        elim (Result-cases (send track options)) [
          | inl (e, failed) ↦ rw (passed, failed, produce) (not_sent track e is_sent failed)
          | inr (sent, was_sent) ↦ elim (Result-cases (announce send on_produce track sent)) [
            | inl (e, failed) ↦
                rw (passed, was_sent, failed, produce) (after track sent e is_sent was_sent failed)
            | inr ((params, id), done) ↦
                let (valid, answered) = announced track sent params id done in
                rw (passed, was_sent, done, produce)
                  (made track sent params id is_sent was_sent valid
                    (parameters_sound sent.rtp_parameters params valid) answered)
          ]
        ]
  ]
