-- ===== src/DataChannel/Limits.antt =====
-- Which calls of SendTransport::ProduceData of src/Transport.cpp get stream parameters.
use libmediasoupclient.Prelude.{
  ℕ, String, Bool, true, false, not, ◌&&◌, ◌||◌, Option, none, some, ◌≡◌, refl, arith, ◌∙◌, inl,
  inr, Bool-cases,
}
use libmediasoupclient.Prelude.Result.{Result, ok, err, Result-cases}
use libmediasoupclient.Json.{ℤ, pos, negsuc, object, lookup, insert}
use libmediasoupclient.Json.Number.{eq_ℤ}
use libmediasoupclient.Ortc.Sctp.{validate_sctp_stream_parameters}
use libmediasoupclient.Ortc.Sctp.Streams.{is_accepted, is_ok-validate}
use libmediasoupclient.DataChannel.{
  DataChannelInit, unless_zero, stream_fields, stream_parameters, data_channel_init, produce_data,
}

-- Whether a call succeeds.
pub succeeds {ℓ} : {A : Type ℓ} → Result A → Bool
succeeds (ok a) = true
succeeds (err e) = false

abbrev is_given : Option ℤ → Bool
is_given none = false
is_given (some n) = true

stream_fields-accepted :
    (stream_id : ℕ) (protocol : String) (ordered : Bool) (retransmits time : Option ℤ)
    → is_accepted (
        stream_fields stream_id (record {
          protocol = protocol;
          ordered = ordered;
          max_retransmits = retransmits;
          max_retransmit_time = time;
        }))
      ≡ not (is_given time && is_given retransmits)
        && not (ordered && (is_given time || is_given retransmits))
unfolding lookup insert
stream_fields-accepted stream_id protocol ordered none none = ground arith
stream_fields-accepted stream_id protocol ordered none (some t) = ground arith
stream_fields-accepted stream_id protocol ordered (some r) none = ground arith
stream_fields-accepted stream_id protocol ordered (some r) (some t) = ground arith

succeeds-stream_parameters :
    (stream_id : ℕ) (init : DataChannelInit)
    → succeeds (stream_parameters stream_id init) ≡ is_accepted (stream_fields stream_id init)
unfolding stream_parameters succeeds
succeeds-stream_parameters stream_id init =
    elim (Result-cases (validate_sctp_stream_parameters (object (stream_fields stream_id init)))) [
      | inl (e, failed) ↦
          rw failed (ground (arith, is_ok-validate (stream_fields stream_id init), failed))
      | inr (params, valid) ↦
          rw valid (ground (arith, is_ok-validate (stream_fields stream_id init), valid))
    ]

is_given-unless_zero : (n : ℤ) → is_given (unless_zero n) ≡ not (eq_ℤ n (pos 0))
is_given-unless_zero (pos n) = ground arith
is_given-unless_zero (negsuc n) = refl

minus_one_not_zero : (n : ℤ) → eq_ℤ n (negsuc 0) ≡ true → eq_ℤ n (pos 0) ≡ false
minus_one_not_zero (pos n) h = absurd (ground (arith, h))
minus_one_not_zero (negsuc n) h = refl

-- What becomes of the limits once both guards of ProduceData have passed.
succeeds-limits :
    (stream_id : ℕ) (protocol : String) (ordered : Bool) (r l : ℤ)
    → succeeds (
        stream_parameters stream_id (record {
          protocol = protocol;
          ordered = ordered;
          max_retransmits = unless_zero r;
          max_retransmit_time = unless_zero l;
        }))
      ≡ not (not (eq_ℤ l (pos 0)) && not (eq_ℤ r (pos 0)))
        && not (ordered && (not (eq_ℤ l (pos 0)) || not (eq_ℤ r (pos 0))))
succeeds-limits stream_id protocol ordered r l =
    rw (← is_given-unless_zero r, ← is_given-unless_zero l)
      (succeeds-stream_parameters stream_id _
        ∙ stream_fields-accepted stream_id protocol ordered (unless_zero r) (unless_zero l))

-- ProduceData gets parameters exactly if the transport has SCTP parameters, maxPacketLifeTime is 0,
-- and maxRetransmits is 0 or the channel is not ordered.
pub produce_data-succeeds :
    (has_sctp_parameters : Bool) (stream_id : ℕ) (protocol : String) (ordered : Bool)
    (max_retransmits max_packet_life_time : ℤ)
    → succeeds (
        produce_data has_sctp_parameters stream_id protocol ordered max_retransmits
          max_packet_life_time)
      ≡ has_sctp_parameters
        && eq_ℤ max_packet_life_time (pos 0)
        && (eq_ℤ max_retransmits (pos 0) || not ordered)
unfolding produce_data data_channel_init succeeds
produce_data-succeeds false stream_id protocol ordered r l = refl
produce_data-succeeds true stream_id protocol ordered r l =
    let limits = succeeds-limits stream_id protocol ordered r l in
    elim (Bool-cases (eq_ℤ l (pos 0))) [
      | inl no_time ↦
          let passed : (not (eq_ℤ r (negsuc 0)) && not (eq_ℤ l (pos 0))) ≡ false =
            ground (arith, no_time) in
          rw passed (limits ∙ ground (arith, no_time))
      | inr timed ↦ elim (Bool-cases (eq_ℤ r (negsuc 0))) [
        | inl unset ↦
            let passed : (not (eq_ℤ r (negsuc 0)) && not (eq_ℤ l (pos 0))) ≡ false =
              ground (arith, unset) in
            rw passed (limits ∙ ground (arith, timed, minus_one_not_zero r unset))
        | inr set ↦ rw (timed, set) refl
      ]
    ]
