-- ===== src/Ortc/Receiving/Answer.antt =====
-- What canReceive of src/ortc.cpp answers.
use libmediasoupclient.Prelude.{Bool, true, false, ◌≡◌, subst, inl, inr, Bool-cases}
use libmediasoupclient.Prelude.Result.{ok, >>=-eq-ok, ok-injective}
use libmediasoupclient.Json.{Json, Items, nil, cons}
use libmediasoupclient.Json.Number.{json_eq}
use libmediasoupclient.Ortc.Checks.{items_of, IsObject}
use libmediasoupclient.Ortc.Objects.{at, find, items_at}
use libmediasoupclient.Ortc.Matching.{or_null}
use libmediasoupclient.Ortc.RtpParameters.{validate_rtp_parameters}
use libmediasoupclient.Ortc.RtpParameters.WellFormed.{IsRtpParameters, parameters_sound}
use libmediasoupclient.Ortc.Receiving.{has_remote_payload_type, receives, can_receive}

-- A list with a codec of the remote payload type, behind codecs with others; or all have others.
pub data Search (payload_type : Json) : Items → Bool → Type 0 where
  absent : Search payload_type nil false
  found :
      {c remote : Json} {rest : Items}
      → at "remotePayloadType" c ≡ ok remote
      → json_eq remote payload_type ≡ true
      → Search payload_type (cons c rest) true
  next :
      {c remote : Json} {rest : Items} {answer : Bool}
      → at "remotePayloadType" c ≡ ok remote
      → json_eq remote payload_type ≡ false
      → Search payload_type rest answer
      → Search payload_type (cons c rest) answer

Search-remote :
    (payload_type : Json) (codecs : Items) (answer : Bool)
    → has_remote_payload_type payload_type codecs ≡ ok answer
    → Search payload_type codecs answer
unfolding has_remote_payload_type
Search-remote payload_type nil answer h = subst (Search payload_type nil) (ok-injective h) absent
Search-remote payload_type (cons c rest) answer h =
    let (remote, r, h₁) = >>=-eq-ok (at "remotePayloadType" c) _ h in
    elim (Bool-cases (json_eq remote payload_type)) [
      | inl same ↦
          subst (Search payload_type (cons c rest)) (ok-injective (rw same at h₁)) (found r same)
      | inr other ↦ next r other (Search-remote payload_type rest answer (rw other at h₁))
    ]

-- The answer for the codecs of valid parameters: false for none, and otherwise whether the extended
-- capabilities have the payload type of the first one as a remote payload type.
pub data Answer (extended : Json) : Items → Bool → Type 0 where
  no_codecs : Answer extended nil false
  first_codec :
      {first : Json} {rest codecs : Items} {answer : Bool}
      → items_at "codecs" extended ≡ ok codecs
      → Search (or_null (find "payloadType" first)) codecs answer
      → Answer extended (cons first rest) answer

receives-Answer :
    (codecs : Items) (extended : Json) (answer : Bool)
    → receives codecs extended ≡ ok answer
    → Answer extended codecs answer
unfolding receives
receives-Answer nil extended answer h = subst (Answer extended nil) (ok-injective h) no_codecs
receives-Answer (cons first rest) extended answer h =
    let (codecs, c, h₁) = >>=-eq-ok (items_at "codecs" extended) _ h in
    first_codec c (Search-remote _ codecs answer h₁)

-- canReceive leaves well-formed parameters, and answers true exactly if they have a codec and the
-- payload type of the first one is the remote payload type of an extended codec.
pub can_receive-Answer :
    (parameters extended validated : Json) (answer : Bool)
    → can_receive parameters extended ≡ ok (validated, answer)
    → IsObject IsRtpParameters validated
      × Answer extended (items_of (find "codecs" validated)) answer
unfolding can_receive
can_receive-Answer parameters extended validated answer h =
    let (v, is_v, h₁) = >>=-eq-ok (validate_rtp_parameters parameters) _ h in
    let (a, is_a, h₂) = >>=-eq-ok (receives (items_of (find "codecs" v)) extended) _ h₁ in
    let same_v : v ≡ validated = cc (ok-injective h₂) in
    let same_a : a ≡ answer = cc (ok-injective h₂) in
    rw (← same_v, ← same_a)
      (
        parameters_sound parameters v is_v,
        receives-Answer (items_of (find "codecs" v)) extended a is_a,
      )
