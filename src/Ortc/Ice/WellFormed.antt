-- ===== src/Ortc/Ice/WellFormed.antt =====
-- What validateIceCandidates of src/ortc.cpp establishes.
use libmediasoupclient.Prelude.{String, true, ◌≡◌, ◌∙◌, refl, arith, subst, ap}
use libmediasoupclient.Prelude.Result.{ok, >>=-eq-ok, check-eq-ok, ok-injective}
use libmediasoupclient.Json.{
  Json, array, object, Items, nil, cons, Fields, lookup, is_number_unsigned,
}
use libmediasoupclient.Ortc.Checks.{
  holds, is_nonempty_string, get_string, IsObject, IsArray, AllItems, each, each_sound,
}
use libmediasoupclient.Ortc.Ice.{
  is_protocol, is_candidate_type, validate_ice_candidate, validate_ice_candidates,
}

pub record IsCandidate (c : Fields) : Type 0 where
  pub protocol : String
  pub type : String
  pub foundation : holds is_nonempty_string (lookup "foundation" c) ≡ true
  pub priority : holds is_number_unsigned (lookup "priority" c) ≡ true
  pub ip : holds is_nonempty_string (lookup "ip" c) ≡ true
  pub has_protocol : get_string (lookup "protocol" c) ≡ ok protocol
  pub known_protocol : is_protocol protocol ≡ true
  pub port : holds is_number_unsigned (lookup "port" c) ≡ true
  pub has_type : get_string (lookup "type" c) ≡ ok type
  pub known_type : is_candidate_type type ≡ true

-- A candidate that passes is left as it is.
record Passed (j w : Json) : Type 0 where
  same : j ≡ w
  is_candidate : IsObject IsCandidate w

validate-Passed : (j w : Json) → validate_ice_candidate j ≡ ok w → Passed j w
unfolding validate_ice_candidate
validate-Passed (object c) w h =
    let (foundation, h₁) = check-eq-ok (holds is_nonempty_string (lookup "foundation" c)) _ _ h in
    let (priority, h₂) = check-eq-ok (holds is_number_unsigned (lookup "priority" c)) _ _ h₁ in
    let (ip, h₃) = check-eq-ok (holds is_nonempty_string (lookup "ip" c)) _ _ h₂ in
    let (_, h₄) = check-eq-ok (holds is_nonempty_string (lookup "protocol" c)) _ _ h₃ in
    let (protocol, p, h₅) = >>=-eq-ok (get_string (lookup "protocol" c)) _ h₄ in
    let (known_protocol, h₆) = check-eq-ok (is_protocol protocol) _ _ h₅ in
    let (port, h₇) = check-eq-ok (holds is_number_unsigned (lookup "port" c)) _ _ h₆ in
    let (_, h₈) = check-eq-ok (holds is_nonempty_string (lookup "type" c)) _ _ h₇ in
    let (type, t, h₉) = >>=-eq-ok (get_string (lookup "type" c)) _ h₈ in
    let (known_type, h₁₀) = check-eq-ok (is_candidate_type type) _ _ h₉ in
    subst (Passed (object c)) (ok-injective h₁₀) (record {
      same = refl;
      is_candidate = record {
        protocol = protocol;
        type = type;
        foundation = foundation;
        priority = priority;
        ip = ip;
        has_protocol = p;
        known_protocol = known_protocol;
        port = port;
        has_type = t;
        known_type = known_type;
      };
    })
validate-Passed _ w h = absurd (ground arith)

each-same : (xs ys : Items) → each validate_ice_candidate xs ≡ ok ys → xs ≡ ys
unfolding each
each-same nil ys h = ok-injective h
each-same (cons x xs) ys h =
    let (y, v, h₁) = >>=-eq-ok (validate_ice_candidate x) _ h in
    let (rest, r, h₂) = >>=-eq-ok (each validate_ice_candidate xs) _ h₁ in
    ap (λ j. cons j xs) (validate-Passed x y v).same
    ∙ ap (λ js. cons y js) (each-same xs rest r)
    ∙ ok-injective h₂

-- ICE candidates that pass are an array and left as they are, and each of them is an object with a
-- foundation, a priority, an address and a port, and with a known protocol and a known type,
-- ignoring case.
pub ice_candidates_sound :
    (j w : Json)
    → validate_ice_candidates j ≡ ok w
    → (j ≡ w) × IsArray (AllItems (IsObject IsCandidate)) w
unfolding validate_ice_candidates
ice_candidates_sound (array xs) w h =
    let (ys, e, h₁) = >>=-eq-ok (each validate_ice_candidate xs) _ h in
    let valid =
      each_sound validate_ice_candidate (IsObject IsCandidate)
        (λ x y v. (validate-Passed x y v).is_candidate) xs ys e in
    (
      ap array (each-same xs ys e) ∙ ok-injective h₁,
      subst (IsArray (AllItems (IsObject IsCandidate))) (ok-injective h₁) valid,
    )
ice_candidates_sound _ w h = absurd (ground arith)
