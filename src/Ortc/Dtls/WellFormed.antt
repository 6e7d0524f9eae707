-- ===== src/Ortc/Dtls/WellFormed.antt =====
-- What validateDtlsParameters of src/ortc.cpp establishes.
use libmediasoupclient.Prelude.{String, true, ◌≡◌, refl, arith, subst, some, Option}
use libmediasoupclient.Prelude.Result.{Result, ok, >>=-eq-ok, check-eq-ok, ok-injective}
use libmediasoupclient.Json.{Json, array, object, Items, nil, cons, Fields, lookup}
use libmediasoupclient.Json.Access.{lookup-insert}
use libmediasoupclient.Ortc.Checks.{
  holds, is_nonempty_string, get_string, items_of, IsObject, AllItems, each, each_sound,
}
use libmediasoupclient.Ortc.Dtls.{
  is_role, is_nonempty_array, validate_dtls_fingerprint, validate_dtls_parameters,
}

pub record IsFingerprint (fp : Fields) : Type 0 where
  pub algorithm : holds is_nonempty_string (lookup "algorithm" fp) ≡ true
  pub value : holds is_nonempty_string (lookup "value" fp) ≡ true

validate-IsFingerprint :
    (j w : Json) → validate_dtls_fingerprint j ≡ ok w → IsObject IsFingerprint w
unfolding validate_dtls_fingerprint
validate-IsFingerprint (object fp) w h =
    let (algorithm, h₁) = check-eq-ok (holds is_nonempty_string (lookup "algorithm" fp)) _ _ h in
    let (value, h₂) = check-eq-ok (holds is_nonempty_string (lookup "value" fp)) _ _ h₁ in
    subst (IsObject IsFingerprint) (ok-injective h₂)
      (record { algorithm = algorithm; value = value })
validate-IsFingerprint _ w h = absurd (ground arith)

-- A known role, and at least one fingerprint, all of them well formed.
pub record IsDtlsParameters (p : Fields) : Type 0 where
  pub role : String
  pub fingerprints : Items
  pub has_role : get_string (lookup "role" p) ≡ ok role
  pub known_role : is_role role ≡ true
  pub has_fingerprints : lookup "fingerprints" p ≡ some (array fingerprints)
  pub nonempty : is_nonempty_array (array fingerprints) ≡ true
  pub valid_fingerprints : AllItems (IsObject IsFingerprint) fingerprints

each-nonempty :
    (f : Json → Result Json) (xs ys : Items)
    → is_nonempty_array (array xs) ≡ true
    → each f xs ≡ ok ys
    → is_nonempty_array (array ys) ≡ true
unfolding each
each-nonempty f nil ys n h = absurd (ground arith)
each-nonempty f (cons x xs) ys n h =
    let (y, _, h₁) = >>=-eq-ok (f x) _ h in
    let (rest, _, h₂) = >>=-eq-ok (each f xs) _ h₁ in rw (← ok-injective h₂) refl

items_of-nonempty :
    (o : Option Json)
    → holds is_nonempty_array o ≡ true
    → is_nonempty_array (array (items_of o)) ≡ true
items_of-nonempty (some (array xs)) h = h
items_of-nonempty _ h = absurd (ground arith)

-- What validateDtlsParameters leaves has a known role, ignoring case, and at least one fingerprint,
-- and each fingerprint has an algorithm and a value that are not empty.
pub validate-IsDtlsParameters :
    (j w : Json) → validate_dtls_parameters j ≡ ok w → IsObject IsDtlsParameters w
unfolding validate_dtls_parameters
validate-IsDtlsParameters (object p) w h =
    let (_, h₁) = check-eq-ok (holds is_nonempty_string (lookup "role" p)) _ _ h in
    let (role, r, h₂) = >>=-eq-ok (get_string (lookup "role" p)) _ h₁ in
    let (known, h₃) = check-eq-ok (is_role role) _ _ h₂ in
    let (there, h₄) = check-eq-ok (holds is_nonempty_array (lookup "fingerprints" p)) _ _ h₃ in
    let given = items_of (lookup "fingerprints" p) in
    let (fingerprints, f, h₅) = >>=-eq-ok (each validate_dtls_fingerprint given) _ h₄ in
    subst (IsObject IsDtlsParameters) (ok-injective h₅) (record {
      role = role;
      fingerprints = fingerprints;
      has_role = rw lookup-insert r;
      known_role = known;
      has_fingerprints = simp lookup-insert;
      nonempty =
          each-nonempty validate_dtls_fingerprint given fingerprints
            (items_of-nonempty (lookup "fingerprints" p) there) f;
      valid_fingerprints =
          each_sound validate_dtls_fingerprint (IsObject IsFingerprint) validate-IsFingerprint given
            fingerprints f;
    })
validate-IsDtlsParameters _ w h = absurd (ground arith)
