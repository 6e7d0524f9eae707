-- ===== src/Ortc/Dtls/Tests.antt =====
-- A run of validateDtlsParameters of src/ortc.cpp.
use libmediasoupclient.Prelude.{[], ◌∷◌, ◌≡◌, refl}
use libmediasoupclient.Prelude.Result.{ok}
use libmediasoupclient.Json.{Json, string, array, object, nil, cons, lookup, insert}
use libmediasoupclient.Ortc.MimeType.{matches_lower}
use libmediasoupclient.Ortc.Checks.{IsObject, each}
use libmediasoupclient.Ortc.Objects.{build}
use libmediasoupclient.Ortc.Dtls.{is_role, validate_dtls_fingerprint, validate_dtls_parameters}
use libmediasoupclient.Ortc.Dtls.WellFormed.{IsDtlsParameters, validate-IsDtlsParameters}

abbrev params : Json
params = object (
    build (
      ("role", string "Auto")
      ∷ (
        "fingerprints",
        array (
            cons (object (build (("algorithm", string "sha-1") ∷ ("value", string "5E:3A") ∷ [])))
              nil),
      )
      ∷ []))

run : validate_dtls_parameters params ≡ ok params
unfolding is_role validate_dtls_fingerprint validate_dtls_parameters each matches_lower lookup
    insert
run = refl

validate-IsDtlsParameters_example : IsObject IsDtlsParameters params
validate-IsDtlsParameters_example = validate-IsDtlsParameters params params run
