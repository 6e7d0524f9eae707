-- ===== src/Ortc/Dtls.antt =====
-- src/ortc.cpp: validateDtlsParameters and validateDtlsFingerprint.
mod Tests
pub mod WellFormed
use libmediasoupclient.Prelude.{String, Bool, true, false, ◌||◌}
use libmediasoupclient.Prelude.Result.{Result, ok, err, type_error, check, ◌>>=◌, ◌>>◌}
use libmediasoupclient.Json.{Json, array, object, cons, lookup, insert}
use libmediasoupclient.Ortc.Checks.{holds, is_nonempty_string, get_string, items_of, each}
use libmediasoupclient.Ortc.MimeType.{matches_lower}

-- validateDtlsFingerprint
unfoldable pub validate_dtls_fingerprint : Json → Result Json
validate_dtls_fingerprint (object params) = do
  check (holds is_nonempty_string (lookup "algorithm" params)) "missing params.algorithm"
  check (holds is_nonempty_string (lookup "value" params)) "missing params.value"
  ok (object params)
validate_dtls_fingerprint _ = err (type_error "params is not an object")

-- The regular expression "(auto|client|server)", case-insensitive.
unfoldable pub is_role : String → Bool
is_role s = matches_lower s "auto" || matches_lower s "client" || matches_lower s "server"

-- `is_array() && !empty()`
abbrev pub is_nonempty_array : Json → Bool
is_nonempty_array (array (cons x xs)) = true
is_nonempty_array _ = false

-- validateDtlsParameters
unfoldable pub validate_dtls_parameters : Json → Result Json
validate_dtls_parameters (object params) = do
  check (holds is_nonempty_string (lookup "role" params)) "missing params.role"
  role ← get_string (lookup "role" params)
  check (is_role role) "invalid params.role"
  check (holds is_nonempty_array (lookup "fingerprints" params)) "missing params.fingerprints"
  fingerprints ← each validate_dtls_fingerprint (items_of (lookup "fingerprints" params))
  ok (object (insert "fingerprints" (array fingerprints) params))
validate_dtls_parameters _ = err (type_error "params is not an object")
