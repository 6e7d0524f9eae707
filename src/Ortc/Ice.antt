-- ===== src/Ortc/Ice.antt =====
-- src/ortc.cpp: validateIceParameters, validateIceCandidate, validateIceCandidates.
pub mod Parameters
mod Tests
pub mod WellFormed
use libmediasoupclient.Prelude.{String, Bool, false, ◌||◌}
use libmediasoupclient.Prelude.Result.{Result, ok, err, type_error, check, ◌>>=◌, ◌>>◌}
use libmediasoupclient.Json.{Json, boolean, array, object, is_boolean, is_number_unsigned, lookup}
use libmediasoupclient.Ortc.Checks.{holds, is_nonempty_string, get_string, put_unless, each}
use libmediasoupclient.Ortc.MimeType.{matches_lower}

-- validateIceParameters
unfoldable pub validate_ice_parameters : Json → Result Json
validate_ice_parameters (object params) = do
  check (holds is_nonempty_string (lookup "usernameFragment" params))
      "missing params.usernameFragment"
  check (holds is_nonempty_string (lookup "password" params)) "missing params.password"
  ok (
      object
        (put_unless (holds is_boolean (lookup "iceLite" params)) "iceLite" (boolean false) params))
validate_ice_parameters _ = err (type_error "params is not an object")

-- The regular expressions "(udp|tcp)" and "(host|srflx|prflx|relay)", case-insensitive.
unfoldable pub is_protocol : String → Bool
is_protocol s = matches_lower s "udp" || matches_lower s "tcp"

unfoldable pub is_candidate_type : String → Bool
is_candidate_type s =
    matches_lower s "host"
    || matches_lower s "srflx"
    || matches_lower s "prflx"
    || matches_lower s "relay"

-- validateIceCandidate
unfoldable pub validate_ice_candidate : Json → Result Json
validate_ice_candidate (object params) = do
  check (holds is_nonempty_string (lookup "foundation" params)) "missing params.foundation"
  check (holds is_number_unsigned (lookup "priority" params)) "missing params.priority"
  check (holds is_nonempty_string (lookup "ip" params)) "missing params.ip"
  check (holds is_nonempty_string (lookup "protocol" params)) "missing params.protocol"
  protocol ← get_string (lookup "protocol" params)
  check (is_protocol protocol) "invalid params.protocol"
  check (holds is_number_unsigned (lookup "port" params)) "missing params.port"
  check (holds is_nonempty_string (lookup "type" params)) "missing params.type"
  type ← get_string (lookup "type" params)
  check (is_candidate_type type) "invalid params.type"
  ok (object params)
validate_ice_candidate _ = err (type_error "params is not an object")

-- validateIceCandidates
unfoldable pub validate_ice_candidates : Json → Result Json
validate_ice_candidates (array candidates) = do
  valid ← each validate_ice_candidate candidates
  ok (array valid)
validate_ice_candidates _ = err (type_error "params is not an array")
