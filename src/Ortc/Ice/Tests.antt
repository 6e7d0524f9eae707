-- ===== src/Ortc/Ice/Tests.antt =====
-- A run of validateIceCandidates of src/ortc.cpp.
use libmediasoupclient.Prelude.{[], ◌∷◌, ◌≡◌, refl}
use libmediasoupclient.Prelude.Result.{ok}
use libmediasoupclient.Json.{Json, string, unsigned, array, object, nil, cons, lookup, insert}
use libmediasoupclient.Ortc.MimeType.{matches_lower}
use libmediasoupclient.Ortc.Checks.{IsObject, IsArray, AllItems, each}
use libmediasoupclient.Ortc.Objects.{build}
use libmediasoupclient.Ortc.Ice.{
  is_protocol, is_candidate_type, validate_ice_candidate, validate_ice_candidates,
}
use libmediasoupclient.Ortc.Ice.WellFormed.{IsCandidate, ice_candidates_sound}

abbrev candidates : Json
candidates = array (
    cons
      (object (
        build (
          ("foundation", string "udpcandidate")
          ∷ ("priority", unsigned 1078862079)
          ∷ ("ip", string "10.0.0.1")
          ∷ ("protocol", string "UDP")
          ∷ ("port", unsigned 43022)
          ∷ ("type", string "host")
          ∷ [])))
      nil)

run : validate_ice_candidates candidates ≡ ok candidates
unfolding is_protocol is_candidate_type validate_ice_candidate validate_ice_candidates each
    matches_lower lookup insert
run = refl

ice_candidates_sound_example :
    (candidates ≡ candidates) × IsArray (AllItems (IsObject IsCandidate)) candidates
ice_candidates_sound_example = ice_candidates_sound candidates candidates run
