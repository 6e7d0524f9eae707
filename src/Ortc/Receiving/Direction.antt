-- ===== src/Ortc/Receiving/Direction.antt =====
-- The directions of the header extensions, from getExtendedRtpCapabilities to
-- getRecvRtpCapabilities of src/ortc.cpp.
use libmediasoupclient.Prelude.{String, true, false, none, ◌≡◌, ◌==◌, refl, arith}
use libmediasoupclient.Prelude.Result.{ok, err, undefined, ok-injective}
use libmediasoupclient.Json.{is_object, Json, object, Items, cons, lookup}
use libmediasoupclient.Json.Access.{lookup-insert}
use libmediasoupclient.Ortc.Objects.{at, string_at, find}
use libmediasoupclient.Ortc.Extended.{extended_extension, flip_direction}
use libmediasoupclient.Ortc.Receiving.{receiving_extensions}

string_at-missing :
    (k : String) (j : Json) → is_object j ≡ true → find k j ≡ none → string_at k j ≡ err undefined
string_at-missing k (object fs) _ h = rw (h, at) refl
string_at-missing k _ h _ = absurd (ground arith)

-- None of the four directions.
abbrev pub IsUnknown : String → Type 0
IsUnknown direction =
    ((direction == "sendrecv") ≡ false)
    × ((direction == "recvonly") ≡ false)
    × ((direction == "sendonly") ≡ false)
    × ((direction == "inactive") ≡ false)

flip_direction-unknown :
    (direction : String) → IsUnknown direction → flip_direction direction ≡ none
unfolding flip_direction
flip_direction-unknown direction (both, recv, send, inactive) =
    rw (both, recv, send, inactive, flip_direction) refl

-- A remote header extension with a direction other than the four known ones gives an extended
-- extension without a direction, and generating the receiving capabilities then reads a key that is
-- missing.
pub unknown_direction_undefined :
    (local remote x : Json) (rest : Items) (direction : String)
    → string_at "direction" remote ≡ ok direction
    → IsUnknown direction
    → extended_extension local remote ≡ ok x
    → (find "direction" x ≡ none) × (receiving_extensions (cons x rest) ≡ err undefined)
unfolding extended_extension receiving_extensions lookup
unknown_direction_undefined local remote x rest direction d u h =
    let same = ok-injective (rw (d, flip_direction-unknown direction u) at h) in
    let missing : find "direction" x ≡ none = rw (← same) (simp lookup-insert) in
    let no_direction = string_at-missing "direction" x (rw (← same) refl) missing in
    (missing, rw no_direction refl)
