-- ===== src/ScalabilityMode.antt =====
-- src/scalabilityMode.cpp: the numbers of layers that a scalability mode such as "L3T2" names.
pub mod Layers
mod Tests
use libmediasoupclient.Prelude.{
  ℕ, ◌+◌, ◌-◌, ◌*◌, String, Bool, true, false, not, ◌&&◌, ◌||◌, List, [], ◌∷◌, Option, none, some,
  leb, eqb, if◌then◌else◌,
}
use libmediasoupclient.Json.{Json, pos, integer, unsigned, object}
use libmediasoupclient.Ortc.MimeType.{codes}
use libmediasoupclient.Ortc.Objects.{build}

-- `\d`
abbrev pub is_digit : ℕ → Bool
is_digit c = leb b'0' c && leb c b'9'

-- `\d{0,1}` behind a number.
abbrev pub second_digit : ℕ → List ℕ → ℕ × List ℕ
second_digit n [] = (n, [])
second_digit n (c ∷ cs) = if is_digit c then (n * 10 + (c - b'0'), cs) else (n, c ∷ cs)

-- `([1-9]\d{0,1})`, with the text behind it.
abbrev pub layers : List ℕ → Option (ℕ × List ℕ)
layers [] = none
layers (c ∷ cs) = if leb b'1' c && leb c b'9' then some (second_digit (c - b'0') cs) else none

-- `.*` up to the end: `.` matches all but the line terminators.
abbrev pub all_dots : List ℕ → Bool
all_dots [] = true
all_dots (c ∷ cs) = not (eqb c 10 || eqb c 13) && all_dots cs

abbrev pub match_temporal : ℕ → Option (ℕ × List ℕ) → Option (ℕ × ℕ)
match_temporal spatial none = none
match_temporal spatial (some (temporal, rest)) =
    if all_dots rest then some (spatial, temporal) else none

abbrev pub match_spatial : Option (ℕ × List ℕ) → Option (ℕ × ℕ)
match_spatial none = none
match_spatial (some (spatial, [])) = none
match_spatial (some (spatial, c ∷ cs)) =
    if eqb c b'T' then match_temporal spatial (layers cs) else none

-- The two numbers of ScalabilityModeRegex, if the whole text matches it.
unfoldable pub match_mode : List ℕ → Option (ℕ × ℕ)
match_mode [] = none
match_mode (c ∷ cs) = if eqb c b'L' || eqb c b'S' then match_spatial (layers cs) else none

abbrev pub mode : Json → Json → Json
mode spatial temporal =
    object (build (("spatialLayers", spatial) ∷ ("temporalLayers", temporal) ∷ []))

unfoldable pub parse_scalability_mode : String → Json
parse_scalability_mode scalability_mode = elim (match_mode (codes scalability_mode)) [
  | none ↦ mode (integer (pos 1)) (integer (pos 1))
  | some (spatial, temporal) ↦ mode (unsigned spatial) (unsigned temporal)
]
