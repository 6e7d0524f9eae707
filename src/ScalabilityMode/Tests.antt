-- ===== src/ScalabilityMode/Tests.antt =====
-- The scalability modes "L3T2" and "S10T3_KEY" of src/scalabilityMode.cpp.
use libmediasoupclient.Prelude.{ℕ, ◌≡◌, ◌⊎◌, ◌++◌, ◌∷◌, some, none, refl, arith}
use libmediasoupclient.Json.{pos, integer, unsigned}
use libmediasoupclient.Ortc.MimeType.{codes}
use libmediasoupclient.ScalabilityMode.{match_mode, mode, parse_scalability_mode}
use libmediasoupclient.ScalabilityMode.Layers.{IsCount, number, parse-IsCount, match_mode-number}

runs :
    (parse_scalability_mode "L3T2" ≡ mode (unsigned 3) (unsigned 2))
    × (parse_scalability_mode "S10T3_KEY" ≡ mode (unsigned 10) (unsigned 3))
    × (parse_scalability_mode "L0T1" ≡ mode (integer (pos 1)) (integer (pos 1)))
    × (parse_scalability_mode "" ≡ mode (integer (pos 1)) (integer (pos 1)))
unfolding parse_scalability_mode match_mode
runs = (refl, refl, refl, refl)

parse-IsCount_example :
    (a b : ℕ) × IsCount a
    × IsCount b
    × (((match_mode (codes "L3T2") ≡ some (a, b))
          × (parse_scalability_mode "L3T2" ≡ mode (unsigned a) (unsigned b)))
        ⊎ ((match_mode (codes "L3T2") ≡ none)
            × (a ≡ 1)
            × (b ≡ 1)
            × (parse_scalability_mode "L3T2" ≡ mode (integer (pos a)) (integer (pos b)))))
parse-IsCount_example = parse-IsCount "L3T2"

match_mode-number_example :
    match_mode (b'S' ∷ (number 10 ++ (b'T' ∷ (number 3 ++ codes "_KEY")))) ≡ some (10, 3)
match_mode-number_example =
    match_mode-number b'S' 10 3 (codes "_KEY") refl (omega arith, omega arith)
      (omega arith, omega arith) refl refl
