-- ===== src/Session/Producing/Layers.antt =====
-- Which encodings SetMaxSpatialLayer of src/Handler.cpp leaves active.
use libmediasoupclient.Prelude.{
  ℕ, zero, suc, ◌≤◌, false, ◌&&◌, List, [], ◌∷◌, ◌≡◌, refl, arith, ltb, leb, if◌then◌else◌,
}
use libmediasoupclient.Session.Producing.{Encoding, edit_encodings}

module _ {ℓ} {A : Type ℓ} where
  -- Of the three lowest encodings, those below the layer, and the others as they were.
  abbrev pub select_from : ℕ → ℕ → List (Encoding A) → List (Encoding A)
  select_from layer i [] = []
  select_from layer i (e ∷ es) =
      record { active = if ltb i 3 then ltb i layer else e.active; rest = e.rest }
      ∷ select_from layer (suc i) es

  select-high : (layer i : ℕ) (es : List (Encoding A)) → 3 ≤ i → select_from layer i es ≡ es
  select-high layer i [] high = refl
  select-high layer i (e ∷ es) high =
      let not_low : ltb i 3 ≡ false = ground (arith, high) in
      let later = select-high layer (suc i) es (omega (arith, high)) in rw (not_low, later) refl

  -- For a layer from 1 to 3 exactly the encodings below it are active afterwards among the first
  -- three, and nothing else of the encodings changes; any other layer changes nothing.
  pub edit_encodings-select :
      (layer : ℕ) (es : List (Encoding A))
      → edit_encodings layer es
        ≡ (if leb 1 layer && leb layer 3 then select_from layer 0 es else es)
  unfolding edit_encodings
  edit_encodings-select zero es = refl
  edit_encodings-select (suc zero) [] = refl
  edit_encodings-select (suc zero) (a ∷ []) = refl
  edit_encodings-select (suc zero) (a ∷ b ∷ []) = refl
  edit_encodings-select (suc zero) (a ∷ b ∷ c ∷ es) = rw (select-high 1 3 es (omega arith)) refl
  edit_encodings-select (suc (suc zero)) [] = refl
  edit_encodings-select (suc (suc zero)) (a ∷ []) = refl
  edit_encodings-select (suc (suc zero)) (a ∷ b ∷ []) = refl
  edit_encodings-select (suc (suc zero)) (a ∷ b ∷ c ∷ es) =
      rw (select-high 2 3 es (omega arith)) refl
  edit_encodings-select (suc (suc (suc zero))) [] = refl
  edit_encodings-select (suc (suc (suc zero))) (a ∷ []) = refl
  edit_encodings-select (suc (suc (suc zero))) (a ∷ b ∷ []) = refl
  edit_encodings-select (suc (suc (suc zero))) (a ∷ b ∷ c ∷ es) =
      rw (select-high 3 3 es (omega arith)) refl
  edit_encodings-select (suc (suc (suc (suc n)))) es = ground arith
