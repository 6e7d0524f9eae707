-- ===== src/ScalabilityMode/Layers.antt =====
-- What src/scalabilityMode.cpp answers.
use libmediasoupclient.Prelude.{
  some-injective, ℕ, ◌+◌, ◌-◌, ◌*◌, ◌/◌, ◌%◌, ◌≤◌, String, Bool, true, false, ◌&&◌, ◌||◌, List, [],
  ◌∷◌, ◌++◌, Option, none, some, ◌≡◌, ◌⊎◌, inl, inr, leb, ltb, eqb, if◌then◌else◌, refl, arith, ap,
  subst, Option-cases, Bool-cases,
}
use libmediasoupclient.Json.{pos, integer, unsigned}
use libmediasoupclient.Ortc.MimeType.{codes}
use libmediasoupclient.ScalabilityMode.{
  is_digit, second_digit, layers, all_dots, match_temporal, match_spatial, match_mode, mode,
  parse_scalability_mode,
}

-- A number of layers.
abbrev pub IsCount : ℕ → Type 0
IsCount n = (1 ≤ n) × (n ≤ 99)

second_digit-IsCount : (n : ℕ) (cs : List ℕ) → 1 ≤ n → n ≤ 9 → IsCount (second_digit n cs).0
second_digit-IsCount n [] low high = (low, omega (arith, high))
second_digit-IsCount n (c ∷ cs) low high = elim (Bool-cases (is_digit c)) [
  | inl digit ↦ rw digit (ground (arith, digit, low, high), ground (arith, digit, low, high))
  | inr other ↦ rw other (low, omega (arith, high))
]

layers-IsCount : (cs : List ℕ) (n : ℕ) (rest : List ℕ) → layers cs ≡ some (n, rest) → IsCount n
layers-IsCount [] n rest h = absurd (ground (arith, h))
layers-IsCount (c ∷ cs) n rest h = elim (Bool-cases (leb b'1' c && leb c b'9')) [
  | inl digit ↦
      let same : second_digit (c - b'0') cs ≡ (n, rest) = some-injective (rw digit at h) in
      subst IsCount (ap (λ (x : ℕ × List ℕ). x.0) same)
        (second_digit-IsCount (c - b'0') cs (ground (arith, digit)) (ground (arith, digit)))
  | inr other ↦ absurd (ground (arith, rw other at h))
]

match_temporal-IsCount :
    (a : ℕ) (l : Option (ℕ × List ℕ)) (x y : ℕ)
    → ((n : ℕ) (rest : List ℕ) → l ≡ some (n, rest) → IsCount n)
    → match_temporal a l ≡ some (x, y)
    → (a ≡ x) × IsCount y
match_temporal-IsCount a none x y counts h = absurd (ground (arith, h))
match_temporal-IsCount a (some (b, rest)) x y counts h = elim (Bool-cases (all_dots rest)) [
  | inl dots ↦
      let same : (a, b) ≡ (x, y) = some-injective (rw dots at h) in
      (
        ap (λ (z : ℕ × ℕ). z.0) same,
        subst IsCount (ap (λ (z : ℕ × ℕ). z.1) same) (counts b rest refl),
      )
  | inr other ↦ absurd (ground (arith, rw other at h))
]

match_spatial-IsCount :
    (l : Option (ℕ × List ℕ)) (x y : ℕ)
    → ((n : ℕ) (rest : List ℕ) → l ≡ some (n, rest) → IsCount n)
    → match_spatial l ≡ some (x, y)
    → IsCount x × IsCount y
match_spatial-IsCount none x y counts h = absurd (ground (arith, h))
match_spatial-IsCount (some (a, [])) x y counts h = absurd (ground (arith, h))
match_spatial-IsCount (some (a, c ∷ cs)) x y counts h = elim (Bool-cases (eqb c b'T')) [
  | inl t ↦
      let (same, count) =
        match_temporal-IsCount a (layers cs) x y (layers-IsCount cs) (rw t at h) in
      (subst IsCount same (counts a (c ∷ cs) refl), count)
  | inr other ↦ absurd (ground (arith, rw other at h))
]

match_mode-IsCount : (cs : List ℕ) (x y : ℕ) → match_mode cs ≡ some (x, y) → IsCount x × IsCount y
unfolding match_mode
match_mode-IsCount [] x y h = absurd (ground (arith, h))
match_mode-IsCount (c ∷ cs) x y h = elim (Bool-cases (eqb c b'L' || eqb c b'S')) [
  | inl letter ↦ match_spatial-IsCount (layers cs) x y (layers-IsCount cs) (rw letter at h)
  | inr other ↦ absurd (ground (arith, rw other at h))
]

-- Whatever the text, the answer has numbers of spatial and of temporal layers from 1 to 99; they are
-- the two numbers of the match if the text matches, and both are 1 if it does not.
pub parse-IsCount :
    (text : String)
    → (a b : ℕ) × IsCount a
      × IsCount b
      × (((match_mode (codes text) ≡ some (a, b))
            × (parse_scalability_mode text ≡ mode (unsigned a) (unsigned b)))
          ⊎ ((match_mode (codes text) ≡ none)
              × (a ≡ 1)
              × (b ≡ 1)
              × (parse_scalability_mode text ≡ mode (integer (pos a)) (integer (pos b)))))
unfolding parse_scalability_mode
parse-IsCount text = elim (Option-cases (match_mode (codes text))) [
  | inl no_match ↦ (
    1,
    1,
    (omega arith, omega arith),
    (omega arith, omega arith),
    inr (no_match, refl, refl, rw (no_match, parse_scalability_mode) refl),
  )
  | inr ((a, b), matched) ↦
      let (count_a, count_b) = match_mode-IsCount (codes text) a b matched in
      (a, b, count_a, count_b, inl (matched, rw (matched, parse_scalability_mode) refl))
]

-- A number below 100 in decimal digits.
abbrev pub number : ℕ → List ℕ
number n = if ltb n 10 then (b'0' + n) ∷ [] else (b'0' + n / 10) ∷ (b'0' + n % 10) ∷ []

abbrev pub begins_with_digit : List ℕ → Bool
begins_with_digit [] = false
begins_with_digit (c ∷ cs) = is_digit c

second_digit-none :
    (n : ℕ) (rest : List ℕ) → begins_with_digit rest ≡ false → second_digit n rest ≡ (n, rest)
second_digit-none n [] behind = refl
second_digit-none n (c ∷ cs) behind = rw behind refl

one_digit :
    (n : ℕ) (rest : List ℕ)
    → 1 ≤ n
    → ltb n 10 ≡ true
    → begins_with_digit rest ≡ false
    → layers ((b'0' + n) ∷ rest) ≡ some (n, rest)
one_digit n rest low short behind =
    let digit : (leb b'1' (b'0' + n) && leb (b'0' + n) b'9') ≡ true = ground (arith, low, short) in
    let value : b'0' + n - b'0' ≡ n = omega arith in
    rw (digit, value, second_digit-none n rest behind) refl

two_digits :
    (n : ℕ) (rest : List ℕ)
    → n ≤ 99
    → ltb n 10 ≡ false
    → layers ((b'0' + n / 10) ∷ (b'0' + n % 10) ∷ rest) ≡ some (n, rest)
two_digits n rest high long =
    let first : (leb b'1' (b'0' + n / 10) && leb (b'0' + n / 10) b'9') ≡ true =
      ground (arith, high, long) in
    let second : is_digit (b'0' + n % 10) ≡ true = ground arith in
    let value : (b'0' + n / 10 - b'0') * 10 + (b'0' + n % 10 - b'0') ≡ n = omega arith in
    rw (first, second, value) refl

layers-number :
    (n : ℕ) (rest : List ℕ)
    → IsCount n
    → begins_with_digit rest ≡ false
    → layers (number n ++ rest) ≡ some (n, rest)
layers-number n rest count behind = elim (Bool-cases (ltb n 10)) [
  | inl short ↦ rw (short, number) (one_digit n rest count.0 short behind)
  | inr long ↦ rw (long, number) (two_digits n rest count.1 long)
]

-- A text with an L or an S, a number of spatial layers from 1 to 99, a T, a number of temporal layers
-- from 1 to 99, and something without line terminators that does not begin with a digit, gives the two
-- numbers.
pub match_mode-number :
    (letter a b : ℕ) (rest : List ℕ)
    → (eqb letter b'L' || eqb letter b'S') ≡ true
    → IsCount a
    → IsCount b
    → begins_with_digit rest ≡ false
    → all_dots rest ≡ true
    → match_mode (letter ∷ (number a ++ (b'T' ∷ (number b ++ rest)))) ≡ some (a, b)
unfolding match_mode
match_mode-number letter a b rest is_letter count_a count_b behind dots =
    rw
      (
        is_letter,
        layers-number a (b'T' ∷ (number b ++ rest)) count_a refl,
        layers-number b rest count_b behind,
        dots,
      )
      refl
