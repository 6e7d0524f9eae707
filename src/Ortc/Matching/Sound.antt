-- ===== src/Ortc/Matching/Sound.antt =====
-- What a match of two codecs by matchCodecs of src/ortc.cpp says of them.
use libmediasoupclient.Prelude.{
  String, Bool, true, false, not, Option, none, some, map, ◌≡◌, ◌==◌, eqb, arith, subst, inl, inr,
  Bool-cases, Option-cases, some-injective, if◌then◌else◌,
}
use libmediasoupclient.Prelude.Result.{ok, >>=-eq-ok, ok-injective}
use libmediasoupclient.Json.{Json, string, object, Fields, lookup, insert, remove}
use libmediasoupclient.Json.Access.{lookup-insert, lookup-remove}
use libmediasoupclient.Json.Number.{json_eq}
use libmediasoupclient.Ortc.Checks.{get_string, fields_of}
use libmediasoupclient.Ortc.MimeType.{codes, to_lower, same_codes, matches_lower}
use libmediasoupclient.Ortc.Objects.{at}
use libmediasoupclient.Ortc.Matching.{
  H264, or_null, get_h264_flag, h264_parameters, get_vp9_profile_id, set_profile_level_id,
  match_h264, match_vp9, same_channels, match_codecs,
}

-- Neither has channels, or they have as many.
pub data SameChannels (a b : Fields) : Type 0 where
  neither : lookup "channels" a ≡ none → lookup "channels" b ≡ none → SameChannels a b
  both :
      (x y : Json)
      → lookup "channels" a ≡ some x
      → lookup "channels" b ≡ some y
      → json_eq x y ≡ true
      → SameChannels a b

-- Two codecs of one mime type, ignoring case, with the same clock rate and the same channels.
pub record SameMedia (a b : Fields) : Type 0 where
  pub a_mime_type : String
  pub b_mime_type : String
  pub clock_rate : Json
  pub has_a : get_string (lookup "mimeType" a) ≡ ok a_mime_type
  pub has_b : get_string (lookup "mimeType" b) ≡ ok b_mime_type
  pub same_mime_type :
      same_codes (map to_lower (codes a_mime_type)) (map to_lower (codes b_mime_type)) ≡ true
  pub has_clock_rate : at "clockRate" (object b) ≡ ok clock_rate
  pub same_clock_rate : json_eq (or_null (lookup "clockRate" a)) clock_rate ≡ true
  pub channels : SameChannels a b

-- The codec, or the codec with other parameters, which differ at most in "profile-level-id".
pub data SameButProfile (a : Fields) : Fields → Type 0 where
  unchanged : SameButProfile a a
  profiled :
      (parameters : Fields)
      → ((k : String)
          → ("profile-level-id" == k) ≡ false
          → lookup k parameters ≡ lookup k (fields_of (lookup "parameters" a)))
      → SameButProfile a (insert "parameters" (object parameters) a)

set_profile_level_id-SameButProfile :
    (answer : Option String) (a : Fields) → SameButProfile a (set_profile_level_id answer a)
set_profile_level_id-SameButProfile none a =
    profiled (remove "profile-level-id" (fields_of (lookup "parameters" a)))
      (λ k other. simp (lookup-remove, other))
set_profile_level_id-SameButProfile (some id) a =
    profiled (insert "profile-level-id" (string id) (fields_of (lookup "parameters" a)))
      (λ k other. simp (lookup-insert, other))

module _ (h264 : H264) (strict modify : Bool) (a b : Fields) where
  same_channels-SameChannels : same_channels h264 strict modify a b ≡ true → SameChannels a b
  same_channels-SameChannels h = elim (Option-cases (lookup "channels" a)) [
    | inl no_a ↦ elim (Option-cases (lookup "channels" b)) [
      | inl no_b ↦ neither no_a no_b
      | inr (y, has_b) ↦ absurd (ground (arith, rw (no_a, has_b) at h))
    ]
    | inr (x, has_a) ↦ elim (Option-cases (lookup "channels" b)) [
      | inl no_b ↦ absurd (ground (arith, rw (has_a, no_b) at h))
      | inr (y, has_b) ↦ both x y has_a has_b (ground (arith, rw (has_a, has_b) at h))
    ]
  ]

  written :
      (answer : Option String) (a' : Fields)
      → (if modify then set_profile_level_id answer a else a) ≡ a'
      → SameButProfile a a'
  written answer a' h = elim (Bool-cases modify) [
    | inl yes_modify ↦
        subst (SameButProfile a) (rw yes_modify at h) (set_profile_level_id-SameButProfile answer a)
    | inr no_modify ↦ subst (SameButProfile a) (rw no_modify at h) unchanged
  ]

  match_h264-SameButProfile :
      (a' : Fields) → match_h264 h264 strict modify a b ≡ ok (some a') → SameButProfile a a'
  unfolding match_h264
  match_h264-SameButProfile a' h =
      let (ma, _, h₁) = >>=-eq-ok (get_h264_flag "packetization-mode" (object a)) _ h in
      let (mb, _, h₂) = >>=-eq-ok (get_h264_flag "packetization-mode" (object b)) _ h₁ in
      elim (Bool-cases (not (eqb ma mb))) [
        | inl differ ↦ absurd (cc (rw differ at h₂))
        | inr modes ↦ elim (Bool-cases (not strict)) [
          | inl lax ↦
              subst (SameButProfile a) (some-injective (ok-injective (rw (modes, lax) at h₂)))
                unchanged
          | inr is_strict ↦
              let (pa, _, h₃) = >>=-eq-ok (h264_parameters a) _ (rw (modes, is_strict) at h₂) in
              let (pb, _, h₄) = >>=-eq-ok (h264_parameters b) _ h₃ in
              elim (Bool-cases (not (h264.is_same_profile pa pb))) [
                | inl other ↦ absurd (cc (rw other at h₄))
                | inr profile ↦ elim (Option-cases (h264.generate_profile_level_id pa pb)) [
                  | inl thrown ↦ absurd (cc (rw (profile, thrown) at h₄))
                  | inr (answer, generated) ↦
                      written answer a'
                        (some-injective (ok-injective (rw (profile, generated) at h₄)))
                ]
              ]
        ]
      ]

  match_vp9-SameButProfile :
      (a' : Fields) → match_vp9 h264 strict modify a b ≡ ok (some a') → SameButProfile a a'
  unfolding match_vp9
  match_vp9-SameButProfile a' h = elim (Bool-cases (not strict)) [
    | inl lax ↦ subst (SameButProfile a) (some-injective (ok-injective (rw lax at h))) unchanged
    | inr is_strict ↦
        let (pa, _, h₁) = >>=-eq-ok (get_vp9_profile_id (object a)) _ (rw is_strict at h) in
        let (pb, _, h₂) = >>=-eq-ok (get_vp9_profile_id (object b)) _ h₁ in
        elim (Bool-cases (pa == pb)) [
          | inl same ↦
              subst (SameButProfile a) (some-injective (ok-injective (rw same at h₂))) unchanged
          | inr other ↦ absurd (cc (rw other at h₂))
        ]
  ]

  by_codec :
      (mime_type : String) (a' : Fields)
      → (if matches_lower mime_type "video/h264"
          then match_h264 h264 strict modify a b
          else if matches_lower mime_type "video/vp9"
          then match_vp9 h264 strict modify a b
          else ok (some a))
        ≡ ok (some a')
      → SameButProfile a a'
  by_codec mime_type a' h = elim (Bool-cases (matches_lower mime_type "video/h264")) [
    | inl is_h264 ↦ match_h264-SameButProfile a' (rw is_h264 at h)
    | inr no_h264 ↦ elim (Bool-cases (matches_lower mime_type "video/vp9")) [
      | inl is_vp9 ↦ match_vp9-SameButProfile a' (rw (no_h264, is_vp9) at h)
      | inr no_vp9 ↦
          subst (SameButProfile a) (some-injective (ok-injective (rw (no_h264, no_vp9) at h)))
            unchanged
    ]
  ]

  -- A match is of the same media, and changes at most the profile level of the first codec.
  pub match_codecs-SameMedia :
      (a' : Fields)
      → match_codecs h264 strict modify a b ≡ ok (some a')
      → SameMedia a b × SameButProfile a a'
  unfolding match_codecs
  match_codecs-SameMedia a' h =
      let (ma, ea, h₁) = >>=-eq-ok (get_string (lookup "mimeType" a)) _ h in
      let (mb, eb, h₂) = >>=-eq-ok (get_string (lookup "mimeType" b)) _ h₁ in
      elim (Bool-cases (same_codes (map to_lower (codes ma)) (map to_lower (codes mb)))) [
        | inr other ↦ absurd (cc (rw other at h₂))
        | inl same ↦
            let (rate, er, h₃) = >>=-eq-ok (at "clockRate" (object b)) _ (rw same at h₂) in
            elim (Bool-cases (json_eq (or_null (lookup "clockRate" a)) rate)) [
              | inr differ ↦ absurd (cc (rw differ at h₃))
              | inl equal ↦ elim (Bool-cases (same_channels h264 strict modify a b)) [
                | inr more ↦ absurd (cc (rw (equal, more) at h₃))
                | inl channels ↦ (
                  record {
                    a_mime_type = ma;
                    b_mime_type = mb;
                    clock_rate = rate;
                    has_a = ea;
                    has_b = eb;
                    same_mime_type = same;
                    has_clock_rate = er;
                    same_clock_rate = equal;
                    channels = same_channels-SameChannels channels;
                  },
                  by_codec ma a' (rw (equal, channels) at h₃),
                )
              ]
            ]
      ]
