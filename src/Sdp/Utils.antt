-- ===== src/Sdp/Utils.antt =====
-- src/sdp/Utils.cpp: extractDtlsParameters, getCname and getRtpEncodings, with split of
-- include/Utils.hpp.
pub mod Encodings
pub mod Lines
mod Tests
use Prim.Native.Char.{code}
use Prim.Native.String
use libmediasoupclient.Prelude.{
  ℕ, ◌%◌, ◌^◌, String, Bool, true, false, not, ◌&&◌, ◌||◌, List, [], ◌∷◌, Option, none, some, eqb,
  ◌==◌, if◌then◌else◌,
}
use libmediasoupclient.Prelude.Result.{Result, ok, err, json_error, undefined, plain_error, ◌>>=◌}
use libmediasoupclient.Json.{
  Json, null, integer, pos, unsigned, string, array, object, Items, nil, cons, Fields, lookup,
  insert, is_string,
}
use libmediasoupclient.Json.Number.{json_eq}
use libmediasoupclient.Ortc.Checks.{get_string, holds, items_of, present}
use libmediasoupclient.Ortc.Matching.{or_null}
use libmediasoupclient.Ortc.Objects.{at, string_at, items_at, find, build}
use libmediasoupclient.Sdp.Section.{get_uint32}

-- The first media with ICE parameters that is not closed, or null.
unfoldable pub dtls_media : Items → Result Json
dtls_media nil = ok null
dtls_media (cons media rest) = elim (find "iceUfrag" media) [
  | none ↦ dtls_media rest
  | some _ ↦ do
    port ← at "port" media
    elim (json_eq port (integer (pos 0))) [ true ↦ dtls_media rest | false ↦ ok media ]
]

abbrev pub first_of : Option Json → Option Json → Json
first_of (some a) b = a
first_of none b = or_null b

abbrev pub role_of : String → String
role_of setup =
    if setup == "active"
    then "client"
    else if setup == "passive"
    then "server"
    else if setup == "actpass"
    then "auto"
    else ""

unfoldable pub setup_role : Option Json → Result String
setup_role none = ok ""
setup_role (some setup) = do text ← get_string (some setup); ok (role_of text)

-- A key of a value that is not constant: null stands for a value that is missing.
abbrev pub part : String → Json → Result Json
part key null = ok null
part key (object fs) = ok (or_null (lookup key fs))
part key _ = err json_error

-- extractDtlsParameters
unfoldable pub extract_dtls_parameters : Json → Result Json
extract_dtls_parameters sdp = do
  media ← items_at "media" sdp
  m ← dtls_media media
  let fingerprint = first_of (find "fingerprint" m) (find "fingerprint" sdp)
  role ← setup_role (find "setup" m)
  algorithm ← part "type" fingerprint
  value ← part "hash" fingerprint
  ok (
      object (
        build (
          ("role", string role)
          ∷ (
            "fingerprints",
            array (cons (object (build (("algorithm", algorithm) ∷ ("value", value) ∷ []))) nil),
          )
          ∷ [])))

-- The first line that has a text as its attribute.
abbrev pub attribute_line : Items → Option Json
attribute_line nil = none
attribute_line (cons line rest) =
    let later = attribute_line rest in
    if holds is_string (find "attribute" line) then some line else later

-- getCname
unfoldable pub get_cname : Json → Result String
get_cname offer_media_object = elim (find "ssrc" offer_media_object) [
  | none ↦ ok ""
  | some ssrcs ↦ elim (attribute_line (items_of (some ssrcs))) [
    | none ↦ ok ""
    | some line ↦ string_at "value" line
  ]
]

-- The pieces of a text between spaces, with the piece so far; an empty piece at the end is left out.
unfoldable pub split_from : String → String → List String
split_from piece String.[] = if piece == "" then [] else piece ∷ []
split_from piece (String.◌∷◌ c rest) = elim (eqb (code c) 32) [
  | true ↦ piece ∷ split_from "" rest
  | false ↦ split_from (String.◌++◌ piece (String.◌∷◌ c "")) rest
]

unfoldable pub split : String → List String
unfolding split_from
split text = split_from "" text

-- `std::list<uint32_t>::unique` and `remove`.
abbrev pub unique_after : ℕ → List ℕ → List ℕ
unique_after last [] = []
unique_after last (x ∷ xs) = let rest = unique_after x xs in if eqb x last then rest else x ∷ rest

abbrev pub unique : List ℕ → List ℕ
unique [] = []
unique (x ∷ xs) = x ∷ unique_after x xs

abbrev pub remove_all : ℕ → List ℕ → List ℕ
remove_all v [] = []
remove_all v (x ∷ xs) = let rest = remove_all v xs in if eqb x v then rest else x ∷ rest

-- `std::map<uint32_t, uint32_t>`, the latest assignment first.
abbrev pub rtx_of : ℕ → List (ℕ × ℕ) → Option ℕ
rtx_of ssrc [] = none
rtx_of ssrc ((k, v) ∷ rest) = let older = rtx_of ssrc rest in if eqb k ssrc then some v else older

unfoldable pub line_ssrcs : Items → Result (List ℕ)
line_ssrcs nil = ok []
line_ssrcs (cons line rest) = do
  id ← at "id" line
  ssrc ← get_uint32 id
  later ← line_ssrcs rest
  ok (ssrc ∷ later)

-- The SSRCs that are left, and the RTX SSRC of an SSRC.
pub record Ssrcs : Type 0 where
  pub left : List ℕ
  pub rtx : List (ℕ × ℕ)

-- `v[0]` and `v[1]`; a read behind the end is undefined.
abbrev pub two_of : List String → Result (String × String)
two_of (a ∷ b ∷ rest) = ok (a, b)
two_of _ = err undefined

abbrev pub encoding_of : ℕ → Option ℕ → Json
encoding_of ssrc none = object (build (("ssrc", unsigned ssrc) ∷ []))
encoding_of ssrc (some rtx) =
    object
      (build (("ssrc", unsigned ssrc) ∷ ("rtx", object (build (("ssrc", unsigned rtx) ∷ []))) ∷ []))

abbrev pub encodings_of : List ℕ → List (ℕ × ℕ) → Items
encodings_of [] rtx = nil
encodings_of (ssrc ∷ rest) rtx = cons (encoding_of ssrc (rtx_of ssrc rtx)) (encodings_of rest rtx)

abbrev pub some_ssrcs : List ℕ → Result (List ℕ)
some_ssrcs [] = err (plain_error "no a=ssrc lines found")
some_ssrcs ssrcs = ok ssrcs

-- `stoull` is std::stoull.
module _ (stoull : String → Result ℕ) where
  unfoldable pub fid_line : Json → Ssrcs → Result Ssrcs
  fid_line line s = do
    fid ← string_at "ssrcs" line
    v ← two_of (split fid)
    ssrc ← stoull v.0
    rtx ← stoull v.1
    ok (record {
      left = remove_all (rtx % 2 ^ 32) s.left;
      rtx = (ssrc % 2 ^ 32, rtx % 2 ^ 32) ∷ s.rtx;
    })

  -- The loop over the groups.
  unfoldable pub fid_lines : Items → Ssrcs → Result Ssrcs
  fid_lines nil s = ok s
  fid_lines (cons line rest) s = do
    semantics ← string_at "semantics" line
    s' ← elim (semantics == "FID") [ true ↦ fid_line line s | false ↦ ok s ]
    fid_lines rest s'

  -- getRtpEncodings
  unfoldable pub get_rtp_encodings : Json → Result Json
  get_rtp_encodings offer_media_object = do
    lines ← items_at "ssrcs" offer_media_object
    all ← line_ssrcs lines
    ssrcs ← some_ssrcs all
    handled ←
        fid_lines (items_of (find "ssrcGroups" offer_media_object))
          (record { left = unique ssrcs; rtx = [] })
    ok (array (encodings_of handled.left handled.rtx))
