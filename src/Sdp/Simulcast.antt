-- ===== src/Sdp/Simulcast.antt =====
-- addLegacySimulcast of src/sdp/Utils.cpp, with join of include/Utils.hpp.
mod Tests
pub mod Streams
use Prim.Native.String
use libmediasoupclient.Prelude.{
  ℕ, zero, suc, ◌+◌, ◌%◌, ◌^◌, String, Bool, true, false, ◌&&◌, List, [], ◌∷◌, Option, none, some,
  leb, eqb, ◌==◌, if◌then◌else◌,
}
use libmediasoupclient.Prelude.Result.{Result, ok, err, undefined, plain_error, ◌>>=◌}
use libmediasoupclient.Json.{
  Json, string, array, object, Items, nil, cons, Fields, insert, is_number,
}
use libmediasoupclient.Json.Text.{to_string}
use libmediasoupclient.Ortc.Checks.{get_string, items_of}
use libmediasoupclient.Ortc.Matching.{or_null}
use libmediasoupclient.Ortc.Objects.{find, build}
use libmediasoupclient.Sdp.Section.{get_uint32}
use libmediasoupclient.Sdp.Offer.{ssrc_lines}
use libmediasoupclient.Sdp.Utils.{split, two_of}

-- The line has the text as its attribute.
abbrev pub has_attribute : String → Json → Bool
has_attribute attribute line = elim (find "attribute" line) [
  | some (string text) ↦ text == attribute
  | _ ↦ false
]

unfoldable pub msid_line : Items → Result Json
msid_line nil = err (plain_error "a=ssrc line with msid information not found")
msid_line (cons line rest) =
    let later = msid_line rest in if has_attribute "msid" line then ok line else later

abbrev pub is_cname_of : ℕ → Json → Result Bool
is_cname_of ssrc line =
    if has_attribute "cname" line && is_number (or_null (find "id" line))
    then (get_uint32 (or_null (find "id" line)) >>= λ id. ok (eqb id ssrc))
    else ok false

unfoldable pub cname_line : ℕ → Items → Result Json
cname_line ssrc nil = err (plain_error "CNAME line not found")
cname_line ssrc (cons line rest) = do
  found ← is_cname_of ssrc line
  elim found [ true ↦ ok line | false ↦ cname_line ssrc rest ]

abbrev pub group_texts : Json → Option String
group_texts line = elim (find "semantics" line) [
  | some (string _) ↦ elim (find "ssrcs" line) [ some (string ssrcs) ↦ some ssrcs | _ ↦ none ]
  | _ ↦ none
]

abbrev pub head_of : List String → Result String
head_of (a ∷ rest) = ok a
head_of _ = err undefined

module _ (stoull : String → Result ℕ) where
  -- The SSRC beside the first one in the first group that begins with it, 0 if there is none.
  unfoldable pub first_rtx : ℕ → Items → Result ℕ
  first_rtx ssrc nil = ok 0
  first_rtx ssrc (cons line rest) = elim (group_texts line) [
    | none ↦ first_rtx ssrc rest
    | some text ↦ do
      first ← head_of (split text)
      n ← stoull first
      elim (eqb n ssrc) [
        | false ↦ first_rtx ssrc rest
        | true ↦ do v ← two_of (split text); rtx ← stoull v.1; ok (rtx % 2 ^ 32)
      ]
  ]

-- The SSRCs of a number of streams, from the first one on.
abbrev pub streams : ℕ → ℕ → List ℕ
streams zero ssrc = []
streams (suc n) ssrc = (ssrc % 2 ^ 32) ∷ streams n (ssrc + 1)

-- join
abbrev pub join : List ℕ → String
join [] = ""
join (x ∷ []) = to_string x
join (x ∷ y ∷ rest) = String.◌++◌ (to_string x) (String.◌++◌ " " (join (y ∷ rest)))

abbrev pub group : String → String → Json
group semantics ssrcs =
    object (build (("semantics", string semantics) ∷ ("ssrcs", string ssrcs) ∷ []))

-- The lines of the streams.
abbrev pub stream_lines : String → String → List ℕ → Items → Items
stream_lines cname msid [] more = more
stream_lines cname msid (ssrc ∷ rest) more =
    ssrc_lines ssrc cname msid (stream_lines cname msid rest more)

abbrev pub fid_groups : List ℕ → List ℕ → Items
fid_groups (ssrc ∷ rest) (rtx ∷ more) =
    cons (group "FID" (String.◌++◌ (to_string ssrc) (String.◌++◌ " " (to_string rtx))))
      (fid_groups rest more)
fid_groups _ _ = nil

-- What is read of the media object.
pub record Legacy : Type 0 where
  pub msid : String
  pub cname : String
  pub ssrc : ℕ
  pub rtx : ℕ

unfoldable pub legacy_of : (String → Result ℕ) → Fields → Result Legacy
legacy_of stoull media = do
  let lines = items_of (find "ssrcs" (object media))
  line ← msid_line lines
  value ← get_string (find "value" line)
  v ← two_of (split value)
  ssrc ← get_uint32 (or_null (find "id" line))
  rtx ← first_rtx stoull ssrc (items_of (find "ssrcGroups" (object media)))
  named ← cname_line ssrc lines
  cname ← get_string (find "value" named)
  ok (record {
    msid = String.◌++◌ v.0 (String.◌++◌ " " v.1);
    cname = cname;
    ssrc = ssrc;
    rtx = rtx;
  })

-- What is written to it.
unfoldable pub with_streams : ℕ → Legacy → Fields → Fields
with_streams num_streams l media =
    let ssrcs = streams num_streams l.ssrc in
    let rtx = if eqb l.rtx 0 then [] else streams num_streams l.rtx in
    insert "ssrcs" (array (stream_lines l.cname l.msid ssrcs (stream_lines l.cname l.msid rtx nil)))
      (insert "ssrcGroups" (array (cons (group "SIM" (join ssrcs)) (fid_groups ssrcs rtx))) media)

-- addLegacySimulcast
unfoldable pub add_legacy_simulcast : (String → Result ℕ) → ℕ → Fields → Result Fields
add_legacy_simulcast stoull num_streams media =
    if leb num_streams 1
    then ok media
    else legacy_of stoull media >>= λ l. ok (with_streams num_streams l media)
