-- ===== src/Sdp/Simulcast/Streams.antt =====
-- What getRtpEncodings of src/sdp/Utils.cpp makes of the lines that addLegacySimulcast writes.
use libmediasoupclient.Prelude.{
  ℕ, zero, suc, ◌+◌, ◌%◌, ◌^◌, ◌≤◌, ◌<◌, String, Option, none, sym, true, false, List, [], ◌∷◌,
  some, ◌≡◌, ◌∙◌, refl, arith, ap, eqb, leb,
}
use libmediasoupclient.Prelude.Result.{>>=-eq-ok, Result, ok, ok-injective}
use libmediasoupclient.Json.{
  Json, unsigned, array, object, Items, nil, cons, Fields, lookup, insert,
}
use libmediasoupclient.Json.Access.{lookup-insert}
use libmediasoupclient.Ortc.Objects.{build, find, at, items_at}
use libmediasoupclient.Ortc.Checks.{get_string, items_of}
use libmediasoupclient.Ortc.Matching.{or_null}
use libmediasoupclient.Sdp.Section.{get_uint32}
use libmediasoupclient.Sdp.Utils.{
  split, two_of, unique_after, unique, line_ssrcs, fid_lines, encodings_of, get_rtp_encodings,
}
use libmediasoupclient.Sdp.Simulcast.{
  msid_line, cname_line, first_rtx, streams, join, group, fid_groups, stream_lines, Legacy,
  legacy_of, with_streams, add_legacy_simulcast,
}

abbrev doubled : List ℕ → List ℕ
doubled [] = []
doubled (x ∷ xs) = x ∷ x ∷ doubled xs

unique_after-doubled :
    (n ssrc last : ℕ)
    → eqb (ssrc % 2 ^ 32) last ≡ false
    → unique_after last (doubled (streams n ssrc)) ≡ streams n ssrc
unique_after-doubled zero ssrc last differs = refl
unique_after-doubled (suc n) ssrc last differs =
    let next : eqb ((ssrc + 1) % 2 ^ 32) (ssrc % 2 ^ 32) ≡ false = ground arith in
    let later = unique_after-doubled n (ssrc + 1) (ssrc % 2 ^ 32) next in
    let again : eqb (ssrc % 2 ^ 32) (ssrc % 2 ^ 32) ≡ true = ground arith in
    rw (differs, again, later) refl

unique-doubled : (n ssrc : ℕ) → unique (doubled (streams n ssrc)) ≡ streams n ssrc
unique-doubled zero ssrc = refl
unique-doubled (suc n) ssrc =
    let next : eqb ((ssrc + 1) % 2 ^ 32) (ssrc % 2 ^ 32) ≡ false = ground arith in
    let later = unique_after-doubled n (ssrc + 1) (ssrc % 2 ^ 32) next in
    let again : eqb (ssrc % 2 ^ 32) (ssrc % 2 ^ 32) ≡ true = ground arith in rw (again, later) refl

line_ssrcs-streams :
    (n ssrc : ℕ) (cname msid : String)
    → line_ssrcs (stream_lines cname msid (streams n ssrc) nil) ≡ ok (doubled (streams n ssrc))
unfolding line_ssrcs get_uint32 lookup insert
line_ssrcs-streams zero ssrc cname msid = refl
line_ssrcs-streams (suc n) ssrc cname msid =
    let small : ssrc % 2 ^ 32 % 2 ^ 32 ≡ ssrc % 2 ^ 32 = omega arith in
    rw (line_ssrcs-streams n (ssrc + 1) cname msid, small) refl

-- A media object whose only group is no FID group.
encodings_run :
    (stoull : String → Result ℕ) (fs : Fields) (lines : Items) (x : ℕ) (xs : List ℕ) (text : String)
    → lookup "ssrcs" fs ≡ some (array lines)
    → lookup "ssrcGroups" fs ≡ some (array (cons (group "SIM" text) nil))
    → line_ssrcs lines ≡ ok (x ∷ xs)
    → get_rtp_encodings stoull (object fs) ≡ ok (array (encodings_of (unique (x ∷ xs)) []))
unfolding get_rtp_encodings fid_lines lookup insert
encodings_run stoull fs lines x xs text a b c = rw (a, at, items_at) (rw (c, b) refl)

fid_none : (ssrcs : List ℕ) → fid_groups ssrcs [] ≡ nil
fid_none [] = refl
fid_none (x ∷ xs) = refl

with_streams-ssrcs :
    (n : ℕ) (l : Legacy) (media : Fields)
    → l.rtx ≡ 0
    → (lookup "ssrcs" (with_streams n l media)
        ≡ some (array (stream_lines l.cname l.msid (streams n l.ssrc) nil)))
      × (lookup "ssrcGroups" (with_streams n l media)
          ≡ some (array (cons (group "SIM" (join (streams n l.ssrc))) nil)))
unfolding with_streams
with_streams-ssrcs n l media no_rtx =
    let none_there : eqb l.rtx 0 ≡ true = ground (arith, no_rtx) in
    (
      simp (lookup-insert, none_there),
      simp (lookup-insert, none_there, fid_none (streams n l.ssrc)),
    )

abbrev pub items_length : Items → ℕ
items_length nil = 0
items_length (cons j js) = suc (items_length js)

abbrev pub item_at : Items → ℕ → Option Json
item_at nil i = none
item_at (cons j js) zero = some j
item_at (cons j js) (suc i) = item_at js i

-- One encoding for each stream, with nothing but an SSRC, which is the number of the stream behind the
-- first one, modulo 2 ^ 32.
pub record Consecutive (num_streams first : ℕ) (encodings : Items) : Type 0 where
  pub as_many : items_length encodings ≡ num_streams
  pub ssrcs :
      (i : ℕ)
      → i < num_streams
      → item_at encodings i ≡ some (object (build (("ssrc", unsigned ((first + i) % 2 ^ 32)) ∷ [])))

encodings_of-length : (n ssrc : ℕ) → items_length (encodings_of (streams n ssrc) []) ≡ n
encodings_of-length zero ssrc = refl
encodings_of-length (suc n) ssrc = ap suc (encodings_of-length n (ssrc + 1))

encodings_of-at :
    (n ssrc i : ℕ)
    → i < n
    → item_at (encodings_of (streams n ssrc) []) i
      ≡ some (object (build (("ssrc", unsigned ((ssrc + i) % 2 ^ 32)) ∷ [])))
encodings_of-at zero ssrc i small = absurd (omega (arith, small))
encodings_of-at (suc n) ssrc zero small = let same : ssrc + 0 ≡ ssrc = omega arith in rw same refl
encodings_of-at (suc n) ssrc (suc i) small =
    let same : ssrc + suc i ≡ ssrc + 1 + i = omega arith in
    rw same (encodings_of-at n (ssrc + 1) i (omega (arith, small)))

-- The SSRC of the line with the msid, which has no SSRC of retransmission.
pub record Single (stoull : String → Result ℕ) (media : Fields) (first : ℕ) : Type 0 where
  pub line : Json
  pub has_line : msid_line (items_of (find "ssrcs" (object media))) ≡ ok line
  pub has_ssrc : get_uint32 (or_null (find "id" line)) ≡ ok first
  pub no_rtx : first_rtx stoull first (items_of (find "ssrcGroups" (object media))) ≡ ok 0

legacy_of-Single :
    (stoull : String → Result ℕ) (media : Fields) (first : ℕ) (l : Legacy)
    → Single stoull media first
    → legacy_of stoull media ≡ ok l
    → (l.ssrc ≡ first) × (l.rtx ≡ 0)
unfolding legacy_of
legacy_of-Single stoull media first l single h =
    let (value, _, h₁) =
      >>=-eq-ok (get_string (find "value" single.line)) _ (rw single.has_line at h) in
    let (v, _, h₂) = >>=-eq-ok (two_of (split value)) _ h₁ in
    let (named, _, h₃) =
      >>=-eq-ok (cname_line first (items_of (find "ssrcs" (object media)))) _
        (rw (single.has_ssrc, single.no_rtx) at h₂) in
    let (cname, _, last) = >>=-eq-ok (get_string (find "value" named)) _ h₃ in
    let same = ok-injective last in
    (sym (ap (λ (x : Legacy). x.ssrc) same), sym (ap (λ (x : Legacy). x.rtx) same))

-- For more than one stream, and if the SSRC of the msid line has none for retransmission, the
-- encodings of the media object that addLegacySimulcast leaves are one for each stream, whose SSRCs
-- follow each other from that one on, modulo 2 ^ 32.
pub encodings-streams :
    (stoull : String → Result ℕ) (num_streams first : ℕ) (media changed : Fields)
    → 2 ≤ num_streams
    → Single stoull media first
    → add_legacy_simulcast stoull num_streams media ≡ ok changed
    → (encodings : Items) × (get_rtp_encodings stoull (object changed) ≡ ok (array encodings))
      × Consecutive num_streams first encodings
unfolding add_legacy_simulcast
encodings-streams stoull zero first media changed many single h = absurd (omega (arith, many))
encodings-streams stoull (suc n) first media changed many single h =
    let not_few : leb (suc n) 1 ≡ false = ground (arith, many) in
    let (l, read, h₁) =
      >>=-eq-ok (legacy_of stoull media) _ (rw (not_few, add_legacy_simulcast) at h) in
    let (is_first, no_rtx) = legacy_of-Single stoull media first l single read in
    let (lines, groups) = with_streams-ssrcs (suc n) l media no_rtx in
    let run : get_rtp_encodings stoull (object (with_streams (suc n) l media))
        ≡ ok (array (encodings_of (streams (suc n) l.ssrc) [])) =
      encodings_run stoull (with_streams (suc n) l media) _ _ _ _ lines groups
        (line_ssrcs-streams (suc n) l.ssrc l.cname l.msid)
      ∙ ap (λ xs. ok (array (encodings_of xs []))) (unique-doubled (suc n) l.ssrc) in
    (
      encodings_of (streams (suc n) first) [],
      ap (λ x. get_rtp_encodings stoull (object x)) (sym (ok-injective h₁))
          ∙ run
          ∙ ap (λ x. ok (array (encodings_of (streams (suc n) x) []))) is_first,
      record { as_many = encodings_of-length (suc n) first; ssrcs = encodings_of-at (suc n) first },
    )
