-- ===== src/Sdp/Utils/Tests.antt =====
-- Runs of src/sdp/Utils.cpp: the CNAME of a media section whose lines are under "ssrcs", and the
-- encodings of two streams with retransmission.
use libmediasoupclient.Prelude.{ℕ, String, [], ◌∷◌, ◌≡◌, ◌==◌, refl, if◌then◌else◌}
use libmediasoupclient.Prelude.Result.{Result, ok, err, foreign_error}
use libmediasoupclient.Json.{Json, unsigned, string, array, object, nil, cons, lookup, insert}
use libmediasoupclient.Ortc.Objects.{build}
use libmediasoupclient.Sdp.Section.{get_uint32}
use libmediasoupclient.Sdp.Utils.{
  get_cname, split, line_ssrcs, fid_line, fid_lines, get_rtp_encodings,
}
use libmediasoupclient.Sdp.Utils.Encodings.{Encoded, get_rtp_encodings-Encoded}

abbrev line : ℕ → String → String → Json
line id attribute value =
    object
      (build (("id", unsigned id) ∷ ("attribute", string attribute) ∷ ("value", string value) ∷ []))

abbrev media : Json
media = object (
    build (
      (
        "ssrcs",
        array (
            cons (line 10 "cname" "name")
              (cons (line 10 "msid" "a b") (cons (line 11 "cname" "name") nil))),
      )
      ∷ (
        "ssrcGroups",
        array (
            cons (object (build (("semantics", string "FID") ∷ ("ssrcs", string "10 11") ∷ [])))
              nil),
      )
      ∷ []))

-- The numbers of the tests.
abbrev stoull : String → Result ℕ
stoull text = if text == "10" then ok 10 else if text == "11" then ok 11 else err foreign_error

no_cname : get_cname media ≡ ok ""
unfolding get_cname lookup insert
no_cname = refl

pieces : split "10 11 " ≡ "10" ∷ "11" ∷ []
unfolding split
pieces = refl

one_encoding :
    get_rtp_encodings stoull media
    ≡ ok (
        array (
          cons
            (object (
              build (
                ("ssrc", unsigned 10) ∷ ("rtx", object (build (("ssrc", unsigned 11) ∷ []))) ∷ [])))
            nil))
unfolding get_rtp_encodings fid_lines fid_line line_ssrcs split get_uint32 lookup insert
one_encoding = refl

get_rtp_encodings-Encoded_example : Encoded stoull media (
    array (
      cons
        (object (
          build
            (("ssrc", unsigned 10) ∷ ("rtx", object (build (("ssrc", unsigned 11) ∷ []))) ∷ [])))
        nil))
get_rtp_encodings-Encoded_example = get_rtp_encodings-Encoded stoull media _ one_encoding
