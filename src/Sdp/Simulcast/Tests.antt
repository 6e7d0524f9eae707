-- ===== src/Sdp/Simulcast/Tests.antt =====
-- Three streams from one SSRC by addLegacySimulcast of src/sdp/Utils.cpp.
use libmediasoupclient.Prelude.{ℕ, String, [], ◌∷◌, ◌≡◌, refl, arith}
use libmediasoupclient.Prelude.Result.{Result, ok, err, foreign_error}
use libmediasoupclient.Json.{array, object, Items, nil, Fields, lookup, insert}
use libmediasoupclient.Ortc.Objects.{build}
use libmediasoupclient.Sdp.Section.{get_uint32}
use libmediasoupclient.Sdp.Offer.{ssrc_lines}
use libmediasoupclient.Sdp.Utils.{split, split_from, get_rtp_encodings}
use libmediasoupclient.Sdp.Simulcast.{
  msid_line, cname_line, first_rtx, Legacy, legacy_of, with_streams, add_legacy_simulcast,
}
use libmediasoupclient.Sdp.Simulcast.Streams.{Consecutive, Single, encodings-streams}

abbrev media : Fields
media = build (("ssrcs", array (ssrc_lines 10 "name" "a b" nil)) ∷ [])

-- No number is read.
abbrev stoull : String → Result ℕ
stoull text = err foreign_error

abbrev legacy : Legacy
legacy = record { msid = "a b"; cname = "name"; ssrc = 10; rtx = 0 }

read : legacy_of stoull media ≡ ok legacy
unfolding legacy_of msid_line cname_line first_rtx split split_from get_uint32 lookup insert
read = refl

abbrev changed : Fields
changed = with_streams 3 legacy media

run : add_legacy_simulcast stoull 3 media ≡ ok changed
unfolding add_legacy_simulcast
run = rw (read, add_legacy_simulcast) refl

single : Single stoull media 10
unfolding msid_line first_rtx get_uint32 lookup insert
single = record { line = _; has_line = refl; has_ssrc = refl; no_rtx = refl }

encodings-streams_example :
    (encodings : Items) × (get_rtp_encodings stoull (object changed) ≡ ok (array encodings))
    × Consecutive 3 10 encodings
encodings-streams_example = encodings-streams stoull 3 10 media changed (omega arith) single run
