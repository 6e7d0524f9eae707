-- ===== src/Sdp/Utils/Lines.antt =====
-- The SSRCs that getRtpEncodings of src/sdp/Utils.cpp reads from lines, and the encodings that it
-- makes of SSRCs.
use libmediasoupclient.Prelude.{
  Option, none, some, ℕ, true, false, List, [], ◌∷◌, ◌≡◌, refl, subst, eqb, inl, inr, Bool-cases,
}
use libmediasoupclient.Prelude.Result.{ok, >>=-eq-ok, ok-injective}
use libmediasoupclient.Json.{Json, unsigned, object, Items, nil, cons, lookup, insert}
use libmediasoupclient.Ortc.Objects.{at, build, find}
use libmediasoupclient.Sdp.Section.{get_uint32}
use libmediasoupclient.Sdp.Utils.{line_ssrcs, rtx_of, encoding_of, encodings_of}

-- The SSRCs of the lines, in their order.
pub data LineSsrcs : Items → List ℕ → Type 0 where
  done : LineSsrcs nil []
  line_of :
      {line id : Json} {lines : Items} {ssrcs : List ℕ} (ssrc : ℕ)
      → at "id" line ≡ ok id
      → get_uint32 id ≡ ok ssrc
      → LineSsrcs lines ssrcs
      → LineSsrcs (cons line lines) (ssrc ∷ ssrcs)

pub line_ssrcs-LineSsrcs :
    (lines : Items) (ssrcs : List ℕ) → line_ssrcs lines ≡ ok ssrcs → LineSsrcs lines ssrcs
unfolding line_ssrcs
line_ssrcs-LineSsrcs nil ssrcs h = subst (LineSsrcs nil) (ok-injective h) done
line_ssrcs-LineSsrcs (cons line rest) ssrcs h =
    let (id, is_id, h₁) = >>=-eq-ok (at "id" line) _ h in
    let (ssrc, is_ssrc, h₂) = >>=-eq-ok (get_uint32 id) _ h₁ in
    let (later, is_later, last) = >>=-eq-ok (line_ssrcs rest) _ h₂ in
    subst (LineSsrcs (cons line rest)) (ok-injective last)
      (line_of ssrc is_id is_ssrc (line_ssrcs-LineSsrcs rest later is_later))

-- The second SSRC of the latest pair whose first one is the SSRC, if there is any.
pub data RtxOf (ssrc : ℕ) : List (ℕ × ℕ) → Option ℕ → Type 0 where
  missing : RtxOf ssrc [] none
  latest : {k v : ℕ} {rest : List (ℕ × ℕ)} → eqb k ssrc ≡ true → RtxOf ssrc ((k, v) ∷ rest) (some v)
  older :
      {k v : ℕ} {rest : List (ℕ × ℕ)} {rtx : Option ℕ}
      → eqb k ssrc ≡ false
      → RtxOf ssrc rest rtx
      → RtxOf ssrc ((k, v) ∷ rest) rtx

rtx_of-RtxOf : (ssrc : ℕ) (pairs : List (ℕ × ℕ)) → RtxOf ssrc pairs (rtx_of ssrc pairs)
rtx_of-RtxOf ssrc [] = missing
rtx_of-RtxOf ssrc ((k, v) ∷ rest) = elim (Bool-cases (eqb k ssrc)) [
  | inl same ↦ rw same (latest same)
  | inr differs ↦ rw differs (older differs (rtx_of-RtxOf ssrc rest))
]

abbrev pub rtx_object : Option ℕ → Option Json
rtx_object none = none
rtx_object (some rtx) = some (object (build (("ssrc", unsigned rtx) ∷ [])))

-- One encoding for each SSRC, in their order, with its SSRC of retransmission if it has one.
pub data Encodings (pairs : List (ℕ × ℕ)) : List ℕ → Items → Type 0 where
  done : Encodings pairs [] nil
  encoding :
      {ssrcs : List ℕ} {encodings : Items} (ssrc : ℕ) (e : Json) (rtx : Option ℕ)
      → find "ssrc" e ≡ some (unsigned ssrc)
      → find "rtx" e ≡ rtx_object rtx
      → RtxOf ssrc pairs rtx
      → Encodings pairs ssrcs encodings
      → Encodings pairs (ssrc ∷ ssrcs) (cons e encodings)

encoding_of-finds :
    (ssrc : ℕ) (rtx : Option ℕ)
    → (find "ssrc" (encoding_of ssrc rtx) ≡ some (unsigned ssrc))
      × (find "rtx" (encoding_of ssrc rtx) ≡ rtx_object rtx)
unfolding lookup insert
encoding_of-finds ssrc none = (refl, refl)
encoding_of-finds ssrc (some rtx) = (refl, refl)

pub encodings_of-Encodings :
    (ssrcs : List ℕ) (pairs : List (ℕ × ℕ)) → Encodings pairs ssrcs (encodings_of ssrcs pairs)
encodings_of-Encodings [] pairs = done
encodings_of-Encodings (ssrc ∷ rest) pairs =
    let (is_ssrc, is_rtx) = encoding_of-finds ssrc (rtx_of ssrc pairs) in
    encoding ssrc _ _ is_ssrc is_rtx (rtx_of-RtxOf ssrc pairs) (encodings_of-Encodings rest pairs)
