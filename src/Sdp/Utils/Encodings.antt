-- ===== src/Sdp/Utils/Encodings.antt =====
-- Which SSRCs getRtpEncodings of src/sdp/Utils.cpp makes encodings of.
use libmediasoupclient.Prelude.{
  ℕ, ◌%◌, ◌^◌, String, Bool, true, false, not, ◌&&◌, ◌||◌, List, [], ◌∷◌, ◌≡◌, ◌==◌, ◌∙◌, refl,
  arith, ap, eq_iff, sym, subst, eqb, inl, inr, Bool-cases,
}
use libmediasoupclient.Prelude.Result.{Result, ok, >>=-eq-ok, ok-injective}
use libmediasoupclient.Json.{Json, array, Items, nil, cons}
use libmediasoupclient.Ortc.Checks.{items_of}
use libmediasoupclient.Ortc.Objects.{string_at, items_at, find}
use libmediasoupclient.Sdp.Utils.{
  split, two_of, unique_after, unique, remove_all, line_ssrcs, Ssrcs, fid_line, fid_lines,
  encodings_of, some_ssrcs, get_rtp_encodings,
}
use libmediasoupclient.Sdp.Utils.Lines.{
  LineSsrcs, line_ssrcs-LineSsrcs, Encodings, encodings_of-Encodings,
}

abbrev pub member : ℕ → List ℕ → Bool
member x [] = false
member x (y ∷ ys) = eqb y x || member x ys

-- The SSRC is one of retransmission.
abbrev pub is_rtx : ℕ → List (ℕ × ℕ) → Bool
is_rtx x [] = false
is_rtx x ((ssrc, rtx) ∷ rest) = eqb rtx x || is_rtx x rest

member-unique_after :
    (x last : ℕ) (ys : List ℕ)
    → (eqb last x || member x (unique_after last ys)) ≡ (eqb last x || member x ys)
member-unique_after x last [] = refl
member-unique_after x last (y ∷ ys) =
    ground (arith, member-unique_after x y ys, member-unique_after x last ys)

member-unique : (x : ℕ) (ys : List ℕ) → member x (unique ys) ≡ member x ys
member-unique x [] = refl
member-unique x (y ∷ ys) = member-unique_after x y ys

member-remove_all :
    (x v : ℕ) (ys : List ℕ) → member x (remove_all v ys) ≡ (member x ys && not (eqb v x))
member-remove_all x v [] = refl
member-remove_all x v (y ∷ ys) = ground (arith, member-remove_all x v ys)

-- The SSRCs that are left are those of a list that are not of retransmission.
abbrev pub AreLeft : List ℕ → Ssrcs → Type 0
AreLeft all s = (x : ℕ) → member x s.left ≡ (member x all && not (is_rtx x s.rtx))

module _ (stoull : String → Result ℕ) where
  fid_line-AreLeft :
      (line : Json) (all : List ℕ) (s t : Ssrcs)
      → fid_line stoull line s ≡ ok t
      → AreLeft all s
      → AreLeft all t
  unfolding fid_line
  fid_line-AreLeft line all s t h old =
      let (fid, _, h₁) = >>=-eq-ok (string_at "ssrcs" line) _ h in
      let (v, _, h₂) = >>=-eq-ok (two_of (split fid)) _ h₁ in
      let (ssrc, _, h₃) = >>=-eq-ok (stoull v.0) _ h₂ in
      let (rtx, _, last) = >>=-eq-ok (stoull v.1) _ h₃ in
      subst (AreLeft all) (ok-injective last)
        (λ x. member-remove_all x (rtx % 2 ^ 32) s.left ∙ rw (old x) (and_not (member x all) _ _))
    where
      and_not : (a b c : Bool) → ((a && not b) && not c) ≡ (a && not (c || b))
      and_not a b c = ground arith

  fid_lines-AreLeft :
      (lines : Items) (all : List ℕ) (s t : Ssrcs)
      → fid_lines stoull lines s ≡ ok t
      → AreLeft all s
      → AreLeft all t
  unfolding fid_lines
  fid_lines-AreLeft nil all s t h old = subst (AreLeft all) (ok-injective h) old
  fid_lines-AreLeft (cons line rest) all s t h old =
      let (semantics, _, h₁) = >>=-eq-ok (string_at "semantics" line) _ h in
      elim (Bool-cases (semantics == "FID")) [
        | inl fid ↦
            let (u, is_u, last) = >>=-eq-ok (fid_line stoull line s) _ (rw fid at h₁) in
            fid_lines-AreLeft rest all u t last (fid_line-AreLeft line all s u is_u old)
        | inr other ↦ fid_lines-AreLeft rest all s t (rw other at h₁) old
      ]

  some_ssrcs-eq-ok : (xs ys : List ℕ) → some_ssrcs xs ≡ ok ys → xs ≡ ys
  some_ssrcs-eq-ok [] ys h = absurd (ground (arith, h))
  some_ssrcs-eq-ok (x ∷ xs) ys h = ok-injective h

  -- The groups have, behind some pairs of SSRCs, the first and the second SSRC of each FID group.
  pub data FidPairs : Items → List (ℕ × ℕ) → List (ℕ × ℕ) → Type 0 where
    done : {pairs : List (ℕ × ℕ)} → FidPairs nil pairs pairs
    other :
        {group : Json} {groups : Items} {before after : List (ℕ × ℕ)} (semantics : String)
        → string_at "semantics" group ≡ ok semantics
        → (semantics == "FID") ≡ false
        → FidPairs groups before after
        → FidPairs (cons group groups) before after
    fid :
        {group : Json} {groups : Items} {before after : List (ℕ × ℕ)} (text : String)
        (first second : String) (ssrc rtx : ℕ)
        → string_at "semantics" group ≡ ok "FID"
        → string_at "ssrcs" group ≡ ok text
        → two_of (split text) ≡ ok (first, second)
        → stoull first ≡ ok ssrc
        → stoull second ≡ ok rtx
        → FidPairs groups ((ssrc % 2 ^ 32, rtx % 2 ^ 32) ∷ before) after
        → FidPairs (cons group groups) before after

  fid_lines-FidPairs :
      (lines : Items) (s t : Ssrcs) → fid_lines stoull lines s ≡ ok t → FidPairs lines s.rtx t.rtx
  unfolding fid_lines fid_line
  fid_lines-FidPairs nil s t h =
      subst (FidPairs nil s.rtx) (ap (λ (x : Ssrcs). x.rtx) (ok-injective h)) done
  fid_lines-FidPairs (cons line rest) s t h =
      let (semantics, is_semantics, h₁) = >>=-eq-ok (string_at "semantics" line) _ h in
      elim (Bool-cases (semantics == "FID")) [
        | inr differs ↦
            other semantics is_semantics differs (fid_lines-FidPairs rest s t (rw differs at h₁))
        | inl same ↦
            let (u, is_u, last) = >>=-eq-ok (fid_line stoull line s) _ (rw same at h₁) in
            let (text, is_text, h₂) = >>=-eq-ok (string_at "ssrcs" line) _ is_u in
            let ((a, b), two, h₃) = >>=-eq-ok (two_of (split text)) _ h₂ in
            let (ssrc, is_ssrc, h₄) = >>=-eq-ok (stoull a) _ h₃ in
            let (rtx, is_rtx, made) = >>=-eq-ok (stoull b) _ h₄ in
            let later = fid_lines-FidPairs rest u t last in
            let is_fid : semantics ≡ "FID" = ground (arith, eq_iff semantics "FID", same) in
            fid text a b ssrc rtx (is_semantics ∙ ap ok is_fid) is_text two is_ssrc is_rtx (
              subst (λ pairs. FidPairs rest pairs t.rtx)
                (sym (ap (λ (x : Ssrcs). x.rtx) (ok-injective made))) later)
      ]

  -- The encodings of a media object, for the SSRCs of its lines and the pairs of its FID groups.
  pub record Encoded (offer_media_object result : Json) : Type 0 where
    pub lines : Items
    pub all : List ℕ
    pub handled : Ssrcs
    pub has_lines : items_at "ssrcs" offer_media_object ≡ ok lines
    pub has_all : LineSsrcs lines all
    pub has_pairs : FidPairs (items_of (find "ssrcGroups" offer_media_object)) [] handled.rtx
    pub are_left : AreLeft all handled
    pub encodings : Items
    pub encoded : Encodings handled.rtx handled.left encodings
    pub is_result : result ≡ array encodings

  -- What getRtpEncodings returns has an encoding for exactly those SSRCs of the lines that are not the
  -- second SSRC of a group whose semantics are FID, each with the second SSRC of the latest such group
  -- that it is the first of, if there is any.
  pub get_rtp_encodings-Encoded :
      (offer_media_object result : Json)
      → get_rtp_encodings stoull offer_media_object ≡ ok result
      → Encoded offer_media_object result
  unfolding get_rtp_encodings
  get_rtp_encodings-Encoded offer_media_object result h =
      let (lines, l, h₁) = >>=-eq-ok (items_at "ssrcs" offer_media_object) _ h in
      let (all, a, h₂) = >>=-eq-ok (line_ssrcs lines) _ h₁ in
      let (ssrcs, s, h₃) = >>=-eq-ok (some_ssrcs all) _ h₂ in
      let groups = items_of (find "ssrcGroups" offer_media_object) in
      let start : Ssrcs = record { left = unique ssrcs; rtx = [] } in
      let (handled, g, last) = >>=-eq-ok (fid_lines stoull groups start) _ h₃ in
      let same : ssrcs ≡ all = sym (some_ssrcs-eq-ok all ssrcs s) in
      record {
        lines = lines;
        all = all;
        handled = handled;
        has_lines = l;
        has_all = line_ssrcs-LineSsrcs lines all a;
        has_pairs = fid_lines-FidPairs groups start handled g;
        are_left = fid_lines-AreLeft groups all start handled g (λ x.
            subst (λ xs. member x (unique ssrcs) ≡ (member x xs && true)) same
              (member-unique x ssrcs ∙ ground arith));
        encodings = encodings_of handled.left handled.rtx;
        encoded = encodings_of-Encodings handled.left handled.rtx;
        is_result = sym (ok-injective last);
      }
