-- ===== src/Ortc/Sending/Feedback.antt =====
-- How getSendingRemoteRtpParameters of src/ortc.cpp reduces the RTCP feedback.
use libmediasoupclient.Prelude.{
  String, ◌==◌, Bool, true, false, ◌≡◌, refl, sym, subst, arith, inl, inr, Bool-cases, some,
}
use libmediasoupclient.Prelude.Result.{ok, >>=-eq-ok, ok-injective}
use libmediasoupclient.Json.{Json, array, object, Items, nil, cons, Fields, lookup, insert}
use libmediasoupclient.Json.Access.{lookup-insert}
use libmediasoupclient.Ortc.Checks.{items_of, AllPairs, each, each_pairs}
use libmediasoupclient.Ortc.Objects.{string_at, items_at, find}
use libmediasoupclient.Ortc.Sending.Control.{Control, congestion-Control}
use libmediasoupclient.Ortc.Sending.{
  drop_feedback, reduce_codec, is_dropped, congestion, set_codecs,
  get_sending_remote_rtp_parameters, sending_parameters,
}

module _ (dropped : String → Bool) where
  -- The feedback whose type is not dropped, in its order.
  pub data Filtered : Items → Items → Type 0 where
    done : Filtered nil nil
    drop :
        {fb : Json} {fbs kept : Items} (type : String)
        → string_at "type" fb ≡ ok type
        → dropped type ≡ true
        → Filtered fbs kept
        → Filtered (cons fb fbs) kept
    keep :
        {fb : Json} {fbs kept : Items} (type : String)
        → string_at "type" fb ≡ ok type
        → dropped type ≡ false
        → Filtered fbs kept
        → Filtered (cons fb fbs) (cons fb kept)

  drop_feedback-Filtered :
      (fbs kept : Items) → drop_feedback dropped fbs ≡ ok kept → Filtered fbs kept
  unfolding drop_feedback
  drop_feedback-Filtered nil kept h = subst (Filtered nil) (ok-injective h) done
  drop_feedback-Filtered (cons fb rest) kept h =
      let (type, e, h₁) = >>=-eq-ok (string_at "type" fb) _ h in
      let (later, l, h₂) = >>=-eq-ok (drop_feedback dropped rest) _ h₁ in
      let ih = drop_feedback-Filtered rest later l in
      elim (Bool-cases (dropped type)) [
        | inl gone ↦
            subst (Filtered (cons fb rest)) (ok-injective (rw gone at h₂)) (drop type e gone ih)
        | inr stays ↦
            subst (Filtered (cons fb rest)) (ok-injective (rw stays at h₂)) (keep type e stays ih)
      ]

  -- A codec, and the same codec but for its feedback, which is filtered.
  pub record Reduced (codec result : Json) : Type 0 where
    pub fields : Fields
    pub kept : Items
    pub is_codec : codec ≡ object fields
    pub is_result : result ≡ object (insert "rtcpFeedback" (array kept) fields)
    pub filtered : Filtered (items_of (lookup "rtcpFeedback" fields)) kept

  reduce_codec-Reduced :
      (codec result : Json) → reduce_codec dropped codec ≡ ok result → Reduced codec result
  unfolding reduce_codec
  reduce_codec-Reduced (object codec) result h =
      let (kept, k, h₁) = >>=-eq-ok (drop_feedback dropped _) _ h in
      record {
        fields = codec;
        kept = kept;
        is_codec = refl;
        is_result = sym (ok-injective h₁);
        filtered = drop_feedback-Filtered _ kept k;
      }
  reduce_codec-Reduced _ result h = absurd (ground arith)

-- How the parameters for the remote side come from those of the local loops: the header extensions
-- of the result say which feedback is dropped, and each codec has its feedback filtered by that.
pub record RemoteFeedback (kind : String) (e q : Json) : Type 0 where
  pub params : Json
  pub dropped : String → Bool
  pub generated : sending_parameters "remoteParameters" kind e ≡ ok params
  pub control : Control (items_of (find "headerExtensions" q)) dropped
  pub same_others : (k : String) → ("codecs" == k) ≡ false → find k q ≡ find k params
  pub reduced :
      AllPairs (Reduced dropped) (items_of (find "codecs" params)) (items_of (find "codecs" q))

items_at-eq : (k : String) (j : Json) {xs : Items} → items_at k j ≡ ok xs → xs ≡ items_of (find k j)
items_at-eq k (object fs) h = ground arith
items_at-eq k _ h = absurd (ground arith)

set_codecs_finds :
    (codecs : Items) (params q : Json)
    → set_codecs codecs params ≡ ok q
    → (find "codecs" q ≡ some (array codecs))
      × ((k : String) → ("codecs" == k) ≡ false → find k q ≡ find k params)
set_codecs_finds codecs (object fields) q h =
    rw (← ok-injective h) (simp lookup-insert, λ k other. simp (lookup-insert, other))
set_codecs_finds codecs _ q h = absurd (ground arith)

-- In the parameters for the remote side each codec keeps, in their order, exactly the feedback
-- entries that the congestion control of the result's own header extensions does not drop: all but
-- REMB with Transport-CC, all but Transport-CC with the absolute send time, and otherwise neither.
-- Nothing else of a codec is changed, and nothing else of the parameters.
pub remote_feedback :
    (kind : String) (e q : Json)
    → get_sending_remote_rtp_parameters kind e ≡ ok q
    → RemoteFeedback kind e q
unfolding get_sending_remote_rtp_parameters
remote_feedback kind e q h =
    let (params, p, h₁) = >>=-eq-ok (sending_parameters "remoteParameters" kind e) _ h in
    let (extensions, x, h₂) = >>=-eq-ok (items_at "headerExtensions" params) _ h₁ in
    let (mode, m, h₃) = >>=-eq-ok (congestion extensions) _ h₂ in
    let (codecs, c, h₄) = >>=-eq-ok (items_at "codecs" params) _ h₃ in
    let (reduced, r, h₅) = >>=-eq-ok (each (reduce_codec (is_dropped mode)) codecs) _ h₄ in
    let (found, others) = set_codecs_finds reduced params q h₅ in
    let same = others "headerExtensions" refl in
    let pairs =
      each_pairs (reduce_codec (is_dropped mode)) (Reduced (is_dropped mode))
        (reduce_codec-Reduced (is_dropped mode)) codecs reduced r in
    record {
      params = params;
      dropped = is_dropped mode;
      generated = p;
      control =
          rw (same, ← items_at-eq "headerExtensions" params x)
            (congestion-Control extensions mode m);
      same_others = others;
      reduced = rw (found, ← items_at-eq "codecs" params c) pairs;
    }
