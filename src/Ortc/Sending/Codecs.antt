-- ===== src/Ortc/Sending/Codecs.antt =====
-- The codecs that getSendingRtpParameters of src/ortc.cpp selects, and canSend.
use libmediasoupclient.Json.{unsigned, string}
use Prim.Native.String
use libmediasoupclient.Prelude.{
  [], ◌∷◌, ℕ, suc, String, Bool, true, false, ◌==◌, ◌≡◌, ◌≢◌, refl, subst, arith, eq_iff, inl, inr,
  Bool-cases, some,
}
use libmediasoupclient.Prelude.Result.{ok, >>=-eq-ok, ok-injective}
use libmediasoupclient.Json.{Json, null, array, object, Items, nil, cons, Fields, lookup, is_null}
use libmediasoupclient.Json.Number.{get_uint8}
use libmediasoupclient.Json.Access.{lookup-insert}
use libmediasoupclient.Ortc.Checks.{items_of}
use libmediasoupclient.Ortc.Objects.{
  at, string_at, items_at, find, build, copy_if_present, lookup-copy_if_present,
}
use libmediasoupclient.Ortc.Sending.{
  sending_codecs_of, sending_codecs, sending_extensions, sending_parameters,
  get_sending_rtp_parameters, has_kind, can_send,
}

abbrev pub is_nonempty : Items → Bool
is_nonempty nil = false
is_nonempty (cons x xs) = true

abbrev pub length : Items → ℕ
length nil = 0
length (cons x xs) = suc (length xs)

-- The first codec of the kind, behind codecs of other kinds.
pub data FirstOfKind (kind : String) : Items → Json → Type 0 where
  here : {c : Json} {rest : Items} → string_at "kind" c ≡ ok kind → FirstOfKind kind (cons c rest) c
  there :
      {c d : Json} {rest : Items} (other : String)
      → string_at "kind" d ≡ ok other
      → kind ≢ other
      → FirstOfKind kind rest c
      → FirstOfKind kind (cons d rest) c

-- What a selection returns: nothing if no codec is of the kind, and otherwise the first one that
-- is, with its RTX codec.
pub data Selected (key kind : String) (extended : Items) : Items → Type 0 where
  no_codec : has_kind kind extended ≡ ok false → Selected key kind extended nil
  first_codec :
      (c : Json) {codecs : Items}
      → has_kind kind extended ≡ ok true
      → FirstOfKind kind extended c
      → sending_codecs_of key c ≡ ok codecs
      → Selected key kind extended codecs

module _ (key kind : String) where
  skip :
      {c : Json} {rest codecs : Items} (other : String)
      → string_at "kind" c ≡ ok other
      → (kind == other) ≡ false
      → Selected key kind rest codecs
      → Selected key kind (cons c rest) codecs
  unfolding has_kind
  skip other e n (no_codec h) = no_codec (rw (e, n) h)
  skip other e n (first_codec c h f r) =
      first_codec c (rw (e, n) h) (there other e (λ p. ground (arith, eq_iff kind other, p)) f) r

  pub sending_codecs-Selected :
      (extended codecs : Items)
      → sending_codecs key kind extended ≡ ok codecs
      → Selected key kind extended codecs
  unfolding sending_codecs has_kind
  sending_codecs-Selected nil codecs h =
      subst (Selected key kind nil) (ok-injective h) (no_codec refl)
  sending_codecs-Selected (cons c rest) codecs h =
      let (other, e, h₁) = >>=-eq-ok (string_at "kind" c) _ h in
      elim (Bool-cases (kind == other)) [
        | inl same ↦
            let eq : kind ≡ other = (eq_iff kind other).0 same in
            first_codec c (rw (e, same)) (here (rw eq e)) (rw same at h₁)
        | inr differ ↦ skip other e differ (sending_codecs-Selected rest codecs (rw differ at h₁))
      ]

-- A media codec to send, built from one of the extended capabilities.
pub record IsMedia (extended : Json) (codec : Fields) : Type 0 where
  pub mime_type : Json
  pub payload_type : Json
  pub has_mime_type : at "mimeType" extended ≡ ok mime_type
  pub has_payload_type : at "localPayloadType" extended ≡ ok payload_type
  pub same_mime_type : lookup "mimeType" codec ≡ some mime_type
  pub same_payload_type : lookup "payloadType" codec ≡ some payload_type

-- Its RTX codec: `apt` is the payload type of the media codec, as an 8-bit number.
pub record IsRtx (extended : Json) (codec rtx : Fields) : Type 0 where
  pub media_type : Json
  pub rtx_type : Json
  pub apt : ℕ
  pub has_rtx_type : at "localRtxPayloadType" extended ≡ ok rtx_type
  pub not_null : is_null rtx_type ≡ false
  pub same_rtx_type : lookup "payloadType" rtx ≡ some rtx_type
  pub has_media_type : lookup "payloadType" codec ≡ some media_type
  pub is_apt : get_uint8 media_type ≡ ok apt
  pub has_apt : lookup "parameters" rtx ≡ some (object (build (("apt", unsigned apt) ∷ [])))

-- The codecs that one media codec gives: itself, and behind it an RTX codec exactly if it has a
-- local RTX payload type.
pub data MediaThenRtx (extended : Json) : Items → Type 0 where
  media :
      (codec : Fields)
      → IsMedia extended codec
      → at "localRtxPayloadType" extended ≡ ok null
      → MediaThenRtx extended (cons (object codec) nil)
  media_rtx :
      (codec rtx : Fields)
      → IsMedia extended codec
      → IsRtx extended codec rtx
      → MediaThenRtx extended (cons (object codec) (cons (object rtx) nil))

is_null→null : (j : Json) → is_null j ≡ true → j ≡ null
is_null→null null h = refl
is_null→null _ h = ground arith

module _ (c mime_type payload_type clock_rate parameters feedback : Json) where
  abbrev media_codec : Fields
  media_codec = copy_if_present "channels" c (
      build (
        ("mimeType", mime_type)
        ∷ ("payloadType", payload_type)
        ∷ ("clockRate", clock_rate)
        ∷ ("parameters", parameters)
        ∷ ("rtcpFeedback", feedback)
        ∷ []))

  media_codec-IsMedia :
      at "mimeType" c ≡ ok mime_type
      → at "localPayloadType" c ≡ ok payload_type
      → IsMedia c media_codec
  media_codec-IsMedia e p = record {
    mime_type = mime_type;
    payload_type = payload_type;
    has_mime_type = e;
    has_payload_type = p;
    same_mime_type = simp (lookup-copy_if_present, lookup-insert);
    same_payload_type = simp (lookup-copy_if_present, lookup-insert);
  }

  module _ (kind : String) (rtx_type : Json) (apt : ℕ) where
    abbrev rtx_codec : Fields
    rtx_codec = build (
        ("mimeType", string (String.◌++◌ kind "/rtx"))
        ∷ ("payloadType", rtx_type)
        ∷ ("clockRate", clock_rate)
        ∷ ("parameters", object (build (("apt", unsigned apt) ∷ [])))
        ∷ ("rtcpFeedback", array nil)
        ∷ [])

    rtx_codec-IsRtx :
        at "localRtxPayloadType" c ≡ ok rtx_type
        → is_null rtx_type ≡ false
        → get_uint8 payload_type ≡ ok apt
        → IsRtx c media_codec rtx_codec
    rtx_codec-IsRtx r n a = record {
      media_type = payload_type;
      rtx_type = rtx_type;
      apt = apt;
      has_rtx_type = r;
      not_null = n;
      same_rtx_type = simp lookup-insert;
      has_media_type = simp (lookup-copy_if_present, lookup-insert);
      is_apt = a;
      has_apt = simp lookup-insert;
    }

pub sending_codecs_of-MediaThenRtx :
    (key : String) (c : Json) (codecs : Items)
    → sending_codecs_of key c ≡ ok codecs
    → MediaThenRtx c codecs
unfolding sending_codecs_of
sending_codecs_of-MediaThenRtx key c codecs h =
    let (mime_type, m, h₁) = >>=-eq-ok (at "mimeType" c) _ h in
    let (payload_type, p, h₂) = >>=-eq-ok (at "localPayloadType" c) _ h₁ in
    let (clock_rate, _, h₃) = >>=-eq-ok (at "clockRate" c) _ h₂ in
    let (parameters, _, h₄) = >>=-eq-ok (at key c) _ h₃ in
    let (feedback, _, h₅) = >>=-eq-ok (at "rtcpFeedback" c) _ h₄ in
    let (rtx, r, h₆) = >>=-eq-ok (at "localRtxPayloadType" c) _ h₅ in
    let is_media =
      media_codec-IsMedia c mime_type payload_type clock_rate parameters feedback m p in
    elim (Bool-cases (is_null rtx)) [
      | inl alone ↦
          subst (MediaThenRtx c) (ok-injective (rw alone at h₆))
            (media _ is_media (rw (is_null→null rtx alone) at r))
      | inr both ↦
          let (kind, _, h₇) = >>=-eq-ok (string_at "kind" c) _ (rw both at h₆) in
          let (apt, a, h₈) = >>=-eq-ok (get_uint8 payload_type) _ h₇ in
          subst (MediaThenRtx c) (ok-injective h₈) (
            media_rtx _ _ is_media (
              rtx_codec-IsRtx c mime_type payload_type clock_rate parameters feedback kind rtx apt r
                both a))
    ]

MediaThenRtx-is_nonempty :
    {c : Json} {codecs : Items} → MediaThenRtx c codecs → is_nonempty codecs ≡ true
MediaThenRtx-is_nonempty (media codec m r) = refl
MediaThenRtx-is_nonempty (media_rtx codec rtx m r) = refl

items_at-find :
    (k : String) (j : Json) {xs : Items} → items_at k j ≡ ok xs → items_of (find k j) ≡ xs
items_at-find k (object fs) h = ground arith
items_at-find k _ h = absurd (ground arith)

-- What a run that does not throw has selected.
record Sent (key kind : String) (e p : Json) : Type 0 where
  extended : Items
  codecs : Items
  has_extended : items_at "codecs" e ≡ ok extended
  selected : Selected key kind extended codecs
  has_codecs : items_of (find "codecs" p) ≡ codecs

sent : (key kind : String) (e p : Json) → sending_parameters key kind e ≡ ok p → Sent key kind e p
unfolding sending_parameters
sent key kind e p h =
    let (extended, x, h₁) = >>=-eq-ok (items_at "codecs" e) _ h in
    let (codecs, c, h₂) = >>=-eq-ok (sending_codecs key kind extended) _ h₁ in
    let (extensions, _, h₃) = >>=-eq-ok (items_at "headerExtensions" e) _ h₂ in
    let (exts, _, h₄) = >>=-eq-ok (sending_extensions kind extensions) _ h₃ in
    record {
      extended = extended;
      codecs = codecs;
      has_extended = x;
      selected = sending_codecs-Selected key kind extended codecs c;
      has_codecs = rw (← ok-injective h₄) (simp lookup-insert);
    }

Selected-has_kind :
    {key kind : String} {extended codecs : Items}
    → Selected key kind extended codecs
    → has_kind kind extended ≡ ok (is_nonempty codecs)
Selected-has_kind (no_codec h) = h
Selected-has_kind {key} (first_codec c h f r) =
    rw (MediaThenRtx-is_nonempty (sending_codecs_of-MediaThenRtx key c _ r)) h

-- Where the sending parameters of a kind can be generated, canSend answers whether they have a
-- codec.
pub can_send-codecs :
    (kind : String) (e p : Json)
    → get_sending_rtp_parameters kind e ≡ ok p
    → can_send kind e ≡ ok (is_nonempty (items_of (find "codecs" p)))
unfolding get_sending_rtp_parameters can_send
can_send-codecs kind e p h =
    let s = sent "localParameters" kind e p h in
    rw (s.has_extended, s.has_codecs) (Selected-has_kind s.selected)

Selected-first :
    {key kind : String} {extended codecs : Items}
    → Selected key kind extended codecs
    → is_nonempty codecs ≡ true
    → (c : Json) × FirstOfKind kind extended c × MediaThenRtx c codecs
Selected-first (no_codec h) n = ground arith
Selected-first {key} (first_codec c h f r) n = (c, f, sending_codecs_of-MediaThenRtx key c _ r)

-- If the sending parameters of a kind have a codec, then they are the first extended codec of that
-- kind, under its local payload type, and behind it its RTX codec, exactly if it has a local RTX
-- payload type; the `apt` of the RTX codec is the payload type of the media codec modulo 256.
pub sending_first_codec :
    (kind : String) (e p : Json)
    → get_sending_rtp_parameters kind e ≡ ok p
    → is_nonempty (items_of (find "codecs" p)) ≡ true
    → (c : Json) × FirstOfKind kind (items_of (find "codecs" e)) c
      × MediaThenRtx c (items_of (find "codecs" p))
unfolding get_sending_rtp_parameters
sending_first_codec kind e p h n =
    let s = sent "localParameters" kind e p h in
    rw (items_at-find "codecs" e s.has_extended, s.has_codecs)
      (Selected-first s.selected (rw s.has_codecs at n))
