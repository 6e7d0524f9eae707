-- ===== src/Sdp/Section/Codecs.antt =====
-- The array `rtp` that the constructors of src/sdp/MediaSection.cpp make.
use libmediasoupclient.Prelude.{
  ℕ, String, false, Option, none, some, [], ◌∷◌, ◌≡◌, ◌==◌, ◌∙◌, refl, arith, ap, sym, subst, inl,
  inr, Bool-cases, if◌then◌else◌, ltb, Option-cases,
}
use libmediasoupclient.Prelude.Result.{ok, >>=-eq-ok, ok-injective}
use libmediasoupclient.Json.{Json, unsigned, string, object, Items, nil, cons, Fields, lookup}
use libmediasoupclient.Json.Access.{lookup-insert}
use libmediasoupclient.Json.Number.{get_uint8}
use libmediasoupclient.Ortc.Checks.{append, each}
use libmediasoupclient.Ortc.Objects.{build, at, string_at, items_at, find}
use libmediasoupclient.Sdp.Section.{
  with_channels, rtp_object, codec_name, Described, describe_codec, describe_codecs,
  feedback_object,
}

-- The `encoding` of an entry for the `channels` of its codec: their number modulo 256 if that is
-- above one.
pub data Channels : Option Json → Option Json → Type 0 where
  no_channels : Channels none none
  some_channels :
      {channels : Json} (n : ℕ)
      → get_uint8 channels ≡ ok n
      → Channels (some channels) (if ltb 1 n then some (unsigned n) else none)

-- An entry of `rtp` describes a codec.
pub record IsRtpOf (codec rtp : Json) : Type 0 where
  pub mime_type : String
  pub payload : find "payload" rtp ≡ find "payloadType" codec
  pub rate : find "rate" rtp ≡ find "clockRate" codec
  pub has_mime_type : string_at "mimeType" codec ≡ ok mime_type
  pub name : find "codec" rtp ≡ some (string (codec_name mime_type))
  pub channels : Channels (find "channels" codec) (find "encoding" rtp)

at-find : (k : String) (j v : Json) → at k j ≡ ok v → find k j ≡ some v
at-find k (object fs) v h = elim (Option-cases (lookup k fs)) [
  | inl missing ↦ absurd (ground (arith, rw (missing, at) at h))
  | inr (w, found) ↦ found ∙ ap some (ok-injective (rw (found, at) at h))
]
at-find k _ v h = absurd (ground (arith, h))

with_channels-Channels :
    (channels : Option Json) (fs ws : Fields)
    → with_channels channels fs ≡ ok ws
    → lookup "encoding" fs ≡ none
    → Channels channels (lookup "encoding" ws)
      × ((k : String) → ("encoding" == k) ≡ false → lookup k ws ≡ lookup k fs)
unfolding with_channels
with_channels-Channels none fs ws h absent =
    let same : fs ≡ ws = ok-injective h in
    subst
      (λ x.
        Channels none (lookup "encoding" x)
        × ((k : String) → ("encoding" == k) ≡ false → lookup k x ≡ lookup k fs))
      same (subst (Channels none) (sym absent) no_channels, λ k _. refl)
with_channels-Channels (some c) fs ws h absent =
    let (n, is_n, last) = >>=-eq-ok (get_uint8 c) _ h in
    subst
      (λ x.
        Channels (some c) (lookup "encoding" x)
        × ((k : String) → ("encoding" == k) ≡ false → lookup k x ≡ lookup k fs))
      (ok-injective last)
      (elim (Bool-cases (ltb 1 n)) [
        | inl many ↦ rw many (
          subst (Channels (some c))
              (rw (many, lookup-insert "encoding" "encoding" (unsigned n) fs) refl)
              (some_channels n is_n),
          λ k other. rw (lookup-insert k "encoding" (unsigned n) fs, other) refl,
        )
        | inr one ↦
            rw one (
              subst (Channels (some c)) (rw (one, absent) refl) (some_channels n is_n),
              λ k _. refl,
            )
      ])

rtp_object-IsRtpOf : (codec rtp : Json) → rtp_object codec ≡ ok rtp → IsRtpOf codec rtp
unfolding rtp_object lookup
rtp_object-IsRtpOf codec rtp h =
    let (payload, p, h₁) = >>=-eq-ok (at "payloadType" codec) _ h in
    let (mime, is_mime, h₂) = >>=-eq-ok (string_at "mimeType" codec) _ h₁ in
    let (rate, r, h₃) = >>=-eq-ok (at "clockRate" codec) _ h₂ in
    let first =
      build (("payload", payload) ∷ ("codec", string (codec_name mime)) ∷ ("rate", rate) ∷ []) in
    let (fs, c, last) = >>=-eq-ok (with_channels (find "channels" codec) first) _ h₃ in
    let (channels, same) =
      with_channels-Channels (find "channels" codec) first fs c (simp lookup-insert) in
    subst (IsRtpOf codec) (ok-injective last) (record {
      mime_type = mime;
      payload =
          same "payload" refl ∙ simp lookup-insert (sym (at-find "payloadType" codec payload p));
      rate = same "rate" refl ∙ simp lookup-insert (sym (at-find "clockRate" codec rate r));
      has_mime_type = is_mime;
      name = same "codec" refl ∙ simp lookup-insert;
      channels = channels;
    })

-- The entries of `rtp` for the codecs, one for each in their order.
pub data Rtps : Items → Items → Type 0 where
  no_rtps : Rtps nil nil
  more_rtps :
      {codec rtp : Json} {codecs rtps : Items}
      → IsRtpOf codec rtp
      → Rtps codecs rtps
      → Rtps (cons codec codecs) (cons rtp rtps)

describe_codec-rtp :
    (float_text : ℕ → String) (codec : Json) (d : Described)
    → describe_codec float_text codec ≡ ok d
    → (rtp : Json) × IsRtpOf codec rtp × (cons rtp nil ≡ d.rtp)
unfolding describe_codec
describe_codec-rtp float_text codec d h =
    let (rtp, r, h₁) = >>=-eq-ok (rtp_object codec) _ h in
    let (parameters, _, h₂) = >>=-eq-ok (at "parameters" codec) _ h₁ in
    let (payload, _, h₃) = >>=-eq-ok (at "payloadType" codec) _ h₂ in
    let (feedback, _, h₄) = >>=-eq-ok (items_at "rtcpFeedback" codec) _ h₃ in
    let (objects, _, last) = >>=-eq-ok (each (feedback_object payload) feedback) _ h₄ in
    (rtp, rtp_object-IsRtpOf codec rtp r, ap (λ (x : Described). x.rtp) (ok-injective last))

pub describe_codecs-Rtps :
    (float_text : ℕ → String) (codecs : Items) (d : Described)
    → describe_codecs float_text codecs ≡ ok d
    → Rtps codecs d.rtp
unfolding describe_codecs
describe_codecs-Rtps float_text nil d h =
    subst (λ (x : Described). Rtps nil x.rtp) (ok-injective h) no_rtps
describe_codecs-Rtps float_text (cons codec rest) d h =
    let (here, is_here, h₁) = >>=-eq-ok (describe_codec float_text codec) _ h in
    let (later, is_later, last) = >>=-eq-ok (describe_codecs float_text rest) _ h₁ in
    let (rtp, is_rtp, one) = describe_codec-rtp float_text codec here is_here in
    subst (λ (x : Described). Rtps (cons codec rest) x.rtp) (ok-injective last)
      (subst (λ x. Rtps (cons codec rest) (append x later.rtp)) one
        (more_rtps is_rtp (describe_codecs-Rtps float_text rest later is_later)))
