-- ===== src/Sdp/Offer/Built.antt =====
-- The sections that OfferMediaSection of src/sdp/MediaSection.cpp makes.
use libmediasoupclient.Prelude.{
  ℕ, String, true, false, ◌||◌, some, ◌≡◌, ◌==◌, ◌∙◌, refl, arith, ap, subst, inl, inr, Bool-cases,
}
use libmediasoupclient.Prelude.Result.{Result, ok, err, >>=-eq-ok, ok-injective}
use libmediasoupclient.Json.{Json, integer, pos, string, array, Items, Fields, lookup}
use libmediasoupclient.Json.Access.{lookup-insert}
use libmediasoupclient.Json.Number.{json_eq}
use libmediasoupclient.Ortc.Checks.{each}
use libmediasoupclient.Ortc.Objects.{at, items_at}
use libmediasoupclient.Sdp.MediaSection.{MediaSection, get_mid, is_closed, offer}
use libmediasoupclient.Sdp.Section.{
  section_fields, Described, describe_codecs, payloads_text, extension_object, get_uint32,
}
use libmediasoupclient.Sdp.Section.Codecs.{Rtps, describe_codecs-Rtps}
use libmediasoupclient.Sdp.Offer.{
  Source, offer_source, offer_media, application_media, offer_head, OfferArguments,
  offer_audio_video, offer_body, offer_media_section, first_encoding, rtx_ssrc,
}

-- The media section has a MID and is open.
record IsOpenAt (mid : String) (fs : Fields) : Type 0 where
  has_mid : lookup "mid" fs ≡ some (string mid)
  has_port : lookup "port" fs ≡ some (integer (pos 7))

offer_head-IsOpenAt :
    (sctp : Json) (mid kind : String) (fs : Fields) → IsOpenAt mid (offer_head sctp mid kind fs)
offer_head-IsOpenAt sctp mid kind fs = record {
  has_mid = simp lookup-insert;
  has_port = simp lookup-insert;
}

application_media-IsOpenAt :
    (mid : String) (sctp : Json) (fs ws : Fields)
    → application_media sctp fs ≡ ok ws
    → IsOpenAt mid fs
    → IsOpenAt mid ws
unfolding application_media
application_media-IsOpenAt mid sctp fs ws h old =
    let (port, _, h₁) = >>=-eq-ok (at "port" sctp) _ h in
    let (size, _, last) = >>=-eq-ok (at "maxMessageSize" sctp) _ h₁ in
    subst (IsOpenAt mid) (ok-injective last) (record {
      has_mid = simp lookup-insert old.has_mid;
      has_port = simp lookup-insert old.has_port;
    })

offer_media-IsOpenAt :
    (mid : String) (s : Source) (msid : String) (fs : Fields)
    → IsOpenAt mid fs
    → IsOpenAt mid (offer_media s msid fs)
      × (lookup "rtp" (offer_media s msid fs) ≡ some (array s.described.rtp))
      × (lookup "direction" (offer_media s msid fs) ≡ some (string "sendonly"))
unfolding offer_media
offer_media-IsOpenAt mid s msid fs old = (
  record { has_mid = simp lookup-insert old.has_mid; has_port = simp lookup-insert old.has_port },
  simp lookup-insert,
  simp lookup-insert,
)

described_of : Described → Result Source → Result Described
described_of d (ok s) = ok s.described
described_of d (err e) = err e

-- The codecs that are described.
offer_source-codecs :
    (float_text : ℕ → String) (params : Json) (s : Source)
    → offer_source float_text params ≡ ok s
    → (codecs : Items) × (items_at "codecs" params ≡ ok codecs)
      × (describe_codecs float_text codecs ≡ ok s.described)
unfolding offer_source described_of
offer_source-codecs float_text params s h =
    let (codecs, c, h₁) = >>=-eq-ok (items_at "codecs" params) _ h in
    let (described, d, h₂) = >>=-eq-ok (describe_codecs float_text codecs) _ h₁ in
    let (payloads, _, h₃) = >>=-eq-ok (payloads_text codecs "") _ h₂ in
    let (extensions, _, h₄) = >>=-eq-ok (items_at "headerExtensions" params) _ h₃ in
    let (ext, _, h₅) = >>=-eq-ok (each extension_object extensions) _ h₄ in
    let (encoding, _, h₆) = >>=-eq-ok (first_encoding params) _ h₅ in
    let (ssrc_value, _, h₇) = >>=-eq-ok (at "ssrc" encoding) _ h₆ in
    let (ssrc, _, h₈) = >>=-eq-ok (get_uint32 ssrc_value) _ h₇ in
    let (rtx, _, h₉) = >>=-eq-ok (rtx_ssrc encoding) _ h₈ in
    let (rtcp, _, last) = >>=-eq-ok (at "rtcp" params) _ h₉ in
    (codecs, c, d ∙ ap (λ (x : Result Source). described_of described x) last)

-- A section for audio or video, of the parameters.
pub record DescribesMedia (params : Json) (m : MediaSection) : Type 0 where
  pub codecs : Items
  pub rtps : Items
  pub has_codecs : items_at "codecs" params ≡ ok codecs
  pub has_rtp : lookup "rtp" m.media_object ≡ some (array rtps)
  pub described : Rtps codecs rtps
  pub sends : lookup "direction" m.media_object ≡ some (string "sendonly")

section_of : Fields → MediaSection
section_of fs = record { side = offer; media_object = fs }

offer_body_lem :
    (float_text : ℕ → String) (a : OfferArguments) (fs ws : Fields)
    → offer_body float_text a fs ≡ ok ws
    → IsOpenAt a.mid fs
    → IsOpenAt a.mid ws
      × ((a.kind == "audio" || a.kind == "video") ≡ true
          → DescribesMedia a.rtp_parameters (section_of ws))
unfolding offer_body offer_audio_video section_of
offer_body_lem float_text a fs ws h old =
    elim (Bool-cases (a.kind == "audio" || a.kind == "video")) [
      | inl media ↦
          let (s, is_s, last) =
            >>=-eq-ok (offer_source float_text a.rtp_parameters) _ (rw media at h) in
          let (codecs, c, d) = offer_source-codecs float_text a.rtp_parameters s is_s in
          let (still, has_rtp, sends) = offer_media-IsOpenAt a.mid s _ fs old in
          subst
            (λ x.
              IsOpenAt a.mid x
              × ((a.kind == "audio" || a.kind == "video") ≡ true
                  → DescribesMedia a.rtp_parameters (record { side = offer; media_object = x })))
            (ok-injective last)
            (
              still,
              λ _. record {
                codecs = codecs;
                rtps = s.described.rtp;
                has_codecs = c;
                has_rtp = has_rtp;
                described = describe_codecs-Rtps float_text codecs s.described d;
                sends = sends;
              },
            )
      | inr other ↦ (
        elim (Bool-cases (a.kind == "application")) [
          | inl application ↦
              application_media-IsOpenAt a.mid a.sctp_parameters fs ws
                (rw (other, application) at h) old
          | inr unknown ↦ subst (IsOpenAt a.mid) (ok-injective (rw (other, unknown) at h)) old
        ],
        λ media. absurd (ground (arith, media, other)),
      )
    ]

get_mid-open :
    (mid : String) (fs : Fields)
    → IsOpenAt mid fs
    → (get_mid (section_of fs) ≡ ok mid) × (is_closed (section_of fs) ≡ ok false)
unfolding get_mid is_closed json_eq section_of
get_mid-open mid fs o = (rw (o.has_mid, at) refl, rw (o.has_port, at) refl)

-- If OfferMediaSection can be constructed, the section has the given MID and is open; for audio and
-- video it is for sending only, and its `rtp` has one entry for each codec of the parameters, in their
-- order, with the payload type, the clock rate, the name without "audio/" or "video/" in front, and
-- the number of channels if that is above one.
pub offer_media_section-built :
    (float_text : ℕ → String) (a : OfferArguments) (m : MediaSection)
    → offer_media_section float_text a ≡ ok m
    → (get_mid m ≡ ok a.mid)
      × (is_closed m ≡ ok false)
      × ((a.kind == "audio" || a.kind == "video") ≡ true → DescribesMedia a.rtp_parameters m)
unfolding offer_media_section section_of
offer_media_section-built float_text a m h =
    let (base, _, h₁) = >>=-eq-ok (section_fields a.ice_parameters a.ice_candidates) _ h in
    let (fs, b, last) =
      >>=-eq-ok (offer_body float_text a (offer_head a.sctp_parameters a.mid a.kind base)) _ h₁ in
    let (open_now, described) =
      offer_body_lem float_text a (offer_head a.sctp_parameters a.mid a.kind base) fs b
        (offer_head-IsOpenAt a.sctp_parameters a.mid a.kind base) in
    let (mid, closed) = get_mid-open a.mid fs open_now in
    subst
      (λ x.
        (get_mid x ≡ ok a.mid)
        × (is_closed x ≡ ok false)
        × ((a.kind == "audio" || a.kind == "video") ≡ true → DescribesMedia a.rtp_parameters x))
      (ok-injective last) (mid, closed, described)
