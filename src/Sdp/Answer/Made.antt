-- ===== src/Sdp/Answer/Made.antt =====
-- The sections that AnswerMediaSection of src/sdp/MediaSection.cpp makes.
use libmediasoupclient.Prelude.{
  ℕ, String, true, false, ◌||◌, ◌≡◌, ◌==◌, ◌∙◌, refl, arith, ap, sym, subst, inl, inr, Bool-cases,
  [], ◌∷◌,
}
use libmediasoupclient.Prelude.Result.{ok, >>=-eq-ok, ok-injective}
use libmediasoupclient.Json.{Json, integer, pos, string, object, Items, Fields, insert}
use libmediasoupclient.Json.Access.{lookup-insert}
use libmediasoupclient.Json.Number.{json_eq}
use libmediasoupclient.Ortc.Objects.{at, string_at, build}
use libmediasoupclient.Sdp.MediaSection.{MediaSection, is_closed, answer, set_setup}
use libmediasoupclient.Sdp.Section.{section_fields}
use libmediasoupclient.Sdp.Offer.{application_media}
use libmediasoupclient.Sdp.Answer.{
  AnswerArguments, answer_application, answer_body, answer_media_section,
}
use libmediasoupclient.Sdp.Answer.Opened.{
  IsOpenAt, set_setup-IsOpenAt, SharesExtensions, answer_media-IsOpenAt,
}

application_media-IsOpenAt :
    (mid : Json) (sctp : Json) (fs ws : Fields)
    → application_media sctp fs ≡ ok ws
    → IsOpenAt mid fs
    → IsOpenAt mid ws
unfolding application_media
application_media-IsOpenAt mid sctp fs ws h old =
    let (port, _, h₁) = >>=-eq-ok (at "port" sctp) _ h in
    let (size, _, last) = >>=-eq-ok (at "maxMessageSize" sctp) _ h₁ in
    subst (IsOpenAt mid) (ok-injective last) (record {
      has_mid = simp lookup-insert old.has_mid;
      has_port = simp lookup-insert old.has_port;
    })

-- What holds of the fields of an answer of a type.
record IsAnswerOf (a : AnswerArguments) (type : String) (mid : Json) (fs : Fields) : Type 0 where
  is_open : IsOpenAt mid fs
  shares :
      (type == "audio" || type == "video") ≡ true
      → SharesExtensions a.offer_media_object a.answer_rtp_parameters fs

answer_body-IsAnswerOf :
    (float_text : ℕ → String) (a : AnswerArguments) (type : String) (mid : Json) (fs ws : Fields)
    (changed : Items)
    → answer_body float_text a type fs ≡ ok (ws, changed)
    → IsOpenAt mid fs
    → IsAnswerOf a type mid ws
unfolding answer_body answer_application
answer_body-IsAnswerOf float_text a type mid fs ws changed h old =
    elim (Bool-cases (type == "audio" || type == "video")) [
      | inl media ↦
          let (is_open, shares) =
            answer_media-IsOpenAt float_text a.codec_options mid a.offer_media_object
              a.offer_rtp_parameters a.answer_rtp_parameters fs ws changed (rw media at h) old in
          record { is_open = is_open; shares = λ _. shares }
      | inr other ↦ record {
        is_open = elim (Bool-cases (type == "application")) [
          | inl application ↦
              let (x, is_x, last) =
                >>=-eq-ok (application_media a.sctp_parameters fs) _
                  (rw (other, application) at h) in
              subst (IsOpenAt mid) (ap (λ (y : Fields × Items). y.0) (ok-injective last))
                (application_media-IsOpenAt mid a.sctp_parameters fs x is_x old)
          | inr unknown ↦
              subst (IsOpenAt mid)
                (ap (λ (y : Fields × Items). y.0) (ok-injective (rw (other, unknown) at h))) old
        ];
        shares = λ media. absurd (ground (arith, media, other));
      }
    ]

is_closed-open :
    (mid : Json) (fs : Fields)
    → IsOpenAt mid fs
    → is_closed (record { side = answer; media_object = fs }) ≡ ok false
unfolding is_closed json_eq
is_closed-open mid fs o = rw (o.has_port, at) refl

-- If AnswerMediaSection can be constructed, the section is open and has the MID of the offer's
-- section; for audio and video its header extensions are those of the answer's parameters whose URI is
-- one of the offer's header extensions, in their order.
pub answer_media_section-built :
    (float_text : ℕ → String) (a : AnswerArguments) (type : String) (m : MediaSection)
    (changed : Items)
    → answer_media_section float_text a ≡ ok (m, changed)
    → string_at "type" a.offer_media_object ≡ ok type
    → (is_closed m ≡ ok false)
      × (at "mid" a.offer_media_object ≡ at "mid" (object m.media_object))
      × ((type == "audio" || type == "video") ≡ true
          → SharesExtensions a.offer_media_object a.answer_rtp_parameters m.media_object)
unfolding answer_media_section
answer_media_section-built float_text a type m changed h is_type =
    let (base, _, h₁) = >>=-eq-ok (section_fields a.ice_parameters a.ice_candidates) _ h in
    let (t, is_t, h₂) = >>=-eq-ok (string_at "type" a.offer_media_object) _ h₁ in
    let (mid, is_mid, h₃) = >>=-eq-ok (at "mid" a.offer_media_object) _ h₂ in
    let (protocol, _, h₄) = >>=-eq-ok (at "protocol" a.offer_media_object) _ h₃ in
    let (role, _, h₅) = >>=-eq-ok (string_at "role" a.dtls_parameters) _ h₄ in
    let same : t ≡ type = ok-injective (sym is_t ∙ is_type) in
    let plain : Fields = insert "port" (integer (pos 7)) (
      insert "connection"
        (object (build (("ip", string "127.0.0.1") ∷ ("version", integer (pos 4)) ∷ [])))
        (insert "protocol" protocol (insert "type" (string t) (insert "mid" mid base)))) in
    let opened : IsOpenAt mid plain = record {
      has_mid = simp lookup-insert;
      has_port = simp lookup-insert;
    } in
    let ((fs, codecs), is_fs, last) =
      >>=-eq-ok (answer_body float_text a t (set_setup role plain)) _ h₅ in
    let is_answer =
      answer_body-IsAnswerOf float_text a t mid (set_setup role plain) fs codecs is_fs
        (set_setup-IsOpenAt mid role plain opened) in
    subst
      (λ x.
        (is_closed x ≡ ok false)
        × (at "mid" a.offer_media_object ≡ at "mid" (object x.media_object))
        × ((type == "audio" || type == "video") ≡ true
            → SharesExtensions a.offer_media_object a.answer_rtp_parameters x.media_object))
      (ap (λ (y : MediaSection × Items). y.0) (ok-injective last))
      (
        is_closed-open mid fs is_answer.is_open,
        is_mid ∙ rw (is_answer.is_open.has_mid, at) refl,
        λ media.
            is_answer.shares (subst (λ k. (k == "audio" || k == "video") ≡ true) (sym same) media),
      )
