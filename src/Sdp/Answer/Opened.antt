-- ===== src/Sdp/Answer/Opened.antt =====
-- What AnswerMediaSection of src/sdp/MediaSection.cpp takes from the offer.
use libmediasoupclient.Prelude.{
  ℕ, String, Option, none, some, ◌≡◌, ◌==◌, arith, ap, subst, inl, inr, Bool-cases,
}
use libmediasoupclient.Prelude.Result.{ok, >>=-eq-ok, ok-injective}
use libmediasoupclient.Json.{
  Json, integer, pos, string, array, object, Items, Fields, lookup, insert, is_string,
}
use libmediasoupclient.Json.Access.{lookup-insert}
use libmediasoupclient.Ortc.Checks.{items_of, holds}
use libmediasoupclient.Ortc.Objects.{at, find}
use libmediasoupclient.Sdp.MediaSection.{set_setup}
use libmediasoupclient.Sdp.Answer.{
  answer_codecs, answer_payloads, answer_extensions, answer_rids, with_simulcast, with_mixed,
  answer_media,
}
use libmediasoupclient.Sdp.Answer.Extensions.{Common, answer_extensions-Common}

-- The media section has a MID and is open.
pub record IsOpenAt (mid : Json) (fs : Fields) : Type 0 where
  pub has_mid : lookup "mid" fs ≡ some mid
  pub has_port : lookup "port" fs ≡ some (integer (pos 7))

pub set_setup-IsOpenAt :
    (mid : Json) (role : String) (fs : Fields) → IsOpenAt mid fs → IsOpenAt mid (set_setup role fs)
set_setup-IsOpenAt mid role fs old = elim (Bool-cases (role == "client")) [
  | inl c ↦ rw c (set "active")
  | inr c ↦ elim (Bool-cases (role == "server")) [
    | inl p ↦ rw (c, p) (set "passive")
    | inr p ↦ elim (Bool-cases (role == "auto")) [
      | inl a ↦ rw (c, p, a) (set "actpass")
      | inr a ↦ rw (c, p, a) old
    ]
  ]
]
  where
    set : (value : String) → IsOpenAt mid (insert "setup" (string value) fs)
    set value = record {
      has_mid = simp lookup-insert old.has_mid;
      has_port = simp lookup-insert old.has_port;
    }

-- The fields with a MID, open, and with the array `ext`.
record IsAnswer (mid ext : Json) (fs : Fields) : Type 0 where
  is_open : IsOpenAt mid fs
  has_ext : lookup "ext" fs ≡ some ext

with_simulcast-IsAnswer :
    (mid ext : Json) (simulcast rids : Option Json) (fs ws : Fields)
    → with_simulcast simulcast rids fs ≡ ok ws
    → IsAnswer mid ext fs
    → IsAnswer mid ext ws
unfolding with_simulcast
with_simulcast-IsAnswer mid ext (some (object s)) none fs ws h old = absurd (ground (arith, h))
with_simulcast-IsAnswer mid ext (some (object s)) (some (array rids)) fs ws h old =
    let (list, _, h₁) = >>=-eq-ok (at "list1" (object s)) _ h in
    let (answered, _, last) = >>=-eq-ok (answer_rids rids) _ h₁ in
    subst (IsAnswer mid ext) (ok-injective last) (record {
      is_open = record {
        has_mid = simp lookup-insert old.is_open.has_mid;
        has_port = simp lookup-insert old.is_open.has_port;
      };
      has_ext = simp lookup-insert old.has_ext;
    })
with_simulcast-IsAnswer mid ext _ _ fs ws h old = subst (IsAnswer mid ext) (ok-injective h) old

with_mixed-IsAnswer :
    (mid ext offer : Json) (fs : Fields)
    → IsAnswer mid ext fs
    → IsAnswer mid ext (with_mixed offer fs)
with_mixed-IsAnswer mid ext offer fs old =
    elim (Bool-cases (holds is_string (find "extmapAllowMixed" offer))) [
      | inl mixed ↦ rw mixed (record {
        is_open = record {
          has_mid = simp lookup-insert old.is_open.has_mid;
          has_port = simp lookup-insert old.is_open.has_port;
        };
        has_ext = simp lookup-insert old.has_ext;
      })
      | inr plain ↦ rw plain old
    ]

-- The header extensions of an answer are those that the offer has too.
pub record SharesExtensions (offer_media_object answer_parameters : Json) (fs : Fields)
    : Type 0 where
  pub entries : Items
  pub has_ext : lookup "ext" fs ≡ some (array entries)
  pub common :
      Common offer_media_object (items_of (find "headerExtensions" answer_parameters)) entries

pub answer_media-IsOpenAt :
    (float_text : ℕ → String) (options : Option Json) (mid offer offered answered : Json)
    (fs ws : Fields) (changed : Items)
    → answer_media float_text options offer offered answered fs ≡ ok (ws, changed)
    → IsOpenAt mid fs
    → IsOpenAt mid ws × SharesExtensions offer answered ws
unfolding answer_media
answer_media-IsOpenAt float_text options mid offer offered answered fs ws changed h old =
    let codecs = items_of (find "codecs" answered) in
    let (d, _, h₁) =
      >>=-eq-ok (answer_codecs float_text options codecs (items_of (find "codecs" offered))) _ h in
    let (payloads, _, h₂) = >>=-eq-ok (answer_payloads codecs "") _ h₁ in
    let (ext, is_ext, h₃) =
      >>=-eq-ok (answer_extensions offer (items_of (find "headerExtensions" answered))) _ h₂ in
    let before : Fields = insert "ext" (array ext) (
      insert "payloads" (string payloads) (
        insert "fmtp" (array d.0.fmtp) (
          insert "rtcpFb" (array d.0.rtcp_fb)
            (insert "rtp" (array d.0.rtp) (insert "direction" (string "recvonly") fs))))) in
    let is_before : IsAnswer mid (array ext) before = record {
      is_open = record {
        has_mid = simp lookup-insert old.has_mid;
        has_port = simp lookup-insert old.has_port;
      };
      has_ext = simp lookup-insert;
    } in
    let (x, is_x, last) =
      >>=-eq-ok
        (with_simulcast (find "simulcast" offer) (find "rids" offer) (with_mixed offer before)) _
        h₃ in
    let is_answer =
      with_simulcast-IsAnswer mid (array ext) (find "simulcast" offer) (find "rids" offer)
        (with_mixed offer before) x is_x
        (with_mixed-IsAnswer mid (array ext) offer before is_before) in
    subst (λ y. IsOpenAt mid y × SharesExtensions offer answered y)
      (ap (λ (y : Fields × Items). y.0) (ok-injective last))
      (
        record {
          has_mid = simp lookup-insert is_answer.is_open.has_mid;
          has_port = simp lookup-insert is_answer.is_open.has_port;
        },
        record {
          entries = ext;
          has_ext = simp lookup-insert is_answer.has_ext;
          common =
              answer_extensions-Common offer (items_of (find "headerExtensions" answered)) ext
                is_ext;
        },
      )
