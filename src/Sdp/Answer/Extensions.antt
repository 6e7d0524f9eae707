-- ===== src/Sdp/Answer/Extensions.antt =====
-- The header extensions that AnswerMediaSection of src/sdp/MediaSection.cpp keeps.
use libmediasoupclient.Prelude.{
  true, false, some, ◌≡◌, ◌∙◌, arith, ap, subst, inl, inr, Bool-cases, [], ◌∷◌,
}
use libmediasoupclient.Prelude.Result.{ok, >>=-eq-ok, ok-injective}
use libmediasoupclient.Json.{Json, object, Items, nil, cons}
use libmediasoupclient.Json.Number.{json_eq}
use libmediasoupclient.Ortc.Checks.{items_of}
use libmediasoupclient.Ortc.Matching.{or_null}
use libmediasoupclient.Ortc.Objects.{at, find, build}
use libmediasoupclient.Sdp.Answer.{has_extension, answer_extensions}

-- An array has a header extension with the URI.
pub data HasUri (uri : Json) : Items → Type 0 where
  here :
      {local uri' : Json} {rest : Items}
      → at "uri" local ≡ ok uri'
      → json_eq uri' uri ≡ true
      → HasUri uri (cons local rest)
  there : {local : Json} {rest : Items} → HasUri uri rest → HasUri uri (cons local rest)

-- None has it.
pub data LacksUri (uri : Json) : Items → Type 0 where
  lacks_nil : LacksUri uri nil
  lacks_cons :
      {local uri' : Json} {rest : Items}
      → at "uri" local ≡ ok uri'
      → json_eq uri' uri ≡ false
      → LacksUri uri rest
      → LacksUri uri (cons local rest)

has_extension-HasUri :
    (uri : Json) (locals : Items) → has_extension uri locals ≡ ok true → HasUri uri locals
unfolding has_extension
has_extension-HasUri uri nil h = absurd (ground (arith, ok-injective h))
has_extension-HasUri uri (cons local rest) h =
    let (u, is_u, h₁) = >>=-eq-ok (at "uri" local) _ h in
    elim (Bool-cases (json_eq u uri)) [
      | inl same ↦ here is_u same
      | inr other ↦ there (has_extension-HasUri uri rest (rw other at h₁))
    ]

has_extension-LacksUri :
    (uri : Json) (locals : Items) → has_extension uri locals ≡ ok false → LacksUri uri locals
unfolding has_extension
has_extension-LacksUri uri nil h = lacks_nil
has_extension-LacksUri uri (cons local rest) h =
    let (u, is_u, h₁) = >>=-eq-ok (at "uri" local) _ h in
    elim (Bool-cases (json_eq u uri)) [
      | inl same ↦ absurd (ground (arith, ok-injective (rw same at h₁)))
      | inr other ↦ lacks_cons is_u other (has_extension-LacksUri uri rest (rw other at h₁))
    ]

abbrev pub uri_of : Json → Json
uri_of ext = or_null (find "uri" ext)

-- The entry of `ext` for a header extension.
abbrev pub entry : Json → Json
entry ext = object (build (("uri", uri_of ext) ∷ ("value", or_null (find "id" ext)) ∷ []))

-- The entries for the extensions of the answer that the offer has too, in their order.
pub data Common (offer_media_object : Json) : Items → Items → Type 0 where
  no_extensions : Common offer_media_object nil nil
  kept :
      {ext offered : Json} {extensions entries : Items}
      → at "ext" offer_media_object ≡ ok offered
      → HasUri (uri_of ext) (items_of (some offered))
      → Common offer_media_object extensions entries
      → Common offer_media_object (cons ext extensions) (cons (entry ext) entries)
  left_out :
      {ext offered : Json} {extensions entries : Items}
      → at "ext" offer_media_object ≡ ok offered
      → LacksUri (uri_of ext) (items_of (some offered))
      → Common offer_media_object extensions entries
      → Common offer_media_object (cons ext extensions) entries

-- The header extensions of an answer are those of its parameters whose URI is one of the offer's
-- header extensions, in their order, each with its URI and its id.
pub answer_extensions-Common :
    (offer_media_object : Json) (extensions entries : Items)
    → answer_extensions offer_media_object extensions ≡ ok entries
    → Common offer_media_object extensions entries
unfolding answer_extensions
answer_extensions-Common offer nil entries h =
    subst (Common offer nil) (ok-injective h) no_extensions
answer_extensions-Common offer (cons ext rest) entries h =
    let (offered, o, h₁) = >>=-eq-ok (at "ext" offer) _ h in
    let (known, k, h₂) = >>=-eq-ok (has_extension (uri_of ext) (items_of (some offered))) _ h₁ in
    let (later, is_later, last) = >>=-eq-ok (answer_extensions offer rest) _ h₂ in
    let tail = answer_extensions-Common offer rest later is_later in
    subst (Common offer (cons ext rest)) (ok-injective last) (elim (Bool-cases known) [
      | inl yes_known ↦ rw yes_known (
          kept o (has_extension-HasUri (uri_of ext) (items_of (some offered)) (k ∙ ap ok yes_known))
            tail)
      | inr no_known ↦ rw no_known (
          left_out o
            (has_extension-LacksUri (uri_of ext) (items_of (some offered)) (k ∙ ap ok no_known))
            tail)
    ])
