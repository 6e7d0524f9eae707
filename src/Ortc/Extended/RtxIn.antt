-- ===== src/Ortc/Extended/RtxIn.antt =====
-- The search for the RTX codec of a payload type, in getExtendedRtpCapabilities of src/ortc.cpp.
use libmediasoupclient.Prelude.{
  Bool, true, false, none, ◌⊎◌, some, ◌≡◌, refl, arith, subst, sym, inl, inr, Bool-cases,
}
use libmediasoupclient.Prelude.Result.{ok, >>=-eq-ok, ok-injective}
use libmediasoupclient.Json.{Json, Items, nil, cons}
use libmediasoupclient.Json.Number.{json_eq}
use libmediasoupclient.Ortc.Objects.{at}
use libmediasoupclient.Ortc.Matching.{is_rtx_codec}
use libmediasoupclient.Ortc.Extended.{is_rtx_of, find_rtx}

-- An RTX codec whose `apt` is the payload type, or is not.
pub record Rtx (payload_type codec : Json) (is_for : Bool) : Type 0 where
  pub parameters : Json
  pub apt : Json
  pub is_rtx : is_rtx_codec codec ≡ ok true
  pub has_parameters : at "parameters" codec ≡ ok parameters
  pub has_apt : at "apt" parameters ≡ ok apt
  pub fits : json_eq apt payload_type ≡ is_for

-- The codec is no RTX codec for the payload type.
abbrev pub NotRtxFor : Json → Json → Type 0
NotRtxFor payload_type codec = (is_rtx_codec codec ≡ ok false) ⊎ Rtx payload_type codec false

-- The first RTX codec of the list for the payload type.
pub data RtxIn (payload_type : Json) : Items → Json → Type 0 where
  first :
      {rtx : Json} {rest : Items}
      → Rtx payload_type rtx true
      → RtxIn payload_type (cons rtx rest) rtx
  later :
      {rtx other : Json} {rest : Items}
      → NotRtxFor payload_type other
      → RtxIn payload_type rest rtx
      → RtxIn payload_type (cons other rest) rtx

-- The list has no RTX codec for the payload type.
pub data NoRtx (payload_type : Json) : Items → Type 0 where
  done : NoRtx payload_type nil
  more :
      {codec : Json} {rest : Items}
      → NotRtxFor payload_type codec
      → NoRtx payload_type rest
      → NoRtx payload_type (cons codec rest)

is_rtx_of-cases :
    (payload_type codec : Json) (found : Bool)
    → is_rtx_of payload_type codec ≡ ok found
    → ((found ≡ false) × (is_rtx_codec codec ≡ ok false)) ⊎ Rtx payload_type codec found
is_rtx_of-cases payload_type codec found h =
    let (rtx, r, h₁) = >>=-eq-ok (is_rtx_codec codec) _ h in
    elim (Bool-cases rtx) [
      | inr other ↦ inl (sym (ok-injective (rw other at h₁)), rw (r, other) refl)
      | inl same ↦
          let (parameters, p, h₂) = >>=-eq-ok (at "parameters" codec) _ (rw same at h₁) in
          let (apt, a, h₃) = >>=-eq-ok (at "apt" parameters) _ h₂ in
          inr (record {
            parameters = parameters;
            apt = apt;
            is_rtx = rw (r, same) refl;
            has_parameters = p;
            has_apt = a;
            fits = ok-injective h₃;
          })
    ]

is_rtx_of-Rtx :
    (payload_type codec : Json)
    → is_rtx_of payload_type codec ≡ ok true
    → Rtx payload_type codec true
is_rtx_of-Rtx payload_type codec h = elim (is_rtx_of-cases payload_type codec true h) [
  | inl (differs, _) ↦ absurd (ground (arith, differs))
  | inr rtx ↦ rtx
]

is_rtx_of-NotRtxFor :
    (payload_type codec : Json)
    → is_rtx_of payload_type codec ≡ ok false
    → NotRtxFor payload_type codec
is_rtx_of-NotRtxFor payload_type codec h = elim (is_rtx_of-cases payload_type codec false h) [
  | inl (_, other) ↦ inl other
  | inr rtx ↦ inr rtx
]

pub find_rtx-RtxIn :
    (payload_type : Json) (codecs : Items) (rtx : Json)
    → find_rtx payload_type codecs ≡ ok (some rtx)
    → RtxIn payload_type codecs rtx
unfolding find_rtx
find_rtx-RtxIn payload_type nil rtx h = absurd (ground arith)
find_rtx-RtxIn payload_type (cons codec rest) rtx h =
    let (found, f, h₁) = >>=-eq-ok (is_rtx_of payload_type codec) _ h in
    elim (Bool-cases found) [
      | inr differs ↦
          later (is_rtx_of-NotRtxFor payload_type codec (rw (f, differs) refl))
            (find_rtx-RtxIn payload_type rest rtx (rw differs at h₁))
      | inl this ↦
          let same : codec ≡ rtx = ground (arith, rw this at h₁) in
          subst (RtxIn payload_type (cons codec rest)) same
            (first (is_rtx_of-Rtx payload_type codec (rw (f, this) refl)))
    ]

pub find_rtx-NoRtx :
    (payload_type : Json) (codecs : Items)
    → find_rtx payload_type codecs ≡ ok none
    → NoRtx payload_type codecs
unfolding find_rtx
find_rtx-NoRtx payload_type nil h = done
find_rtx-NoRtx payload_type (cons codec rest) h =
    let (found, f, h₁) = >>=-eq-ok (is_rtx_of payload_type codec) _ h in
    elim (Bool-cases found) [
      | inr differs ↦
          more (is_rtx_of-NotRtxFor payload_type codec (rw (f, differs) refl))
            (find_rtx-NoRtx payload_type rest (rw differs at h₁))
      | inl this ↦ absurd (cc (rw this at h₁))
    ]
