-- ===== src/Device/Loaded.antt =====
-- What Load of src/Device.cpp leaves.
use libmediasoupclient.Prelude.{
  String, Bool, true, false, not, ◌||◌, List, [], ◌∷◌, ◌≡◌, ◌==◌, ◌∙◌, if◌then◌else◌, refl, arith,
  ap, sym, subst, inl, inr, Bool-cases, eq_iff,
}
use libmediasoupclient.Prelude.Result.{Result, ok, require, ok-injective}
use libmediasoupclient.Prelude.Action.{lift-eq-ok}
use libmediasoupclient.Json.{Json, lookup, insert}
use libmediasoupclient.Ortc.Checks.{IsObject}
use libmediasoupclient.Ortc.Matching.{H264}
use libmediasoupclient.Ortc.RtpCapabilities.{validate_rtp_capabilities}
use libmediasoupclient.Ortc.RtpCapabilities.WellFormed.{IsRtpCapabilities, capabilities_sound}
use libmediasoupclient.Ortc.Extended.{get_extended_rtp_capabilities}
use libmediasoupclient.Ortc.Receiving.{get_recv_rtp_capabilities}
use libmediasoupclient.Ortc.Sending.{can_send}
use libmediasoupclient.Ortc.Sctp.{validate_sctp_capabilities, validate_num_sctp_streams}
use libmediasoupclient.Session.SendTransport.{has_key}
use libmediasoupclient.Device.{Device, set_kind, kind_of, native_sctp_capabilities, is_kind, load}

-- The part of a device that Load computes from the extended capabilities.
pub record IsLoaded (d : Device) : Type 0 where
  pub is_loaded : d.loaded ≡ true
  pub recv_from :
      (recv : Json) × (get_recv_rtp_capabilities d.extended_rtp_capabilities ≡ ok recv)
      × (validate_rtp_capabilities recv ≡ ok d.recv_rtp_capabilities)
  pub recv_well_formed : IsObject IsRtpCapabilities d.recv_rtp_capabilities
  pub sctp : d.sctp_capabilities ≡ native_sctp_capabilities
  pub kinds :
      (kind : String)
      → is_kind kind ≡ true
      → (can_send kind d.extended_rtp_capabilities ≡ ok (kind_of kind d.can_produce_by_kind))
        × (has_key kind d.can_produce_by_kind ≡ true)

kind_of-set_kind :
    (a b : String) (can : Bool) (kinds : List (String × Bool))
    → kind_of a (set_kind b can kinds) ≡ (if b == a then can else kind_of a kinds)
kind_of-set_kind a b can [] = refl
kind_of-set_kind a b can ((k, c) ∷ rest) =
    ground (arith, eq_iff k b, eq_iff k a, eq_iff b a, kind_of-set_kind a b can rest)

has_key-set_kind :
    (a b : String) (can : Bool) (kinds : List (String × Bool))
    → has_key a (set_kind b can kinds) ≡ (b == a || has_key a kinds)
unfolding has_key
has_key-set_kind a b can [] = ground (arith, eq_iff b a)
has_key-set_kind a b can ((k, c) ∷ rest) =
    ground (arith, eq_iff k b, eq_iff k a, eq_iff b a, has_key-set_kind a b can rest)

-- The map with both kinds.
abbrev both : Bool → Bool → List (String × Bool) → List (String × Bool)
both audio video kinds = set_kind "video" video (set_kind "audio" audio kinds)

kinds-both :
    (kind : String) (extended : Json) (audio video : Bool) (kinds : List (String × Bool))
    → is_kind kind ≡ true
    → can_send "audio" extended ≡ ok audio
    → can_send "video" extended ≡ ok video
    → (can_send kind extended ≡ ok (kind_of kind (both audio video kinds)))
      × (has_key kind (both audio video kinds) ≡ true)
kinds-both kind extended audio video kinds h a v = elim (Bool-cases ("audio" == kind)) [
  | inl is_audio ↦
      let same : "audio" ≡ kind = ground (arith, is_audio, eq_iff "audio" kind) in
      subst
        (λ k.
          (can_send k extended ≡ ok (kind_of k (both audio video kinds)))
          × (has_key k (both audio video kinds) ≡ true))
        same
        (
          rw
              (
                kind_of-set_kind "audio" "video" video (set_kind "audio" audio kinds),
                kind_of-set_kind "audio" "audio" audio kinds,
              )
              a,
          rw
              (
                has_key-set_kind "audio" "video" video (set_kind "audio" audio kinds),
                has_key-set_kind "audio" "audio" audio kinds,
              )
              refl,
        )
  | inr other ↦
      let same : "video" ≡ kind =
        ground (arith, other, h, eq_iff "audio" kind, eq_iff kind "audio", eq_iff kind "video") in
      subst
        (λ k.
          (can_send k extended ≡ ok (kind_of k (both audio video kinds)))
          × (has_key k (both audio video kinds) ≡ true))
        same
        (
          rw (kind_of-set_kind "video" "video" video (set_kind "audio" audio kinds)) v,
          rw (has_key-set_kind "video" "video" video (set_kind "audio" audio kinds)) refl,
        )
]

sctp_capabilities_kept :
    validate_sctp_capabilities native_sctp_capabilities ≡ ok native_sctp_capabilities
unfolding validate_sctp_capabilities validate_num_sctp_streams native_sctp_capabilities lookup
    insert
sctp_capabilities_kept = refl

-- The extended capabilities are those of the router and of the local side, both validated and well
-- formed.
pub record Negotiated (h264 : H264) (native : Result Json) (router extended : Json) : Type 0 where
  pub remote : Json
  pub local : Json
  pub offered : Json
  pub is_remote : validate_rtp_capabilities router ≡ ok remote
  pub is_offered : native ≡ ok offered
  pub is_local : validate_rtp_capabilities offered ≡ ok local
  pub is_extended : get_extended_rtp_capabilities h264 local remote ≡ ok extended

-- If Load returns, the device was not loaded and is loaded now; its extended capabilities are those
-- of the validated capabilities of both sides, its receiving capabilities come from them and are well
-- formed, and for both kinds its answer to CanProduce is that of canSend on them.
pub load-IsLoaded :
    (h264 : H264) (native : Result Json) (router : Json) (d t : Device)
    → load h264 native router d ≡ (t, ok tt)
    → (d.loaded ≡ false) × Negotiated h264 native router t.extended_rtp_capabilities × IsLoaded t
unfolding load
load-IsLoaded h264 native router d t h =
    let (_, open_h, h₁) = lift-eq-ok (require (not d.loaded) _) _ d h in
    let (remote, is_remote, h₂) = lift-eq-ok (validate_rtp_capabilities router) _ _ h₁ in
    let (offered, is_offered, h₃) = lift-eq-ok native _ _ h₂ in
    let (local, is_local, h₄) = lift-eq-ok (validate_rtp_capabilities offered) _ _ h₃ in
    let (extended, is_extended, h₅) =
      lift-eq-ok (get_extended_rtp_capabilities h264 local remote) _ _ h₄ in
    let (audio, is_audio, h₆) = lift-eq-ok (can_send "audio" extended) _ _ h₅ in
    let (video, is_video, h₇) = lift-eq-ok (can_send "video" extended) _ _ h₆ in
    let (recv, is_recv, h₈) = lift-eq-ok (get_recv_rtp_capabilities extended) _ _ h₇ in
    let (valid, is_valid, h₉) = lift-eq-ok (validate_rtp_capabilities recv) _ _ h₈ in
    let (sctp, is_sctp, last) =
      lift-eq-ok (validate_sctp_capabilities native_sctp_capabilities) _ _ h₉ in
    let end : Device = record {
      loaded = true;
      extended_rtp_capabilities = extended;
      recv_rtp_capabilities = valid;
      sctp_capabilities = sctp;
      can_produce_by_kind = both audio video d.can_produce_by_kind;
    } in
    let same : end ≡ t = ap (λ (x : Device × Result (Unit {0})). x.0) {x = (end, ok tt)} last in
    let done : IsLoaded end = record {
      is_loaded = refl;
      recv_from = (recv, is_recv, is_valid);
      recv_well_formed = capabilities_sound recv valid is_valid;
      sctp = ok-injective (sym is_sctp ∙ sctp_capabilities_kept);
      kinds =
          λ kind k. kinds-both kind extended audio video d.can_produce_by_kind k is_audio is_video;
    } in
    let negotiated : Negotiated h264 native router extended = record {
      remote = remote;
      local = local;
      offered = offered;
      is_remote = is_remote;
      is_offered = is_offered;
      is_local = is_local;
      is_extended = is_extended;
    } in
    (
      ground (arith, open_h),
      subst (λ (x : Device). Negotiated h264 native router x.extended_rtp_capabilities) {x = end}
          same negotiated,
      subst IsLoaded {x = end} same done,
    )
