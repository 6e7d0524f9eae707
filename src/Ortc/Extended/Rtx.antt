-- ===== src/Ortc/Extended/Rtx.antt =====
-- The RTX codecs of the extended capabilities, and the capabilities as a whole:
-- getExtendedRtpCapabilities of src/ortc.cpp.
use libmediasoupclient.Prelude.{◌⊎◌, ◌≡◌, refl, arith, subst, sym, inl, inr, Option-cases, [], ◌∷◌}
use libmediasoupclient.Prelude.Result.{ok, >>=-eq-ok, ok-injective}
use libmediasoupclient.Json.{Json, array, object, Items, Fields, lookup, insert}
use libmediasoupclient.Json.Access.{lookup-insert}
use libmediasoupclient.Ortc.Checks.{items_of, each, AllPairs, each_pairs}
use libmediasoupclient.Ortc.Objects.{find, build}
use libmediasoupclient.Ortc.RtpCapabilities.{validate_rtp_capabilities}
use libmediasoupclient.Ortc.Matching.{H264, or_null}
use libmediasoupclient.Ortc.Extended.{
  find_rtx, link_rtx, match_media, match_extensions, get_extended_rtp_capabilities,
}
use libmediasoupclient.Ortc.Extended.Media.{InRemoteOrder, match_media-InRemoteOrder}
use libmediasoupclient.Ortc.Extended.RtxIn.{RtxIn, NoRtx, find_rtx-RtxIn, find_rtx-NoRtx}

-- What linking makes of a codec: nothing new, if a side has no RTX codec for its payload type; or the
-- payload types of the first RTX codec of each side.
pub data Linked (locals remotes : Items) : Json → Json → Type 0 where
  unlinked :
      (fields : Fields)
      → NoRtx (or_null (lookup "localPayloadType" fields)) locals
        ⊎ NoRtx (or_null (lookup "remotePayloadType" fields)) remotes
      → Linked locals remotes (object fields) (object fields)
  linked :
      (fields : Fields) (local_rtx remote_rtx : Json)
      → RtxIn (or_null (lookup "localPayloadType" fields)) locals local_rtx
      → RtxIn (or_null (lookup "remotePayloadType" fields)) remotes remote_rtx
      → Linked locals remotes (object fields) (
          object (
            insert "remoteRtxPayloadType" (or_null (find "preferredPayloadType" remote_rtx)) (
              insert "localRtxPayloadType"
                (or_null (find "preferredPayloadType" local_rtx))
                fields)))

module _ (locals remotes : Items) where
  link_rtx-Linked : (x y : Json) → link_rtx locals remotes x ≡ ok y → Linked locals remotes x y
  unfolding link_rtx
  link_rtx-Linked (object fields) y h =
      let (l, fl, h₁) =
        >>=-eq-ok (find_rtx (or_null (lookup "localPayloadType" fields)) locals) _ h in
      elim (Option-cases l) [
        | inl none_local ↦
            subst (Linked locals remotes (object fields)) (ok-injective (rw none_local at h₁))
              (unlinked fields (inl (find_rtx-NoRtx _ locals (rw (fl, none_local) refl))))
        | inr (local, is_local) ↦
            let (r, fr, h₂) =
              >>=-eq-ok (find_rtx (or_null (lookup "remotePayloadType" fields)) remotes) _
                (rw is_local at h₁) in
            elim (Option-cases r) [
              | inl none_remote ↦
                  subst (Linked locals remotes (object fields))
                    (ok-injective (rw none_remote at h₂))
                    (unlinked fields (inr (find_rtx-NoRtx _ remotes (rw (fr, none_remote) refl))))
              | inr (remote, is_remote) ↦
                  subst (Linked locals remotes (object fields)) (ok-injective (rw is_remote at h₂))
                    (linked fields local remote
                      (find_rtx-RtxIn _ locals local (rw (fl, is_local) refl))
                      (find_rtx-RtxIn _ remotes remote (rw (fr, is_remote) refl)))
            ]
      ]
  link_rtx-Linked _ y h = absurd (ground arith)

-- Where the codecs of the extended capabilities come from.
pub record ExtendedFrom (h264 : H264) (local_caps remote_caps e : Json) : Type 0 where
  pub local : Json
  pub remote : Json
  pub locals' : Items
  pub media : Items
  pub valid_local : validate_rtp_capabilities local_caps ≡ ok local
  pub valid_remote : validate_rtp_capabilities remote_caps ≡ ok remote
  pub in_order :
      InRemoteOrder h264
        (items_of (find "codecs" local))
        (items_of (find "codecs" remote))
        media
        locals'
  pub rtx :
      AllPairs (Linked locals' (items_of (find "codecs" remote))) media (items_of (find "codecs" e))

built_codecs :
    (codecs extensions : Items) (e : Json)
    → ok (object (build (("codecs", array codecs) ∷ ("headerExtensions", array extensions) ∷ [])))
      ≡ ok e
    → items_of (find "codecs" e) ≡ codecs
built_codecs codecs extensions e h = rw (← ok-injective h) (simp lookup-insert)

-- The extended capabilities have one codec for each codec of the remote side that is no RTX codec
-- and matches a local codec, in their order, made with the first local codec that matches, which has
-- the same mime type, clock rate and channels; the matches change local codecs at most in their
-- profile level. The extended codec has the payload types and parameters of both. Its RTX payload
-- types are null if a side has no RTX codec whose `apt` is the payload type of the codec on that side,
-- and otherwise those of the first such codec of each side.
pub get_extended-ExtendedFrom :
    (h264 : H264) (local_caps remote_caps e : Json)
    → get_extended_rtp_capabilities h264 local_caps remote_caps ≡ ok e
    → ExtendedFrom h264 local_caps remote_caps e
unfolding get_extended_rtp_capabilities
get_extended-ExtendedFrom h264 local_caps remote_caps e h =
    let (local, vl, h₁) = >>=-eq-ok (validate_rtp_capabilities local_caps) _ h in
    let (remote, vr, h₂) = >>=-eq-ok (validate_rtp_capabilities remote_caps) _ h₁ in
    let remotes = items_of (find "codecs" remote) in
    let ((media, locals'), m, h₃) = >>=-eq-ok (match_media h264 remotes _) _ h₂ in
    let (codecs, c, h₄) = >>=-eq-ok (each (link_rtx locals' remotes) media) _ h₃ in
    let (extensions, _, h₅) = >>=-eq-ok (match_extensions _ _) _ h₄ in
    let pairs =
      each_pairs (link_rtx locals' remotes) (Linked locals' remotes)
        (link_rtx-Linked locals' remotes) media codecs c in
    record {
      local = local;
      remote = remote;
      locals' = locals';
      media = media;
      valid_local = vl;
      valid_remote = vr;
      in_order = match_media-InRemoteOrder h264 remotes _ media locals' m;
      rtx =
          subst (AllPairs (Linked locals' remotes) media)
            (sym (built_codecs codecs extensions e h₅)) pairs;
    }
