-- ===== src/Ortc/Extended/Media.antt =====
-- The media codecs of the extended capabilities: getExtendedRtpCapabilities of src/ortc.cpp takes
-- them from matching pairs, in the order of the remote side.
use libmediasoupclient.Prelude.{
  true, false, some, ◌≡◌, refl, arith, subst, inl, inr, Bool-cases, Option-cases,
}
use libmediasoupclient.Prelude.Result.{ok, >>=-eq-ok, ok-injective}
use libmediasoupclient.Json.{Json, null, object, Items, nil, cons, Fields, lookup}
use libmediasoupclient.Json.Access.{lookup-insert}
use libmediasoupclient.Ortc.Objects.{find, lookup-copy_if_present}
use libmediasoupclient.Ortc.Matching.{H264, or_null, is_rtx_codec, reduce_rtcp_feedback}
use libmediasoupclient.Ortc.Matching.Sound.{SameMedia, SameButProfile, match_codecs-SameMedia}
use libmediasoupclient.Ortc.Extended.{extended_codec, find_local, match_media}
use libmediasoupclient.Ortc.Extended.Found.{
  NoMatch, FirstMatch, Found, find_local-NoMatch, find_local-Found,
}

-- An extended codec with the payload types and the parameters of a local and a remote codec, the mime
-- type, kind, clock rate and channels of the local one, and null for the RTX payload types.
pub record IsExtended (local remote : Fields) (extended : Json) : Type 0 where
  pub local_payload_type :
      find "localPayloadType" extended ≡ some (or_null (lookup "preferredPayloadType" local))
  pub remote_payload_type :
      find "remotePayloadType" extended ≡ some (or_null (lookup "preferredPayloadType" remote))
  pub remote_parameters :
      find "remoteParameters" extended ≡ some (or_null (lookup "parameters" remote))
  pub local_parameters :
      find "localParameters" extended ≡ some (or_null (lookup "parameters" local))
  pub kind : find "kind" extended ≡ some (or_null (lookup "kind" local))
  pub mime_type : find "mimeType" extended ≡ some (or_null (lookup "mimeType" local))
  pub clock_rate : find "clockRate" extended ≡ some (or_null (lookup "clockRate" local))
  pub no_local_rtx : find "localRtxPayloadType" extended ≡ some null
  pub no_remote_rtx : find "remoteRtxPayloadType" extended ≡ some null

extended_codec-IsExtended :
    (local remote : Fields) (extended : Json)
    → extended_codec local remote ≡ ok extended
    → IsExtended local remote extended
unfolding extended_codec
extended_codec-IsExtended local remote extended h =
    let (feedback, _, h₁) = >>=-eq-ok (reduce_rtcp_feedback _ _) _ h in
    rw (← ok-injective h₁) (record {
      local_payload_type = simp (lookup-copy_if_present, lookup-insert);
      remote_payload_type = simp (lookup-copy_if_present, lookup-insert);
      remote_parameters = simp (lookup-copy_if_present, lookup-insert);
      local_parameters = simp (lookup-copy_if_present, lookup-insert);
      kind = simp (lookup-copy_if_present, lookup-insert);
      mime_type = simp (lookup-copy_if_present, lookup-insert);
      clock_rate = simp (lookup-copy_if_present, lookup-insert);
      no_local_rtx = simp (lookup-copy_if_present, lookup-insert);
      no_remote_rtx = simp (lookup-copy_if_present, lookup-insert);
    })

module _ (h264 : H264) where
  -- An extended codec of a remote codec: the remote codec is no RTX codec, the first local codec that
  -- matches is of the same media, and the extended codec has what the match left of it, which is all
  -- but for the profile level.
  pub record Paired (remote : Fields) (extended : Json) (locals locals' : Items) : Type 0 where
    pub local : Fields
    pub local' : Fields
    pub not_rtx : is_rtx_codec (object remote) ≡ ok false
    pub first : FirstMatch h264 remote local local' locals locals'
    pub same_media : SameMedia local remote
    pub changed : SameButProfile local local'
    pub is_extended : IsExtended local' remote extended

  -- The extended codecs in the order of the remote codecs, one for each that is no RTX codec and
  -- matches a local codec; with the local codecs before and after all matches.
  pub data InRemoteOrder : Items → Items → Items → Items → Type 0 where
    done : {locals : Items} → InRemoteOrder locals nil nil locals
    rtx :
        {locals remotes extended locals' : Items} (remote : Json)
        → is_rtx_codec remote ≡ ok true
        → InRemoteOrder locals remotes extended locals'
        → InRemoteOrder locals (cons remote remotes) extended locals'
    unmatched :
        {locals remotes extended locals' : Items} (remote : Fields)
        → NoMatch h264 remote locals
        → InRemoteOrder locals remotes extended locals'
        → InRemoteOrder locals (cons (object remote) remotes) extended locals'
    paired :
        {locals between remotes extended locals' : Items} (remote : Fields) (e : Json)
        → Paired remote e locals between
        → InRemoteOrder between remotes extended locals'
        → InRemoteOrder locals (cons (object remote) remotes) (cons e extended) locals'

  pair_of :
      (remote local' : Fields) (x : Json) (locals locals' : Items)
      → is_rtx_codec (object remote) ≡ ok false
      → Found h264 remote local' locals locals'
      → extended_codec local' remote ≡ ok x
      → Paired remote x locals locals'
  pair_of remote local' x locals locals' not_rtx f is_x =
      let (media, changed) =
        match_codecs-SameMedia h264 true true f.local remote local' f.matched in
      record {
        local = f.local;
        local' = local';
        not_rtx = not_rtx;
        first = f.first;
        same_media = media;
        changed = changed;
        is_extended = extended_codec-IsExtended local' remote x is_x;
      }

  pub match_media-InRemoteOrder :
      (remotes locals extended locals' : Items)
      → match_media h264 remotes locals ≡ ok (extended, locals')
      → InRemoteOrder locals remotes extended locals'
  unfolding match_media
  match_media-InRemoteOrder nil locals extended locals' h =
      subst (λ (t : Items × Items). InRemoteOrder locals nil t.0 t.1) (ok-injective h) done
  match_media-InRemoteOrder (cons (object remote) rest) locals extended locals' h =
      let (is_rtx, r, h₁) = >>=-eq-ok (is_rtx_codec (object remote)) _ h in
      elim (Bool-cases is_rtx) [
        | inl yes_rtx ↦
            rtx _ (rw (r, yes_rtx) refl)
              (match_media-InRemoteOrder rest locals extended locals' (rw yes_rtx at h₁))
        | inr no_rtx ↦
            let (m, e, h₂) = >>=-eq-ok (find_local h264 remote locals) _ (rw no_rtx at h₁) in
            elim (Option-cases m) [
              | inl missing ↦
                  unmatched remote (find_local-NoMatch h264 remote locals (rw (e, missing) refl))
                    (match_media-InRemoteOrder rest locals extended locals' (rw missing at h₂))
              | inr ((local, between), found) ↦
                  let (x, is_x, h₃) = >>=-eq-ok (extended_codec local remote) _ (rw found at h₂) in
                  let ((later, final), is_later, h₄) =
                    >>=-eq-ok (match_media h264 rest between) _ h₃ in
                  let f = find_local-Found h264 remote locals local between (rw (e, found) refl) in
                  let pair = pair_of remote local x locals between (rw (r, no_rtx) refl) f is_x in
                  subst
                    (λ (t : Items × Items).
                      InRemoteOrder locals (cons (object remote) rest) t.0 t.1)
                    (ok-injective h₄)
                    (paired remote x pair
                      (match_media-InRemoteOrder rest between later final is_later))
            ]
      ]
  match_media-InRemoteOrder (cons _ rest) locals extended locals' h = absurd (ground arith)
