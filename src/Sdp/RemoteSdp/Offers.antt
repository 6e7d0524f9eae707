-- ===== src/Sdp/RemoteSdp/Offers.antt =====
-- CreateOffer and RecvSctpAssociation of src/sdp/RemoteSdp.cpp, with the sections that they make.
use libmediasoupclient.Prelude.{
  ℕ, String, true, false, [], ◌∷◌, ◌++◌, none, ◌≡◌, ◌==◌, ◌||◌, ap, sym,
}
use libmediasoupclient.Prelude.Result.{Result, ok, ◌>>=◌, >>=-eq-ok, ok-injective}
use libmediasoupclient.Json.{Json, null, Items}
use libmediasoupclient.Index.{find_index}
use libmediasoupclient.Sdp.MediaSection.{MediaSection, get_mid, is_closed}
use libmediasoupclient.Sdp.Offer.{OfferArguments, offer_media_section}
use libmediasoupclient.Sdp.Offer.Built.{DescribesMedia, offer_media_section-built}
use libmediasoupclient.Sdp.RemoteSdp.{
  RemoteSdp, regenerate_bundle_mids, bundle_from, with_sections, add_media_section,
}
use libmediasoupclient.Sdp.RemoteSdp.Consistent.{IsConsistent, add-IsConsistent}

-- CreateOffer. The candidates are those that the description was constructed with.
unfoldable pub create_offer :
    (ℕ → String) → Items → String → String → Json → String → String → RemoteSdp → Result RemoteSdp
create_offer float_text ice_candidates mid kind rtp_parameters stream_id track_id s = do
  m ← offer_media_section float_text (record {
    ice_parameters = s.ice_parameters;
    ice_candidates = ice_candidates;
    sctp_parameters = null;
    mid = mid;
    kind = kind;
    rtp_parameters = rtp_parameters;
    stream_id = stream_id;
    track_id = track_id;
  })
  add_media_section m s

-- RecvSctpAssociation
unfoldable pub recv_sctp_association : (ℕ → String) → Items → Json → RemoteSdp → Result RemoteSdp
recv_sctp_association float_text ice_candidates sctp_parameters s = do
  m ← offer_media_section float_text (record {
    ice_parameters = s.ice_parameters;
    ice_candidates = ice_candidates;
    sctp_parameters = sctp_parameters;
    mid = "datachannel";
    kind = "application";
    rtp_parameters = null;
    stream_id = "";
    track_id = "";
  })
  add_media_section m s

add-sections :
    (m : MediaSection) (s t : RemoteSdp)
    → add_media_section m s ≡ ok t
    → t.media_sections ≡ s.media_sections ++ m ∷ []
unfolding add_media_section regenerate_bundle_mids with_sections
add-sections m s t h =
    let (mid, _, h₁) = >>=-eq-ok (get_mid m) _ h in
    let (mids, _, last) = >>=-eq-ok (bundle_from "" (s.media_sections ++ m ∷ [])) _ h₁ in
    sym (ap (λ (x : RemoteSdp). x.media_sections) (ok-injective last))

-- If CreateOffer returns, for a MID that the index of a consistent description does not have, the
-- description is consistent afterwards, and has one more section at its end, which is open, has the
-- MID, and for audio and video describes the codecs of the parameters.
pub create_offer-adds :
    (float_text : ℕ → String) (ice_candidates : Items) (mid kind : String) (rtp_parameters : Json)
    (stream_id track_id : String) (s t : RemoteSdp)
    → IsConsistent s
    → find_index mid s.mid_to_index ≡ none
    → create_offer float_text ice_candidates mid kind rtp_parameters stream_id track_id s ≡ ok t
    → IsConsistent t
      × (m : MediaSection) × (t.media_sections ≡ s.media_sections ++ m ∷ [])
      × (get_mid m ≡ ok mid)
      × (is_closed m ≡ ok false)
      × ((kind == "audio" || kind == "video") ≡ true → DescribesMedia rtp_parameters m)
unfolding create_offer
create_offer-adds float_text ice_candidates mid kind rtp_parameters stream_id track_id s t old new
      h =
    let arguments : OfferArguments = record {
      ice_parameters = s.ice_parameters;
      ice_candidates = ice_candidates;
      sctp_parameters = null;
      mid = mid;
      kind = kind;
      rtp_parameters = rtp_parameters;
      stream_id = stream_id;
      track_id = track_id;
    } in
    let (m, made, added) = >>=-eq-ok (offer_media_section float_text arguments) _ h in
    let (is_mid, opened, described) = offer_media_section-built float_text arguments m made in
    (
      add-IsConsistent m mid s t old is_mid new added,
      m,
      add-sections m s t added,
      is_mid,
      opened,
      described,
    )
