-- ===== src/Sdp/Offer/Tests.antt =====
-- CreateOffer of src/sdp/RemoteSdp.cpp for a stereo Opus stream.
use libmediasoupclient.Prelude.{
  ℕ, String, true, false, List, [], ◌∷◌, ◌++◌, ◌≡◌, ◌==◌, ◌||◌, none, refl,
}
use libmediasoupclient.Prelude.Result.{ok, value_or}
use libmediasoupclient.Json.{Json, null, unsigned, string, array, object, nil, cons, lookup, insert}
use libmediasoupclient.Json.Number.{get_uint8, json_eq}
use libmediasoupclient.Json.Text.{to_string, to_string_ℤ}
use libmediasoupclient.Index.{find_index}
use libmediasoupclient.Ortc.Checks.{each}
use libmediasoupclient.Ortc.MimeType.{before_slash, after_slash, is_media}
use libmediasoupclient.Ortc.Objects.{build}
use libmediasoupclient.Sdp.MediaSection.{MediaSection, get_mid, is_closed}
use libmediasoupclient.Sdp.Section.{
  get_uint32, section_fields, codec_name, with_channels, rtp_object, config_text, feedback_object,
  describe_codec, describe_codecs, payloads_text, extension_object,
}
use libmediasoupclient.Sdp.Offer.{
  first_encoding, rtx_ssrc, offer_source, offer_media, offer_audio_video, offer_body,
  offer_media_section,
}
use libmediasoupclient.Sdp.Offer.Built.{DescribesMedia}
use libmediasoupclient.Sdp.RemoteSdp.{
  RemoteSdp, new_remote_sdp, bundle_from, regenerate_bundle_mids, with_sections, add_media_section,
}
use libmediasoupclient.Sdp.RemoteSdp.Consistent.{IsConsistent, new-IsConsistent}
use libmediasoupclient.Sdp.RemoteSdp.Offers.{create_offer, create_offer-adds}

abbrev ice : Json
ice = object (build (("usernameFragment", string "user") ∷ ("password", string "secret") ∷ []))

abbrev params : Json
params = object (
    build (
      (
        "codecs",
        array (
            cons
              (object (
                build (
                  ("mimeType", string "audio/opus")
                  ∷ ("payloadType", unsigned 100)
                  ∷ ("clockRate", unsigned 48000)
                  ∷ ("channels", unsigned 2)
                  ∷ (
                    "parameters",
                    object (build (("useinbandfec", unsigned 1) ∷ ("usedtx", unsigned 0) ∷ [])),
                  )
                  ∷ ("rtcpFeedback", array nil)
                  ∷ [])))
              nil),
      )
      ∷ ("headerExtensions", array nil)
      ∷ ("encodings", array (cons (object (build (("ssrc", unsigned 1111) ∷ []))) nil))
      ∷ ("rtcp", object (build (("cname", string "name") ∷ [])))
      ∷ []))

abbrev fields_of : List MediaSection → Json
fields_of [] = null
fields_of (m ∷ rest) = object m.media_object

abbrev float_text : ℕ → String
float_text bits = ""

abbrev before : RemoteSdp
before = new_remote_sdp ice (build [])

abbrev after : RemoteSdp
after = value_or before (create_offer float_text nil "0" "audio" params "stream" "track" before)

run : create_offer float_text nil "0" "audio" params "stream" "track" before ≡ ok after
unfolding create_offer offer_media_section offer_body offer_audio_video offer_media offer_source
    rtx_ssrc first_encoding extension_object payloads_text describe_codecs describe_codec
    feedback_object config_text rtp_object with_channels codec_name section_fields get_uint32 each
    lookup insert get_uint8 before_slash after_slash is_media to_string to_string_ℤ json_eq
    add_media_section with_sections regenerate_bundle_mids bundle_from new_remote_sdp get_mid
    is_closed
run = refl

is_new : find_index "0" before.mid_to_index ≡ none
unfolding new_remote_sdp find_index
is_new = refl

create_offer-adds_example :
    IsConsistent after
    × (m : MediaSection) × (after.media_sections ≡ before.media_sections ++ m ∷ [])
    × (get_mid m ≡ ok "0")
    × (is_closed m ≡ ok false)
    × (("audio" == "audio" || "audio" == "video") ≡ true → DescribesMedia params m)
create_offer-adds_example =
    create_offer-adds float_text nil "0" "audio" params "stream" "track" before after
      (new-IsConsistent ice (build [])) is_new run
