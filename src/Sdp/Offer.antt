-- ===== src/Sdp/Offer.antt =====
-- The constructor OfferMediaSection of src/sdp/MediaSection.cpp.
pub mod Built
mod Tests
use Prim.Native.String
use libmediasoupclient.Prelude.{
  ℕ, ◌-◌, ◌%◌, ◌^◌, String, Bool, true, false, not, ◌&&◌, ◌||◌, List, [], ◌∷◌, Option, none, some,
  ltb, eqb, ◌==◌, if◌then◌else◌,
}
use libmediasoupclient.Prelude.Result.{Result, ok, err, json_error, undefined, ◌>>=◌}
use libmediasoupclient.Json.{
  Json, null, boolean, integer, unsigned, float, pos, negsuc, string, array, object, Items, nil,
  cons, Fields, end, field, lookup, insert, is_null,
}
use libmediasoupclient.Json.Number.{get_uint8, to_int64, truncated}
use libmediasoupclient.Json.Text.{to_string, to_string_ℤ}
use libmediasoupclient.Ortc.Checks.{append, each, get_string}
use libmediasoupclient.Ortc.MimeType.{before_slash, after_slash, is_media}
use libmediasoupclient.Ortc.Objects.{at, string_at, items_at, find, build}
use libmediasoupclient.Sdp.MediaSection.{MediaSection, offer}
use libmediasoupclient.Sdp.Section.{
  get_uint32, section_fields, Described, describe_codecs, payloads_text, extension_object,
}

-- The first encoding; a read behind the end is undefined.
unfoldable pub first_encoding : Json → Result Json
first_encoding rtp_parameters = do
  encodings ← at "encodings" rtp_parameters
  elim encodings [
    | array (cons encoding rest) ↦ ok encoding
    | array nil ↦ err undefined
    | _ ↦ err json_error
  ]

-- The SSRC of the retransmission, 0 if there is none.
unfoldable pub rtx_ssrc : Json → Result ℕ
rtx_ssrc encoding = elim (find "rtx" encoding) [
  | none ↦ ok 0
  | some rtx ↦ elim (find "ssrc" rtx) [ none ↦ ok 0 | some ssrc ↦ get_uint32 ssrc ]
]

abbrev pub ssrc_line : ℕ → String → String → Json
ssrc_line id attribute value =
    object
      (build (("id", unsigned id) ∷ ("attribute", string attribute) ∷ ("value", string value) ∷ []))

abbrev pub ssrc_lines : ℕ → String → String → Items → Items
ssrc_lines id cname msid more =
    cons (ssrc_line id "cname" cname) (cons (ssrc_line id "msid" msid) more)

-- The arrays `ssrcs` and `ssrcGroups`, for a cname if there is one.
abbrev pub ssrcs : ℕ → ℕ → String → Option Json → Items
ssrcs ssrc rtx msid (some (string cname)) =
    ssrc_lines ssrc cname msid (if eqb rtx 0 then nil else ssrc_lines rtx cname msid nil)
ssrcs ssrc rtx msid _ = nil

abbrev pub ssrc_groups : ℕ → ℕ → Option Json → Items
ssrc_groups ssrc rtx (some (string cname)) =
    if eqb rtx 0
    then nil
    else cons
        (object (
          build (
            ("semantics", string "FID")
            ∷ ("ssrcs", string (String.◌++◌ (to_string ssrc) (String.◌++◌ " " (to_string rtx))))
            ∷ [])))
        nil
ssrc_groups ssrc rtx _ = nil

-- What the constructor reads of the parameters for audio and video.
pub record Source : Type 0 where
  pub described : Described
  pub payloads : String
  pub ext : Items
  pub ssrc : ℕ
  pub rtx : ℕ
  pub cname : Option Json

unfoldable pub offer_source : (ℕ → String) → Json → Result Source
offer_source float_text rtp_parameters = do
  codecs ← items_at "codecs" rtp_parameters
  described ← describe_codecs float_text codecs
  payloads ← payloads_text codecs ""
  extensions ← items_at "headerExtensions" rtp_parameters
  ext ← each extension_object extensions
  encoding ← first_encoding rtp_parameters
  ssrc_value ← at "ssrc" encoding
  ssrc ← get_uint32 ssrc_value
  rtx ← rtx_ssrc encoding
  rtcp ← at "rtcp" rtp_parameters
  ok (record {
    described = described;
    payloads = payloads;
    ext = ext;
    ssrc = ssrc;
    rtx = rtx;
    cname = find "cname" rtcp;
  })

-- The part of OfferMediaSection for audio and video.
unfoldable pub offer_media : Source → String → Fields → Fields
offer_media s msid fs = insert "ssrcGroups" (array (ssrc_groups s.ssrc s.rtx s.cname)) (
    insert "ssrcs" (array (ssrcs s.ssrc s.rtx msid s.cname)) (
      insert "rtcpRsize" (string "rtcp-rsize") (
        insert "rtcpMux" (string "rtcp-mux") (
          insert "ext" (array s.ext) (
            insert "payloads" (string s.payloads) (
              insert "fmtp" (array s.described.fmtp) (
                insert "rtcpFb" (array s.described.rtcp_fb) (
                  insert "rtp" (array s.described.rtp)
                    (insert "direction" (string "sendonly") fs)))))))))

-- The part of both constructors for data channels.
unfoldable pub application_media : Json → Fields → Result Fields
application_media sctp_parameters fs = do
  port ← at "port" sctp_parameters
  size ← at "maxMessageSize" sctp_parameters
  ok (
      insert "maxMessageSize" size
        (insert "sctpPort" port (insert "payloads" (string "webrtc-datachannel") fs)))

-- The fields that an offer has for every kind.
abbrev pub offer_head : Json → String → String → Fields → Fields
offer_head sctp_parameters mid kind fs = insert "setup" (string "actpass") (
    insert "port" (integer (pos 7)) (
      insert "connection"
        (object (build (("ip", string "127.0.0.1") ∷ ("version", integer (pos 4)) ∷ [])))
        (insert "protocol"
          (string (if is_null sctp_parameters then "UDP/TLS/RTP/SAVPF" else "UDP/DTLS/SCTP"))
          (insert "type" (string kind) (insert "mid" (string mid) fs)))))

-- The arguments of the constructor of OfferMediaSection.
pub record OfferArguments : Type 0 where
  pub ice_parameters : Json
  pub ice_candidates : Items
  pub sctp_parameters : Json
  pub mid : String
  pub kind : String
  pub rtp_parameters : Json
  pub stream_id : String
  pub track_id : String

unfoldable pub offer_audio_video : (ℕ → String) → OfferArguments → Fields → Result Fields
offer_audio_video float_text a fs = do
  source ← offer_source float_text a.rtp_parameters
  ok (offer_media source (String.◌++◌ a.stream_id (String.◌++◌ " " a.track_id)) fs)

unfoldable pub offer_body : (ℕ → String) → OfferArguments → Fields → Result Fields
offer_body float_text a fs =
    if a.kind == "audio" || a.kind == "video"
    then offer_audio_video float_text a fs
    else if a.kind == "application"
    then application_media a.sctp_parameters fs
    else ok fs

-- OfferMediaSection
unfoldable pub offer_media_section : (ℕ → String) → OfferArguments → Result MediaSection
offer_media_section float_text a = do
  base ← section_fields a.ice_parameters a.ice_candidates
  fs ← offer_body float_text a (offer_head a.sctp_parameters a.mid a.kind base)
  ok (record { side = offer; media_object = fs })
