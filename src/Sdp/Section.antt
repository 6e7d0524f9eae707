-- ===== src/Sdp/Section.antt =====
-- What the constructors of src/sdp/MediaSection.cpp share: the fields of every section, and the codecs
-- of audio and video.
pub mod Codecs
use Prim.Native.String
use libmediasoupclient.Prelude.{
  ℕ, ◌-◌, ◌%◌, ◌^◌, String, Bool, true, false, not, ◌&&◌, ◌||◌, List, [], ◌∷◌, Option, none, some,
  ltb, eqb, ◌==◌, if◌then◌else◌,
}
use libmediasoupclient.Prelude.Result.{Result, ok, err, json_error, undefined, ◌>>=◌}
use libmediasoupclient.Json.{
  Json, null, boolean, integer, unsigned, float, pos, negsuc, string, array, object, Items, nil,
  cons, Fields, end, field, lookup, insert, is_null,
}
use libmediasoupclient.Json.Number.{get_uint8, to_int64, truncated}
use libmediasoupclient.Json.Text.{to_string, to_string_ℤ}
use libmediasoupclient.Ortc.Checks.{append, each, get_string}
use libmediasoupclient.Ortc.MimeType.{before_slash, after_slash, is_media}
use libmediasoupclient.Ortc.Objects.{at, string_at, items_at, find, build}

-- `j.get<uint32_t>()`
unfoldable pub get_uint32 : Json → Result ℕ
unfolding truncated
get_uint32 (boolean b) = ok (if b then 1 else 0)
get_uint32 (integer (pos n)) = ok (n % 2 ^ 32)
get_uint32 (integer (negsuc n)) = ok (2 ^ 32 - 1 - n % 2 ^ 32)
get_uint32 (unsigned n) = ok (n % 2 ^ 32)
get_uint32 (float bits) =
    let magnitude = truncated bits in
    if eqb magnitude 0
    then ok 0
    else if ltb bits (2 ^ 63) && ltb magnitude (2 ^ 32)
    then ok magnitude
    else err undefined
get_uint32 _ = err json_error

-- The object of an ICE candidate.
unfoldable pub candidate_object : Json → Result Json
candidate_object candidate = do
  foundation ← at "foundation" candidate
  ip ← at "ip" candidate
  port ← at "port" candidate
  priority ← at "priority" candidate
  protocol ← at "protocol" candidate
  type ← at "type" candidate
  let fields = build (
      ("component", integer (pos 1))
      ∷ ("foundation", foundation)
      ∷ ("ip", ip)
      ∷ ("port", port)
      ∷ ("priority", priority)
      ∷ ("transport", protocol)
      ∷ ("type", type)
      ∷ [])
  ok (
      object (elim (find "tcpType" candidate) [
        | none ↦ fields
        | some tcp_type ↦ insert "tcptype" tcp_type fields
      ]))

-- The constructor of MediaSection, for an array of candidates.
unfoldable pub section_fields : Json → Items → Result Fields
section_fields ice_parameters ice_candidates = do
  username_fragment ← at "usernameFragment" ice_parameters
  password ← at "password" ice_parameters
  candidates ← each candidate_object ice_candidates
  ok (
      build (
        ("iceUfrag", username_fragment)
        ∷ ("icePwd", password)
        ∷ ("candidates", array candidates)
        ∷ ("endOfCandidates", string "end-of-candidates")
        ∷ ("iceOptions", string "renomination")
        ∷ []))

-- getCodecName: the mime type without "audio/" or "video/" in front, ignoring case.
unfoldable pub codec_name : String → String
codec_name mime_type = elim (after_slash mime_type) [
  | none ↦ mime_type
  | some rest ↦ if is_media (before_slash mime_type) then rest else mime_type
]

-- `codec.contains("channels")`, and the number of channels above one.
unfoldable pub with_channels : Option Json → Fields → Result Fields
with_channels none rtp = ok rtp
with_channels (some channels) rtp = do
  n ← get_uint8 channels
  ok (if ltb 1 n then insert "encoding" (unsigned n) rtp else rtp)

unfoldable pub rtp_object : Json → Result Json
rtp_object codec = do
  payload_type ← at "payloadType" codec
  mime_type ← string_at "mimeType" codec
  clock_rate ← at "clockRate" codec
  rtp ← with_channels (find "channels" codec) (
      build (
        ("payload", payload_type)
        ∷ ("codec", string (codec_name mime_type))
        ∷ ("rate", clock_rate)
        ∷ []))
  ok (object rtp)

-- The value of a codec parameter as text, with the text of floating-point numbers; other values are
-- left out.
abbrev pub value_text : (ℕ → String) → Json → String
value_text float_text (string s) = s
value_text float_text (float bits) = float_text bits
value_text float_text (integer z) = to_string_ℤ z
value_text float_text (unsigned n) = to_string_ℤ (to_int64 n)
value_text float_text _ = ""

abbrev pub separated : String → String → String
separated separator config = if config == "" then config else String.◌++◌ config separator

-- The loop over the codec parameters.
unfoldable pub config_text : (ℕ → String) → Fields → String → String
config_text float_text end config = config
config_text float_text (field key value rest) config = config_text float_text rest (
    String.◌++◌ (separated ";" config)
      (String.◌++◌ key (String.◌++◌ "=" (value_text float_text value))))

abbrev pub fields_in : Json → Fields
fields_in (object fs) = fs
fields_in _ = end

-- What is added to `fmtp` for a codec.
abbrev pub fmtp_items : Json → String → Items
fmtp_items payload_type config =
    if config == ""
    then nil
    else cons (object (build (("payload", payload_type) ∷ ("config", string config) ∷ []))) nil

unfoldable pub feedback_object : Json → Json → Result Json
feedback_object payload_type fb = do
  type ← at "type" fb
  parameter ← at "parameter" fb
  ok (object (build (("payload", payload_type) ∷ ("type", type) ∷ ("subtype", parameter) ∷ [])))

-- The arrays `rtp`, `fmtp` and `rtcpFb`.
pub record Described : Type 0 where
  pub rtp : Items
  pub fmtp : Items
  pub rtcp_fb : Items

unfoldable pub describe_codec : (ℕ → String) → Json → Result Described
describe_codec float_text codec = do
  rtp ← rtp_object codec
  parameters ← at "parameters" codec
  payload_type ← at "payloadType" codec
  feedback ← items_at "rtcpFeedback" codec
  objects ← each (feedback_object payload_type) feedback
  ok (record {
    rtp = cons rtp nil;
    fmtp = fmtp_items payload_type (config_text float_text (fields_in parameters) "");
    rtcp_fb = objects;
  })

unfoldable pub describe_codecs : (ℕ → String) → Items → Result Described
describe_codecs float_text nil = ok (record { rtp = nil; fmtp = nil; rtcp_fb = nil })
describe_codecs float_text (cons codec rest) = do
  here ← describe_codec float_text codec
  later ← describe_codecs float_text rest
  ok (record {
    rtp = append here.rtp later.rtp;
    fmtp = append here.fmtp later.fmtp;
    rtcp_fb = append here.rtcp_fb later.rtcp_fb;
  })

-- The loop over the payload types.
unfoldable pub payloads_text : Items → String → Result String
payloads_text nil payloads = ok payloads
payloads_text (cons codec rest) payloads = do
  payload_type ← at "payloadType" codec
  n ← get_uint8 payload_type
  payloads_text rest (String.◌++◌ (separated " " payloads) (to_string n))

unfoldable pub extension_object : Json → Result Json
extension_object ext = do
  uri ← at "uri" ext
  id ← at "id" ext
  ok (object (build (("uri", uri) ∷ ("value", id) ∷ [])))
