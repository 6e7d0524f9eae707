-- ===== src/Sdp/Answer/Options.antt =====
-- The codec options that AnswerMediaSection of src/sdp/MediaSection.cpp puts into the parameters of
-- the answer and of the offer.
use libmediasoupclient.Prelude.{
  ℕ, String, Bool, true, false, ◌||◌, Option, none, some, if◌then◌else◌,
}
use libmediasoupclient.Prelude.Result.{Result, ok, err, json_error, undefined, ◌>>=◌}
use libmediasoupclient.Json.{
  Json, null, boolean, integer, pos, negsuc, ℤ, unsigned, array, object, Items, nil, cons, end,
  lookup, insert,
}
use libmediasoupclient.Json.Number.{json_eq}
use libmediasoupclient.Json.Text.{get_int32}
use libmediasoupclient.Ortc.MimeType.{matches_lower}
use libmediasoupclient.Ortc.Matching.{or_null}
use libmediasoupclient.Ortc.Objects.{string_at, find}
use libmediasoupclient.Sdp.Section.{get_uint32}

-- `j[key] = value`, where null becomes an object.
abbrev pub put : String → Json → Json → Result Json
put key value (object fs) = ok (object (insert key value fs))
put key value null = ok (object (insert key value end))
put key value _ = err json_error

-- `offerCodec["parameters"][key] = value`
abbrev pub put_offered : String → Json → Json → Result Json
put_offered key value (object fs) = do
  parameters ← put key value (or_null (lookup "parameters" fs))
  ok (object (insert "parameters" parameters fs))
put_offered key value _ = err json_error

abbrev pub get_bool : Json → Result Bool
get_bool (boolean b) = ok b
get_bool _ = err json_error

abbrev pub is_positive : ℤ → Bool
is_positive (pos ℕ.zero) = false
is_positive (pos _) = true
is_positive (negsuc n) = false

abbrev pub bit : Bool → Json
bit b = integer (pos (if b then 1 else 0))

-- The parameters of the answer's codec, and the codec of the offer.
abbrev pub Codecs : Type 0
Codecs = Json × Json

-- The value under one key in both.
abbrev pub put_both : String → String → Json → Codecs → Result Codecs
put_both offered answered value (parameters, codec) = do
  codec' ← put_offered offered value codec
  parameters' ← put answered value parameters
  ok (parameters', codec')

unfoldable pub stereo_option : Option Json → Codecs → Result Codecs
stereo_option none codecs = ok codecs
stereo_option (some value) codecs = do
  n ← get_int32 value
  put_both "sprop-stereo" "stereo" (bit (is_positive n)) codecs

unfoldable pub flag_option : String → Option Json → Codecs → Result Codecs
flag_option key none codecs = ok codecs
flag_option key (some value) codecs = do b ← get_bool value; put_both key key (bit b) codecs

unfoldable pub number_option : String → Option Json → Codecs → Result Codecs
number_option key none codecs = ok codecs
number_option key (some value) (parameters, codec) = do
  n ← get_uint32 value
  parameters' ← put key (unsigned n) parameters
  ok (parameters', codec)

unfoldable pub opus_options : Json → Codecs → Result Codecs
opus_options options codecs = do
  stereo ← stereo_option (find "opusStereo" options) codecs
  fec ← flag_option "useinbandfec" (find "opusFec" options) stereo
  dtx ← flag_option "usedtx" (find "opusDtx" options) fec
  rate ← number_option "maxplaybackrate" (find "opusMaxPlaybackRate" options) dtx
  number_option "ptime" (find "opusPtime" options) rate

unfoldable pub video_options : Json → Codecs → Result Codecs
video_options options codecs = do
  started ← number_option "x-google-start-bitrate" (find "videoGoogleStartBitrate" options) codecs
  limited ← number_option "x-google-max-bitrate" (find "videoGoogleMaxBitrate" options) started
  number_option "x-google-min-bitrate" (find "videoGoogleMinBitrate" options) limited

abbrev pub is_video_codec : String → Bool
is_video_codec mime_type =
    matches_lower mime_type "video/vp8"
    || matches_lower mime_type "video/vp9"
    || matches_lower mime_type "video/h264"
    || matches_lower mime_type "video/h265"

unfoldable pub apply_options : Json → String → Codecs → Result Codecs
apply_options options mime_type codecs =
    if matches_lower mime_type "audio/opus"
    then opus_options options codecs
    else if is_video_codec mime_type
    then video_options options codecs
    else ok codecs

-- The codec of the offer with a payload type, changed by a function that also gives a result; the end
-- of the list is not to be read.
unfoldable pub change_offered : Json → (Json → Result Codecs) → Items → Result (Json × Items)
change_offered payload_type change nil = err undefined
change_offered payload_type change (cons codec rest) =
    elim (json_eq (or_null (find "payloadType" codec)) payload_type) [
      | true ↦ do changed ← change codec; ok (changed.0, cons changed.1 rest)
      | false ↦ do later ← change_offered payload_type change rest; ok (later.0, cons codec later.1)
    ]

-- `codecOptions != nullptr && !codecOptions->empty()`
abbrev pub given_options : Option Json → Option Json
given_options (some null) = none
given_options (some (array nil)) = none
given_options (some (object end)) = none
given_options options = options

-- The parameters of a codec of the answer with the options, and the codecs of the offer with them.
unfoldable pub codec_parameters : Option Json → Json → Items → Result (Json × Items)
codec_parameters options codec offered = elim (given_options options) [
  | none ↦ ok (or_null (find "parameters" codec), offered)
  | some given ↦ do
    mime_type ← string_at "mimeType" codec
    change_offered (or_null (find "payloadType" codec))
        (λ offer_codec.
          apply_options given mime_type (or_null (find "parameters" codec), offer_codec))
        offered
]
