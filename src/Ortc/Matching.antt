-- ===== src/Ortc/Matching.antt =====
-- The private helpers of src/ortc.cpp: isRtxCodec, matchCodecs, matchHeaderExtensions,
-- reduceRtcpFeedback, and the readers of H264 and VP9 parameters.
pub mod Sound
use libmediasoupclient.Prelude.{
  ℕ, String, Bool, true, false, not, ◌&&◌, ◌||◌, Option, none, some, map, eqb, ◌==◌, if◌then◌else◌,
}
use libmediasoupclient.Prelude.Result.{Result, ok, err, json_error, ◌>>=◌}
use libmediasoupclient.Json.{
  Json, null, string, object, Items, nil, cons, Fields, is_number, is_number_integer, lookup,
  insert, remove,
}
use libmediasoupclient.Json.Number.{get_uint8, json_eq}
use libmediasoupclient.Json.Text.{get_int32, to_string, to_string_ℤ}
use libmediasoupclient.Ortc.Checks.{holds, present, get_string, items_of, fields_of}
use libmediasoupclient.Ortc.MimeType.{codes, to_lower, same_codes, matches_lower}
use libmediasoupclient.Ortc.Objects.{at, string_at, find}

-- `webrtc::H264::CodecParameterMap`, with the three keys that are set.
pub record CodecParameterMap : Type 0 where
  pub level_asymmetry_allowed : String
  pub packetization_mode : String
  pub profile_level_id : String

-- The two functions of webrtc::H264. `generate_profile_level_id` is `none` where it throws, and
-- otherwise the value at "profile-level-id" of the new parameters, if it is there.
pub record H264 : Type 0 where
  pub is_same_profile : CodecParameterMap → CodecParameterMap → Bool
  pub generate_profile_level_id : CodecParameterMap → CodecParameterMap → Option (Option String)

-- isRtxCodec
unfoldable pub is_rtx_codec : Json → Result Bool
is_rtx_codec codec = do
  mime_type ← string_at "mimeType" codec
  ok (matches_lower mime_type "audio/rtx" || matches_lower mime_type "video/rtx")

-- `j[k]` of a value that is not constant: null at a key that is missing.
abbrev pub or_null : Option Json → Json
or_null none = null
or_null (some j) = j

-- getH264PacketizationMode and getH264LevelAssimetryAllowed, which differ in the key.
pub get_h264_flag : String → Json → Result ℕ
get_h264_flag key codec = do
  parameters ← at "parameters" codec
  let flag_it = find key parameters
  if holds is_number_integer flag_it then get_uint8 (or_null flag_it) else ok 0

-- A parameter as text, a number in decimals.
abbrev parameter_text : Json → Result String
parameter_text value =
    if is_number value
    then (do n ← get_int32 value; ok (to_string_ℤ n))
    else get_string (some value)

-- getH264ProfileLevelId
pub get_h264_profile_level_id : Json → Result String
get_h264_profile_level_id codec = do
  parameters ← at "parameters" codec
  elim (find "profile-level-id" parameters) [ none ↦ ok "" | some value ↦ parameter_text value ]

-- getVP9ProfileId
pub get_vp9_profile_id : Json → Result String
get_vp9_profile_id codec = do
  parameters ← at "parameters" codec
  elim (find "profile-id" parameters) [ none ↦ ok "0" | some value ↦ parameter_text value ]

pub h264_parameters : Fields → Result CodecParameterMap
h264_parameters codec = do
  level_asymmetry_allowed ← get_h264_flag "level-asymmetry-allowed" (object codec)
  packetization_mode ← get_h264_flag "packetization-mode" (object codec)
  profile_level_id ← get_h264_profile_level_id (object codec)
  ok (record {
    level_asymmetry_allowed = to_string level_asymmetry_allowed;
    packetization_mode = to_string packetization_mode;
    profile_level_id = profile_level_id;
  })

-- The write of the new profile level, or its removal.
abbrev pub set_profile_level_id : Option String → Fields → Fields
set_profile_level_id answer codec =
    let parameters = fields_of (lookup "parameters" codec) in
    elim answer [
      | none ↦ insert "parameters" (object (remove "profile-level-id" parameters)) codec
      | some id ↦
          insert "parameters" (object (insert "profile-level-id" (string id) parameters)) codec
    ]

abbrev same_bool : Bool → Bool → Bool
same_bool true b = b
same_bool false b = not b

module _ (h264 : H264) (strict modify : Bool) (a_codec b_codec : Fields) where
  -- `none` is a return of false; otherwise the first codec comes back as the call leaves it.
  pub match_h264 : Result (Option Fields)
  match_h264 = do
    a_mode ← get_h264_flag "packetization-mode" (object a_codec)
    b_mode ← get_h264_flag "packetization-mode" (object b_codec)
    if not (eqb a_mode b_mode) then ok none else if not strict then ok (some a_codec) else do
      a_parameters ← h264_parameters a_codec
      b_parameters ← h264_parameters b_codec
      if not (h264.is_same_profile a_parameters b_parameters)
          then ok none
          else elim (h264.generate_profile_level_id a_parameters b_parameters) [
            | none ↦ ok none
            | some answer ↦
                ok (some (if modify then set_profile_level_id answer a_codec else a_codec))
          ]

  pub match_vp9 : Result (Option Fields)
  match_vp9 = if not strict then ok (some a_codec) else do
    a_profile_id ← get_vp9_profile_id (object a_codec)
    b_profile_id ← get_vp9_profile_id (object b_codec)
    ok (if a_profile_id == b_profile_id then some a_codec else none)

  -- Both or neither have channels, and they are as many.
  abbrev pub same_channels : Bool
  same_channels =
      let a_channels = lookup "channels" a_codec in
      let b_channels = lookup "channels" b_codec in
      same_bool (present a_channels) (present b_channels)
      && (not (present a_channels) || json_eq (or_null a_channels) (or_null b_channels))

  -- matchCodecs
  unfoldable pub match_codecs : Result (Option Fields)
  match_codecs = do
    a_mime_type ← get_string (lookup "mimeType" a_codec)
    b_mime_type ← get_string (lookup "mimeType" b_codec)
    let same_mime_type =
        same_codes (map to_lower (codes a_mime_type)) (map to_lower (codes b_mime_type))
    if not same_mime_type then ok none else do
      b_clock_rate ← at "clockRate" (object b_codec)
      if not (json_eq (or_null (lookup "clockRate" a_codec)) b_clock_rate)
          then ok none
          else (if not same_channels
              then ok none
              else if matches_lower a_mime_type "video/h264"
              then match_h264
              else if matches_lower a_mime_type "video/vp9"
              then match_vp9
              else ok (some a_codec))

-- matchHeaderExtensions
unfoldable pub match_header_extensions : Json → Json → Result Bool
match_header_extensions a_ext b_ext = do
  a_kind ← at "kind" a_ext
  b_kind ← at "kind" b_ext
  if not (json_eq a_kind b_kind)
      then ok false
      else do a_uri ← at "uri" a_ext; b_uri ← at "uri" b_ext; ok (json_eq a_uri b_uri)

-- The first feedback of the second codec with the type and the parameter of one of the first.
unfoldable pub find_feedback : Json → Items → Result (Option Json)
find_feedback a_fb nil = ok none
find_feedback a_fb (cons b_fb rest) = do
  a_type ← at "type" a_fb
  b_type ← at "type" b_fb
  a_parameter ← at "parameter" a_fb
  b_parameter ← at "parameter" b_fb
  let later = find_feedback a_fb rest
  if json_eq a_type b_type && json_eq a_parameter b_parameter then ok (some b_fb) else later

-- reduceRtcpFeedback, over the feedback of the two codecs.
unfoldable pub reduce_rtcp_feedback : Items → Items → Result Items
reduce_rtcp_feedback nil b_feedback = ok nil
reduce_rtcp_feedback (cons a_fb rest) b_feedback = do
  found ← find_feedback a_fb b_feedback
  later ← reduce_rtcp_feedback rest b_feedback
  elim found [ none ↦ ok later | some b_fb ↦ ok (cons b_fb later) ]
