-- ===== src/Ortc/Rtp/WellFormed.antt =====
-- Well-formed RTCP feedback and codec parameters: what the validators of src/ortc.cpp establish of
-- them, and what passes the validators unchanged.
use libmediasoupclient.Prelude.{
  String, Bool, true, not, ◌||◌, ◌==◌, ◌≡◌, refl, subst, sym, arith, if◌then◌else◌, Option, none,
  some,
}
use libmediasoupclient.Prelude.Result.{ok}
use libmediasoupclient.Json.{
  Json, integer, pos, string, object, Fields, end, field, is_string, is_null, is_number,
  is_number_integer, lookup,
}
use libmediasoupclient.Ortc.Checks.{
  holds, present, put_unless, lookup-put_unless, put_unless-true, IsObject,
}
use libmediasoupclient.Ortc.Rtp.{validate_rtcp_feedback, check_codec_parameters, fill_channels}
use libmediasoupclient.Json.Access.{lookup-remove}

pub record IsRtcpFeedback (fb : Fields) : Type 0 where
  pub type : holds is_string (lookup "type" fb) ≡ true
  pub parameter : holds is_string (lookup "parameter" fb) ≡ true

pub feedback_sound : (fb w : Json) → validate_rtcp_feedback fb ≡ ok w → IsObject IsRtcpFeedback w
unfolding validate_rtcp_feedback
feedback_sound (object fb) w h =
    let given = holds is_string (lookup "parameter" fb) in
    let result : w ≡ object (put_unless given "parameter" (string "") fb) = ground arith in
    let written = λ (i : String). lookup-put_unless i given "parameter" (string "") fb in
    subst (IsObject IsRtcpFeedback) (sym result) (record {
      type = ground (arith, written "type");
      parameter = ground (arith, written "parameter");
    })
feedback_sound _ w h = absurd (ground arith)

pub feedback_stable : (fb : Json) → IsObject IsRtcpFeedback fb → validate_rtcp_feedback fb ≡ ok fb
unfolding validate_rtcp_feedback
feedback_stable (object fb) h = simp (h.type, h.parameter, put_unless-true)
feedback_stable _ h = absurd h

-- A parameter is a string, a number or null, and `apt` is an integer.
abbrev pub IsCodecParameter : String → Json → Type 0
IsCodecParameter key value =
    ((is_string value || is_number value || is_null value) ≡ true)
    × ((not (key == "apt") || is_number_integer value) ≡ true)

abbrev pub IsCodecParameters : Fields → Type 0
IsCodecParameters end = Unit
IsCodecParameters (field key value fs) = IsCodecParameter key value × IsCodecParameters fs

-- The loop passes exactly the parameters that are well formed.
pub parameters_sound : (fs : Fields) → check_codec_parameters fs ≡ ok tt → IsCodecParameters fs
unfolding check_codec_parameters
parameters_sound end h = tt
parameters_sound (field key value fs) h =
    ((ground arith, ground arith), parameters_sound fs (ground arith))

pub parameters_complete : (fs : Fields) → IsCodecParameters fs → check_codec_parameters fs ≡ ok tt
unfolding check_codec_parameters
parameters_complete end h = refl
parameters_complete (field key value fs) (h, hs) = ground (arith, parameters_complete fs hs)

-- The channels are an integer for the kind "audio", and absent otherwise.
abbrev pub channels_fit : String → Option Json → Bool
channels_fit kind channels =
    if kind == "audio" then holds is_number_integer channels else not (present channels)

-- What is there after `fill_channels`, of what was found and of what is there now.
abbrev pub channels_of : String → Option Json → Option Json → Option Json
channels_of kind found now =
    if kind == "audio"
    then (if holds is_number_integer found then now else some (integer (pos 1)))
    else if present found
    then none
    else now

pub lookup-fill_channels :
    (i kind : String) (found : Option Json) (codec : Fields)
    → lookup i (fill_channels kind found codec)
      ≡ (if "channels" == i then channels_of kind found (lookup i codec) else lookup i codec)
unfolding fill_channels
lookup-fill_channels i kind found codec = ground (
  arith,
  lookup-put_unless i (holds is_number_integer found) "channels" (integer (pos 1)) codec,
  lookup-remove i "channels" codec,
)

pub channels_sound :
    (kind : String) (found : Option Json) → channels_fit kind (channels_of kind found found) ≡ true
channels_sound kind none = ground arith
channels_sound kind (some j) = ground arith

pub fill_channels_stable :
    (kind : String) (found : Option Json) (codec : Fields)
    → channels_fit kind found ≡ true
    → fill_channels kind found codec ≡ codec
unfolding fill_channels put_unless
fill_channels_stable kind found codec h = ground arith
