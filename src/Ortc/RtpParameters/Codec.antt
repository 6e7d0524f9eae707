-- ===== src/Ortc/RtpParameters/Codec.antt =====
-- Well-formed codecs of RTP parameters: what validateRtpCodecParameters of src/ortc.cpp
-- establishes, and what it leaves as it is.
use libmediasoupclient.Prelude.{String, true, ◌≡◌, refl, arith, Option, none, some, inl, inr}
use libmediasoupclient.Prelude.Result.{ok, Result-cases}
use libmediasoupclient.Json.{
  Json, Items, nil, string, array, object, Fields, end, is_string, is_array, is_object,
  is_number_integer, lookup, insert,
}
use libmediasoupclient.Json.Access.{lookup-insert, insert-present}
use libmediasoupclient.Ortc.Checks.{
  holds, items_of, fields_of, put_unless, each, AllItems, each_sound, each_stable,
  lookup-put_unless, put_unless-true, IsObject,
}
use libmediasoupclient.Ortc.Rtp.{
  validate_rtcp_feedback, match_mime_type, fill_channels, check_codec_parameters,
}
use libmediasoupclient.Ortc.Rtp.WellFormed.{
  IsRtcpFeedback, feedback_sound, feedback_stable, IsCodecParameters, parameters_sound,
  parameters_complete, channels_fit, lookup-fill_channels, channels_sound, fill_channels_stable,
}
use libmediasoupclient.Ortc.RtpParameters.{validate_rtp_codec_parameters}

-- A codec with its channels, its parameters and its feedback filled in.
pub record IsRtpCodecParameters (c : Fields) : Type 0 where
  pub kind : String
  pub parameters : Fields
  pub feedback : Items
  pub mime : match_mime_type (lookup "mimeType" c) ≡ ok kind
  pub payload : holds is_number_integer (lookup "payloadType" c) ≡ true
  pub clock_rate : holds is_number_integer (lookup "clockRate" c) ≡ true
  pub channels : channels_fit kind (lookup "channels" c) ≡ true
  pub has_parameters : lookup "parameters" c ≡ some (object parameters)
  pub valid_parameters : IsCodecParameters parameters
  pub has_feedback : lookup "rtcpFeedback" c ≡ some (array feedback)
  pub valid_feedback : AllItems (IsObject IsRtcpFeedback) feedback

mime-is_string :
    (o : Option Json) {kind : String} → match_mime_type o ≡ ok kind → holds is_string o ≡ true
mime-is_string (some (string s)) h = refl
mime-is_string none h = absurd (ground arith)
mime-is_string (some _) h = absurd (ground arith)

-- The fields of a codec before its parameters are checked, and before its feedback is.
abbrev with_parameters : String → Fields → Fields
with_parameters kind c =
    put_unless (holds is_object (lookup "parameters" c)) "parameters" (object end)
      (fill_channels kind (lookup "channels" c) c)

abbrev filled : String → Fields → Fields
filled kind c =
    put_unless (holds is_array (lookup "rtcpFeedback" c)) "rtcpFeedback" (array nil)
      (with_parameters kind c)

-- What a run that does not throw has passed, and its result.
record Accepted (c : Fields) (w : Json) : Type 0 where
  kind : String
  feedback : Items
  mime : match_mime_type (lookup "mimeType" c) ≡ ok kind
  payload : holds is_number_integer (lookup "payloadType" c) ≡ true
  clock_rate : holds is_number_integer (lookup "clockRate" c) ≡ true
  passed : check_codec_parameters (fields_of (lookup "parameters" (with_parameters kind c))) ≡ ok tt
  looped :
      each validate_rtcp_feedback (items_of (lookup "rtcpFeedback" (filled kind c))) ≡ ok feedback
  result : w ≡ object (insert "rtcpFeedback" (array feedback) (filled kind c))

accepted : (c : Fields) (w : Json) → validate_rtp_codec_parameters (object c) ≡ ok w → Accepted c w
unfolding validate_rtp_codec_parameters
accepted c w h = elim (Result-cases (match_mime_type (lookup "mimeType" c))) [
  | inl (e, m) ↦ absurd (ground arith)
  | inr (kind, m) ↦
      elim (Result-cases
        (each validate_rtcp_feedback (items_of (lookup "rtcpFeedback" (filled kind c))))) [
          | inl (e, l) ↦ absurd (ground arith)
          | inr (feedback, l) ↦ record {
            kind = kind;
            feedback = feedback;
            mime = m;
            payload = ground arith;
            clock_rate = ground arith;
            passed = ground arith;
            looped = l;
            result = ground arith;
          }
        ]
]

ruleset written = (lookup-insert, lookup-put_unless, lookup-fill_channels)

Accepted-sound : {c : Fields} {w : Json} → Accepted c w → IsObject IsRtpCodecParameters w
Accepted-sound {c} a = rw a.result (record {
  kind = a.kind;
  parameters = fields_of (lookup "parameters" (with_parameters a.kind c));
  feedback = a.feedback;
  mime = simp written a.mime;
  payload = simp written a.payload;
  clock_rate = simp written a.clock_rate;
  channels = simp written (channels_sound a.kind (lookup "channels" c));
  has_parameters = simp written (ground arith);
  valid_parameters = parameters_sound _ a.passed;
  has_feedback = simp written;
  valid_feedback =
      each_sound validate_rtcp_feedback (IsObject IsRtcpFeedback) feedback_sound _ _ a.looped;
})

pub codec_sound :
    (j w : Json) → validate_rtp_codec_parameters j ≡ ok w → IsObject IsRtpCodecParameters w
unfolding validate_rtp_codec_parameters
codec_sound (object c) w h = Accepted-sound (accepted c w h)
codec_sound _ w h = absurd (ground arith)

pub codec_stable :
    (c : Json) → IsObject IsRtpCodecParameters c → validate_rtp_codec_parameters c ≡ ok c
unfolding validate_rtp_codec_parameters
codec_stable (object c) h = simp (
  mime-is_string _ h.mime,
  h.mime,
  h.payload,
  h.clock_rate,
  fill_channels_stable h.kind (lookup "channels" c) c h.channels,
  h.has_parameters,
  put_unless-true,
  parameters_complete h.parameters h.valid_parameters,
  h.has_feedback,
  each_stable validate_rtcp_feedback (IsObject IsRtcpFeedback) feedback_stable h.feedback
      h.valid_feedback,
  insert-present "rtcpFeedback" (array h.feedback) c h.has_feedback,
)
codec_stable _ h = absurd h
