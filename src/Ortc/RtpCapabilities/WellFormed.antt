-- ===== src/Ortc/RtpCapabilities/WellFormed.antt =====
-- Well-formed RTP capabilities: what validateRtpCapabilities of src/ortc.cpp establishes, and what
-- it leaves as it is.
use libmediasoupclient.Prelude.{◌≡◌, arith, some, inl, inr}
use libmediasoupclient.Prelude.Result.{ok, Result-cases}
use libmediasoupclient.Json.{Json, Items, nil, array, object, Fields, lookup, insert}
use libmediasoupclient.Json.Access.{lookup-insert, insert-present}
use libmediasoupclient.Ortc.Checks.{
  present, items_of, put_unless, each, AllItems, each_sound, each_stable, lookup-put_unless,
  put_unless-true, IsObject,
}
use libmediasoupclient.Ortc.RtpCapabilities.{
  validate_rtp_codec_capability, validate_rtp_header_extension, validate_rtp_capabilities,
}
use libmediasoupclient.Ortc.RtpCapabilities.Codec.{IsRtpCodecCapability, codec_sound, codec_stable}
use libmediasoupclient.Ortc.RtpCapabilities.Extension.{
  IsRtpHeaderExtension, extension_sound, extension_stable,
}

-- Capabilities with both arrays there, and every item of them well formed.
pub record IsRtpCapabilities (c : Fields) : Type 0 where
  pub codecs : Items
  pub extensions : Items
  pub has_codecs : lookup "codecs" c ≡ some (array codecs)
  pub valid_codecs : AllItems (IsObject IsRtpCodecCapability) codecs
  pub has_extensions : lookup "headerExtensions" c ≡ some (array extensions)
  pub valid_extensions : AllItems (IsObject IsRtpHeaderExtension) extensions

abbrev with_codecs : Fields → Fields
with_codecs c = put_unless (present (lookup "codecs" c)) "codecs" (array nil) c

abbrev with_extensions : Items → Fields → Fields
with_extensions codecs c =
    put_unless (present (lookup "headerExtensions" c)) "headerExtensions" (array nil)
      (insert "codecs" (array codecs) (with_codecs c))

-- What a run that does not throw has passed, and its result.
record Accepted (c : Fields) (w : Json) : Type 0 where
  codecs : Items
  extensions : Items
  codecs_looped :
      each validate_rtp_codec_capability (items_of (lookup "codecs" (with_codecs c))) ≡ ok codecs
  extensions_looped :
      each validate_rtp_header_extension
        (items_of (lookup "headerExtensions" (with_extensions codecs c)))
      ≡ ok extensions
  result : w ≡ object (insert "headerExtensions" (array extensions) (with_extensions codecs c))

accepted : (c : Fields) (w : Json) → validate_rtp_capabilities (object c) ≡ ok w → Accepted c w
unfolding validate_rtp_capabilities
accepted c w h =
    elim (Result-cases
      (each validate_rtp_codec_capability (items_of (lookup "codecs" (with_codecs c))))) [
        | inl (x, m) ↦ absurd (ground arith)
        | inr (codecs, m) ↦
            elim (Result-cases (
              each validate_rtp_header_extension
                (items_of (lookup "headerExtensions" (with_extensions codecs c))))) [
                  | inl (x, l) ↦ absurd (ground arith)
                  | inr (extensions, l) ↦ record {
                    codecs = codecs;
                    extensions = extensions;
                    codecs_looped = m;
                    extensions_looped = l;
                    result = ground arith;
                  }
                ]
      ]

Accepted-sound : {c : Fields} {w : Json} → Accepted c w → IsObject IsRtpCapabilities w
Accepted-sound a = rw a.result (record {
  codecs = a.codecs;
  extensions = a.extensions;
  has_codecs = simp (lookup-insert, lookup-put_unless);
  valid_codecs =
      each_sound validate_rtp_codec_capability (IsObject IsRtpCodecCapability) codec_sound _ _
        a.codecs_looped;
  has_extensions = simp lookup-insert;
  valid_extensions =
      each_sound validate_rtp_header_extension (IsObject IsRtpHeaderExtension) extension_sound _ _
        a.extensions_looped;
})

-- What validateRtpCapabilities returns is an object with arrays of well-formed codecs and header
-- extensions, whatever it was given.
pub capabilities_sound :
    (j w : Json) → validate_rtp_capabilities j ≡ ok w → IsObject IsRtpCapabilities w
unfolding validate_rtp_capabilities
capabilities_sound (object c) w h = Accepted-sound (accepted c w h)
capabilities_sound _ w h = absurd (ground arith)

-- Well-formed capabilities pass, and nothing of them is changed.
pub capabilities_stable :
    (c : Json) → IsObject IsRtpCapabilities c → validate_rtp_capabilities c ≡ ok c
unfolding validate_rtp_capabilities
capabilities_stable (object c) h = simp (
  h.has_codecs,
  put_unless-true,
  each_stable validate_rtp_codec_capability (IsObject IsRtpCodecCapability) codec_stable h.codecs
      h.valid_codecs,
  insert-present "codecs" (array h.codecs) c h.has_codecs,
  h.has_extensions,
  each_stable validate_rtp_header_extension (IsObject IsRtpHeaderExtension) extension_stable
      h.extensions h.valid_extensions,
  insert-present "headerExtensions" (array h.extensions) c h.has_extensions,
)
capabilities_stable _ h = absurd h

-- Validating capabilities a second time succeeds and changes nothing.
pub validate_capabilities_idempotent :
    (j w : Json) → validate_rtp_capabilities j ≡ ok w → validate_rtp_capabilities w ≡ ok w
validate_capabilities_idempotent j w h = capabilities_stable w (capabilities_sound j w h)
