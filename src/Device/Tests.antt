-- ===== src/Device/Tests.antt =====
-- A device of src/Device.cpp that is loaded with VP8, and the transports that it makes.
use libmediasoupclient.Prelude.{true, false, [], ◌∷◌, ◌≡◌, some, none, not, refl}
use libmediasoupclient.Prelude.Result.{ok, err, invalid_state_error, value_or}
use libmediasoupclient.Json.{
  Json, null, is_null, boolean, string, array, object, nil, cons, lookup, insert, remove,
}
use libmediasoupclient.Json.Number.{json_eq, get_uint8}
use libmediasoupclient.Ortc.MimeType.{matches_lower, mime_kind, to_lower}
use libmediasoupclient.Ortc.Rtp.{check_codec_parameters, fill_channels}
use libmediasoupclient.Ortc.Checks.{each, put_unless, items_of}
use libmediasoupclient.Ortc.Objects.{build, find}
use libmediasoupclient.Ortc.RtpCapabilities.{
  validate_rtp_codec_capability, validate_rtp_capabilities,
}
use libmediasoupclient.Ortc.Matching.{is_rtx_codec, match_codecs, reduce_rtcp_feedback}
use libmediasoupclient.Ortc.Extended.{
  extended_codec, find_rtx, link_rtx, find_local, match_media, match_extensions,
  get_extended_rtp_capabilities,
}
use libmediasoupclient.Ortc.Receiving.{
  receiving_codecs_of, receiving_codecs, receiving_extensions, get_recv_rtp_capabilities,
}
use libmediasoupclient.Ortc.Sending.{
  can_send, has_kind, get_sending_rtp_parameters, sending_parameters, sending_codecs,
  sending_codecs_of, sending_extensions, sending_extension, get_sending_remote_rtp_parameters,
  has_uri, congestion, is_dropped, drop_feedback, reduce_codec,
}
use libmediasoupclient.Ortc.Sending.Codecs.{is_nonempty}
use libmediasoupclient.Ortc.Ice.{validate_ice_parameters, validate_ice_candidates}
use libmediasoupclient.Ortc.Dtls.{validate_dtls_parameters, validate_dtls_fingerprint, is_role}
use libmediasoupclient.Ortc.Sctp.{validate_sctp_capabilities, validate_num_sctp_streams}
use libmediasoupclient.Ortc.Samples.{every_profile, capabilities, extended}
use libmediasoupclient.Device.{can_produce, Device, new_device, load, native_sctp_capabilities}
use libmediasoupclient.Device.Loaded.{IsLoaded, Negotiated, load-IsLoaded}
use libmediasoupclient.Device.Failure.{load-error}
use libmediasoupclient.Device.Transports.{
  Parameters, Sending, check_sctp, check_arguments, sending, create_send_transport,
}
use libmediasoupclient.Device.Transports.Created.{IsChecked, create_send_transport-IsChecked}
use libmediasoupclient.Device.Transports.Kinds.{can_produce-codecs, check_produce-passes}
use libmediasoupclient.Session.SendTransport.{Track, new_send_transport, check_produce}

abbrev recv : Json
recv =
    value_or null (validate_rtp_capabilities (value_or null (get_recv_rtp_capabilities extended)))

abbrev device : Device
device = record {
  loaded = true;
  extended_rtp_capabilities = extended;
  recv_rtp_capabilities = recv;
  sctp_capabilities = native_sctp_capabilities;
  can_produce_by_kind = ("audio", false) ∷ ("video", true) ∷ [];
}

run :
    load every_profile (ok (capabilities 96 97)) (capabilities 101 102) new_device ≡ (device, ok tt)
unfolding load get_extended_rtp_capabilities match_media find_local extended_codec find_rtx link_rtx
    match_extensions validate_rtp_capabilities lookup insert remove each put_unless is_rtx_codec
    match_codecs reduce_rtcp_feedback matches_lower json_eq to_lower validate_rtp_codec_capability
    mime_kind check_codec_parameters fill_channels receiving_codecs_of receiving_codecs
    receiving_extensions get_recv_rtp_capabilities can_send has_kind validate_sctp_capabilities
    validate_num_sctp_streams new_device native_sctp_capabilities get_uint8
run = refl

load-IsLoaded_example :
    (new_device.loaded ≡ false)
    × Negotiated every_profile (ok (capabilities 96 97)) (capabilities 101 102) extended
    × IsLoaded device
load-IsLoaded_example =
    load-IsLoaded every_profile (ok (capabilities 96 97)) (capabilities 101 102) new_device device
      run

-- A second Load.
again :
    (load every_profile (ok (capabilities 96 97)) (capabilities 101 102) device).1
    ≡ err (invalid_state_error "already loaded")
unfolding load
again = refl

load-error_example :
    ((load every_profile (ok (capabilities 96 97)) (capabilities 101 102) device).0.loaded ≡ true)
    × (device.loaded ≡ true
        → (load every_profile (ok (capabilities 96 97)) (capabilities 101 102) device).0 ≡ device)
load-error_example =
    load-error every_profile (ok (capabilities 96 97)) (capabilities 101 102) device
      (invalid_state_error "already loaded") again

abbrev silent : Json
silent = value_or null (get_sending_rtp_parameters "audio" extended)

sends_no_audio : get_sending_rtp_parameters "audio" extended ≡ ok silent
unfolding get_sending_rtp_parameters sending_parameters sending_codecs sending_codecs_of
    sending_extensions insert
sends_no_audio = refl

device-IsLoaded : IsLoaded device
device-IsLoaded =
    (load-IsLoaded every_profile (ok (capabilities 96 97)) (capabilities 101 102) new_device device
      run).2

can_produce-codecs_example :
    can_produce "audio" device ≡ ok (is_nonempty (items_of (find "codecs" silent)))
can_produce-codecs_example =
    can_produce-codecs device "audio" silent device-IsLoaded refl sends_no_audio

abbrev parameters : Parameters
parameters = record {
  ice_parameters =
      object (build (("usernameFragment", string "user") ∷ ("password", string "secret") ∷ []));
  ice_candidates = array nil;
  dtls_parameters = object (
      build (
        ("role", string "auto")
        ∷ (
          "fingerprints",
          array (
              cons
                (object (build (("algorithm", string "sha-256") ∷ ("value", string "AB:CD") ∷ [])))
                nil),
        )
        ∷ []));
  sctp_parameters = null;
}

abbrev checked : Parameters
checked = record parameters {
  ice_parameters = object (
      build (
        ("usernameFragment", string "user")
        ∷ ("password", string "secret")
        ∷ ("iceLite", boolean false)
        ∷ []));
}

passes : check_arguments device true parameters ≡ ok checked
unfolding check_arguments check_sctp validate_ice_parameters validate_ice_candidates
    validate_dtls_parameters validate_dtls_fingerprint each lookup insert put_unless is_role
    matches_lower to_lower
passes = refl

abbrev no_sending : Sending
no_sending = record { audio = null; video = null; remote_audio = null; remote_video = null }

abbrev rtp : Sending
rtp = value_or no_sending (sending extended)

has_rtp : sending extended ≡ ok rtp
unfolding sending get_sending_rtp_parameters get_sending_remote_rtp_parameters sending_parameters
    sending_codecs sending_codecs_of sending_extensions sending_extension insert has_uri congestion
    is_dropped drop_feedback reduce_codec each get_uint8
has_rtp = refl

created :
    create_send_transport device true parameters
    ≡ ok (checked, rtp, new_send_transport false device.can_produce_by_kind)
unfolding create_send_transport
created = rw (passes, has_rtp, create_send_transport) refl

create_send_transport-IsChecked_example :
    IsChecked device parameters checked
    × ((new_send_transport false device.can_produce_by_kind).has_sctp_parameters
        ≡ not (is_null parameters.sctp_parameters))
create_send_transport-IsChecked_example =
    create_send_transport-IsChecked device true parameters checked rtp
      (new_send_transport false device.can_produce_by_kind) created

-- The device cannot produce audio.
abbrev microphone : Track
microphone = record { pointer = 1; kind = "audio"; ended = false }

check_produce-passes_example :
    check_produce (new_send_transport false device.can_produce_by_kind) (some microphone) none
    ≡ ok microphone
check_produce-passes_example =
    check_produce-passes device true parameters checked rtp
      (new_send_transport false device.can_produce_by_kind) microphone device-IsLoaded created refl
      refl
