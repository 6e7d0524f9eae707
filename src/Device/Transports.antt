-- ===== src/Device/Transports.antt =====
-- CreateSendTransport and CreateRecvTransport of src/Device.cpp, with the constructors of the
-- transports of src/Transport.cpp.
pub mod Created
pub mod Kinds
use libmediasoupclient.Prelude.{String, Bool, true, false, not, List, [], ◌∷◌, if◌then◌else◌}
use libmediasoupclient.Prelude.Result.{Result, ok, err, type_error, require, ◌>>=◌, ◌>>◌}
use libmediasoupclient.Json.{Json, is_object, is_null}
use libmediasoupclient.Ortc.Ice.{validate_ice_parameters, validate_ice_candidates}
use libmediasoupclient.Ortc.Dtls.{validate_dtls_parameters}
use libmediasoupclient.Ortc.Sctp.{validate_sctp_parameters}
use libmediasoupclient.Ortc.Sending.{get_sending_rtp_parameters, get_sending_remote_rtp_parameters}
use libmediasoupclient.Device.{Device, not_loaded}
use libmediasoupclient.Session.SendTransport.{SendTransport, new_send_transport}
use libmediasoupclient.Session.RecvTransport.{RecvTransport, new_recv_transport}

-- The parameters of the transport at the router.
pub record Parameters : Type 0 where
  pub ice_parameters : Json
  pub ice_candidates : Json
  pub dtls_parameters : Json
  pub sctp_parameters : Json

-- The RTP parameters of a send transport, of the kinds "audio" and "video".
pub record Sending : Type 0 where
  pub audio : Json
  pub video : Json
  pub remote_audio : Json
  pub remote_video : Json

-- `if (!sctpParameters.is_null())`
unfoldable pub check_sctp : Json → Result Json
check_sctp sctp_parameters =
    if is_null sctp_parameters then ok sctp_parameters else validate_sctp_parameters sctp_parameters

-- The checks that both functions begin with, and the parameters as they leave them.
unfoldable pub check_arguments : Device → Bool → Parameters → Result Parameters
check_arguments d app_data_is_object p = do
  require d.loaded not_loaded
  require app_data_is_object (type_error "appData must be a JSON object")
  ice_parameters ← validate_ice_parameters p.ice_parameters
  ice_candidates ← validate_ice_candidates p.ice_candidates
  dtls_parameters ← validate_dtls_parameters p.dtls_parameters
  sctp_parameters ← check_sctp p.sctp_parameters
  ok (record {
    ice_parameters = ice_parameters;
    ice_candidates = ice_candidates;
    dtls_parameters = dtls_parameters;
    sctp_parameters = sctp_parameters;
  })

-- What the constructor of SendTransport computes for its handler.
unfoldable pub sending : Json → Result Sending
sending extended = do
  audio ← get_sending_rtp_parameters "audio" extended
  video ← get_sending_rtp_parameters "video" extended
  remote_audio ← get_sending_remote_rtp_parameters "audio" extended
  remote_video ← get_sending_remote_rtp_parameters "video" extended
  ok (record {
    audio = audio;
    video = video;
    remote_audio = remote_audio;
    remote_video = remote_video;
  })

-- CreateSendTransport: the parameters and the RTP parameters that the handler gets, and the transport.
unfoldable pub create_send_transport :
    Device → Bool → Parameters → Result (Parameters × Sending × SendTransport)
create_send_transport d app_data_is_object p = do
  valid ← check_arguments d app_data_is_object p
  rtp ← sending d.extended_rtp_capabilities
  ok (valid, rtp, new_send_transport (is_object valid.sctp_parameters) d.can_produce_by_kind)

-- CreateRecvTransport
unfoldable pub create_recv_transport :
    Device → Bool → Parameters → Result (Parameters × RecvTransport)
create_recv_transport d app_data_is_object p = do
  valid ← check_arguments d app_data_is_object p
  ok (valid, new_recv_transport (is_object valid.sctp_parameters) d.extended_rtp_capabilities)
