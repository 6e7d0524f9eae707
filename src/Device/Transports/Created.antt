-- ===== src/Device/Transports/Created.antt =====
-- What the transports of src/Device.cpp are made with.
use libmediasoupclient.Prelude.{
  Bool, true, not, ◌≡◌, ◌∙◌, ◌⊎◌, inl, inr, refl, arith, ap, sym, subst, Bool-cases,
}
use libmediasoupclient.Prelude.Result.{ok, ok-injective, >>=-eq-ok, require-eq-ok, check-eq-ok}
use libmediasoupclient.Json.{Json, is_object, is_null, object, Fields, lookup, is_number_integer}
use libmediasoupclient.Ortc.Checks.{IsObject, IsArray, AllItems, holds}
use libmediasoupclient.Ortc.Ice.{validate_ice_parameters, validate_ice_candidates}
use libmediasoupclient.Ortc.Ice.Parameters.{IsIceParameters, validate-IsIceParameters}
use libmediasoupclient.Ortc.Ice.WellFormed.{IsCandidate, ice_candidates_sound}
use libmediasoupclient.Ortc.Dtls.{validate_dtls_parameters}
use libmediasoupclient.Ortc.Dtls.WellFormed.{IsDtlsParameters, validate-IsDtlsParameters}
use libmediasoupclient.Ortc.Sctp.{validate_sctp_parameters}
use libmediasoupclient.Device.{Device}
use libmediasoupclient.Device.Transports.{
  Parameters, Sending, check_sctp, check_arguments, sending, create_send_transport,
  create_recv_transport,
}
use libmediasoupclient.Session.SendTransport.{SendTransport, new_send_transport}
use libmediasoupclient.Session.RecvTransport.{RecvTransport, new_recv_transport}

pub record IsSctpParameters (p : Fields) : Type 0 where
  pub port : holds is_number_integer (lookup "port" p) ≡ true
  pub os : holds is_number_integer (lookup "OS" p) ≡ true
  pub mis : holds is_number_integer (lookup "MIS" p) ≡ true
  pub max_message_size : holds is_number_integer (lookup "maxMessageSize" p) ≡ true

-- The parameters that a transport of a device gets, for those that were given.
pub record IsChecked (d : Device) (given valid : Parameters) : Type 0 where
  pub is_loaded : d.loaded ≡ true
  pub ice : IsObject IsIceParameters valid.ice_parameters
  pub same_candidates : given.ice_candidates ≡ valid.ice_candidates
  pub candidates : IsArray (AllItems (IsObject IsCandidate)) valid.ice_candidates
  pub dtls : IsObject IsDtlsParameters valid.dtls_parameters
  pub same_sctp : given.sctp_parameters ≡ valid.sctp_parameters
  pub sctp :
      (is_null valid.sctp_parameters ≡ true) ⊎ IsObject IsSctpParameters valid.sctp_parameters

sctp-IsSctpParameters :
    (j w : Json) → validate_sctp_parameters j ≡ ok w → (j ≡ w) × IsObject IsSctpParameters w
unfolding validate_sctp_parameters
sctp-IsSctpParameters (object p) w h =
    let (port, h₁) = check-eq-ok (holds is_number_integer (lookup "port" p)) _ _ h in
    let (os, h₂) = check-eq-ok (holds is_number_integer (lookup "OS" p)) _ _ h₁ in
    let (mis, h₃) = check-eq-ok (holds is_number_integer (lookup "MIS" p)) _ _ h₂ in
    let (size, h₄) = check-eq-ok (holds is_number_integer (lookup "maxMessageSize" p)) _ _ h₃ in
    (
      ok-injective h₄,
      subst (IsObject IsSctpParameters) (ok-injective h₄)
          (record { port = port; os = os; mis = mis; max_message_size = size }),
    )
sctp-IsSctpParameters _ w h = absurd (ground arith)

check_sctp_lem :
    (j w : Json)
    → check_sctp j ≡ ok w
    → (j ≡ w) × ((is_null w ≡ true) ⊎ IsObject IsSctpParameters w)
unfolding check_sctp
check_sctp_lem j w h = elim (Bool-cases (is_null j)) [
  | inl null_j ↦
      let same : j ≡ w = ok-injective (rw null_j at h) in
      (same, inl (subst (λ x. is_null x ≡ true) same null_j))
  | inr not_null ↦
      let (same, valid) = sctp-IsSctpParameters j w (rw not_null at h) in (same, inr valid)
]

check_arguments-IsChecked :
    (d : Device) (app_data_is_object : Bool) (p valid : Parameters)
    → check_arguments d app_data_is_object p ≡ ok valid
    → IsChecked d p valid
unfolding check_arguments
check_arguments-IsChecked d app_data_is_object p valid h =
    let (loaded, h₁) = require-eq-ok d.loaded _ _ h in
    let (_, h₂) = require-eq-ok app_data_is_object _ _ h₁ in
    let (ice, is_ice, h₃) = >>=-eq-ok (validate_ice_parameters p.ice_parameters) _ h₂ in
    let (candidates, c, h₄) = >>=-eq-ok (validate_ice_candidates p.ice_candidates) _ h₃ in
    let (dtls, is_dtls, h₅) = >>=-eq-ok (validate_dtls_parameters p.dtls_parameters) _ h₄ in
    let (sctp, is_sctp, last) = >>=-eq-ok (check_sctp p.sctp_parameters) _ h₅ in
    let (same_c, all_c) = ice_candidates_sound p.ice_candidates candidates c in
    let (same_s, sctp_ok) = check_sctp_lem p.sctp_parameters sctp is_sctp in
    subst (IsChecked d p) (ok-injective last) (record {
      is_loaded = loaded;
      ice = validate-IsIceParameters p.ice_parameters ice is_ice;
      same_candidates = same_c;
      candidates = all_c;
      dtls = validate-IsDtlsParameters p.dtls_parameters dtls is_dtls;
      same_sctp = same_s;
      sctp = sctp_ok;
    })

-- A transport has SCTP parameters exactly if those that it gets are not null.
has_sctp :
    (j : Json) → (is_null j ≡ true) ⊎ IsObject IsSctpParameters j → is_object j ≡ not (is_null j)
has_sctp (object p) (inl n) = refl
has_sctp (object p) (inr o) = refl
has_sctp Json.null _ = refl
has_sctp _ (inl n) = absurd (ground (arith, n))
has_sctp _ (inr o) = absurd o

-- If CreateSendTransport returns, the device is loaded, the ICE, DTLS and SCTP parameters that the
-- handler gets are well formed, the candidates and the SCTP parameters as they were given, and the
-- transport can open data channels exactly if the SCTP parameters are not null.
pub create_send_transport-IsChecked :
    (d : Device) (app_data_is_object : Bool) (p valid : Parameters) (rtp : Sending)
    (s : SendTransport)
    → create_send_transport d app_data_is_object p ≡ ok (valid, rtp, s)
    → IsChecked d p valid × (s.has_sctp_parameters ≡ not (is_null p.sctp_parameters))
unfolding create_send_transport new_send_transport
create_send_transport-IsChecked d app_data_is_object p valid rtp s h =
    let (v, is_v, h₁) = >>=-eq-ok (check_arguments d app_data_is_object p) _ h in
    let (r, _, h₂) = >>=-eq-ok (sending d.extended_rtp_capabilities) _ h₁ in
    let same = ok-injective h₂ in
    let checked = check_arguments-IsChecked d app_data_is_object p v is_v in
    (
      subst (IsChecked d p) (ap (λ (x : Parameters × Sending × SendTransport). x.0) same) checked,
      sym (ap (λ (x : Parameters × Sending × SendTransport). x.2.has_sctp_parameters) same)
          ∙ has_sctp v.sctp_parameters checked.sctp
          ∙ ap (λ j. not (is_null j)) (sym checked.same_sctp),
    )

-- If CreateRecvTransport returns, the device is loaded, the ICE, DTLS and SCTP parameters that the
-- handler gets are well formed, the candidates and the SCTP parameters as they were given, and the
-- transport can open data channels exactly if the SCTP parameters are not null.
pub create_recv_transport-IsChecked :
    (d : Device) (app_data_is_object : Bool) (p valid : Parameters) (s : RecvTransport)
    → create_recv_transport d app_data_is_object p ≡ ok (valid, s)
    → IsChecked d p valid × (s.has_sctp_parameters ≡ not (is_null p.sctp_parameters))
unfolding create_recv_transport new_recv_transport
create_recv_transport-IsChecked d app_data_is_object p valid s h =
    let (v, is_v, last) = >>=-eq-ok (check_arguments d app_data_is_object p) _ h in
    let same = ok-injective last in
    let checked = check_arguments-IsChecked d app_data_is_object p v is_v in
    (
      subst (IsChecked d p) (ap (λ (x : Parameters × RecvTransport). x.0) same) checked,
      sym (ap (λ (x : Parameters × RecvTransport). x.1.has_sctp_parameters) same)
          ∙ has_sctp v.sctp_parameters checked.sctp
          ∙ ap (λ j. not (is_null j)) (sym checked.same_sctp),
    )
