-- ===== src/Device/Failure.antt =====
-- What Load of src/Device.cpp leaves when it throws.
use libmediasoupclient.Prelude.{Bool, true, false, not, ◌≡◌, refl, arith}
use libmediasoupclient.Prelude.Result.{Error, Result, ok, err, require}
use libmediasoupclient.Prelude.Action.{Action, lift, ◌>>=◌}
use libmediasoupclient.Json.{Json}
use libmediasoupclient.Ortc.Matching.{H264}
use libmediasoupclient.Ortc.RtpCapabilities.{validate_rtp_capabilities}
use libmediasoupclient.Ortc.Extended.{get_extended_rtp_capabilities}
use libmediasoupclient.Ortc.Receiving.{get_recv_rtp_capabilities}
use libmediasoupclient.Ortc.Sending.{can_send}
use libmediasoupclient.Ortc.Sctp.{validate_sctp_capabilities}
use libmediasoupclient.Device.{Device, native_sctp_capabilities, load}

-- If the action throws, the predicate holds of the state that it leaves.
abbrev Keeps {ℓ κ μ} : {S : Type ℓ} {B : Type κ} → (S → Type μ) → S × Result B → Type (κ ⊔ μ)
Keeps P x = (e : Error) → x.1 ≡ err e → P x.0

lift-Keeps {ℓ κ μ ν} :
    {S : Type ℓ} {A : Type κ} {B : Type μ} (P : S → Type ν) (call : Result A)
    (next : A → Action S B) (s : S)
    → P s
    → ((a : A) → call ≡ ok a → Keeps P (next a s))
    → Keeps P ((lift call >>= next) s)
lift-Keeps P (ok a) next s now later = later a refl
lift-Keeps P (err e) next s now later = λ _ _. now

require_not_lem :
    (loaded : Bool) (e : Error) {u : Unit {0}} → require (not loaded) e ≡ ok u → loaded ≡ false
require_not_lem true e h = ground (arith, h)
require_not_lem false e h = refl

-- If Load throws, the device is loaded exactly if it was before, and a device that was loaded is not
-- changed at all.
pub load-error :
    (h264 : H264) (native : Result Json) (router : Json) (d : Device) (e : Error)
    → (load h264 native router d).1 ≡ err e
    → ((load h264 native router d).0.loaded ≡ d.loaded)
      × (d.loaded ≡ true → (load h264 native router d).0 ≡ d)
unfolding load
load-error h264 native router d e h =
    let P = λ (t : Device). (t.loaded ≡ d.loaded) × (d.loaded ≡ true → t ≡ d) in
    let same : P d = (refl, λ _. refl) in
    lift-Keeps P (require (not d.loaded) _) _ d same
      (λ _ passed.
        let not_loaded = require_not_lem d.loaded _ passed in
        let contrary = λ (t : Device) (c : d.loaded ≡ true).
          absurd {A = t ≡ d} (ground (arith, c, not_loaded)) in
        lift-Keeps P (validate_rtp_capabilities router) _ d same (λ remote _.
          lift-Keeps P native _ d same (λ offered _.
            lift-Keeps P (validate_rtp_capabilities offered) _ d same (λ local _.
              lift-Keeps P (get_extended_rtp_capabilities h264 local remote) _ d same (λ extended _.
                lift-Keeps P (can_send "audio" extended) _ _ (refl, contrary _)
                  (λ audio _.
                    lift-Keeps P (can_send "video" extended) _ _ (refl, contrary _)
                      (λ video _.
                        lift-Keeps P (get_recv_rtp_capabilities extended) _ _ (refl, contrary _)
                          (λ recv _.
                            lift-Keeps P (validate_rtp_capabilities recv) _ _ (refl, contrary _)
                              (λ valid _.
                                lift-Keeps P (validate_sctp_capabilities native_sctp_capabilities) _
                                  _ (refl, contrary _)
                                  (λ sctp _ e failed. absurd (ground (arith, failed))))))))))))
      e h
