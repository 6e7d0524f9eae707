-- ===== src/Ortc/Ice/Parameters.antt =====
-- What validateIceParameters of src/ortc.cpp establishes.
use libmediasoupclient.Prelude.{true, false, refl, ◌≡◌, arith, subst, inl, inr, Bool-cases}
use libmediasoupclient.Prelude.Result.{ok, check-eq-ok, ok-injective}
use libmediasoupclient.Json.{Json, boolean, object, Fields, is_boolean, lookup}
use libmediasoupclient.Ortc.Checks.{holds, is_nonempty_string, IsObject, lookup-put_unless}
use libmediasoupclient.Ortc.Ice.{validate_ice_parameters}

pub record IsIceParameters (p : Fields) : Type 0 where
  pub username_fragment : holds is_nonempty_string (lookup "usernameFragment" p) ≡ true
  pub password : holds is_nonempty_string (lookup "password" p) ≡ true
  pub ice_lite : holds is_boolean (lookup "iceLite" p) ≡ true

-- What passes has a user name fragment and a password, and a Boolean iceLite afterwards.
pub validate-IsIceParameters :
    (j w : Json) → validate_ice_parameters j ≡ ok w → IsObject IsIceParameters w
unfolding validate_ice_parameters
validate-IsIceParameters (object p) w h =
    let (user, h₁) = check-eq-ok (holds is_nonempty_string (lookup "usernameFragment" p)) _ _ h in
    let (password, h₂) = check-eq-ok (holds is_nonempty_string (lookup "password" p)) _ _ h₁ in
    let given = holds is_boolean (lookup "iceLite" p) in
    subst (IsObject IsIceParameters) (ok-injective h₂) (record {
      username_fragment =
          rw (lookup-put_unless "usernameFragment" given "iceLite" (boolean false) p) user;
      password = rw (lookup-put_unless "password" given "iceLite" (boolean false) p) password;
      ice_lite =
          rw (lookup-put_unless "iceLite" given "iceLite" (boolean false) p)
            (elim (Bool-cases given) [ inl g ↦ rw g g | inr g ↦ rw g refl ]);
    })
validate-IsIceParameters _ w h = absurd (ground arith)
