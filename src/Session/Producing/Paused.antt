-- ===== src/Session/Producing/Paused.antt =====
-- ReplaceTrack of src/Producer.cpp.
use libmediasoupclient.Prelude.{ℕ, String, false, Option, some, ◌≡◌}
use libmediasoupclient.Prelude.Result.{Result, ok, err, Error}
use libmediasoupclient.Session.Registry.{Entry}
use libmediasoupclient.Session.SendTransport.{Producer}
use libmediasoupclient.Session.Producing.{Tracks, is_paused, check_replace, with_track}

module _ {ℓ} {W : Type ℓ} (tracks : Tracks W) where
  -- The ways of a call of ReplaceTrack.
  pub data Replaced (on_replace_track : String → ℕ → Result (Unit {0})) (given : Option ℕ)
      (p : Entry Producer) (w : W) : (Entry Producer × W) × Result (Unit {0}) → Type ℓ where
    refused :
        (e : Error)
        → check_replace tracks given p w ≡ err e
        → Replaced on_replace_track given p w ((p, w), err e)
    thrown :
        (track : ℕ) (e : Error)
        → on_replace_track p.local_id track ≡ err e
        → Replaced on_replace_track given p w ((p, w), err e)
    same_track :
        given ≡ some p.value.track
        → p.closed ≡ false
        → Replaced on_replace_track given p w ((p, w), ok tt)
    replaced :
        (track : ℕ) (v : W)
        → given ≡ some track
        → p.closed ≡ false
        → tracks.ended track w ≡ false
        → on_replace_track p.local_id track ≡ ok tt
        → is_paused tracks track v ≡ is_paused tracks p.value.track w
        → Replaced on_replace_track given p w ((with_track tracks track p, v), ok tt)
