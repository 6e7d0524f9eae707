-- ===== src/Session/Producing/Tests.antt =====
-- A paused producer of src/Producer.cpp whose track is replaced, and the layers of three encodings.
use libmediasoupclient.Prelude.{
  ℕ, String, Bool, true, false, ◌&&◌, [], ◌∷◌, ◌≡◌, refl, eqb, leb, if◌then◌else◌, List,
}
use libmediasoupclient.Prelude.Result.{Result, ok}
use libmediasoupclient.Json.{null}
use libmediasoupclient.Session.Registry.{Entry}
use libmediasoupclient.Session.SendTransport.{Producer}
use libmediasoupclient.Session.Producing.{Tracks, Encoding, edit_encodings}
use libmediasoupclient.Session.Producing.Layers.{select_from, edit_encodings-select}

-- The state of the engine is which tracks are enabled; all are videos.
abbrev tracks : Tracks (ℕ → Bool)
tracks = record {
  kind = λ t w. "video";
  ended = λ t w. false;
  enabled = λ t w. w t;
  set_enabled = λ t b w u. if eqb t u then b else w u;
}

abbrev producer : Entry Producer
producer = record {
  id = "producer";
  local_id = "0";
  closed = false;
  value = record { track = 7; max_spatial_layer = 0; rtp_parameters = null };
}

abbrev on_replace_track : String → ℕ → Result (Unit {0})
on_replace_track local_id track = ok tt

abbrev encoding : Bool → ℕ → Encoding ℕ
encoding active bitrate = record { active = active; rest = bitrate }

abbrev encodings : List (Encoding ℕ)
encodings = encoding false 100 ∷ encoding true 300 ∷ encoding true 900 ∷ []

edit_encodings-select_example :
    edit_encodings 2 encodings
    ≡ (if leb 1 2 && leb 2 3 then select_from 2 0 encodings else encodings)
edit_encodings-select_example = edit_encodings-select 2 encodings

two_layers :
    edit_encodings 2 encodings ≡ encoding true 100 ∷ encoding true 300 ∷ encoding false 900 ∷ []
unfolding edit_encodings
two_layers = refl
