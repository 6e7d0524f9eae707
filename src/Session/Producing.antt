-- ===== src/Session/Producing.antt =====
-- What src/Producer.cpp and src/Consumer.cpp do with an open track, and SetMaxSpatialLayer of
-- src/Handler.cpp.
pub mod Layers
pub mod Paused
mod Tests
use libmediasoupclient.Prelude.{
  ℕ, String, Bool, true, false, not, List, Option, none, some, eqb, ◌==◌, if◌then◌else◌,
}
use libmediasoupclient.Prelude.Lists.{set, get_elem?}
use libmediasoupclient.Prelude.Result.{
  Result, ok, err, type_error, invalid_state_error, require, ◌>>=◌, ◌>>◌,
}
use libmediasoupclient.Session.Registry.{Entry}
use libmediasoupclient.Session.SendTransport.{Producer}
use libmediasoupclient.Session.RecvTransport.{Consumer}

-- The tracks of WebRTC: a state of the media engine has for each track its kind, whether it has
-- ended and whether it is enabled, and `set_enabled` changes the state.
pub record Tracks {ℓ} (W : Type ℓ) : Type ℓ where
  pub kind : ℕ → W → String
  pub ended : ℕ → W → Bool
  pub enabled : ℕ → W → Bool
  pub set_enabled : ℕ → Bool → W → W

module _ {ℓ} {W : Type ℓ} (tracks : Tracks W) where
  -- IsPaused of a producer or of a consumer.
  abbrev pub is_paused : ℕ → W → Bool
  is_paused track w = not (tracks.enabled track w)

  -- Pause and Resume of a producer.
  unfoldable pub pause : Entry Producer → W → W
  pause p w = if p.closed then w else tracks.set_enabled p.value.track false w

  unfoldable pub resume : Entry Producer → W → W
  resume p w = if p.closed then w else tracks.set_enabled p.value.track true w

  -- Pause and Resume of a consumer.
  unfoldable pub pause_consumer : Entry Consumer → W → W
  pause_consumer c w = if c.closed then w else tracks.set_enabled c.value.track false w

  unfoldable pub resume_consumer : Entry Consumer → W → W
  resume_consumer c w = if c.closed then w else tracks.set_enabled c.value.track true w

  abbrev pub given_track : Option ℕ → Result ℕ
  given_track none = err (type_error "missing track")
  given_track (some track) = ok track

  unfoldable pub check_replace : Option ℕ → Entry Producer → W → Result ℕ
  check_replace given p w = do
    require (not p.closed) (invalid_state_error "Producer closed")
    track ← given_track given
    require (not (tracks.ended track w)) (invalid_state_error "track ended")
    ok track

  abbrev pub with_track : ℕ → Entry Producer → Entry Producer
  with_track track p = record p {
    value = record {
      track = track;
      max_spatial_layer = p.value.max_spatial_layer;
      rtp_parameters = p.value.rtp_parameters;
    };
  }

  -- ReplaceTrack, with what OnReplaceTrack does for the producer's local id and the track.
  unfoldable pub replace_track :
      (String → ℕ → Result (Unit {0}))
      → Option ℕ
      → Entry Producer
      → W
      → (Entry Producer × W) × Result (Unit {0})
  replace_track on_replace_track given p w = elim (check_replace given p w) [
    | err e ↦ ((p, w), err e)
    | ok track ↦
        if eqb track p.value.track
        then ((p, w), ok tt)
        else elim (on_replace_track p.local_id track) [
          | err e ↦ ((p, w), err e)
          | ok _ ↦
              let paused = is_paused p.value.track w in
              (
                (
                  with_track track p,
                  tracks.set_enabled track (if not paused then true else false) w,
                ),
                ok tt,
              )
        ]
  ]

  unfoldable pub check_layer : Entry Producer → W → Result (Unit {0})
  check_layer p w = do
    require (not p.closed) (invalid_state_error "Producer closed")
    require (tracks.kind p.value.track w == "video") (type_error "not a video Producer")

  abbrev pub with_layer : ℕ → Entry Producer → Entry Producer
  with_layer layer p = record p {
    value = record {
      track = p.value.track;
      max_spatial_layer = layer;
      rtp_parameters = p.value.rtp_parameters;
    };
  }

  -- SetMaxSpatialLayer, with what OnSetMaxSpatialLayer does for the producer's local id.
  unfoldable pub set_max_spatial_layer :
      (String → ℕ → Result (Unit {0})) → ℕ → Entry Producer → W → Entry Producer × Result (Unit {0})
  set_max_spatial_layer on_set layer p w = elim (check_layer p w) [
    | err e ↦ (p, err e)
    | ok _ ↦
        if eqb layer p.value.max_spatial_layer then (p, ok tt) else elim (on_set p.local_id layer) [
          | err e ↦ (p, err e)
          | ok _ ↦ (with_layer layer p, ok tt)
        ]
  ]

-- GetStats of a producer, with OnGetStats of its transport.
unfoldable pub get_stats {ℓ} : {A : Type ℓ} → Bool → (String → Result A) → Entry Producer → Result A
get_stats transport_closed stats p = do
  require (not p.closed) (invalid_state_error "Producer closed")
  require (not transport_closed) (invalid_state_error "SendTransport closed")
  stats p.local_id

-- The encodings of the sender, each with whether it is active.
pub record Encoding {ℓ} (A : Type ℓ) : Type ℓ where
  pub active : Bool
  pub rest : A

module _ {ℓ} {A : Type ℓ} where
  -- `hasEncoding && (encoding->active = active)` for the encoding at the index.
  abbrev pub set_active : ℕ → Bool → List (Encoding A) → List (Encoding A)
  set_active i active encodings = elim (get_elem? encodings i) [
    | none ↦ encodings
    | some e ↦ set encodings i (record { active = active; rest = e.rest })
  ]

  -- The part of SetMaxSpatialLayer of the handler that edits the encodings.
  unfoldable pub edit_encodings : ℕ → List (Encoding A) → List (Encoding A)
  edit_encodings layer encodings =
      if eqb layer 1
      then set_active 2 false (set_active 1 false (set_active 0 true encodings))
      else if eqb layer 2
      then set_active 2 false (set_active 1 true (set_active 0 true encodings))
      else if eqb layer 3
      then set_active 2 true (set_active 1 true (set_active 0 true encodings))
      else encodings
