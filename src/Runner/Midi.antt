-- ===== src/Runner/Midi.antt =====
-- The MIDI track that `_run_basic_pitch_onnx` in python/native-runners/apple_native_runner.py
-- writes for its notes. `ticks` is the tick of a frame, and `loudness` is `int(round(127 *
-- amplitude))`; both come from floating point, never negative.
pub mod Track
use infernix.Prelude.{
  ℕ, zero, suc, ◌+◌, ◌-◌, Bool, true, false, List, [], ◌∷◌, ltb, ◌==◌, ◌||◌, ◌&&◌, not,
  if◌then◌else◌, min, max,
}
use infernix.Runner.Notes.{Settings, Note, last_frame}

-- A row of `raw_events`.
pub record Event : Type 0 where
  pub tick : ℕ
  pub is_on : Bool
  pub pitch : ℕ
  pub velocity : ℕ

-- `mido.Message`; `time` is the ticks since the message before it.
pub record Message : Type 0 where
  pub is_on : Bool
  pub pitch : ℕ
  pub velocity : ℕ
  pub time : ℕ

-- `max(1, min(127, ...))`
abbrev pub clamp : ℕ → ℕ
clamp n = max 1 (min 127 n)

module _ (s : Settings) (ticks : ℕ → ℕ) (loudness : Note → ℕ) where
  abbrev pub note_on : Note → Event
  note_on note = record {
    tick = ticks note.start_frame;
    is_on = true;
    pitch = note.pitch;
    velocity = clamp (loudness note);
  }

  abbrev pub note_off : Note → Event
  note_off note = record {
    tick = ticks (min note.end_frame (last_frame s));
    is_on = false;
    pitch = note.pitch;
    velocity = 0;
  }

  unfoldable pub raw_events : List Note → List Event
  raw_events [] = []
  raw_events (note ∷ notes) = note_on note ∷ note_off note ∷ raw_events notes

-- `(row[0], row[1])` is less.
unfoldable pub precedes : Event → Event → Bool
precedes a b = ltb a.tick b.tick || ((a.tick == b.tick) && (not a.is_on && b.is_on))

-- `raw_events.sort(key=...)`, which keeps the order of equal keys.
unfoldable pub insert_event : Event → List Event → List Event
insert_event e [] = e ∷ []
insert_event e (f ∷ fs) =
    let rest = insert_event e fs in if precedes f e then f ∷ rest else e ∷ f ∷ fs

unfoldable pub sort_events : List Event → List Event
unfolding precedes insert_event
sort_events [] = []
sort_events (e ∷ es) = insert_event e (sort_events es)

abbrev pub message_of : ℕ → Event → Message
message_of previous_tick e = record {
  is_on = e.is_on;
  pitch = e.pitch;
  velocity = e.velocity;
  time = e.tick - previous_tick;
}

-- The loop that makes the messages.
unfoldable pub messages_from : ℕ → List Event → List Message
messages_from previous_tick [] = []
messages_from previous_tick (e ∷ es) = message_of previous_tick e ∷ messages_from e.tick es

-- The messages of the track, after its tempo.
unfoldable pub track : Settings → (ℕ → ℕ) → (Note → ℕ) → List Note → List Message
unfolding raw_events sort_events messages_from
track s ticks loudness notes = messages_from 0 (sort_events (raw_events s ticks loudness notes))
