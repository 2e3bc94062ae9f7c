-- ===== src/Runner/Midi/Track.antt =====
-- What a player of the track of `_run_basic_pitch_onnx` hears.
use infernix.Prelude.{
  ℕ, ◌+◌, ◌-◌, ◌≤◌, ◌<◌, ◌≡◌, ◌⊎◌, inl, inr, refl, ap, true, false, List, [], ◌∷◌, arith, All,
  All-weaken, Bool-cases,
}
use mathlib.Core.List.{Perm}
use mathlib.Core.List.Perm
use infernix.Runner.Notes.{Roll, Settings, basic_pitch, Note, segment}
use infernix.Runner.Notes.Bounds.{IsPlayable, segment-IsPlayable}
use infernix.Runner.Midi.{
  Event, Message, raw_events, precedes, insert_event, sort_events, messages_from, track,
}

abbrev event_at : ℕ → Message → Event
event_at tick m = record { tick = tick; is_on = m.is_on; pitch = m.pitch; velocity = m.velocity }

-- The events that a player has from the messages, which counts the ticks up.
abbrev pub replay : ℕ → List Message → List Event
replay now [] = []
replay now (m ∷ ms) = event_at (now + m.time) m ∷ replay (now + m.time) ms

-- Not before, and off before on at the same tick.
abbrev pub IsOrdered : Event → Event → Type 0
IsOrdered a b = precedes b a ≡ false

abbrev pub IsSorted : List Event → Type 0
IsSorted [] = Unit
IsSorted (e ∷ es) = All (IsOrdered e) es × IsSorted es

ordered_le : (a b : Event) → IsOrdered a b → a.tick ≤ b.tick
unfolding precedes
ordered_le a b h = ground arith

asym : (a b : Event) → precedes a b ≡ true → IsOrdered a b
unfolding precedes
asym a b h = grind arith

IsOrdered-trans : (a b c : Event) → IsOrdered a b → IsOrdered b c → IsOrdered a c
unfolding precedes
IsOrdered-trans a b c h k = grind arith

All-insert :
    (P : Event → Type 0) (e : Event) (es : List Event) → P e → All P es → All P (insert_event e es)
unfolding insert_event
All-insert P e [] p h = (p, tt)
All-insert P e (f ∷ fs) p h = elim (Bool-cases (precedes f e)) [
  | inl y ↦ rw y (h.0, All-insert P e fs p (h.1))
  | inr n ↦ rw n (p, h)
]

insert-IsSorted : (e : Event) (es : List Event) → IsSorted es → IsSorted (insert_event e es)
unfolding insert_event
insert-IsSorted e [] h = (tt, tt)
insert-IsSorted e (f ∷ fs) h = elim (Bool-cases (precedes f e)) [
  | inl y ↦ rw y (All-insert (IsOrdered f) e fs (asym f e y) (h.0), insert-IsSorted e fs (h.1))
  | inr n ↦
      rw n
        ((n, All-weaken (IsOrdered f) (IsOrdered e) fs (λ g k. IsOrdered-trans e f g n k) (h.0)), h)
]

sort-IsSorted : (es : List Event) → IsSorted (sort_events es)
unfolding sort_events
sort-IsSorted [] = tt
sort-IsSorted (e ∷ es) = insert-IsSorted e (sort_events es) (sort-IsSorted es)

insert-Perm : (e : Event) (es : List Event) → Perm (insert_event e es) (e ∷ es)
unfolding insert_event
insert-Perm e [] = Perm.rfl
insert-Perm e (f ∷ fs) = elim (Bool-cases (precedes f e)) [
  | inl y ↦ rw y (Perm.trans (Perm.cons f (insert-Perm e fs)) (Perm.swap e f fs))
  | inr n ↦ rw n Perm.rfl
]

sort-Perm : (es : List Event) → Perm (sort_events es) es
unfolding sort_events
sort-Perm [] = Perm.rfl
sort-Perm (e ∷ es) = Perm.trans (insert-Perm e (sort_events es)) (Perm.cons e (sort-Perm es))

replay_messages :
    (previous_tick : ℕ) (es : List Event)
    → All (λ (e : Event). previous_tick ≤ e.tick) es
    → IsSorted es
    → replay previous_tick (messages_from previous_tick es) ≡ es
unfolding messages_from
replay_messages previous_tick [] h k = refl
replay_messages previous_tick (e ∷ es) h k =
    let now : previous_tick + (e.tick - previous_tick) ≡ e.tick = omega (arith, h.0) in
    rw now (
      ap (λ (fs : List Event). e ∷ fs)
        (replay_messages e.tick es
          (All-weaken (IsOrdered e) (λ (f : Event). e.tick ≤ f.tick) es (λ f o. ordered_le e f o)
            (k.0))
          (k.1)))

from_zero : (es : List Event) → All (λ (e : Event). 0 ≤ e.tick) es
from_zero [] = tt
from_zero (e ∷ es) = (omega arith, from_zero es)

-- A player of the track hears every note's two events and nothing else, each at its own tick, in
-- the order of the ticks, with what ends at a tick before what starts there; no time between two
-- messages is cut off at zero.
pub track_replays :
    (s : Settings) (ticks : ℕ → ℕ) (loudness : Note → ℕ) (notes : List Note)
    → Perm (replay 0 (track s ticks loudness notes)) (raw_events s ticks loudness notes)
      × IsSorted (replay 0 (track s ticks loudness notes))
unfolding track
track_replays s ticks loudness notes =
    let events = raw_events s ticks loudness notes in
    let heard =
      replay_messages 0 (sort_events events) (from_zero (sort_events events))
        (sort-IsSorted events) in
    (rw heard (sort-Perm events), rw heard (sort-IsSorted events))

-- What MIDI takes: a pitch and a velocity of seven bits, and no note turned on with velocity zero.
abbrev pub IsMidi : Event → Type 0
IsMidi e = (e.pitch ≤ 127) × (e.velocity ≤ 127) × ((e.is_on ≡ false) ⊎ (0 < e.velocity))

raw_events-IsMidi :
    (s : Settings) (ticks : ℕ → ℕ) (loudness : Note → ℕ) (notes : List Note)
    → s.max_freq_idx ≤ 106
    → All (IsPlayable s) notes
    → All IsMidi (raw_events s ticks loudness notes)
unfolding raw_events
raw_events-IsMidi s ticks loudness [] k h = tt
raw_events-IsMidi s ticks loudness (note ∷ notes) k ((a, b, c, d), rest) = (
  (omega arith, omega arith, inr (omega arith)),
  ((omega arith, omega arith, inl refl), raw_events-IsMidi s ticks loudness notes k rest),
)

sort-IsMidi : (es : List Event) → All IsMidi es → All IsMidi (sort_events es)
unfolding sort_events
sort-IsMidi [] h = tt
sort-IsMidi (e ∷ es) h = All-insert IsMidi e (sort_events es) (h.0) (sort-IsMidi es (h.1))

-- Of the notes that the two loops find, where the recording has a frame and the onsets are of the
-- 88 columns, every event of the track is one that MIDI takes.
pub segment-IsMidi :
    (n_frames frame_thresh : ℕ) (frames : Roll) (onsets : List (ℕ × ℕ)) (ticks : ℕ → ℕ)
    (loudness : Note → ℕ)
    → 0 < n_frames
    → All (λ (onset : ℕ × ℕ). onset.1 ≤ 87) onsets
    → All IsMidi (
        replay 0 (
          track
            (basic_pitch n_frames frame_thresh)
            ticks
            loudness
            ((segment (basic_pitch n_frames frame_thresh) frames onsets).0)))
unfolding track
segment-IsMidi n_frames frame_thresh frames onsets ticks loudness h k =
    let s = basic_pitch n_frames frame_thresh in
    let events = raw_events s ticks loudness ((segment s frames onsets).0) in
    rw
      (replay_messages 0 (sort_events events) (from_zero (sort_events events))
        (sort-IsSorted events))
      (sort-IsMidi events (
        raw_events-IsMidi s ticks loudness ((segment s frames onsets).0) (omega arith)
          (segment-IsPlayable s frames onsets h k)))
