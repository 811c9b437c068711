-- ===== src/Protocol/Decoder/Spec.antt =====
-- The specification of the decoder of protocol/src/lib.rs: cut the stream at the zeros, and judge
-- each piece by its length.
use servatory.Prelude.{
  ℕ, ◌-◌, Option, none, some, List, [], ◌∷◌, ◌++◌, ltb, ◌==◌, if◌then◌else◌, ok, err, length,
  is_empty,
}
use servatory.Protocol.Message.{empty_frame, frame_too_long}
use servatory.Protocol.Decoder.{Event, with_event}

module _ (n : ℕ) where
  -- What the delimiter makes of the bytes before it.
  unfoldable pub judge : List ℕ → Event
  judge pending =
      if is_empty pending
      then err empty_frame
      else if ltb (n - 1) (length pending)
      then err frame_too_long
      else ok (pending ++ 0 ∷ [])

  -- A zero ends the piece; any other byte belongs to it.
  abbrev pub event_at : List ℕ → ℕ → Option Event
  event_at pending b = if b == 0 then some (judge pending) else none

  abbrev pub after : List ℕ → ℕ → List ℕ
  after pending b = if b == 0 then [] else pending ++ b ∷ []

  -- The events of a stream, from the bytes since the last delimiter on.
  unfoldable pub events : (pending : List ℕ) → List ℕ → List Event
  unfolding judge
  events pending [] = []
  events pending (b ∷ bs) = with_event (event_at pending b) (events (after pending b) bs)

  -- What is left behind the last delimiter.
  unfoldable pub rest : (pending : List ℕ) → List ℕ → List ℕ
  rest pending [] = pending
  rest pending (b ∷ bs) = rest (after pending b) bs
