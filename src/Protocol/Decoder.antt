-- ===== src/Protocol/Decoder.antt =====
-- protocol/src/lib.rs: `FrameDecoder<N>`, with `N` a parameter. An access past the array's end,
-- where the program would panic, is `none`.
pub mod Spec
pub mod Refine
pub mod Stream
pub mod Delivery
use servatory.Prelude.{
  ℕ, ◌+◌, ◌-◌, Bool, true, false, ◌||◌, Option, none, some, List, [], ◌∷◌, leb, ◌==◌, if◌then◌else◌,
  Result, ok, err, bind, set?, take?, replicate,
}
use servatory.Protocol.Message.{ProtocolError, empty_frame, frame_too_long}

pub record FrameDecoder : Type 0 where
  pub bytes : List ℕ
  pub len : ℕ
  pub discarding : Bool

-- What `push` gives back: nothing yet, or a frame, or why there is none.
abbrev pub Event : Type 0
Event = Result (List ℕ) ProtocolError

abbrev pub Pushed : Type 0
Pushed = Option (FrameDecoder × Option Event)

-- `FrameDecoder::new`
abbrev pub new_decoder : ℕ → FrameDecoder
new_decoder n = record { bytes = replicate n 0; len = 0; discarding = false }

-- The bytes of a finished frame, with the delimiter stored behind them.
finish : FrameDecoder → Pushed
finish d = bind (set? d.bytes d.len 0) λ bytes.
    bind (take? bytes (d.len + 1))
      λ frame. some (record { bytes = bytes; len = 0; discarding = false }, some (ok frame))

delimiter : FrameDecoder → Pushed
delimiter d =
    if d.discarding
    then some (record d { discarding = false; len = 0 }, some (err frame_too_long))
    else if d.len == 0
    then some (d, some (err empty_frame))
    else finish d

store : FrameDecoder → ℕ → Pushed
store d byte =
    bind (set? d.bytes d.len byte) λ bytes. some (record d { bytes = bytes; len = d.len + 1 }, none)

abbrev pub with_event : Option Event → List Event → List Event
with_event none es = es
with_event (some e) es = e ∷ es

module _ (n : ℕ) where
  unfoldable pub push : FrameDecoder → ℕ → Pushed
  unfolding delimiter store finish
  push d byte =
      if byte == 0
      then delimiter d
      else if d.discarding
      then some (d, none)
      else if n == 0 || leb (n - 1) d.len
      then some (record d { discarding = true; len = 0 }, none)
      else store d byte

  -- A client's loop over a stream: the events in order.
  pub run : FrameDecoder → List ℕ → Option (FrameDecoder × List Event)
  run d [] = some (d, [])
  run d (b ∷ bs) =
      bind (push d b) λ (d', e). bind (run d' bs) λ (d'', es). some (d'', with_event e es)
