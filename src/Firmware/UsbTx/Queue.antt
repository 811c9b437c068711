-- ===== src/Firmware/UsbTx/Queue.antt =====
-- firmware/src/main.rs: what `enqueue` keeps and drops, and that everything kept is sent in the end.
use servatory.Prelude.{
  ℕ, ◌-◌, ◌≤◌, ◌<◌, ◌≡◌, refl, sym, ap, ◌∙◌, inl, inr, false, Option, some, List, [], ◌∷◌, ◌++◌,
  append-nil, append_assoc, arith, ltb, if◌then◌else◌, bind, length, All, Result-cases,
  nil_of_length,
}
use servatory.Protocol.Message.{DeviceMessage, shutdown_requested}
use servatory.Protocol.Frame.{Codec, IsCodec, encode_device, max_device_frame_len}
use servatory.Firmware.UsbTx.{UsbTx, queue_capacity, enqueue, pop_front, poll, is_shutdown}
use servatory.Firmware.UsbTx.Slice.{slice}
use servatory.Firmware.UsbTx.Stream.{
  IsValid, length-pop_front, frames, outstanding, work, Sends, poll-Sends,
}

-- On a valid transmitter a shutdown request enters the queue as its last message, with nothing
-- dropped unless the queue is full, and then only the oldest message; the frame on its way out
-- stays.
pub enqueue-shutdown :
    (tx : UsbTx)
    → IsValid tx
    → (q : List DeviceMessage) × (enqueue tx shutdown_requested
        ≡ record tx { queue = q ++ shutdown_requested ∷ [] })
      × (q ≡ (if ltb (length tx.queue) queue_capacity then tx.queue else pop_front tx.queue))
unfolding enqueue
enqueue-shutdown tx v = (
  if ltb (length tx.queue) queue_capacity then tx.queue else pop_front tx.queue,
  ground (arith, length-pop_front tx.queue),
  refl,
)

-- Another message enters a queue that has room, and leaves a full one as it was.
pub enqueue_hello :
    (tx : UsbTx) (m : DeviceMessage)
    → is_shutdown m ≡ false
    → enqueue tx m ≡ (
        if ltb (length tx.queue) queue_capacity
        then record tx { queue = tx.queue ++ m ∷ [] }
        else tx)
unfolding enqueue
enqueue_hello tx m h = ground arith

enqueue_room :
    (tx : UsbTx) (m : DeviceMessage)
    → length tx.queue < queue_capacity
    → enqueue tx m ≡ record tx { queue = tx.queue ++ m ∷ [] }
unfolding enqueue
enqueue_room tx m h = ground arith

module _ (c : Codec DeviceMessage) where
  frames-append : (p q : List DeviceMessage) → frames c (p ++ q) ≡ frames c p ++ frames c q
  unfolding frames
  frames-append [] q = refl
  frames-append (m ∷ p) q = elim (Result-cases (encode_device c m max_device_frame_len)) [
    | inl (f, e) ↦ ground (arith, e, frames-append p q, append_assoc f (frames c p) (frames c q))
    | inr (x, e) ↦ ground (arith, e, frames-append p q)
  ]

  -- While the queue has room, the frame of a message follows all that was outstanding.
  pub outstanding-enqueue :
      (tx : UsbTx) (m : DeviceMessage)
      → length tx.queue < queue_capacity
      → outstanding c (enqueue tx m) ≡ outstanding c tx ++ frames c (m ∷ [])
  outstanding-enqueue tx m h = rw (enqueue_room tx m h) (
      ap (◌++◌ (slice tx.frame tx.cursor tx.len)) (frames-append tx.queue (m ∷ []))
      ∙ sym
          (append_assoc (slice tx.frame tx.cursor tx.len) (frames c tx.queue) (frames c (m ∷ []))))

  -- The polls of a run, each with the bytes that the endpoint takes.
  pub polls : UsbTx → List ℕ → Option (UsbTx × List ℕ)
  polls tx [] = some (tx, [])
  polls tx (room ∷ rooms) =
      bind (poll c tx room)
        (λ (tx', bs). bind (polls tx' rooms) (λ (tx'', cs). some (tx'', bs ++ cs)))

  polls-Sends :
      (tx : UsbTx) (rooms : List ℕ)
      → IsCodec c
      → IsValid tx
      → All (λ room. 0 < room) rooms
      → Sends c tx (polls tx rooms) (λ tx' bs. work c tx' ≤ work c tx - length rooms)
  unfolding polls
  polls-Sends tx [] laws v h = (tx, [], refl, refl, v, omega arith)
  polls-Sends tx (room ∷ rooms) laws v h =
      let (tx', bs, e, split, v', less) = poll-Sends c tx room laws v in
      let (tx'', cs, e', split', v'', less') = polls-Sends tx' rooms laws v' h.1 in
      (
        tx'',
        bs ++ cs,
        rw (e, e'),
        split ∙ ap (◌++◌ bs) split' ∙ sym (append_assoc bs cs (outstanding c tx'')),
        v'',
        omega (arith, less h.0, less'),
      )

  -- With a lawful codec, if the endpoint takes at least a byte at each poll, then as many polls as
  -- a valid transmitter has work send exactly its outstanding bytes and leave the queue empty.
  pub polls_drain :
      (tx : UsbTx) (rooms : List ℕ)
      → IsCodec c
      → IsValid tx
      → All (λ room. 0 < room) rooms
      → work c tx ≤ length rooms
      → (tx' : UsbTx) × (polls tx rooms ≡ some (tx', outstanding c tx)) × (tx'.queue ≡ [])
  polls_drain tx rooms laws v h k =
      let (tx', bs, e, split, v', less) = polls-Sends tx rooms laws v h in
      let nothing_left : outstanding c tx' ≡ [] = nil_of_length _ (omega arith) in
      let all : outstanding c tx ≡ bs = split ∙ rw (nothing_left) (append-nil bs) in
      (tx', rw all e, nil_of_length _ (omega arith))
