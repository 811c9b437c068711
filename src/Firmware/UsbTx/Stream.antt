-- ===== src/Firmware/UsbTx/Stream.antt =====
-- firmware/src/main.rs: the bytes that `UsbTx` sends are those of its frames, in order.
use servatory.Prelude.{
  ℕ, zero, suc, ◌+◌, ◌-◌, ◌≤◌, ◌<◌, min, ◌≡◌, refl, ap, ◌∙◌, inl, inr, Option, some, List, [], ◌∷◌,
  ◌++◌, append-nil, append_assoc, arith, ltb, ◌==◌, ltb→lt, ==_iff, Bool-cases, ok, err, length,
  drop, length-append, length-drop, Result-cases, Result-cases,
}
use servatory.Protocol.Message.{DeviceMessage}
use servatory.Protocol.Frame.{Codec, IsCodec, encode_device, max_device_frame_len}
use servatory.Protocol.Frame.RoundTrip.{decode-encode}
use servatory.Firmware.UsbTx.Slice.{slice, slice-cons, slice-nil, slice-append}
use servatory.Firmware.UsbTx.{
  UsbTx, new_usb_tx, queue_capacity, enqueue, write_bytes, transmit, load_frame, poll, pop_front,
}

pub record IsValid (tx : UsbTx) : Type 0 where
  pub buffer : length tx.frame ≡ max_device_frame_len
  pub sent_le : tx.cursor ≤ tx.len
  pub len_le : tx.len ≤ length tx.frame
  pub bounded : length tx.queue ≤ queue_capacity

pub new_usb_tx-IsValid : IsValid new_usb_tx
new_usb_tx-IsValid = omega arith

pub length-pop_front : (q : List DeviceMessage) → length (pop_front q) ≡ length q - 1
length-pop_front [] = refl
length-pop_front (m ∷ q) = omega arith

pub enqueue-IsValid : (tx : UsbTx) (m : DeviceMessage) → IsValid tx → IsValid (enqueue tx m)
unfolding enqueue
enqueue-IsValid tx m v = ground (
  arith,
  length-append tx.queue (m ∷ []),
  length-append (pop_front tx.queue) (m ∷ []),
  length-pop_front tx.queue,
)

module _ (c : Codec DeviceMessage) where
  -- The bytes of the messages that wait; one that does not fit is dropped.
  unfoldable pub frames : List DeviceMessage → List ℕ
  frames [] = []
  frames (m ∷ q) = elim (encode_device c m max_device_frame_len) [
    | err e ↦ frames q
    | ok f ↦ f ++ frames q
  ]

  -- All that is still to be sent.
  abbrev pub outstanding : UsbTx → List ℕ
  outstanding tx = slice tx.frame tx.cursor tx.len ++ frames tx.queue

  write_bytes-slice :
      (frame : List ℕ) (len room cursor : ℕ)
      → cursor ≤ len
      → len ≤ length frame
      → (bs : List ℕ) × (end : ℕ) × (write_bytes frame len room cursor ≡ some (bs, end))
        × (slice frame cursor len ≡ bs ++ slice frame end len)
        × (end ≡ min len (cursor + room))
        × (length bs + cursor ≡ end)
  unfolding write_bytes
  write_bytes-slice frame len zero cursor h k = ([], cursor, refl, refl, omega arith, omega arith)
  write_bytes-slice frame len (suc room) cursor h k = elim (Bool-cases (ltb cursor len)) [
    | inr done ↦ ([], cursor, rw done, refl, ground arith, omega arith)
    | inl more ↦
        let (b, e, s) = slice-cons frame cursor len (ltb→lt cursor len more) k in
        let (bs, end, w, s', m, l) =
          write_bytes-slice frame len room (cursor + 1) (ground arith) k in
        (b ∷ bs, end, rw (more, e, w), rw (s, s'), ground arith, omega arith)
  ]

  -- A step that sends `bs`, keeps the state valid and loses nothing.
  abbrev pub Sends : UsbTx → Option (UsbTx × List ℕ) → (UsbTx → List ℕ → Type 0) → Type 0
  Sends tx r Also =
      (tx' : UsbTx) × (bs : List ℕ) × (r ≡ some (tx', bs))
      × (outstanding tx ≡ bs ++ outstanding tx')
      × IsValid tx'
      × Also tx' bs

  transmit-Sends :
      (tx : UsbTx) (room : ℕ)
      → IsValid tx
      → Sends tx
          (transmit tx room)
          (λ tx' bs. (tx'.queue ≡ tx.queue) × (length bs ≡ min room (tx.len - tx.cursor)))
  unfolding transmit
  transmit-Sends tx room v =
      let (bs, end, w, s, m, l) =
        write_bytes-slice tx.frame tx.len room tx.cursor v.sent_le v.len_le in
      elim (Bool-cases (ltb end tx.len)) [
        | inl blocked ↦ (
          record tx { cursor = end },
          bs,
          rw (w, blocked),
          rw s (append_assoc bs (slice tx.frame end tx.len) (frames tx.queue)),
          record {
            buffer = v.buffer;
            sent_le = omega arith;
            len_le = v.len_le;
            bounded = v.bounded;
          },
          (refl, omega arith),
        )
        | inr done ↦
            let empty : slice tx.frame end tx.len ≡ [] =
              slice-nil tx.frame end tx.len (ground arith) in
            (
              record tx { len = 0; cursor = 0 },
              bs,
              rw (w, done),
              rw s (rw (empty, append-nil bs)),
              record {
                buffer = v.buffer;
                sent_le = omega arith;
                len_le = omega arith;
                bounded = v.bounded;
              },
              (refl, omega arith),
            )
      ]

  -- The bytes still to come, and one for each message that waits.
  abbrev pub work : UsbTx → ℕ
  work tx = length (outstanding tx) + length tx.queue

  sent_work :
      (tx tx' : UsbTx) (bs : List ℕ)
      → outstanding tx ≡ bs ++ outstanding tx'
      → tx'.queue ≡ tx.queue
      → {room : ℕ} → length bs ≡ min room (tx.len - tx.cursor)
      → 0 < room
      → tx.cursor < tx.len
      → work tx' ≤ work tx - 1
  sent_work tx tx' bs split q l r h =
      omega (arith, ap length split, length-append bs (outstanding tx'), ap length q)

  abbrev loaded : UsbTx → List DeviceMessage → List ℕ → UsbTx
  loaded tx q f = record tx {
    queue = q;
    frame = f ++ drop (length f) tx.frame;
    len = length f;
    cursor = 0;
  }

  load_queue-Sends :
      (tx : UsbTx) (room : ℕ) (q : List DeviceMessage)
      → IsCodec c
      → IsValid tx
      → tx.cursor ≡ tx.len
      → tx.queue ≡ q
      → Sends tx (load_frame c tx room) (λ tx' bs. 0 < room → work tx' ≤ work tx - 1)
  unfolding load_frame frames
  load_queue-Sends tx room [] laws v e w =
      let none_left : outstanding tx ≡ [] =
        rw (slice-nil tx.frame tx.cursor tx.len (omega arith)) (ground (arith, w)) in
      (tx, [], ground (arith, w), refl, v, λ r. omega (arith, ap length none_left, ap length w))
  load_queue-Sends tx room (m ∷ q) laws v e w =
      let empty : slice tx.frame tx.cursor tx.len ≡ [] =
        slice-nil tx.frame tx.cursor tx.len (omega arith) in
      elim (Result-cases (encode_device c m max_device_frame_len)) [
        | inr (x, f) ↦
            let f' : encode_device c m (length tx.frame) ≡ err x = rw v.buffer f in
            let same : frames tx.queue ≡ frames q = ground (arith, w, f) in
            let all : outstanding tx ≡ outstanding (record tx { queue = q }) = rw empty same in
            (
              record tx { queue = q },
              [],
              ground (arith, w, f'),
              all,
              record {
                buffer = v.buffer;
                sent_le = v.sent_le;
                len_le = v.len_le;
                bounded = omega (arith, ap length w);
              },
              λ r. omega (arith, ap length all, ap length w),
            )
        | inl (f, enc) ↦
            let f' : encode_device c m (length tx.frame) ≡ ok f = rw v.buffer enc in
            let (_, fits, _) = decode-encode c m max_device_frame_len laws enc in
            let valid : IsValid (loaded tx q f) = record {
              buffer = omega (
                arith,
                v.buffer,
                length-append f (drop (length f) tx.frame),
                length-drop (length f) tx.frame,
              );
              sent_le = omega arith;
              len_le = omega (arith, length-append f (drop (length f) tx.frame));
              bounded = omega (arith, ap length w);
            } in
            let (tx', bs, e', split, v', (qq, l)) = transmit-Sends (loaded tx q f) room valid in
            let all : outstanding tx ≡ outstanding (loaded tx q f) =
              rw (empty, slice-append f (drop (length f) tx.frame)) (ground (arith, w, enc)) in
            (
              tx',
              bs,
              ground (arith, w, f') ∙ e',
              all ∙ split,
              v',
              λ r. omega (
                arith,
                ap length all,
                ap length split,
                length-append bs (outstanding tx'),
                ap length w,
                ap length qq,
              ),
            )
      ]

  load_frame-Sends :
      (tx : UsbTx) (room : ℕ)
      → IsCodec c
      → IsValid tx
      → tx.cursor ≡ tx.len
      → Sends tx (load_frame c tx room) (λ tx' bs. 0 < room → work tx' ≤ work tx - 1)
  load_frame-Sends tx room laws v e = load_queue-Sends tx room tx.queue laws v e refl

  -- With a lawful codec, `poll` on a valid transmitter indexes inside its buffer and leaves it
  -- valid; the bytes it sends, followed by what is outstanding afterwards, are what was outstanding
  -- before; and if the endpoint takes a byte, the work that is left gets less unless there was
  -- none.
  pub poll-Sends :
      (tx : UsbTx) (room : ℕ)
      → IsCodec c
      → IsValid tx
      → Sends tx (poll c tx room) (λ tx' bs. 0 < room → work tx' ≤ work tx - 1)
  unfolding poll
  poll-Sends tx room laws v = elim (Bool-cases (tx.cursor == tx.len)) [
    | inl idle ↦ rw idle (load_frame-Sends tx room laws v ((==_iff tx.cursor tx.len).0 idle))
    | inr busy ↦
        let (tx', bs, e, split, v', (q, l)) = transmit-Sends tx room v in
        rw busy (tx', bs, e, split, v', λ r. sent_work tx tx' bs split q l r (ground arith))
  ]
