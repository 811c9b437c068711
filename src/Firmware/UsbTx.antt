-- ===== src/Firmware/UsbTx.antt =====
-- firmware/src/main.rs: `UsbTx`, the queue of messages to the host and the frame on its way out.
pub mod Slice
pub mod Stream
pub mod Queue
use servatory.Prelude.{
  ℕ, zero, suc, ◌+◌, Bool, true, false, Option, none, some, List, [], ◌∷◌, ◌++◌, ltb, ◌==◌,
  if◌then◌else◌, unwrap_or, ok, err, bind, length, get_elem?, drop, replicate,
}
use servatory.Protocol.Message.{HandshakeNonce, DeviceMessage, shutdown_requested, hello}
use servatory.Protocol.Health.{SoftwareVersion}
use servatory.Protocol.Frame.{Codec, encode_device}

abbrev pub queue_capacity : ℕ
queue_capacity = 8

pub record UsbTx : Type 0 where
  pub queue : List DeviceMessage
  pub frame : List ℕ
  pub len : ℕ
  pub cursor : ℕ

-- `UsbTx::new`
abbrev pub new_usb_tx : UsbTx
new_usb_tx = record { queue = []; frame = replicate 128 0; len = 0; cursor = 0 }

-- `Deque::push_back`: `none` when the queue is full.
abbrev pub push_back : List DeviceMessage → DeviceMessage → Option (List DeviceMessage)
push_back q m = if ltb (length q) queue_capacity then some (q ++ m ∷ []) else none

abbrev pub pop_front : List DeviceMessage → List DeviceMessage
pop_front [] = []
pop_front (m ∷ q) = q

abbrev is_shutdown : DeviceMessage → Bool
is_shutdown shutdown_requested = true
is_shutdown (hello v s) = false

unfoldable pub enqueue : UsbTx → DeviceMessage → UsbTx
enqueue tx m = elim (push_back tx.queue m) [
  | some q ↦ record tx { queue = q }
  | none ↦
      if is_shutdown m
      then record tx { queue = unwrap_or (push_back (pop_front tx.queue) m) (pop_front tx.queue) }
      else tx
]

-- `device_hello`; the firmware's version is fixed by the build.
abbrev pub device_hello : SoftwareVersion → Option HandshakeNonce → DeviceMessage
device_hello version session = hello version session

-- The `while` loop of `poll`: the endpoint takes `room` bytes before it blocks. The bytes written and
-- the cursor after them; `none` is an index past the buffer.
write_bytes : List ℕ → (len room cursor : ℕ) → Option (List ℕ × ℕ)
write_bytes frame len zero cursor = some ([], cursor)
write_bytes frame len (suc room) cursor =
    let rest = write_bytes frame len room (cursor + 1) in
    if ltb cursor len
    then bind (get_elem? frame cursor) (λ b. bind rest (λ (bs, end). some (b ∷ bs, end)))
    else some ([], cursor)

-- A frame that is out is forgotten; one that the endpoint blocks is kept with its cursor.
transmit : UsbTx → ℕ → Option (UsbTx × List ℕ)
transmit tx room = bind (write_bytes tx.frame tx.len room tx.cursor) λ (bs, end).
    if ltb end tx.len
    then some (record tx { cursor = end }, bs)
    else some (record tx { len = 0; cursor = 0 }, bs)

-- The serializer writes the frame over the start of the buffer. What it leaves there when the message
-- does not fit is not modelled: `cursor == len` then, and nothing reads it.
load_frame : Codec DeviceMessage → UsbTx → ℕ → Option (UsbTx × List ℕ)
unfolding transmit
load_frame c tx room = elim tx.queue [
  | [] ↦ some (tx, [])
  | m ∷ q ↦ elim (encode_device c m (length tx.frame)) [
    | err e ↦ some (record tx { queue = q }, [])
    | ok f ↦
        transmit
          (record tx {
            queue = q;
            frame = f ++ drop (length f) tx.frame;
            len = length f;
            cursor = 0;
          })
          room
  ]
]

-- `poll`: the new state and the bytes that the endpoint took.
unfoldable pub poll : Codec DeviceMessage → UsbTx → ℕ → Option (UsbTx × List ℕ)
unfolding load_frame write_bytes
poll c tx room = if tx.cursor == tx.len then load_frame c tx room else transmit tx room
