-- ===== src/Handshake/Tests.antt =====
-- The handshake at concrete inputs, with serializers that know its two messages.
use servatory.Prelude.{
  ℕ, zero, suc, ◌≤◌, ◌≡◌, refl, sym, ap, true, false, Option, none, some, List, [], ◌∷◌, map, arith,
  length,
}
use servatory.Prelude.Text.{Text}
use servatory.Prelude.Time.{secs}
use servatory.Protocol.Display.{default_display_config}
use servatory.Protocol.Network.{NetworkConfig, NotificationPriority}
use servatory.Protocol.Message.{HostMessage, DeviceMessage, HandshakeNonce, shutdown_requested}
use servatory.Protocol.Frame.{
  Codec, IsCodec, IsCobs, encode, max_host_frame_len, max_device_frame_len,
}
use servatory.Protocol.Decoder.Refine.{new-Tracks}
use servatory.Protocol.Examples.{no_version, one_byte, one_byte-IsCobs}
use servatory.Firmware.UsbTx.{UsbTx, new_usb_tx}
use servatory.Firmware.UsbTx.Stream.{new_usb_tx-IsValid, frames}
use servatory.Firmware.UsbTx.Queue.{polls}
use servatory.Firmware.Network.{Net, new_shared_state}
use servatory.Firmware.Session.{Stick}
use servatory.Firmware.Session.Boot.{new_stick}
use servatory.Firmware.Session.Loop as StickLoop
use servatory.Host.Shutdown.{World, Env}
use servatory.Host.Config.Examples.{small, floats, short_codec}
use servatory.Host.Daemon.{Daemon, ReadByte, goes_on, new_daemon}
use servatory.Host.Daemon.Loop as DaemonLoop
use servatory.Handshake.Exchange.{handshake_completes}

abbrev zero_nonce : HandshakeNonce
zero_nonce = record { value = 0 }

abbrev host_hello : Text → (nonce n : ℕ) → Option (List ℕ)
host_hello [] zero n = one_byte 1 n
host_hello _ _ n = none

abbrev host_bytes : HostMessage → ℕ → Option (List ℕ)
host_bytes (HostMessage.hello v s) n = host_hello v.as_str s.value n
host_bytes _ n = none

abbrev host_codec : Codec HostMessage
host_codec = record {
  to_slice_cobs = host_bytes;
  from_bytes_cobs = λ bs. some (HostMessage.hello no_version zero_nonce);
  decode_in_place = λ frame. none;
}

abbrev device_hello_bytes : Text → Option HandshakeNonce → ℕ → Option (List ℕ)
device_hello_bytes t none n = none
device_hello_bytes t (some s) n = host_hello t s.value n

abbrev device_bytes : DeviceMessage → ℕ → Option (List ℕ)
device_bytes shutdown_requested n = none
device_bytes (DeviceMessage.hello v s) n = device_hello_bytes v.as_str s n

abbrev device_codec : Codec DeviceMessage
device_codec = record {
  to_slice_cobs = device_bytes;
  from_bytes_cobs = λ bs. some (DeviceMessage.hello no_version (some zero_nonce));
  decode_in_place = λ frame. none;
}

-- What is written for a hello, and which hello it is.
abbrev IsWritten : Text → ℕ → ℕ → List ℕ → Type 0
IsWritten t nonce n bs = (length bs ≤ n) × IsCobs bs × (t ≡ []) × (nonce ≡ 0)

host_hello-IsWritten :
    (t : Text) (nonce n : ℕ) (bs : List ℕ) → host_hello t nonce n ≡ some bs → IsWritten t nonce n bs
host_hello-IsWritten [] zero n bs e =
    let (fits, same) = one_byte-IsCobs 1 n bs (omega arith) e in
    (fits, (1 ∷ [], same, (omega arith, tt)), refl, refl)
host_hello-IsWritten [] (suc k) n bs e = absurd (cc)
host_hello-IsWritten (c ∷ t) zero n bs e = absurd (cc)
host_hello-IsWritten (c ∷ t) (suc k) n bs e = absurd (cc)

-- What a message is encoded as, and that it is what any bytes are decoded to.
abbrev HostGood : HostMessage → ℕ → List ℕ → Type 0
HostGood m n bs =
    (length bs ≤ n) × IsCobs bs × (some (HostMessage.hello no_version zero_nonce) ≡ some m)

host_bytes-HostGood :
    (m : HostMessage) (n : ℕ) (bs : List ℕ) → host_bytes m n ≡ some bs → HostGood m n bs
host_bytes-HostGood (HostMessage.hello v s) n bs e =
    let (fits, stuffed, empty, zeroed) = host_hello-IsWritten v.as_str s.value n bs e in
    (
      fits,
      stuffed,
      ap
          (λ (p : Text × ℕ).
            some (HostMessage.hello (record { as_str = p.0 }) (record { value = p.1 })))
          (λ i. (sym empty i, sym zeroed i)),
    )
host_bytes-HostGood HostMessage.shutdown_accepted n bs e = absurd (cc)
host_bytes-HostGood (HostMessage.health_snapshot h) n bs e = absurd (cc)
host_bytes-HostGood (HostMessage.shutdown_progress p total remaining) n bs e = absurd (cc)
host_bytes-HostGood (HostMessage.shutdown_failed r remaining) n bs e = absurd (cc)
host_bytes-HostGood (HostMessage.display_config c) n bs e = absurd (cc)
host_bytes-HostGood (HostMessage.network_config c) n bs e = absurd (cc)

host_laws : IsCodec host_codec
host_laws = record {
  fits = λ m n bs e. (host_bytes-HostGood m n bs e).0;
  stuffed = λ m n bs e. (host_bytes-HostGood m n bs e).1;
  decodes = λ m n bs e. (host_bytes-HostGood m n bs e).2;
}

abbrev DeviceGood : DeviceMessage → ℕ → List ℕ → Type 0
DeviceGood m n bs =
    (length bs ≤ n) × IsCobs bs × (some (DeviceMessage.hello no_version (some zero_nonce)) ≡ some m)

device_bytes-DeviceGood :
    (m : DeviceMessage) (n : ℕ) (bs : List ℕ) → device_bytes m n ≡ some bs → DeviceGood m n bs
device_bytes-DeviceGood shutdown_requested n bs e = absurd (cc)
device_bytes-DeviceGood (DeviceMessage.hello v none) n bs e = absurd (cc)
device_bytes-DeviceGood (DeviceMessage.hello v (some s)) n bs e =
    let (fits, stuffed, empty, zeroed) = host_hello-IsWritten v.as_str s.value n bs e in
    (
      fits,
      stuffed,
      ap
          (λ (p : Text × ℕ).
            some (DeviceMessage.hello (record { as_str = p.0 }) (some (record { value = p.1 }))))
          (λ i. (sym empty i, sym zeroed i)),
    )

device_laws : IsCodec device_codec
device_laws = record {
  fits = λ m n bs e. (device_bytes-DeviceGood m n bs e).0;
  stuffed = λ m n bs e. (device_bytes-DeviceGood m n bs e).1;
  decodes = λ m n bs e. (device_bytes-DeviceGood m n bs e).2;
}

abbrev calm : Env
calm = record { codec = short_codec; succeeds = λ i. true; systemctl = some true }

abbrev quiet_net : Net
quiet_net = record { state = new_shared_state; manifests = none; web_server_port = none }

-- A stick that has sent its first hello.
abbrev stick : Stick
unfolding new_stick
stick = record (new_stick no_version 0 quiet_net) { usb_tx = new_usb_tx }

abbrev no_network : NetworkConfig
no_network = record {
  http = record { enabled = false; port = 80; hostname = []; pages = [] };
  ntfy = record {
    enabled = false;
    severities = record { warning = false; critical = true };
    notify_recovery = false;
    warning_priority = NotificationPriority.default;
    critical_priority = NotificationPriority.default;
    recovery_priority = NotificationPriority.default;
    repeat_critical_seconds = none;
    server = [];
    click_url = none;
  };
}

-- A daemon whose port is open and has given a delimiter.
abbrev daemon : Daemon
daemon = record (new_daemon default_display_config no_network zero_nonce 0 0 0) {
  port = true;
  input_synchronized = true;
}

abbrev world : World
world = record { log = []; calls = 0; counts = [] }

-- The frame of both messages: the magic, the version, the serialized message, and the delimiter.
abbrev frame : List ℕ
frame = 0xa5 ∷ 0x5a ∷ 10 ∷ 1 ∷ 0 ∷ []

abbrev read_at : ℕ → ReadByte
read_at b = record { byte = b; first_now = secs 1; second_now = secs 1 }

handshake_completes_example :
    (s' : Stick) × (tx : UsbTx) × (d' : Daemon) × (StickLoop.receive_all host_codec no_version 0
        stick
        (map (λ b. (b, 0)) frame)
      ≡ some s')
    × (s'.session ≡ some zero_nonce)
    × (polls device_codec s'.usb_tx (2 ∷ 1 ∷ 64 ∷ 64 ∷ 64 ∷ 64 ∷ []) ≡ some (tx, frame))
    × (DaemonLoop.receive_all calm device_codec floats small no_version
          (map read_at frame)
          daemon
          world
        ≡ some (world, goes_on d'))
    × (d'.handshake_established ≡ true)
    × (d'.manifest_pending ≡ true)
unfolding new_stick frames encode
handshake_completes_example =
    handshake_completes host_codec device_codec calm floats small no_version no_version stick daemon
      world 0 (map (λ b. (b, 0)) frame) (2 ∷ 1 ∷ 64 ∷ 64 ∷ 64 ∷ 64 ∷ []) (map read_at frame) frame
      frame host_laws device_laws new_usb_tx-IsValid refl refl (new-Tracks max_host_frame_len)
      (new-Tracks max_device_frame_len) refl refl refl refl refl
      (omega arith, (omega arith, (omega arith, (omega arith, (omega arith, (omega arith, tt))))))
      (omega arith) refl
