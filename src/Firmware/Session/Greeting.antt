-- ===== src/Firmware/Session/Greeting.antt =====
-- firmware/src/main.rs: what the main loop does with a hello.
use servatory.Prelude.{◌≡◌, refl, some, ok}
use servatory.Prelude.Time.{Instant}
use servatory.Protocol.Health.{SoftwareVersion}
use servatory.Protocol.Message.{HandshakeNonce, HostMessage}
use servatory.Firmware.UsbTx.{enqueue, device_hello}
use servatory.Firmware.Session.{Stick, handle, on_message, on_hello}

-- The session is taken over, and an acknowledgement queued.
pub handle_hello :
    (version daemon_version : SoftwareVersion) (now clock : Instant) (nonce : HandshakeNonce)
    (s : Stick)
    → let s' = handle version now clock (ok (HostMessage.hello daemon_version nonce)) s in
      (s'.session ≡ some nonce) × (s'.usb_tx ≡ enqueue s.usb_tx (device_hello version (some nonce)))
unfolding handle on_message on_hello
handle_hello version daemon_version now clock nonce s = (refl, refl)
