-- ===== src/Firmware/Session/Gate.antt =====
-- firmware/src/main.rs: what the host can change before it has said hello, and after it fell silent.
use servatory.Prelude.{
  ◌-◌, ◌≡◌, ◌⊎◌, inl, inr, Bool, true, false, none, List, [], ◌∷◌, arith, ltb, Bool-cases,
  is_some_and, Result, ok, err, All,
}
use servatory.Prelude.Time.{Instant}
use servatory.Protocol.Health.{SoftwareVersion}
use servatory.Protocol.Message.{HostMessage, ProtocolError}
use servatory.Firmware.Session.{Stick, handle, is_connected, is_powering_off}
use servatory.Firmware.Session.Press.{press}
use servatory.Firmware.Session.Loop.{timers, expire, watch_usb, watch_reports, spin, link_timeout}
use servatory.Firmware.Session.Coherent.{IsCoherent}

abbrev pub Reply : Type 0
Reply = Result HostMessage ProtocolError

abbrev pub is_hello : Reply → Bool
is_hello (ok (HostMessage.hello v nonce)) = true
is_hello (ok m) = false
is_hello (err e) = false

-- What was decoded during a round, handled in order.
pub handle_all : SoftwareVersion → (now clock : Instant) → List Reply → Stick → Stick
handle_all version now clock [] s = s
handle_all version now clock (r ∷ rs) s =
    handle_all version now clock rs (handle version now clock r s)

-- What a stick without a session shows and shares.
pub record Untouched (s t : Stick) : Type 0 where
  pub session : t.session ≡ none
  pub snapshot : t.snapshot ≡ s.snapshot
  pub net : t.net ≡ s.net
  pub config : t.config ≡ s.config
  pub page : t.page ≡ s.page
  pub usb_tx : t.usb_tx ≡ s.usb_tx
  pub display : t.display ≡ s.display
  pub connected : is_connected t.daemon ≡ true → is_connected s.daemon ≡ true
  pub shutdown : is_powering_off t.daemon ≡ true → is_powering_off s.daemon ≡ true

handle-Untouched :
    (version : SoftwareVersion) (now clock : Instant) (r : Reply) (s : Stick)
    → s.session ≡ none
    → is_hello r ≡ false
    → Untouched s (handle version now clock r s)
unfolding handle
handle-Untouched version now clock r s n h = ground arith

Untouched-trans : {s t u : Stick} → Untouched s t → Untouched t u → Untouched s u
Untouched-trans a b = ground arith

-- Without a session, messages and errors of which none is a hello open no session and change
-- neither the snapshot, the shared state, the configuration, the page, the outgoing queue nor the
-- shutdown display, and a stick that is then connected or powering off was so before.
pub before_hello :
    (version : SoftwareVersion) (now clock : Instant) (rs : List Reply) (s : Stick)
    → s.session ≡ none
    → All (λ r. is_hello r ≡ false) rs
    → Untouched s (handle_all version now clock rs s)
unfolding handle_all
before_hello version now clock [] s n h = ground arith
before_hello version now clock (r ∷ rs) s n h =
    let first = handle-Untouched version now clock r s n h.0 in
    Untouched-trans first
      (before_hello version now clock rs (handle version now clock r s) first.session h.1)

abbrev pub is_fresh : Instant → Stick → Bool
is_fresh now s = is_some_and s.last_update (λ t. ltb (now - t) link_timeout)

abbrev Judged : Instant → Stick → Stick → Type 0
Judged now s t =
    ((is_connected t.daemon ≡ true) × (is_fresh now s ≡ true) × (t.session ≡ s.session))
    ⊎ ((is_connected t.daemon ≡ false) × (is_fresh now s ≡ false) × (t.session ≡ none))

expire-Judged :
    (now : Instant) (s : Stick)
    → IsCoherent s
    → is_connected s.daemon ≡ true
    → Judged now s (expire now s)
unfolding expire
expire-Judged now s v c = elim (Bool-cases (is_fresh now s)) [
  | inl fresh ↦ inl (ground arith, fresh, ground arith)
  | inr silent ↦ inr (ground arith, silent, ground arith)
]

-- The other timers leave the link alone.
record SameLink (s t : Stick) : Type 0 where
  daemon : t.daemon ≡ s.daemon
  last_update : t.last_update ≡ s.last_update
  session : t.session ≡ s.session

press-SameLink : (now : Instant) (pressed : Bool) (s : Stick) → SameLink s (press now pressed s)
unfolding press
press-SameLink now pressed s = ground arith

late-SameLink :
    (now : Instant) (s : Stick) → SameLink s (spin now (watch_reports now (watch_usb now s)))
unfolding spin watch_reports watch_usb
late-SameLink now s = ground arith

timers-SameLink :
    (now : Instant) (pressed : Bool) (s : Stick) → SameLink (expire now s) (timers now pressed s)
unfolding timers
timers-SameLink now pressed s = ground (
  arith,
  press-SameLink now pressed (expire now s),
  late-SameLink now (press now pressed (expire now s)),
)

-- After the timers of a round, a coherent stick that was connected is connected with its session if
-- its last update is less than 15 seconds old, and otherwise is not connected and has no session.
pub timers_fresh :
    (now : Instant) (pressed : Bool) (s : Stick)
    → IsCoherent s
    → is_connected s.daemon ≡ true
    → ((is_connected (timers now pressed s).daemon ≡ true)
        × (is_fresh now s ≡ true)
        × ((timers now pressed s).session ≡ s.session))
      ⊎ ((is_connected (timers now pressed s).daemon ≡ false)
          × (is_fresh now s ≡ false)
          × ((timers now pressed s).session ≡ none))
timers_fresh now pressed s v c =
    let link = timers-SameLink now pressed s in
    elim (expire-Judged now s v c) [
      | inl (a, b, d) ↦ inl (rw link.daemon a, b, rw link.session d)
      | inr (a, b, d) ↦ inr (rw link.daemon a, b, rw link.session d)
    ]
