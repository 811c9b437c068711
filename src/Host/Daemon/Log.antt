-- ===== src/Host/Daemon/Log.antt =====
-- host/src/main.rs: the manifests in the daemon's log, and what a part of a turn keeps.
use servatory.Prelude.{
  ◌≡◌, refl, sym, inl, inr, Bool, true, false, Option, none, some, List, [], ◌∷◌, ◌++◌,
  if◌then◌else◌, Bool-cases, ok, err, bind, All, Result-cases,
}
use servatory.Protocol.Display.{DisplayConfig}
use servatory.Protocol.Network.{NetworkConfig}
use servatory.Protocol.Message.{HostMessage}
use servatory.Protocol.Frame.{encode_host, max_host_frame_len}
use servatory.Host.Shutdown.{
  Effect, sent, poweroff_called, HostError, World, Outcome, Env, write_host_message,
}
use servatory.Host.Shutdown.Log.{IsReport}
use servatory.Host.Daemon.{Daemon, Step, goes_on, lost, stops, refuses, then_do, written}

-- The later of two, if there is one.
abbrev pub or_else : {A : Type 0} → Option A → Option A → Option A
or_else none b = b
or_else (some a) b = some a

or_else-none : {A : Type 0} (a : Option A) → or_else a none ≡ a
or_else-none none = refl
or_else-none (some a) = refl

pub or_else_assoc :
    {A : Type 0} (a b c : Option A) → or_else (or_else a b) c ≡ or_else a (or_else b c)
or_else_assoc none b c = refl
or_else_assoc (some a) b c = refl

abbrev pub display_of : Effect → Option DisplayConfig
display_of (sent (HostMessage.display_config d)) = some d
display_of _ = none

abbrev pub network_of : Effect → Option NetworkConfig
network_of (sent (HostMessage.network_config n)) = some n
network_of _ = none

-- The last of what `f` finds in a log.
abbrev pub last_of : {A : Type 0} → (Effect → Option A) → List Effect → Option A
last_of f [] = none
last_of f (e ∷ es) = or_else (last_of f es) (f e)

pub last_of-append :
    {A : Type 0} (f : Effect → Option A) (xs ys : List Effect)
    → last_of f (xs ++ ys) ≡ or_else (last_of f ys) (last_of f xs)
last_of-append f [] ys = sym (or_else-none (last_of f ys))
last_of-append f (x ∷ xs) ys =
    rw (last_of-append f xs ys) (or_else_assoc (last_of f ys) (last_of f xs) (f x))

pub reports_display : (ys : List Effect) → All IsReport ys → last_of display_of ys ≡ none
reports_display [] h = refl
reports_display (e ∷ ys) h = rw (reports_display ys h.1) (one e h.0)
  where
    one : (e : Effect) → IsReport e → display_of e ≡ none
    one (sent HostMessage.shutdown_accepted) h = refl
    one (sent (HostMessage.shutdown_progress p t r)) h = refl
    one (sent (HostMessage.shutdown_failed r n)) h = refl
    one (sent (HostMessage.display_config d)) h = absurd h
    one (sent (HostMessage.network_config d)) h = absurd h
    one (sent (HostMessage.hello v n)) h = absurd h
    one (sent (HostMessage.health_snapshot s)) h = absurd h
    one poweroff_called h = refl

pub reports_network : (ys : List Effect) → All IsReport ys → last_of network_of ys ≡ none
reports_network [] h = refl
reports_network (e ∷ ys) h = rw (reports_network ys h.1) (one e h.0)
  where
    one : (e : Effect) → IsReport e → network_of e ≡ none
    one (sent HostMessage.shutdown_accepted) h = refl
    one (sent (HostMessage.shutdown_progress p t r)) h = refl
    one (sent (HostMessage.shutdown_failed r n)) h = refl
    one (sent (HostMessage.display_config d)) h = absurd h
    one (sent (HostMessage.network_config d)) h = absurd h
    one (sent (HostMessage.hello v n)) h = absurd h
    one (sent (HostMessage.health_snapshot s)) h = absurd h
    one poweroff_called h = refl

-- A message was written, or it was not.
pub data Writes (m : HostMessage) (l : List Effect) : Outcome Unit → Type 0 where
  went : (w : World) → w.log ≡ l ++ sent m ∷ [] → Writes m l (w, ok tt)
  failed : (w : World) (e : HostError) → w.log ≡ l → Writes m l (w, err e)

pub write_host_message-Writes :
    (env : Env) (m : HostMessage) (w : World) → Writes m w.log (write_host_message env m w)
unfolding write_host_message
write_host_message-Writes env m w =
    elim (Result-cases (encode_host env.codec m max_host_frame_len)) [
      | inr (e, f) ↦ rw (write_host_message, f) (failed w _ refl)
      | inl (frame, f) ↦ elim (Bool-cases (env.succeeds w.calls)) [
        | inl e ↦ rw (write_host_message, f, e) (went _ refl)
        | inr e ↦ rw (write_host_message, f, e) (failed _ _ refl)
      ]
    ]

-- What holds where a part of a turn ends: `P` if the loop goes on, `Q` if the line is lost.
module _ (P Q : Daemon → List Effect → Type 0) where
  abbrev pub Ends : Step → Type 0
  Ends (w, goes_on d) = P d w.log
  Ends (w, lost d e) = Q d w.log
  Ends (w, stops d) = Q d w.log
  Ends (w, refuses d e) = Q d w.log

  abbrev pub EndsAny : Option Step → Type 0
  EndsAny none = Unit
  EndsAny (some s) = Ends s

  -- Both branches of a test.
  pub if-Ends : (b : Bool) (x y : Step) → Ends x → Ends y → Ends (if b then x else y)
  if-Ends true x y h k = h
  if-Ends false x y h k = k

  pub if-EndsAny :
      (b : Bool) (x y : Option Step) → EndsAny x → EndsAny y → EndsAny (if b then x else y)
  if-EndsAny true x y h k = h
  if-EndsAny false x y h k = k

  -- A message, and what follows it; the failure is known where it is not written.
  pub tried-Ends :
      (m : HostMessage) (l : List Effect) (out : Outcome Unit) (d : Daemon) (f : World → Step)
      → Writes m l out
      → ((e : HostError) → out.1 ≡ err e → Q d l)
      → ((w : World) → w.log ≡ l ++ sent m ∷ [] → Ends (f w))
      → Ends (written out d f)
  tried-Ends m l out d f (went w e) h k = k w e
  tried-Ends m l out d f (failed w x e) h k = rw e (h x refl)

  pub written-Ends :
      (m : HostMessage) (l : List Effect) {out : Outcome Unit} (d : Daemon) (f : World → Step)
      → Writes m l out
      → Q d l
      → ((w : World) → w.log ≡ l ++ sent m ∷ [] → Ends (f w))
      → Ends (written out d f)
  written-Ends m l d f x h k = tried-Ends m l _ d f x (λ e r. h) k

pub then_do-Ends :
    (P Q R : Daemon → List Effect → Type 0) (s : Step) (f : Daemon → World → Option Step)
    → Ends P Q s
    → ((d : Daemon) (w : World) → P d w.log → EndsAny R Q (f d w))
    → EndsAny R Q (then_do s f)
unfolding then_do
then_do-Ends P Q R (w, goes_on d) f h k = k d w h
then_do-Ends P Q R (w, lost d e) f h k = h
then_do-Ends P Q R (w, stops d) f h k = h
then_do-Ends P Q R (w, refuses d e) f h k = h

pub bind-Ends :
    (P Q R S : Daemon → List Effect → Type 0) (o : Option Step) (f : Step → Option Step)
    → EndsAny P Q o
    → ((s : Step) → Ends P Q s → EndsAny R S (f s))
    → EndsAny R S (bind o f)
bind-Ends P Q R S none f h k = tt
bind-Ends P Q R S (some s) f h k = k s h
