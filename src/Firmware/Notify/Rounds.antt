-- ===== src/Firmware/Notify/Rounds.antt =====
-- firmware/src/network.rs: what a round of `notification_worker` adds to the queue.
use servatory.Prelude.{
  ℕ, ◌+◌, ◌≤◌, ◌≡◌, sym, ap, ◌∙◌, Bool, true, false, Option, none, some, List, [], ◌∷◌, ◌++◌,
  append-nil, append_assoc, arith, leb, if◌then◌else◌, unwrap_or, length,
}
use servatory.Prelude.Text.{Text}
use servatory.Prelude.Time.{Instant, secs}
use servatory.Protocol.Health.{Incident}
use servatory.Protocol.Network.{NtfyConfig}
use servatory.Firmware.Notify.{
  PendingNotification, Queue, Worker, Round, criticals_of, remind_every, push_pending, push_where,
  news, reminder, recovered, remind, publish, notify, test_notification, max_pending_notifications,
  pop,
}
use servatory.Firmware.Notify.Newest.{
  newest, notes, newest-small, newest-bound, newest-append, push_pending-newest, push_where-newest,
}

-- The reminders of a round: of all that is critical, once they are due.
abbrev pub reminders :
    NtfyConfig → Round → Option ℕ → (criticals : List Incident) → Option Instant → Queue
reminders config r none criticals next = []
reminders config r (some seconds) [] next = []
reminders config r (some seconds) (i ∷ is) next =
    if leb (unwrap_or next (r.insert_now + secs seconds)) r.due_now
    then notes (reminder config) (i ∷ is)
    else []

-- What a round adds, in order.
abbrev pub additions : NtfyConfig → Round → List Incident → Worker → Queue
additions config r current w =
    (if r.test then test_notification ∷ [] else [])
    ++ notes (news config w.previous) current
    ++ reminders config r config.repeat_critical_seconds (criticals_of current)
        w.next_critical_repeat
    ++ (if config.notify_recovery then notes (recovered config current) w.previous else [])

-- A queue that is what is left of `q` after these additions.
record Holds (q added out : Queue) : Type 0 where
  is_newest : out ≡ newest (q ++ added)
  bound : length out ≤ max_pending_notifications

adds :
    (q added more : Queue) {mid out : Queue}
    → Holds q added mid
    → Holds mid more out
    → Holds q (added ++ more) out
adds q added more a b = record {
  is_newest =
      b.is_newest
      ∙ ap (λ k. newest (k ++ more)) a.is_newest
      ∙ newest-append (q ++ added) more
      ∙ ap newest (append_assoc q added more);
  bound = b.bound;
}

nothing : (q : Queue) → length q ≤ max_pending_notifications → Holds q [] q
nothing q h = record {
  is_newest = sym (newest-small q h) ∙ ap newest (sym (append-nil q));
  bound = h;
}

pushes :
    (f : Incident → Option PendingNotification) (q : Queue) (is : List Incident)
    → length q ≤ max_pending_notifications
    → Holds q (notes f is) (push_where f q is)
pushes f q is h = record {
  is_newest = push_where-newest f q is h;
  bound = rw (push_where-newest f q is h) (newest-bound (q ++ notes f is));
}

tests :
    (b : Bool) (q : Queue)
    → length q ≤ max_pending_notifications
    → Holds q
        (if b then test_notification ∷ [] else [])
        (if b then push_pending q test_notification else q)
tests true q h = record {
  is_newest = push_pending-newest q test_notification h;
  bound =
      rw (push_pending-newest q test_notification h) (newest-bound (q ++ test_notification ∷ []));
}
tests false q h = nothing q h

recoveries :
    (b : Bool) (f : Incident → Option PendingNotification) (q : Queue) (is : List Incident)
    → length q ≤ max_pending_notifications
    → Holds q (if b then notes f is else []) (if b then push_where f q is else q)
recoveries true f q is h = pushes f q is h
recoveries false f q is h = nothing q h

remind-Holds :
    (config : NtfyConfig) (r : Round) (seconds : Option ℕ) (is : List Incident) (q : Queue)
    (next : Option Instant)
    → length q ≤ max_pending_notifications
    → Holds q (reminders config r seconds is next) (remind_every config r seconds is (q, next)).0
unfolding remind_every
remind-Holds config r none is q next h = nothing q h
remind-Holds config r (some seconds) [] q next h = nothing q h
remind-Holds config r (some seconds) (i ∷ is) q next h =
    when_due (leb (unwrap_or next (r.insert_now + secs seconds)) r.due_now)
  where
    when_due :
        (b : Bool)
        → Holds q
            (if b then notes (reminder config) (i ∷ is) else [])
            (if◌then◌else◌ {A = Queue × Option Instant} b
              (push_where (reminder config) q (i ∷ is), some (r.reset_now + secs seconds))
              (q, some (unwrap_or next (r.insert_now + secs seconds)))).0
    when_due true = pushes (reminder config) q (i ∷ is) h
    when_due false = nothing q h

pop-bound : (q : Queue) → length (pop q) ≤ length q
pop-bound [] = omega arith
pop-bound (n ∷ q) = omega arith

publish-bound :
    (topic : Option Text) (b : Bool) (q : Queue)
    → length q ≤ max_pending_notifications
    → length (publish topic b q) ≤ max_pending_notifications
unfolding publish
publish-bound topic b q h = ground (arith, pop-bound q)

-- Under a configuration, a round makes the queue the newest eight of what it held and of the test
-- notification, the news, the reminders and the recoveries of the round, in this order; then the first
-- is taken off if it was published.
pub notify-pending :
    (config : NtfyConfig) (r : Round) (current : List Incident) (w : Worker)
    → length w.pending ≤ max_pending_notifications
    → ((notify config r current w).pending
        ≡ publish r.state.ntfy_topic r.published
            (newest (w.pending ++ additions config r current w)))
      × (length (notify config r current w).pending ≤ max_pending_notifications)
unfolding notify remind
notify-pending config r current w h =
    let a = tests r.test w.pending h in
    let b = pushes (news config w.previous) _ current a.bound in
    let c =
      remind-Holds config r config.repeat_critical_seconds (criticals_of current) _
        w.next_critical_repeat b.bound in
    let d = recoveries config.notify_recovery (recovered config current) _ w.previous c.bound in
    let all_of_it = adds w.pending _ _ (adds w.pending _ _ (adds w.pending _ _ a b) c) d in
    (
      ap (publish r.state.ntfy_topic r.published) all_of_it.is_newest,
      publish-bound r.state.ntfy_topic r.published _ all_of_it.bound,
    )
