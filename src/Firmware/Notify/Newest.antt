-- ===== src/Firmware/Notify/Newest.antt =====
-- firmware/src/network.rs: the queue of notifications keeps the newest.
use servatory.Prelude.{
  ℕ, suc, ◌+◌, ◌-◌, ◌≤◌, ◌≡◌, sym, ap, ◌∙◌, inl, inr, Option, none, some, List, [], ◌∷◌, ◌++◌,
  append-nil, append_assoc, arith, ◌==◌, ==_iff, Bool-cases, Option-cases, length, drop,
  length-append, length-drop, drop-drop, drop-append,
}
use servatory.Protocol.Health.{Incident}
use servatory.Firmware.Notify.{
  PendingNotification, Queue, pop, push_pending, push_where, max_pending_notifications,
}

-- The last eight.
unfoldable pub newest : Queue → Queue
newest q = drop (length q - max_pending_notifications) q

-- What `f` gives for the incidents, in order.
unfoldable pub notes : (Incident → Option PendingNotification) → List Incident → Queue
notes f [] = []
notes f (i ∷ is) = let rest = notes f is in elim (f i) [ none ↦ rest | some n ↦ n ∷ rest ]

pub newest-small : (q : Queue) → length q ≤ max_pending_notifications → newest q ≡ q
unfolding newest
newest-small q h = ap (λ k. drop k q) (gone (length q) h)
  where
    gone : (n : ℕ) → n ≤ max_pending_notifications → n - max_pending_notifications ≡ 0
    gone n h = omega arith

pub newest-bound : (q : Queue) → length (newest q) ≤ max_pending_notifications
unfolding newest
newest-bound q = omega (arith, length-drop (length q - max_pending_notifications) q)

-- What is dropped once does not matter later.
pub newest-append : (p q : Queue) → newest (newest p ++ q) ≡ newest (p ++ q)
unfolding newest
newest-append p q =
    let k = length p - max_pending_notifications in
    let j = length (drop k p ++ q) - max_pending_notifications in
    ap (drop j) (sym (drop-append k p q (omega arith)))
    ∙ drop-drop k j (p ++ q)
    ∙ ap (λ n. drop n (p ++ q)) (together p q)
  where
    together :
        (p q : Queue)
        → (length p - max_pending_notifications)
            + (length (drop (length p - max_pending_notifications) p ++ q)
                - max_pending_notifications)
          ≡ length (p ++ q) - max_pending_notifications
    together p q = omega (
      arith,
      length-append p q,
      length-append (drop (length p - max_pending_notifications) p) q,
      length-drop (length p - max_pending_notifications) p,
    )

full-pop :
    (q : Queue) (n : PendingNotification)
    → length q ≡ max_pending_notifications
    → pop q ++ n ∷ [] ≡ newest (q ++ n ∷ [])
unfolding newest
full-pop [] n h = absurd (omega arith)
full-pop (x ∷ q) n h = ap (λ k. drop k (x ∷ q ++ n ∷ [])) (one q h)
  where
    one :
        (q : Queue)
        → suc (length q) ≡ max_pending_notifications
        → 1 ≡ length (x ∷ q ++ n ∷ []) - max_pending_notifications
    one q h = omega (arith, length-append q (n ∷ []))

pub push_pending-newest :
    (q : Queue) (n : PendingNotification)
    → length q ≤ max_pending_notifications
    → push_pending q n ≡ newest (q ++ n ∷ [])
unfolding push_pending
push_pending-newest q n h = elim (Bool-cases (length q == max_pending_notifications)) [
  | inl e ↦ rw e (full-pop q n ((==_iff (length q) max_pending_notifications).0 e))
  | inr e ↦ rw e (sym (newest-small (q ++ n ∷ []) (ground (arith, length-append q (n ∷ []), h, e))))
]

pub push_where-newest :
    (f : Incident → Option PendingNotification) (q : Queue) (is : List Incident)
    → length q ≤ max_pending_notifications
    → push_where f q is ≡ newest (q ++ notes f is)
unfolding push_where notes
push_where-newest f q [] h = sym (newest-small q h) ∙ ap newest (sym (append-nil q))
push_where-newest f q (i ∷ is) h = elim (Option-cases (f i)) [
  | inl e ↦ rw (notes, e) (push_where-newest f q is h)
  | inr (n, e) ↦ rw (notes, e) (pushed n (push_where-newest f (push_pending q n) is (room n)))
]
  where
    room : (n : PendingNotification) → length (push_pending q n) ≤ max_pending_notifications
    room n = rw (push_pending-newest q n h) (newest-bound (q ++ n ∷ []))

    pushed :
        (n : PendingNotification)
        → push_where f (push_pending q n) is ≡ newest (push_pending q n ++ notes f is)
        → push_where f (push_pending q n) is ≡ newest (q ++ n ∷ notes f is)
    pushed n e =
        e
        ∙ ap (λ k. newest (k ++ notes f is)) (push_pending-newest q n h)
        ∙ newest-append (q ++ n ∷ []) (notes f is)
        ∙ ap newest (append_assoc q (n ∷ []) (notes f is))
