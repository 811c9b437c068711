-- ===== src/Protocol/Decoder/Stream.antt =====
-- What a receiver gets from a stream: whole frames only, and every frame that was sent, also after
-- a part of the stream that makes no sense.
use servatory.Prelude.{
  ℕ, ◌-◌, ◌≤◌, ◌≡◌, refl, ◌≢◌, inl, inr, Option, none, some, List, [], ◌∷◌, ◌++◌, append-nil,
  append_assoc, arith, ltb, ◌==◌, ==_iff, Bool-cases, ok, err, length, All, length-append,
  All-append,
}
use servatory.Protocol.Frame.{IsCobs}
use servatory.Protocol.Decoder.{FrameDecoder, Event, new_decoder, run, with_event}
use servatory.Protocol.Decoder.Spec.{judge, events, rest, event_at, after}
use servatory.Protocol.Decoder.Refine.{run-new}

-- A frame that the decoder hands out: it fits, has a body, and its only zero is the last byte.
abbrev pub IsWhole : ℕ → Event → Type 0
IsWhole n (ok frame) = (2 ≤ length frame) × (length frame ≤ n) × IsCobs frame
IsWhole n (err e) = Unit

module _ (n : ℕ) where
  judge-IsWhole : (p : List ℕ) → All (λ b. b ≢ 0) p → IsWhole n (judge n p)
  unfolding judge
  judge-IsWhole [] h = tt
  judge-IsWhole (x ∷ p) h = elim (Bool-cases (ltb (n - 1) (length (x ∷ p)))) [
    | inl long ↦ rw long tt
    | inr fits ↦ rw fits (
      omega (arith, length-append p (0 ∷ [])),
      ground (arith, length-append p (0 ∷ [])),
      (x ∷ p, refl, h),
    )
  ]

  event-IsWhole :
      (p : List ℕ) (b : ℕ) (es : List Event)
      → All (λ b. b ≢ 0) p
      → All (IsWhole n) es
      → All (IsWhole n) (with_event (event_at n p b) es)
  event-IsWhole p b es h k = elim (Bool-cases (b == 0)) [
    | inl z ↦ rw z (judge-IsWhole p h, k)
    | inr z ↦ rw z k
  ]

  after-nonzero : (p : List ℕ) (b : ℕ) → All (λ b. b ≢ 0) p → All (λ b. b ≢ 0) (after n p b)
  after-nonzero p b h = elim (Bool-cases (b == 0)) [
    | inl z ↦ rw z tt
    | inr z ↦ rw z (All-append (λ b. b ≢ 0) p (b ∷ []) h (ground arith, tt))
  ]

  events-IsWhole : (p bs : List ℕ) → All (λ b. b ≢ 0) p → All (IsWhole n) (events n p bs)
  unfolding events
  events-IsWhole p [] h = tt
  events-IsWhole p (b ∷ bs) h =
      event-IsWhole p b _ h (events-IsWhole (after n p b) bs (after-nonzero p b h))

  -- Each frame that a new decoder of size `n` hands out, on any stream, has at most `n` bytes, of
  -- which the last is zero, and before it there is at least one byte and no zero.
  pub run-IsWhole :
      (bs : List ℕ) {d : FrameDecoder} {es : List Event}
      → run n (new_decoder n) bs ≡ some (d, es)
      → All (IsWhole n) es
  run-IsWhole bs {es = es} e =
      let (d', e') = run-new n bs in
      let same : es ≡ events n [] bs = cc in rw same (events-IsWhole [] bs tt)

  pub events-append :
      (p xs ys : List ℕ) → events n p (xs ++ ys) ≡ events n p xs ++ events n (rest n p xs) ys
  unfolding events rest
  events-append p [] ys = refl
  events-append p (b ∷ xs) ys =
      rw (events-append (after n p b) xs ys) (with_event-append (event_at n p b) _ _)
    where
      with_event-append :
          (e : Option Event) (es fs : List Event) → with_event e (es ++ fs) ≡ with_event e es ++ fs
      with_event-append none es fs = refl
      with_event-append (some e) es fs = refl

  pub rest-append : (p xs ys : List ℕ) → rest n p (xs ++ ys) ≡ rest n (rest n p xs) ys
  unfolding rest
  rest-append p [] ys = refl
  rest-append p (b ∷ xs) ys = rest-append (after n p b) xs ys

  pub rest-delimiter : (p xs : List ℕ) → rest n p (xs ++ 0 ∷ []) ≡ []
  unfolding rest
  rest-delimiter p xs = rest-append p xs (0 ∷ [])

  -- The bytes of a body are gathered, and its delimiter has it judged.
  pub events-body :
      (p body : List ℕ)
      → All (λ b. b ≢ 0) body
      → events n p (body ++ 0 ∷ []) ≡ judge n (p ++ body) ∷ []
  unfolding events
  events-body p [] h = rw (append-nil p)
  events-body p (b ∷ body) h = elim (Bool-cases (b == 0)) [
    | inl z ↦ absurd (h.0 ((==_iff b 0).0 z))
    | inr z ↦ rw (z, events-body (p ++ b ∷ []) body h.1, append_assoc p (b ∷ []) body)
  ]

  pub judge_fits :
      (body : List ℕ) → 1 ≤ length body → length body ≤ n - 1 → judge n body ≡ ok (body ++ 0 ∷ [])
  unfolding judge
  judge_fits [] h k = absurd (omega arith)
  judge_fits (x ∷ body) h k = ground arith
