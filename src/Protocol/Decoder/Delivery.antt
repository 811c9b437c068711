-- ===== src/Protocol/Decoder/Delivery.antt =====
-- protocol/src/lib.rs: `encode`, the decoder and `decode` from one end of the line to the other.
use servatory.Prelude.{
  ℕ, ◌+◌, ◌≤◌, ◌≡◌, refl, sym, ap, ◌∙◌, inl, inr, Option, none, some, List, [], ◌∷◌, ◌++◌, map,
  append_assoc, arith, Option-cases, Result, ok, err, and_then, bind, length, length-append,
  Result-cases,
}
use servatory.Protocol.Message.{ProtocolError}
use servatory.Protocol.Frame.{Codec, IsCodec, encode, decode}
use servatory.Protocol.Frame.RoundTrip.{decode-encode, decode-ok}
use servatory.Protocol.Decoder.{FrameDecoder, Event, new_decoder, run}
use servatory.Protocol.Decoder.Spec.{events, rest}
use servatory.Protocol.Decoder.Refine.{run-new}
use servatory.Protocol.Decoder.Stream.{events-append, rest-delimiter, events-body, judge_fits}

module _ {M : Type 0} (c : Codec M) where
  -- The sender's messages as one stream: `none` if one of them does not fit.
  unfoldable pub send : ℕ → List M → Option (List ℕ)
  send capacity [] = some []
  send capacity (m ∷ ms) = elim (encode c m capacity) [
    | err e ↦ none
    | ok frame ↦ bind (send capacity ms) (λ bs. some (frame ++ bs))
  ]

  -- What the receiver's loop makes of an event: `frame.and_then(decode)`.
  abbrev pub receive : Event → Result M ProtocolError
  receive e = and_then e (decode c)

module _ {M : Type 0} (c : Codec M) (laws : IsCodec c) (n : ℕ) where
  events_resync :
      (junk bs : List ℕ)
      → events n [] (junk ++ 0 ∷ bs) ≡ events n [] (junk ++ 0 ∷ []) ++ events n [] bs
  events_resync junk bs =
      ap (events n []) (sym (append_assoc junk (0 ∷ []) bs))
      ∙ events-append n [] (junk ++ 0 ∷ []) bs
      ∙ ap (λ p. events n [] (junk ++ 0 ∷ []) ++ events n p bs) (rest-delimiter n [] junk)

  -- One frame is one event, which is received as its message.
  frame_events :
      (m : M) (capacity : ℕ) {frame : List ℕ}
      → encode c m capacity ≡ ok frame
      → capacity ≤ n
      → (events n [] frame ≡ ok frame ∷ []) × (rest n [] frame ≡ []) × (receive c (ok frame) ≡ ok m)
  frame_events m capacity {frame} e h =
      let ((body, split, nonzero), fits, back) = decode-encode c m capacity laws e in
      let (payload, shape, _) = decode-ok c frame back in
      let size : length body + 1 ≡ length frame =
        omega (arith, ap length split, length-append body (0 ∷ [])) in
      let long : 3 ≤ length frame = omega (arith, ap length shape) in
      (
        rw split (
            rw (events-body n [] body nonzero, judge_fits n body (omega arith) (omega arith)) refl),
        rw split (rest-delimiter n [] body),
        back,
      )

  send-events :
      (capacity : ℕ) (ms : List M) {bs : List ℕ}
      → capacity ≤ n
      → send c capacity ms ≡ some bs
      → map (receive c) (events n [] bs) ≡ map ok ms
  unfolding send events
  send-events capacity [] {bs} h e = let same : bs ≡ [] = cc in rw same refl
  send-events capacity (m ∷ ms) {bs} h e = elim (Result-cases (encode c m capacity)) [
    | inr (x, f) ↦ absurd (ground (arith, f))
    | inl (frame, f) ↦ elim (Option-cases (send c capacity ms)) [
      | inl s ↦ absurd (ground (arith, f, s))
      | inr (more, s) ↦
          let same : bs ≡ frame ++ more = ground (arith, f, s) in
          let (one, behind, back) = frame_events m capacity f h in
          rw (same, events-append n [] frame more, one, behind)
            (ground (arith, back, send-events capacity ms h s))
    ]
  ]

  -- With a lawful codec, if messages are encoded into a capacity that is at most the decoder's
  -- size, then after any bytes and a delimiter a new decoder receives them each once and in order,
  -- as its only further events.
  pub stream_recovers :
      (capacity : ℕ) (junk : List ℕ) (ms : List M) {bs : List ℕ}
      → capacity ≤ n
      → send c capacity ms ≡ some bs
      → (d : FrameDecoder) × (es : List Event) × (run n (new_decoder n) (junk ++ 0 ∷ bs)
          ≡ some (d, events n [] (junk ++ 0 ∷ []) ++ es))
        × (map (receive c) es ≡ map ok ms)
  stream_recovers capacity junk ms {bs} h e =
      let (d, r) = run-new n (junk ++ 0 ∷ bs) in
      (d, events n [] bs, rw r (rw events_resync), send-events capacity ms h e)
