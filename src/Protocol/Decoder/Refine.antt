-- ===== src/Protocol/Decoder/Refine.antt =====
-- protocol/src/lib.rs: the decoder does what its specification says, and never panics.
use servatory.Prelude.{
  ℕ, ◌+◌, ◌-◌, ◌≤◌, ◌<◌, ◌≡◌, refl, ◌∙◌, ◌≢◌, ◌⊎◌, inl, inr, true, false, ◌||◌, Option, none, some,
  List, [], ◌∷◌, ◌++◌, arith, leb, ◌==◌, ==_iff, Bool-cases, err, length, take?, length-append,
  length-replicate, set-take,
}
use servatory.Protocol.Message.{frame_too_long}
use servatory.Protocol.Decoder.Spec.{judge, events, rest, event_at, after}
use servatory.Protocol.Decoder.{
  FrameDecoder, Event, new_decoder, push, run, finish, delimiter, store,
}

module _ (n : ℕ) where
  abbrev pub Holds : FrameDecoder → List ℕ → Type 0
  Holds d p =
      (d.discarding ≡ false)
      × (d.len ≡ length p)
      × (length p ≤ n - 1)
      × (take? d.bytes d.len ≡ some p)

  -- The decoder stands for the bytes since the last delimiter: it holds them, or they are too many.
  pub record Tracks (d : FrameDecoder) (p : List ℕ) : Type 0 where
    pub size : length d.bytes ≡ n
    pub held : Holds d p ⊎ ((d.discarding ≡ true) × (n - 1 < length p))

  abbrev pub Steps : FrameDecoder → ℕ → Option Event → List ℕ → Type 0
  Steps d b e p = (d' : FrameDecoder) × (push n d b ≡ some (d', e)) × Tracks d' p

  finish-Steps :
      (d : FrameDecoder) (p : List ℕ) (b : ℕ)
      → length d.bytes ≡ n
      → Holds d p
      → b ≡ 0
      → Steps d b (some (judge n p)) []
  unfolding push judge delimiter finish
  finish-Steps d [] b s h z = (d, ground arith, record { size = s; held = inl (ground arith) })
  finish-Steps d (x ∷ p) b s (live, l, fits, t) z =
      let (ys, e, l', u) = set-take d.bytes d.len 0 (x ∷ p) t (omega arith) in
      let u' : take? ys (d.len + 1) ≡ some (x ∷ p ++ 0 ∷ []) = ground (arith, u) in
      (
        record { bytes = ys; len = 0; discarding = false },
        ground (arith, e, u'),
        record { size = l' ∙ s; held = inl (refl, refl, omega arith, refl) },
      )

  store-Steps :
      (d : FrameDecoder) (p : List ℕ) (b : ℕ)
      → length d.bytes ≡ n
      → Holds d p
      → b ≢ 0
      → Steps d b none (p ++ b ∷ [])
  unfolding push store
  store-Steps d p b s (live, l, fits, t) z = elim (Bool-cases (n == 0 || leb (n - 1) d.len)) [
    | inl full ↦ (
      record d { discarding = true; len = 0 },
      ground arith,
      record { size = s; held = inr (refl, ground (arith, length-append p (b ∷ []))) },
    )
    | inr room ↦
        let (ys, e, l', u) = set-take d.bytes d.len b p t (ground arith) in
        let u' : take? ys (d.len + 1) ≡ some (p ++ b ∷ []) = ground (arith, u) in
        (
          record d { bytes = ys; len = d.len + 1 },
          ground (arith, e),
          record {
            size = l' ∙ s;
            held = inl (
              live,
              omega (arith, length-append p (b ∷ [])),
              ground (arith, length-append p (b ∷ [])),
              u',
            );
          },
        )
  ]

  judge_long : (p : List ℕ) → n - 1 < length p → judge n p ≡ err frame_too_long
  unfolding judge
  judge_long [] h = absurd (omega arith)
  judge_long (x ∷ p) h = ground arith

  long-Steps :
      (d : FrameDecoder) (p : List ℕ) (b : ℕ)
      → length d.bytes ≡ n
      → d.discarding ≡ true
      → n - 1 < length p
      → Steps d b (event_at n p b) (after n p b)
  unfolding push delimiter
  long-Steps d p b s gone long = elim (Bool-cases (b == 0)) [
    | inl z ↦ rw z (
      record d { discarding = false; len = 0 },
      ground (arith, judge_long p long),
      record { size = s; held = inl (refl, refl, omega arith, refl) },
    )
    | inr z ↦ rw z (
      d,
      ground arith,
      record { size = s; held = inr (gone, omega (arith, length-append p (b ∷ []))) },
    )
  ]

  -- One byte: the event that the specification wants, and a decoder that stands for what is left.
  pub push-Steps :
      (d : FrameDecoder) (p : List ℕ) (b : ℕ)
      → Tracks d p
      → Steps d b (event_at n p b) (after n p b)
  push-Steps d p b r = elim r.held [
    | inl h ↦ elim (Bool-cases (b == 0)) [
      | inl z ↦ rw z (finish-Steps d p b r.size h ((==_iff b 0).0 z))
      | inr z ↦ rw z (store-Steps d p b r.size h (ground arith))
    ]
    | inr (gone, long) ↦ long-Steps d p b r.size gone long
  ]

  -- Any stream, from any state that stands for a piece of it: no panic, and the events and the rest
  -- are those of the specification.
  pub run-Tracks :
      (d : FrameDecoder) (p bs : List ℕ)
      → Tracks d p
      → (d' : FrameDecoder) × (run n d bs ≡ some (d', events n p bs)) × Tracks d' (rest n p bs)
  unfolding run events rest
  run-Tracks d p [] r = (d, refl, r)
  run-Tracks d p (b ∷ bs) r =
      let (d', e, r') = push-Steps d p b r in
      let (d'', es, r'') = run-Tracks d' (after n p b) bs r' in (d'', rw (e, es), r'')

  pub new-Tracks : Tracks (new_decoder n) []
  new-Tracks = record { size = length-replicate n 0; held = inl (refl, refl, omega arith, refl) }

  -- On every stream of bytes a new decoder indexes inside its buffer, and its events are those that
  -- the specification `events` gives for the whole stream.
  pub run-new :
      (bs : List ℕ) → (d : FrameDecoder) × (run n (new_decoder n) bs ≡ some (d, events n [] bs))
  run-new bs = let (d, e, r) = run-Tracks (new_decoder n) [] bs new-Tracks in (d, e)
