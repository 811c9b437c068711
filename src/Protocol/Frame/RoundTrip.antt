-- ===== src/Protocol/Frame/RoundTrip.antt =====
-- protocol/src/lib.rs: what `encode` and `decode` make of each other.
use servatory.Prelude.{
  ℕ, ◌-◌, ◌≤◌, ◌≡◌, ap, ◌≢◌, ◌⊎◌, inl, inr, some, List, [], ◌∷◌, ◌++◌, arith, ltb, Bool-cases,
  Option-cases, ok, err, length,
}
use servatory.Protocol.Frame.{Codec, IsCobs, IsCodec, encode, decode, frame_magic, protocol_version}
use servatory.Protocol.Message.{serialize, unsupported_version}

module _ {M : Type 0} (c : Codec M) where
  pub encode_cases :
      (m : M) (n : ℕ)
      → (encode c m n ≡ err serialize)
        ⊎ ((bs : List ℕ) × (3 ≤ n)
            × (c.to_slice_cobs m (n - 3) ≡ some bs)
            × (encode c m n ≡ ok (frame_magic ++ protocol_version ∷ bs)))
  unfolding encode
  encode_cases m n = elim (Bool-cases (ltb n 3)) [
    | inl short ↦ inl (rw short)
    | inr long ↦ elim (Option-cases (c.to_slice_cobs m (n - 3))) [
      | inl e ↦ inl (rw (long, e))
      | inr (bs, e) ↦ inr (bs, ground arith, e, rw (long, e))
    ]
  ]

  -- With a codec that keeps its laws, a message that is encoded into a buffer of `n` bytes gives a
  -- COBS frame of at most `n` bytes, which decodes to the message.
  pub decode-encode :
      (m : M) (n : ℕ) {frame : List ℕ}
      → IsCodec c
      → encode c m n ≡ ok frame
      → IsCobs frame × (length frame ≤ n) × (decode c frame ≡ ok m)
  unfolding decode
  decode-encode m n {frame} laws e = elim (encode_cases m n) [
    | inl f ↦ cc
    | inr (bs, h, s, f) ↦
        let same : frame ≡ frame_magic ++ protocol_version ∷ bs = cc in
        let (body, split, nonzero) = laws.stuffed m (n - 3) bs s in
        rw same (
          (
            frame_magic ++ protocol_version ∷ body,
            ap (λ t. frame_magic ++ protocol_version ∷ t) split,
            (omega arith, (omega arith, (omega arith, nonzero))),
          ),
          omega (arith, laws.fits m (n - 3) bs s),
          rw (laws.decodes m (n - 3) bs s),
        )
  ]

  -- A frame that decodes to a message starts with the magic bytes and the current protocol version,
  -- and the message is what the codec makes of the rest.
  pub decode-ok :
      (frame : List ℕ) {m : M}
      → decode c frame ≡ ok m
      → (payload : List ℕ) × (frame ≡ frame_magic ++ protocol_version ∷ payload)
        × (c.from_bytes_cobs payload ≡ some m)
  unfolding decode
  decode-ok [] e = absurd (ground arith)
  decode-ok (a ∷ []) e = absurd (ground arith)
  decode-ok (a ∷ b ∷ []) e = absurd (ground arith)
  decode-ok (a ∷ b ∷ v ∷ payload) e = (payload, ground arith, ground arith)

  pub decode_other_version :
      (v : ℕ) (payload : List ℕ)
      → v ≢ protocol_version
      → decode c (frame_magic ++ v ∷ payload) ≡ err (unsupported_version v)
  unfolding decode
  decode_other_version v payload h = ground arith
