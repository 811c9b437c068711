-- ===== src/Protocol/Frame.antt =====
-- protocol/src/lib.rs: `encode` and `decode`. The serializer is the crate `postcard`, with the byte
-- stuffing of the crate `cobs`: a parameter, with its documented laws in `IsCodec`.
pub mod RoundTrip
use servatory.Prelude.{
  ℕ, ◌-◌, ◌*◌, ◌≤◌, ◌≡◌, ◌≢◌, Option, some, List, [], ◌∷◌, ◌++◌, ltb, ◌==◌, if◌then◌else◌, Result,
  ok, err, and_then, ok_or, bind, length, get_elem?, take?, drop, All,
}
use servatory.Prelude.Text.{starts_with}
use servatory.Protocol.Message.{
  HostMessage, DeviceMessage, ProtocolError, empty_frame, serialize, deserialize,
  unsupported_version,
}

abbrev pub protocol_version : ℕ
protocol_version = 10

abbrev pub frame_magic : List ℕ
frame_magic = 0xa5 ∷ 0x5a ∷ []

abbrev pub max_host_frame_len : ℕ
max_host_frame_len = 4 * 1024

abbrev pub max_device_frame_len : ℕ
max_device_frame_len = 128

-- `to_slice_cobs m n` serializes into a buffer of `n` bytes. `decode_in_place` gives the length of
-- the decoded data and the frame's bytes afterwards.
pub record Codec (M : Type 0) : Type 0 where
  pub to_slice_cobs : M → ℕ → Option (List ℕ)
  pub from_bytes_cobs : List ℕ → Option M
  pub decode_in_place : List ℕ → Option (ℕ × List ℕ)

-- A COBS frame: bytes that are not 0, then the delimiter 0.
abbrev pub IsCobs : List ℕ → Type 0
IsCobs bytes = (body : List ℕ) × (bytes ≡ body ++ 0 ∷ []) × All (λ b. b ≢ 0) body

pub record IsCodec {M : Type 0} (c : Codec M) : Type 0 where
  pub fits : (m : M) (n : ℕ) (bs : List ℕ) → c.to_slice_cobs m n ≡ some bs → length bs ≤ n
  pub stuffed : (m : M) (n : ℕ) (bs : List ℕ) → c.to_slice_cobs m n ≡ some bs → IsCobs bs
  pub decodes :
      (m : M) (n : ℕ) (bs : List ℕ) → c.to_slice_cobs m n ≡ some bs → c.from_bytes_cobs bs ≡ some m

module _ {M : Type 0} (c : Codec M) where
  -- `output.len()` is `capacity`; the result is the written prefix of `output`.
  unfoldable pub encode : M → (capacity : ℕ) → Result (List ℕ) ProtocolError
  encode message capacity =
      if ltb capacity 3
      then err serialize
      else and_then (ok_or (c.to_slice_cobs message (capacity - 3)) serialize)
          (λ payload. ok (frame_magic ++ protocol_version ∷ payload))

  decode_current : List ℕ → Result M ProtocolError
  decode_current [] = err empty_frame
  decode_current (version ∷ payload) =
      if version == protocol_version
      then ok_or (c.from_bytes_cobs payload) deserialize
      else err (unsupported_version version)

  -- `frame.get(..decoded_len).and_then(first)`
  first_decoded : ℕ × List ℕ → Option ℕ
  first_decoded (decoded_len, frame) = bind (take? frame decoded_len) (λ s. get_elem? s 0)

  decode_legacy : List ℕ → Result M ProtocolError
  unfolding first_decoded
  decode_legacy frame =
      and_then (ok_or (bind (c.decode_in_place frame) first_decoded) deserialize)
        (λ received. err (unsupported_version received))

  unfoldable pub decode : List ℕ → Result M ProtocolError
  unfolding decode_current decode_legacy
  decode frame =
      if starts_with frame_magic frame then decode_current (drop 2 frame) else decode_legacy frame

abbrev pub encode_host : Codec HostMessage → HostMessage → ℕ → Result (List ℕ) ProtocolError
encode_host c = encode c

abbrev pub encode_device : Codec DeviceMessage → DeviceMessage → ℕ → Result (List ℕ) ProtocolError
encode_device c = encode c

abbrev pub decode_host : Codec HostMessage → List ℕ → Result HostMessage ProtocolError
decode_host c = decode c

abbrev pub decode_device : Codec DeviceMessage → List ℕ → Result DeviceMessage ProtocolError
decode_device c = decode c
