-- ===== src/Protocol/Examples.antt =====
-- A small serializer that meets the laws of `IsCodec`, for the tests: it knows the messages without
-- data, and stuffs nothing since its bytes are never 0.
use servatory.Prelude.{
  ℕ, ◌≤◌, ◌≡◌, refl, ◌≢◌, Option, none, some, List, [], ◌∷◌, arith, ltb, ◌==◌, if◌then◌else◌,
  length, is_empty,
}
use servatory.Prelude.Text.{Text}
use servatory.Protocol.Health.{SoftwareVersion}
use servatory.Protocol.Message.{
  HandshakeNonce, HostMessage, DeviceMessage, shutdown_accepted, shutdown_requested,
}
use servatory.Protocol.Frame.{Codec, IsCodec, IsCobs}

abbrev pub no_version : SoftwareVersion
no_version = record { as_str = [] }

abbrev pub one_byte : ℕ → ℕ → Option (List ℕ)
one_byte b n = if ltb n 2 then none else some (b ∷ 0 ∷ [])

abbrev hello_bytes : List ℕ → Option HandshakeNonce → ℕ → Option (List ℕ)
hello_bytes [] none n = one_byte 2 n
hello_bytes _ _ n = none

abbrev device_bytes : DeviceMessage → ℕ → Option (List ℕ)
device_bytes shutdown_requested n = one_byte 1 n
device_bytes (DeviceMessage.hello v s) n = hello_bytes v.as_str s n

abbrev pub device_codec : Codec DeviceMessage
device_codec = record {
  to_slice_cobs = device_bytes;
  from_bytes_cobs = from_bytes;
  decode_in_place = λ frame. none;
}
  where
    from_bytes : List ℕ → Option DeviceMessage
    from_bytes [] = none
    from_bytes (b ∷ bs) =
        if b == 1
        then some shutdown_requested
        else if b == 2
        then some (DeviceMessage.hello no_version none)
        else none

abbrev host_bytes : HostMessage → ℕ → Option (List ℕ)
host_bytes shutdown_accepted n = one_byte 1 n
host_bytes _ n = none

abbrev pub host_codec : Codec HostMessage
host_codec = record {
  to_slice_cobs = host_bytes;
  from_bytes_cobs = λ bs. if is_empty bs then none else some shutdown_accepted;
  decode_in_place = λ frame. none;
}

pub one_byte-IsCobs :
    (b n : ℕ) (bs : List ℕ) → b ≢ 0 → one_byte b n ≡ some bs → (length bs ≤ n) × (bs ≡ b ∷ 0 ∷ [])
one_byte-IsCobs b n bs h e = ground arith

abbrev Good : DeviceMessage → ℕ → List ℕ → Type 0
Good m n bs = (length bs ≤ n) × IsCobs bs × (device_codec.from_bytes_cobs bs ≡ some m)

hello-Good :
    (t : Text) (s : Option HandshakeNonce) (n : ℕ) (bs : List ℕ)
    → hello_bytes t s n ≡ some bs
    → Good (DeviceMessage.hello (record { as_str = t }) s) n bs
hello-Good [] none n bs e =
    let (fits, same) = one_byte-IsCobs 2 n bs (omega arith) e in
    (fits, (2 ∷ [], same, (omega arith, tt)), rw same refl)
hello-Good [] (some s) n bs e = absurd (cc)
hello-Good (c ∷ t) s n bs e = absurd (cc)

device_bytes-Good :
    (m : DeviceMessage) (n : ℕ) (bs : List ℕ) → device_bytes m n ≡ some bs → Good m n bs
device_bytes-Good shutdown_requested n bs e =
    let (fits, same) = one_byte-IsCobs 1 n bs (omega arith) e in
    (fits, (1 ∷ [], same, (omega arith, tt)), rw same refl)
device_bytes-Good (DeviceMessage.hello v s) n bs e = hello-Good v.as_str s n bs e

pub device_laws : IsCodec device_codec
device_laws = record {
  fits = λ m n bs e. (device_bytes-Good m n bs e).0;
  stuffed = λ m n bs e. (device_bytes-Good m n bs e).1;
  decodes = λ m n bs e. (device_bytes-Good m n bs e).2;
}
