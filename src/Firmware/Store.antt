-- ===== src/Firmware/Store.antt =====
-- firmware/src/provisioning.rs: the settings in the last sector of the flash memory. The serializer
-- is a parameter. What a failed erase or write leaves behind is not modelled: the functions give the
-- memory only when both succeed.
pub mod RoundTrip
use servatory.Prelude.{
  ℕ, ◌+◌, ◌-◌, ◌*◌, ◌/◌, ◌%◌, ◌<◌, ◌≡◌, Bool, not, ◌&&◌, ◌||◌, Option, none, some, List, [], ◌∷◌,
  ◌++◌, ltb, leb, ◌==◌, if◌then◌else◌, bind, length, is_empty, take?, take, drop, replicate, all,
}
use Prim.Native.Nat.{bit_xor}
use servatory.Prelude.Text.{Text, len, is_alphanumeric, starts_with}
use servatory.Prelude.Words.{u32_max}
use servatory.Protocol.Network.{NetworkConfig}

abbrev pub magic : List ℕ
magic = b'S' ∷ b'V' ∷ b'T' ∷ b'Y' ∷ []

abbrev pub storage_version : ℕ
storage_version = 1

abbrev pub max_record_len : ℕ
max_record_len = 2048

abbrev pub sector_size : ℕ
sector_size = 4096

pub record Provisioning : Type 0 where
  pub ssid : Text
  pub password : Text
  pub hostname : Text
  pub ntfy_topic : Text

pub record StoredSettings : Type 0 where
  pub provisioning : Provisioning
  pub network : Option NetworkConfig

-- `Provisioning::is_valid`
unfoldable pub is_valid : Provisioning → Bool
is_valid p =
    not (is_empty p.ssid)
    && leb (len p.ssid) 32
    && leb (len p.password) 63
    && not (is_empty p.hostname)
    && leb (len p.hostname) 32
    && all (λ c. is_alphanumeric c || c == b'-') p.hostname
    && not (is_empty p.ntfy_topic)
    && leb (len p.ntfy_topic) 128
    && all (λ c. is_alphanumeric c || c == b'-' || c == b'_') p.ntfy_topic

-- The crate `postcard`.
pub record Postcard : Type 0 where
  pub to_allocvec : StoredSettings → Option (List ℕ)
  pub from_bytes : List ℕ → Option StoredSettings

pub record IsPostcard (c : Postcard) : Type 0 where
  pub fills : (v : StoredSettings) (bs : List ℕ) → c.to_allocvec v ≡ some bs → 0 < length bs
  pub decodes :
      (v : StoredSettings) (bs : List ℕ) → c.to_allocvec v ≡ some bs → c.from_bytes bs ≡ some v

-- The fold of `checksum`, from a hash on.
hash_from : ℕ → List ℕ → ℕ
hash_from hash [] = hash
hash_from hash (b ∷ bs) = hash_from (bit_xor hash b * 16777619 % (u32_max + 1)) bs

pub checksum : List ℕ → ℕ
unfolding hash_from
checksum = hash_from 2166136261

abbrev pub to_le16 : ℕ → List ℕ
to_le16 n = n % 256 ∷ n / 256 % 256 ∷ []

abbrev pub to_le32 : ℕ → List ℕ
to_le32 n = n % 256 ∷ n / 256 % 256 ∷ n / 65536 % 256 ∷ n / 16777216 % 256 ∷ []

abbrev pub from_le : List ℕ → ℕ
from_le [] = 0
from_le (b ∷ bs) = b + 256 * from_le bs

-- `len.next_multiple_of(4)`
abbrev pub padded : ℕ → ℕ
padded n = (n + 3) / 4 * 4

abbrev pub slice : (from until : ℕ) → List ℕ → List ℕ
slice from until bytes = take (until - from) (drop from bytes)

module _ (c : Postcard) where
  -- The body of `load` behind the header.
  read_payload : (size expected : ℕ) → List ℕ → Option StoredSettings
  read_payload size expected sector = bind (take? (drop 12 sector) (padded size)) λ padded_payload.
      let payload = take size padded_payload in
      if not (checksum payload == expected)
      then none
      else bind (c.from_bytes payload)
          λ value. if is_valid value.provisioning then some value else none

  unfoldable pub load : (sector : List ℕ) → Option StoredSettings
  unfolding read_payload
  load sector = bind (take? sector 12) λ header.
      let size = from_le (slice 6 8 header) in
      if not (starts_with magic header) || not (from_le (slice 4 5 header) == storage_version)
      then none
      else if size == 0 || ltb max_record_len size
      then none
      else read_payload size (from_le (slice 8 12 header)) sector

  -- The bytes that `save` writes; `none` is an error before the flash is touched.
  unfoldable pub record_of : StoredSettings → Option (List ℕ)
  record_of value =
      if not (is_valid value.provisioning)
      then none
      else bind (c.to_allocvec value) λ payload.
        if ltb max_record_len (length payload)
        then none
        else some (
            magic
            ++ storage_version
              ∷ 0xff
              ∷ (to_le16 (length payload)
                  ++ to_le32 (checksum payload)
                  ++ payload
                  ++ replicate (padded (length payload) - length payload) 0xff))

  -- `save` with an erase and a write that succeed: the sector afterwards.
  unfoldable pub save : StoredSettings → Option (List ℕ)
  save value =
      bind (record_of value) (λ bytes. some (bytes ++ replicate (sector_size - length bytes) 0xff))

  unfoldable pub save_provisioning : Provisioning → Option (List ℕ)
  save_provisioning p = save (record { provisioning = p; network = none })

  unfoldable pub save_network : Provisioning → NetworkConfig → Option (List ℕ)
  save_network p n = save (record { provisioning = p; network = some n })
