-- ===== src/Firmware/Store/RoundTrip.antt =====
-- firmware/src/provisioning.rs: what was saved is loaded.
use servatory.Prelude.{
  ℕ, ◌+◌, ◌-◌, ◌*◌, ◌%◌, ◌≤◌, ◌<◌, ◌≡◌, refl, ap, ◌∙◌, subst, inl, inr, true, false, ◌||◌, some,
  List, [], ◌∷◌, ◌++◌, arith, ltb, ◌==◌, Bool-cases, Option-cases, unwrap_or, length, take?, drop,
  replicate, length-append, length-replicate, take-append,
}
use Prim.Native.Nat.{bit_xor}
use servatory.Prelude.Words.{u32_max}
use servatory.Firmware.Store.{
  Postcard, IsPostcard, StoredSettings, is_valid, checksum, hash_from, padded, to_le16, to_le32,
  from_le, magic, storage_version, max_record_len, load, read_payload, save, record_of,
}

from_le-to_le32 : (n : ℕ) → n < u32_max + 1 → from_le (to_le32 n) ≡ n
from_le-to_le32 n h = omega arith

from_le-to_le16 : (n : ℕ) → n < 65536 → from_le (to_le16 n) ≡ n
from_le-to_le16 n h = omega arith

hash_from-bound : (h : ℕ) (bs : List ℕ) → h < u32_max + 1 → hash_from h bs < u32_max + 1
unfolding hash_from
hash_from-bound h [] k = k
hash_from-bound h (b ∷ bs) k =
    hash_from-bound (bit_xor h b * 16777619 % (u32_max + 1)) bs (omega arith)

take?-append : {A : Type 0} (xs ys : List A) → take? (xs ++ ys) (length xs) ≡ some xs
take?-append [] ys = refl
take?-append (x ∷ xs) ys = rw (take?-append xs ys) refl

checksum-bound : (bs : List ℕ) → checksum bs < u32_max + 1
unfolding checksum
checksum-bound bs = hash_from-bound 2166136261 bs (omega arith)

take?-padded :
    (xs pad rest : List ℕ) (n : ℕ)
    → length (xs ++ pad) ≡ n
    → take? ((xs ++ pad) ++ rest) n ≡ some (xs ++ pad)
take?-padded xs pad rest n h =
    subst (λ k. take? ((xs ++ pad) ++ rest) k ≡ some (xs ++ pad)) h (take?-append (xs ++ pad) rest)

module _ (c : Postcard) (v : StoredSettings) (payload : List ℕ) where
  abbrev size : ℕ
  size = length payload

  abbrev padding : List ℕ
  padding = replicate (padded size - size) 0xff

  length-padding : length (payload ++ padding) ≡ padded size
  length-padding =
      length-append payload padding
      ∙ ap (λ k. size + k) (length-replicate (padded size - size) 0xff)
      ∙ omega arith

  read_payload-stored :
      (sector : List ℕ) (rest : List ℕ)
      → drop 12 sector ≡ (payload ++ padding) ++ rest
      → c.from_bytes payload ≡ some v
      → is_valid v.provisioning ≡ true
      → read_payload c size (checksum payload) sector ≡ some v
  unfolding read_payload
  read_payload-stored sector rest d e k =
      rw
        (
          d,
          take?-padded payload padding rest (padded size) length-padding,
          take-append payload padding,
        )
        (ground (arith, e, k))

  -- The sector as `save` leaves it.
  abbrev sector_of : List ℕ → List ℕ
  sector_of rest =
      magic
      ++ storage_version
        ∷ 0xff
        ∷ (to_le16 size ++ to_le32 (checksum payload) ++ (payload ++ padding) ++ rest)

  load-stored :
      (rest : List ℕ)
      → 0 < size
      → size ≤ max_record_len
      → c.from_bytes payload ≡ some v
      → is_valid v.provisioning ≡ true
      → load c (sector_of rest) ≡ some v
  unfolding load
  load-stored rest p q e k =
      let in_range : (size == 0 || ltb max_record_len size) ≡ false = ground arith in
      rw
        (
          from_le-to_le16 size (omega arith),
          from_le-to_le32 (checksum payload) (checksum-bound payload),
          in_range,
        )
        (read_payload-stored (sector_of rest) rest refl e k)

-- Settings that are saved are loaded again, whatever they are.
pub load-save :
    (c : Postcard) (v : StoredSettings) {sector : List ℕ}
    → IsPostcard c
    → save c v ≡ some sector
    → load c sector ≡ some v
unfolding save record_of
load-save c v {sector} laws e = elim (Bool-cases (is_valid v.provisioning)) [
  | inr k ↦ absurd (ground (arith, k, e))
  | inl k ↦ elim (Option-cases (c.to_allocvec v)) [
    | inl f ↦ absurd (ground (arith, k, f, e))
    | inr (p, f) ↦ elim (Bool-cases (ltb max_record_len (length p))) [
      | inl g ↦ absurd (ground (arith, k, f, g, e))
      | inr g ↦
          subst (λ s. load c s ≡ some v) (ap (λ o. unwrap_or o []) (rw (k, f, g) at e))
            (load-stored c v p _ (laws.fills v p f) (ground (arith, g)) (laws.decodes v p f) k)
    ]
  ]
]
