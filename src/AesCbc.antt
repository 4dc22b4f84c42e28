-- ===== src/AesCbc.antt =====
-- pkg/kms/encryption/aescbc/aescbc.go: secrets under AES in CBC mode, with a padding.
pub mod RoundTrip
mod Scenarios
use cpo.Base.{
  ℕ, ◌+◌, ◌-◌, ◌%◌, ◌^◌, ◌≡◌, ◌==◌, Bool, true, false, not, Option, none, some, List, [], ◌∷◌, ◌++◌,
  if◌then◌else◌, ltb, Str, length, get_elem?, take, drop, replicate, nat_eq,
}

-- Of Go's packages crypto/aes and crypto/cipher: the keys that give a block, and `CryptBlocks` of
-- the two CBC modes for an initial vector.
pub record Cipher : Type 1 where
  pub Block : Type 0
  pub new_cipher : Str → Option Block
  pub cbc_encrypt : Block → Str → Str → Str
  pub cbc_decrypt : Block → Str → Str → Str

-- `aes.BlockSize`
abbrev pub block_size : ℕ
block_size = 16

-- What the code relies on: on whole blocks, the modes keep the length and undo each other.
pub record CbcLaws (A : Cipher) : Type 0 where
  pub decrypts :
      (b : A.Block) (iv text : Str)
      → length iv ≡ block_size
      → length text % block_size ≡ 0
      → A.cbc_decrypt b iv (A.cbc_encrypt b iv text) ≡ text
  pub encrypt_length :
      (b : A.Block) (iv text : Str) → length (A.cbc_encrypt b iv text) ≡ length text
  pub decrypt_length :
      (b : A.Block) (iv text : Str) → length (A.cbc_decrypt b iv text) ≡ length text

abbrev pub padding_size : Str → ℕ
padding_size values = block_size - (length values % block_size)

-- `plaintext`: the data and as many bytes of the padding size.
abbrev pub padded : Str → Str
padded values = values ++ replicate (padding_size values) (padding_size values % 2 ^ 8)

pub data Outcome : Type 0 where
  plain : Str → Outcome
  bad_key bad_length panicked : Outcome

-- From the read of the last byte on: an index or a bound out of range is a panic.
unfoldable pub unpad : Str → Outcome
unpad text = elim (get_elem? text (length text - 1)) [
  | none ↦ panicked
  | some padding_length ↦
      if ltb (length text) padding_length
      then panicked
      else plain (take (length text - padding_length) text)
]

module _ (A : Cipher) where
  -- `random` is what the source of randomness gives for the initial vector, `none` for its error.
  unfoldable pub encrypt : Option Str → Str → Str → Option Str
  encrypt random values key = elim (A.new_cipher key) [
    | none ↦ none
    | some b ↦ elim random [
      | none ↦ none
      | some iv ↦ some (iv ++ A.cbc_encrypt b iv (padded values))
    ]
  ]

  -- The code writes the decrypted blocks over the caller's data; the model takes the data by value.
  unfoldable pub decrypt : Str → Str → Outcome
  unfolding unpad
  decrypt values key = elim (A.new_cipher key) [
    | none ↦ bad_key
    | some b ↦
        if ltb (length values) block_size
        then panicked
        else if not (length (drop block_size values) % block_size == 0)
        then bad_length
        else unpad (A.cbc_decrypt b (take block_size values) (drop block_size values))
  ]
