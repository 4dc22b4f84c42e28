-- ===== src/AesCbc/Scenarios.antt =====
-- A cipher that adds one to each byte: the theorems at concrete inputs, and a test.

use mathlib.Core.Path.{ap₂}
use cpo.Base.{suc, ◌-◌, ◌≡◌, ◌+◌, refl, ap, some, [], ◌∷◌, ◌++◌, Str, str, length, replicate, arith}
use cpo.AesCbc.{Cipher, CbcLaws, padded, plain, panicked, encrypt, decrypt}
use cpo.AesCbc.RoundTrip.{decrypt-encrypt, decrypt-panics}

abbrev raised : Str → Str
raised [] = []
raised (x ∷ s) = (x + 1) ∷ raised s

abbrev lowered : Str → Str
lowered [] = []
lowered (x ∷ s) = (x - 1) ∷ lowered s

lowered-raised : (s : Str) → lowered (raised s) ≡ s
lowered-raised [] = refl
lowered-raised (x ∷ s) = let e : (x + 1) - 1 ≡ x = omega arith in ap₂ ◌∷◌ e (lowered-raised s)

length-raised : (s : Str) → length (raised s) ≡ length s
length-raised [] = refl
length-raised (x ∷ s) = ap suc (length-raised s)

length-lowered : (s : Str) → length (lowered s) ≡ length s
length-lowered [] = refl
length-lowered (x ∷ s) = ap suc (length-lowered s)

abbrev shift : Cipher
shift = record {
  Block = Str;
  new_cipher = some;
  cbc_encrypt = λ b iv text. raised text;
  cbc_decrypt = λ b iv text. lowered text;
}

shift-CbcLaws : CbcLaws shift
shift-CbcLaws = record {
  decrypts = λ b iv text h m. lowered-raised text;
  encrypt_length = λ b iv text. length-raised text;
  decrypt_length = λ b iv text. length-lowered text;
}

abbrev vector : Str
vector = replicate 16 7

decrypt-encrypt_example :
    decrypt shift (vector ++ raised (padded (str "secret"))) (str "key") ≡ plain (str "secret")
unfolding encrypt
decrypt-encrypt_example =
    decrypt-encrypt shift shift-CbcLaws vector (str "secret") (str "key") _ refl refl

short_text_panics : decrypt shift (str "short") (str "key") ≡ panicked
short_text_panics =
    decrypt-panics shift shift-CbcLaws (str "short") (str "key") (str "key") refl (omega arith)
