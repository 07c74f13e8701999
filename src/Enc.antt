-- ===== src/Enc.antt =====
-- share/enc/aes.go: a value encrypted under a password. The ciphers, the hash and the base64 codec
-- are the standard library's, and enter as a record of functions.
pub mod RoundTrip
use openrport.Prelude.{
  ℕ, ◌+◌, ◌≤◌, ◌<◌, ◌≡◌, Bool, ◌||◌, List, [], ◌++◌, Option, none, some, arith, ltb, leb, ◌==◌,
  nat_eq, length, take, drop, if◌then◌else◌,
}
use openrport.Prelude.Results.{Result, ok, err, ◌>>=◌, ◌>>◌, guard, or_fail}

abbrev pub Bytes : Type 0
Bytes = List ℕ

-- crypto/sha256, crypto/aes with crypto/cipher's GCM, and encoding/base64. `seal key nonce payload`
-- is `aesGCM.Seal(nil, nonce, payload, nil)`; `open_sealed` is `aesGCM.Open`, with `none` for a
-- text that fails authentication.
pub record Crypto : Type 0 where
  pub sha256 : Bytes → Bytes
  pub nonce_size : ℕ
  pub seal : Bytes → Bytes → Bytes → Bytes
  pub open_sealed : Bytes → Bytes → Bytes → Option Bytes
  pub base64_encode : Bytes → Bytes
  pub base64_decode : Bytes → Option Bytes

-- What their documentation promises: a hash has 32 bytes, the sealed text holds an authentication
-- tag and so is never empty, the two decoders undo their encoders, and base64 has no padding of its
-- own for the empty text.
pub record IsSound (c : Crypto) : Type 0 where
  pub length-sha256 : (x : Bytes) → length (c.sha256 x) ≡ 32
  pub seal_tagged : (k n p : Bytes) → 0 < length (c.seal k n p)
  pub open_sealed-seal :
      (k n p : Bytes) → length n ≡ c.nonce_size → c.open_sealed k n (c.seal k n p) ≡ some p
  pub base64_encode-nil : c.base64_encode [] ≡ []
  pub base64_decode-encode : (x : Bytes) → c.base64_decode (c.base64_encode x) ≡ some x

pub data Error : Type 0 where
  invalid_key_length random_failed invalid_nonce_length authentication_failed : Error
  corrupt_base64 : Error

-- aes.NewCipher takes keys of 16, 24 and 32 bytes.
abbrev pub new_cipher_ok : Bytes → Bool
new_cipher_ok key = length key == 16 || (length key == 24 || length key == 32)

-- `nonce` is what io.ReadFull(rand.Reader, nonce) yields, `none` when it fails.
pub aes256_encrypt : Crypto → Option Bytes → Bytes → Bytes → Result Error Bytes
aes256_encrypt c random payload aes32_key = do
  guard (length aes32_key == 32) invalid_key_length
  guard (new_cipher_ok aes32_key) invalid_key_length
  nonce ← or_fail random random_failed
  ok (nonce ++ c.seal aes32_key nonce payload)

pub convert_password : Crypto → Bytes → Bytes
convert_password c password = c.sha256 password

unfoldable pub encrypt_by_pass : Crypto → Option Bytes → Bytes → Bytes → Result Error Bytes
unfolding aes256_encrypt convert_password
encrypt_by_pass c random payload password = do
  encrypted ← aes256_encrypt c random payload (convert_password c password)
  ok (c.base64_encode encrypted)

pub aes_decrypt : Crypto → Bytes → Bytes → Result Error Bytes
aes_decrypt c encrypted key = do
  guard (new_cipher_ok key) invalid_key_length
  guard (ltb c.nonce_size (length encrypted)) invalid_nonce_length
  or_fail (c.open_sealed key (take c.nonce_size encrypted) (drop c.nonce_size encrypted))
      authentication_failed

unfoldable pub decrypt_by_pass : Crypto → Bytes → Bytes → Result Error Bytes
unfolding aes_decrypt convert_password
decrypt_by_pass c encrypted_base64 password = do
  encrypted ← or_fail (c.base64_decode encrypted_base64) corrupt_base64
  aes_decrypt c encrypted (convert_password c password)
