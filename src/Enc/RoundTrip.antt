-- ===== src/Enc/RoundTrip.antt =====
-- What share/enc/aes.go encrypts under a password it decrypts under that password.
use openrport.Prelude.{
  ◌<◌, ◌≡◌, ◌≢◌, [], ◌++◌, some, arith, length, length-append, take-append, drop-append, take, drop,
}
use openrport.Prelude.Results.{ok}
use openrport.Enc.{Bytes, Crypto, IsSound, encrypt_by_pass, decrypt_by_pass, aes_decrypt}

module _ (c : Crypto) (sound : IsSound c) where
  take_nonce :
      (nonce rest : Bytes) → length nonce ≡ c.nonce_size → take c.nonce_size (nonce ++ rest) ≡ nonce
  take_nonce nonce rest n = rw (← n) (take-append nonce rest)

  drop_nonce :
      (nonce rest : Bytes) → length nonce ≡ c.nonce_size → drop c.nonce_size (nonce ++ rest) ≡ rest
  drop_nonce nonce rest n = rw (← n) (drop-append nonce rest)

  aes_decrypt-seal :
      (payload key nonce : Bytes)
      → length key ≡ 32
      → length nonce ≡ c.nonce_size
      → aes_decrypt c (nonce ++ c.seal key nonce payload) key ≡ ok payload
  unfolding aes_decrypt
  aes_decrypt-seal payload key nonce k n = ground (
    arith,
    length-append nonce (c.seal key nonce payload),
    sound.seal_tagged key nonce payload,
    take_nonce nonce (c.seal key nonce payload) n,
    drop_nonce nonce (c.seal key nonce payload) n,
    sound.open_sealed-seal key nonce payload n,
  )

  base64_encode-ne-nil : (x : Bytes) → 0 < length x → c.base64_encode x ≢ []
  base64_encode-ne-nil x pos h =
      ground (
        arith,
        sound.base64_decode-encode x,
        sound.base64_decode-encode [],
        sound.base64_encode-nil,
      )

  -- With a nonce of the cipher's size encryption under a password succeeds, and what it yields is
  -- decrypted to the payload by the same password, the empty payload included; it is never empty.
  pub decrypt-encrypt :
      (payload password nonce : Bytes)
      → length nonce ≡ c.nonce_size
      → (encrypted : Bytes) × (encrypt_by_pass c (some nonce) payload password ≡ ok encrypted)
        × (decrypt_by_pass c encrypted password ≡ ok payload)
        × (encrypted ≢ [])
  unfolding encrypt_by_pass decrypt_by_pass
  decrypt-encrypt payload password nonce n =
      let key = c.sha256 password in
      let sealed = nonce ++ c.seal key nonce payload in
      (
        c.base64_encode sealed,
        ground (arith, sound.length-sha256 password),
        rw (sound.base64_decode-encode sealed)
            (aes_decrypt-seal payload key nonce (sound.length-sha256 password) n),
        base64_encode-ne-nil sealed (
            omega (
              arith,
              length-append nonce (c.seal key nonce payload),
              sound.seal_tagged key nonce payload,
            )),
      )
