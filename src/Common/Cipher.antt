-- ===== src/Common/Cipher.antt =====
-- `encryptMessage` and `decryptMessage`. The Blowfish cipher in CBC mode is OpenSSL's, with the key
-- and the initial vector of the program.
use pyconnect.Base.{
  Bool-cases, Bytes, Option, ap, arith, if◌then◌else◌, inl, inr, leb, length, le→leb, none, refl,
  some, ℕ, ◌++◌, ◌≡◌, ◌≤◌,
}

-- `EVP_EncryptUpdate` on a message, `EVP_EncryptFinal` behind it, and the same for decryption;
-- `none` is a result other than 1.
pub record Evp : Type 0 where
  pub encrypt_update : Bytes → Option Bytes
  pub encrypt_final : Bytes → Option Bytes
  pub decrypt_update : Bytes → Option Bytes
  pub decrypt_final : Bytes → Option Bytes

-- 1 with the output, 0, or a write past the end of the buffer, which nothing checks.
pub data CipherResult : Type 0 where
  done : Bytes → CipherResult
  refused overrun : CipherResult

-- `PYCONNECT_MSG_ENDECRYPT_BUFFER_SIZE`.
abbrev pub endecrypt_buffer_size : ℕ
endecrypt_buffer_size = 10240

-- Both outputs, one behind the other in the buffer.
unfoldable pub in_buffer : Option Bytes → Option Bytes → CipherResult
in_buffer none final = refused
in_buffer (some front) none = if leb (length front) endecrypt_buffer_size then refused else overrun
in_buffer (some front) (some rest) =
    if leb (length (front ++ rest)) endecrypt_buffer_size then done (front ++ rest) else overrun

module _ (evp : Evp) where
  unfoldable pub encrypt_message : Bytes → CipherResult
  encrypt_message message = in_buffer (evp.encrypt_update message) (evp.encrypt_final message)

  unfoldable pub decrypt_message : Bytes → CipherResult
  decrypt_message message = in_buffer (evp.decrypt_update message) (evp.decrypt_final message)

-- The cipher's documented behaviour: decrypting what encrypting gave, with the same key and vector,
-- gives the message back, and padding never makes a message shorter.
pub record EvpLaws (evp : Evp) : Type 0 where
  pub inverse :
      (message front rest : Bytes)
      → evp.encrypt_update message ≡ some front
      → evp.encrypt_final message ≡ some rest
      → (a : Bytes) × (b : Bytes) × (evp.decrypt_update (front ++ rest) ≡ some a)
        × (evp.decrypt_final (front ++ rest) ≡ some b)
        × (a ++ b ≡ message)
  pub padded :
      (message front rest : Bytes)
      → evp.encrypt_update message ≡ some front
      → evp.encrypt_final message ≡ some rest
      → length message ≤ length (front ++ rest)

in_buffer-done :
    (o p : Option Bytes) {out : Bytes}
    → in_buffer o p ≡ done out
    → (front : Bytes) × (rest : Bytes) × (o ≡ some front)
      × (p ≡ some rest)
      × (front ++ rest ≡ out)
      × (length out ≤ endecrypt_buffer_size)
unfolding in_buffer
in_buffer-done none p e = absurd (cc)
in_buffer-done (some front) none e = absurd (ground arith)
in_buffer-done (some front) (some rest) {out} e =
    elim (Bool-cases (leb (length (front ++ rest)) endecrypt_buffer_size)) [
      | inl fits ↦
          let same : front ++ rest ≡ out = ground arith in
          (front, rest, refl, refl, same, ground arith)
      | inr long ↦ absurd (ground arith)
    ]

-- A message that was encrypted into the buffer is decrypted to itself, and the buffer is large enough
-- for that.
pub decrypt_message-encrypt_message :
    (evp : Evp) (message : Bytes) {out : Bytes}
    → EvpLaws evp
    → encrypt_message evp message ≡ done out
    → decrypt_message evp out ≡ done message
unfolding encrypt_message decrypt_message in_buffer
decrypt_message-encrypt_message evp message laws e =
    let (front, rest, u, f, same, small) =
      in_buffer-done (evp.encrypt_update message) (evp.encrypt_final message) e in
    let (a, b, u', f', back) = laws.inverse message front rest u f in
    let long = laws.padded message front rest u f in
    let size = ap length same in
    let fits : length message ≤ endecrypt_buffer_size = omega arith in
    rw (← same) (rw (u', in_buffer) (rw (f', in_buffer) (rw back (rw (le→leb _ _ fits) refl))))
