-- ===== src/Cipher.antt =====
-- ports/crypto.c and crypto/crypto.c: one AES block in place, and the loops of ports/linker.c
-- that run it over the 16-byte blocks of a buffer. AES itself is OpenSSL's, so it is a parameter.
pub mod Blocks
use tencryption.Prelude.{ℕ, zero, suc, ◌+◌, ◌*◌, ◌≡◌, false, List, [], ◌∷◌, length, if◌then◌else◌}
use tencryption.Prelude.Int.{ℤ, is_neg}
use tencryption.Prelude.Slices.{slice, write_at}

-- The four functions of OpenSSL's aes.h: a key schedule with a return code, and one block.
pub record Aes : Type 1 where
  pub Key : Type 0
  pub set_encrypt_key : List ℕ → ℕ → ℤ × Key
  pub set_decrypt_key : List ℕ → ℕ → ℤ × Key
  pub encrypt : Key → List ℕ → List ℕ
  pub decrypt : Key → List ℕ → List ℕ

abbrev pub user_key : List ℕ
user_key =
    0x01 ∷ 0x02 ∷ 0x03 ∷ 0x04 ∷ 0x05 ∷ 0x06 ∷ 0x07 ∷ 0x08 ∷ 0x09 ∷ 0x0A ∷ 0x0B ∷ 0x0C ∷ 0x0D ∷ 0x0E
    ∷ 0x0F ∷ 0x10 ∷ []

-- What OpenSSL documents for a 128-bit key: both schedules are accepted, a block stays a block,
-- and decryption undoes encryption.
pub record IsAes (A : Aes) : Type 0 where
  pub encrypt_key_ok : is_neg (A.set_encrypt_key user_key 128).0 ≡ false
  pub decrypt_key_ok : is_neg (A.set_decrypt_key user_key 128).0 ≡ false
  pub length-encrypt : (k : A.Key) (b : List ℕ) → length b ≡ 16 → length (A.encrypt k b) ≡ 16
  pub length-decrypt : (k : A.Key) (b : List ℕ) → length b ≡ 16 → length (A.decrypt k b) ≡ 16
  pub decrypt-encrypt :
      (b : List ℕ)
      → length b ≡ 16
      → A.decrypt
          (A.set_decrypt_key user_key 128).1
          (A.encrypt (A.set_encrypt_key user_key 128).1 b)
        ≡ b

module _ (A : Aes) where
  -- The new content of `out`; a key that is refused leaves it as it was.
  unfoldable pub aes_encrypt_128bit : List ℕ → List ℕ → List ℕ
  aes_encrypt_128bit block out =
      let (rc, key) = A.set_encrypt_key user_key 128 in
      if is_neg rc then out else A.encrypt key block

  unfoldable pub aes_decrypt_128bit : List ℕ → List ℕ → List ℕ
  aes_decrypt_128bit block out =
      let (rc, key) = A.set_decrypt_key user_key 128 in
      if is_neg rc then out else A.decrypt key block

-- The block at `i`, given as input and as output.
crypt_block : (List ℕ → List ℕ → List ℕ) → ℕ → ℕ → List ℕ → List ℕ
crypt_block f base i buf =
    let block = slice (base + i * 16) 16 buf in write_at (base + i * 16) (f block block) buf

-- `for (i = 0; i < n; i++) f(buf + base + i*16, buf + base + i*16)`, at `i` with `n` rounds left.
crypt_loop : (List ℕ → List ℕ → List ℕ) → ℕ → ℕ → ℕ → List ℕ → List ℕ
crypt_loop f base zero i buf = buf
crypt_loop f base (suc n) i buf = crypt_loop f base n (i + 1) (crypt_block f base i buf)

module _ (A : Aes) where
  unfoldable pub encrypt_blocks : ℕ → ℕ → List ℕ → List ℕ
  unfolding crypt_loop crypt_block aes_encrypt_128bit write_at
  encrypt_blocks base n = crypt_loop (aes_encrypt_128bit A) base n 0

  unfoldable pub decrypt_blocks : ℕ → ℕ → List ℕ → List ℕ
  unfolding crypt_loop crypt_block aes_decrypt_128bit write_at
  decrypt_blocks base n = crypt_loop (aes_decrypt_128bit A) base n 0
