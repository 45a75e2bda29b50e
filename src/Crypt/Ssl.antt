-- ===== src/Crypt/Ssl.antt =====
-- The calls of OpenSSL that the code makes, and of them what its documentation promises.
use pcbu_natives_old.Prelude.{ℕ, ◌++◌, ◌≡◌, Bool, true, Option, some, [], length}
use pcbu_natives_old.Prelude.Texts.{Bytes}
use pcbu_natives_old.Prelude.Signed.{ℤ, pos}

-- Each call's result; `none` and `false` are its error status. `rand_bytes k n` is the k-th draw of
-- the process, of n bytes. The cipher's calls take the key and the IV that the context holds.
pub record Ssl : Type 0 where
  pub rand_bytes : ℕ → ℕ → Option Bytes
  pub pbkdf2_hmac : Bytes → Bytes → ℕ → ℕ → Option Bytes
  pub ctx_new : Bool
  pub init_cipher : Bool
  pub set_ivlen : ℕ → Bool
  pub init_key : Bytes → Bytes → Bool
  -- key, IV, plain text
  pub encrypt_update : Bytes → Bytes → Bytes → Option Bytes
  pub encrypt_final : Bytes → Bytes → Bytes → Option Bytes
  pub get_tag : Bytes → Bytes → Bytes → Bytes
  -- key, IV, the bytes from the input pointer on, the length argument
  pub decrypt_update : Bytes → Bytes → Bytes → ℤ → Option Bytes
  pub set_tag : Bytes → Bool
  -- key, IV, the input and its length again, tag
  pub decrypt_final : Bytes → Bytes → Bytes → ℤ → Bytes → Option Bytes

-- AES-256-GCM as OpenSSL documents it: a drawn buffer has the length asked for, the cipher text is
-- as long as the plain text, the tag has 16 bytes and Final adds none, and decryption of a cipher
-- text that another text may follow gives the plain text and accepts the tag.
pub record IsGcm (e : Ssl) : Type 0 where
  pub drawn : (k n : ℕ) (b : Bytes) → e.rand_bytes k n ≡ some b → length b ≡ n
  pub same_length :
      (key iv plain cipher : Bytes)
      → e.encrypt_update key iv plain ≡ some cipher
      → length cipher ≡ length plain
  pub nothing_left :
      (key iv plain last : Bytes) → e.encrypt_final key iv plain ≡ some last → last ≡ []
  pub tag_length : (key iv plain : Bytes) → length (e.get_tag key iv plain) ≡ 16
  pub tag_accepted : (tag : Bytes) → length tag ≡ 16 → e.set_tag tag ≡ true
  pub opened :
      (key iv plain cipher rest : Bytes)
      → e.encrypt_update key iv plain ≡ some cipher
      → e.decrypt_update key iv (cipher ++ rest) (pos (length plain)) ≡ some plain
  pub verified :
      (key iv plain cipher rest : Bytes)
      → e.encrypt_update key iv plain ≡ some cipher
      → e.decrypt_final key iv (cipher ++ rest) (pos (length plain)) (e.get_tag key iv plain)
        ≡ some []
