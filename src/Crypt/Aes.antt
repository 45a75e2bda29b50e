-- ===== src/Crypt/Aes.antt =====
-- CryptUtils::GenerateKey, EncryptAES and DecryptAES. An encrypted text is IV, salt, cipher text and
-- tag. A result is the buffer `dst` after the call and the length returned; `failed` is the return
-- of false, which is length 0.
use pcbu_natives_old.Prelude.{
  ℕ, ◌+◌, ◌-◌, ◌/◌, Bool, true, false, [], ◌∷◌, ltb, leb, ◌||◌, ◌==◌, if◌then◌else◌, length, take,
  drop,
}
use pcbu_natives_old.Prelude.Texts.{Bytes}
use pcbu_natives_old.Prelude.Signed.{ℤ, pos, negsuc}
use pcbu_natives_old.Utils.Hex.{Malloc}
use pcbu_natives_old.Crypt.Memory.{Outcome, done, failed, ◌>>=◌, or_fail, write_at}
use pcbu_natives_old.Crypt.Ssl.{Ssl}

abbrev pub iv_size : ℕ
iv_size = 16

abbrev pub salt_size : ℕ
salt_size = 16

abbrev pub tag_size : ℕ
tag_size = 16

abbrev pub aes_key_size : ℕ
aes_key_size = 256

abbrev pub iterations : ℕ
iterations = 65535

abbrev pub check : Bool → Outcome (Unit {0})
check true = done tt
check false = failed

infixl 5 ◌>>◌
abbrev pub ◌>>◌ {ℓ} : {B : Type ℓ} → Outcome (Unit {0}) → Outcome B → Outcome B
m >> k = m >>= λ _. k

-- What a C string shows of a text: the bytes before the first NUL.
unfoldable pub c_str : Bytes → Bytes
c_str [] = []
c_str (c ∷ cs) = if c == 0 then [] else c ∷ c_str cs

-- A context for AES-256-GCM with an IV of 16 bytes and the key.
unfoldable pub start_cipher : Ssl → Bytes → Bytes → Outcome (Unit {0})
start_cipher e key iv = do
  check e.ctx_new
  check e.init_cipher
  check (e.set_ivlen iv_size)
  check (e.init_key key iv)

-- `(int)srcLen - IV_SIZE - SALT_SIZE - 16`, which is negative for a text without room for a tag.
abbrev pub cipher_length : ℕ → ℤ
cipher_length src_len = if leb 48 src_len then pos (src_len - 48) else negsuc (48 - src_len - 1)

module _ (e : Ssl) (malloc : Malloc) where
  unfoldable pub generate_key : Bytes → Bytes → Outcome Bytes
  unfolding c_str
  generate_key pwd salt = do
    _ ← or_fail (malloc (aes_key_size / 8))
    or_fail (e.pbkdf2_hmac (c_str pwd) salt iterations (aes_key_size / 8))

  -- What follows the key: the cipher text goes behind IV and salt, and the tag behind it.
  unfoldable pub seal : Bytes → Bytes → Bytes → Bytes → Outcome (Bytes × ℕ)
  seal src dst key iv = do
    start_cipher e key iv
    cipher ← or_fail (e.encrypt_update key iv src)
    let encrypted_len = length cipher
    with_cipher ← write_at dst (iv_size + salt_size) cipher
    last ← or_fail (e.encrypt_final key iv src)
    with_last ← write_at with_cipher (iv_size + salt_size + encrypted_len) last
    with_tag ← write_at with_last (iv_size + salt_size + encrypted_len) (e.get_tag key iv src)
    done (with_tag, iv_size + salt_size + encrypted_len + tag_size)

  -- `draw` is the number of the first of the two draws.
  unfoldable pub encrypt_aes : ℕ → Bytes → Bytes → Bytes → Outcome (Bytes × ℕ)
  encrypt_aes draw src dst pwd =
      if ltb (length dst) (length src + salt_size + iv_size) then failed else (do
        iv ← or_fail (e.rand_bytes draw iv_size)
        with_iv ← write_at dst 0 iv
        salt ← or_fail (e.rand_bytes (draw + 1) salt_size)
        with_salt ← write_at with_iv iv_size salt
        key ← generate_key pwd salt
        seal src with_salt key iv)

  -- What follows the key.
  unfoldable pub unseal : Bytes → Bytes → Bytes → Bytes → Outcome (Bytes × ℕ)
  unseal src dst key iv = do
    start_cipher e key iv
    let input = drop (iv_size + salt_size) src
    let size = cipher_length (length src)
    plain ← or_fail (e.decrypt_update key iv input size)
    with_plain ← write_at dst 0 plain
    let tag = take tag_size (drop (length src - tag_size) src)
    check (e.set_tag tag)
    last ← or_fail (e.decrypt_final key iv input size tag)
    with_last ← write_at with_plain (length plain) last
    done (with_last, length plain)

  unfoldable pub decrypt_aes : Bytes → Bytes → Bytes → Outcome (Bytes × ℕ)
  decrypt_aes src dst pwd =
      if ltb (length src) (iv_size + salt_size)
        || ltb (length dst) (length src - iv_size - salt_size)
      then failed
      else (do
        let iv = take iv_size src
        let salt = take salt_size (drop iv_size src)
        key ← generate_key pwd salt
        unseal src dst key iv)
