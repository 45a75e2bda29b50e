-- ===== src/Crypt/Sealed.antt =====
-- What a successful EncryptAES leaves in its buffer, and that DecryptAES opens it.
use mathlib.Core.Path.{ap₂}
use pcbu_natives_old.Prelude.{
  ℕ, ◌+◌, ◌-◌, ◌≤◌, ◌≡◌, refl, ap, sym, ◌∙◌, subst, false, some, [], ◌++◌, append_assoc, append-nil,
  arith, ltb, ◌||◌, length, length-append, take, drop, take-append, drop-append, drop-append-more,
  take_all, length-drop,
}
use pcbu_natives_old.Prelude.Texts.{Bytes}
use pcbu_natives_old.Prelude.Signed.{pos}
use pcbu_natives_old.Utils.Hex.{Malloc}
use pcbu_natives_old.Crypt.Memory.{
  done, or_fail, write_at, write_at-append, >>=-eq-done, or_fail-eq-done, done-injective,
  write_at-contents,
}
use pcbu_natives_old.Crypt.Ssl.{Ssl, IsGcm}
use pcbu_natives_old.Crypt.Aes.{
  start_cipher, generate_key, seal, encrypt_aes, unseal, decrypt_aes, cipher_length,
}

module _ (e : Ssl) (malloc : Malloc) (gcm : IsGcm e) where
  -- IV, salt, cipher text and tag, with what the calls returned.
  pub record Sealed (src pwd : Bytes) (buffer : Bytes) (size : ℕ) : Type 0 where
    pub iv : Bytes
    pub salt : Bytes
    pub key : Bytes
    pub cipher : Bytes
    pub rest : Bytes
    pub iv_length : length iv ≡ 16
    pub salt_length : length salt ≡ 16
    pub cipher_size : length cipher ≡ length src
    pub key_made : generate_key e malloc pwd salt ≡ done key
    pub started : start_cipher e key iv ≡ done tt
    pub enciphered : e.encrypt_update key iv src ≡ some cipher
    pub contents : buffer ≡ (((iv ++ salt) ++ cipher) ++ e.get_tag key iv src) ++ rest
    pub size_lem : size ≡ 48 + length src

  -- The last three writes, behind IV and salt.
  record Closed (src key iv front tail : Bytes) (buffer : Bytes) (size : ℕ) : Type 0 where
    cipher : Bytes
    rest : Bytes
    cipher_size : length cipher ≡ length src
    started : start_cipher e key iv ≡ done tt
    enciphered : e.encrypt_update key iv src ≡ some cipher
    contents : buffer ≡ ((front ++ cipher) ++ e.get_tag key iv src) ++ rest
    size_lem : size ≡ 48 + length src

  omega_at :
      (front cipher : Bytes) → length front ≡ 32 → 32 + length cipher ≡ length (front ++ cipher)
  omega_at front cipher at = omega (arith, length-append front cipher)

  nil-fits : {last : Bytes} → last ≡ [] → (more : Bytes) → length last ≤ length more
  nil-fits {last} e more = omega (arith, ap length e)

  seal-Closed :
      (src key iv front tail : Bytes) {buffer : Bytes} {size : ℕ}
      → length front ≡ 32
      → length src + 16 ≤ length tail
      → seal e malloc src (front ++ tail) key iv ≡ done (buffer, size)
      → Closed src key iv front tail buffer size
  unfolding seal
  seal-Closed src key iv front tail {buffer} {size} at fits h =
      let (u, started, h1) = >>=-eq-done (start_cipher e key iv) _ h in
      let (cipher, got, h2) = >>=-eq-done (or_fail (e.encrypt_update key iv src)) _ h1 in
      let enciphered = or_fail-eq-done (e.encrypt_update key iv src) got in
      let cipher_size = gcm.same_length key iv src cipher enciphered in
      let (b1, w1, h3) = >>=-eq-done (write_at (front ++ tail) 32 cipher) _ h2 in
      let c1 = write_at-contents front tail cipher b1 32 (sym at) (omega (arith, cipher_size)) w1 in
      let (last, got', h4) = >>=-eq-done (or_fail (e.encrypt_final key iv src)) _ h3 in
      let last_nil = gcm.nothing_left key iv src last (or_fail-eq-done _ got') in
      let (b2, w2, h5) = >>=-eq-done (write_at b1 (32 + length cipher) last) _ h4 in
      let tag = e.get_tag key iv src in
      let more = drop (length cipher) tail in
      let (b3, w3, h6) = >>=-eq-done (write_at b2 (32 + length cipher) tag) _ h5 in
      let here = omega_at front cipher at in
      let c2 =
        write_at-contents (front ++ cipher) more last b2 (32 + length cipher) here
          (nil-fits last_nil more)
          (subst (λ b. write_at b (32 + length cipher) last ≡ done b2) c1 w2) in
      let c2' : b2 ≡ (front ++ cipher) ++ more =
        c2
        ∙ ap (λ l. ((front ++ cipher) ++ l) ++ drop (length l) more) last_nil
        ∙ ap (λ t. t ++ more) (append-nil (front ++ cipher)) in
      let room : length tag ≤ length more =
        omega (arith, gcm.tag_length key iv src, length-drop (length cipher) tail, cipher_size) in
      let c3 =
        write_at-contents (front ++ cipher) more tag b3 (32 + length cipher) here room
          (subst (λ b. write_at b (32 + length cipher) tag ≡ done b3) c2' w3) in
      let same = done-injective h6 in
      record {
        cipher = cipher;
        rest = drop (length tag) more;
        cipher_size = cipher_size;
        started = started;
        enciphered = enciphered;
        contents = sym (ap (λ (r : Bytes × ℕ). r.0) same) ∙ c3;
        size_lem = sym (ap (λ (r : Bytes × ℕ). r.1) same) ∙ omega (arith, cipher_size);
      }

  -- A successful EncryptAES into a buffer with room for the tag too.
  pub encrypt_aes-Sealed :
      (draw : ℕ) (src dst pwd : Bytes) {buffer : Bytes} {size : ℕ}
      → length src + 48 ≤ length dst
      → encrypt_aes e malloc draw src dst pwd ≡ done (buffer, size)
      → Sealed src pwd buffer size
  unfolding encrypt_aes
  encrypt_aes-Sealed draw src dst pwd {buffer} {size} fits h =
      let room : ltb (length dst) (length src + 16 + 16) ≡ false = ground arith in
      let h0 = rw room at h in
      let (iv, got_iv, h1) = >>=-eq-done (or_fail (e.rand_bytes draw 16)) _ h0 in
      let iv_length = gcm.drawn draw 16 iv (or_fail-eq-done _ got_iv) in
      let (b1, w1, h2) = >>=-eq-done (write_at dst 0 iv) _ h1 in
      let c1 = write_at-contents [] dst iv b1 0 refl (omega (arith, iv_length)) w1 in
      let (salt, got_salt, h3) = >>=-eq-done (or_fail (e.rand_bytes (draw + 1) 16)) _ h2 in
      let salt_length = gcm.drawn (draw + 1) 16 salt (or_fail-eq-done _ got_salt) in
      let (b2, w2, h4) = >>=-eq-done (write_at b1 16 salt) _ h3 in
      let tail = drop (length iv) dst in
      let left = length-drop (length iv) dst in
      let c2 =
        write_at-contents iv tail salt b2 16 (sym iv_length)
          (omega (arith, left, iv_length, salt_length))
          (subst (λ b. write_at b 16 salt ≡ done b2) c1 w2) in
      let (key, key_made, h5) = >>=-eq-done (generate_key e malloc pwd salt) _ h4 in
      let end = drop (length salt) tail in
      let sealed =
        seal-Closed src key iv (iv ++ salt) end
          (omega (arith, length-append iv salt, iv_length, salt_length))
          (omega (arith, left, length-drop (length salt) tail, iv_length, salt_length))
          (subst (λ b. seal e malloc src b key iv ≡ done (buffer, size)) c2 h5) in
      record {
        iv = iv;
        salt = salt;
        key = key;
        cipher = sealed.cipher;
        rest = sealed.rest;
        iv_length = iv_length;
        salt_length = salt_length;
        cipher_size = sealed.cipher_size;
        key_made = key_made;
        started = sealed.started;
        enciphered = sealed.enciphered;
        contents = sealed.contents;
        size_lem = sealed.size_lem;
      }

  -- The text that goes out: the buffer up to the length returned.
  pub Sealed-text :
      (src pwd buffer : Bytes) (size : ℕ) (s : Sealed src pwd buffer size)
      → (take size buffer ≡ s.iv ++ (s.salt ++ (s.cipher ++ e.get_tag s.key s.iv src)))
        × (length (take size buffer) ≡ length src + 48)
  Sealed-text src pwd buffer size s =
      let tag = e.get_tag s.key s.iv src in
      let front = ((s.iv ++ s.salt) ++ s.cipher) ++ tag in
      let whole : size ≡ length front = omega (
        arith,
        s.size_lem,
        length-append ((s.iv ++ s.salt) ++ s.cipher) tag,
        length-append (s.iv ++ s.salt) s.cipher,
        length-append s.iv s.salt,
        s.iv_length,
        s.salt_length,
        s.cipher_size,
        gcm.tag_length s.key s.iv src,
      ) in
      let text : take size buffer ≡ front =
        ap (take size) s.contents ∙ take-append front s.rest size whole in
      (
        text
            ∙ append_assoc (s.iv ++ s.salt) s.cipher tag
            ∙ append_assoc s.iv s.salt (s.cipher ++ tag),
        omega (arith, ap length text, whole, s.size_lem),
      )

  unseal_lem :
      (packet src dst key iv cipher : Bytes)
      → start_cipher e key iv ≡ done tt
      → e.encrypt_update key iv src ≡ some cipher
      → drop 32 packet ≡ cipher ++ e.get_tag key iv src
      → cipher_length (length packet) ≡ pos (length src)
      → take 16 (drop (length packet - 16) packet) ≡ e.get_tag key iv src
      → length src + 16 ≤ length dst
      → unseal e malloc packet dst key iv ≡ done (src ++ drop (length src) dst, length src)
  unfolding unseal
  unseal_lem packet src dst key iv cipher started enciphered input size the_tag fits =
      let tag = e.get_tag key iv src in
      let opened = gcm.opened key iv src cipher tag enciphered in
      let verified = gcm.verified key iv src cipher tag enciphered in
      let accepted = gcm.tag_accepted tag (gcm.tag_length key iv src) in
      let written = write_at-append [] dst src 0 refl (omega arith) in
      let rest = drop (length src) dst in
      let nothing = write_at-append src rest [] (length src) refl (omega arith) in
      let same : (src ++ []) ++ rest ≡ src ++ rest = ap (λ t. t ++ rest) (append-nil src) in
      rw (started, input, size, opened, written, the_tag, accepted, verified, nothing, same) refl

  -- IV and salt are read from the front, the tag from the end.
  opens :
      (src pwd buffer dst packet : Bytes) (size : ℕ) (s : Sealed src pwd buffer size)
      → length packet ≡ length src + 48
      → packet ≡ s.iv ++ (s.salt ++ (s.cipher ++ e.get_tag s.key s.iv src))
      → length src + 16 ≤ length dst
      → decrypt_aes e malloc packet dst pwd ≡ done (src ++ drop (length src) dst, length src)
  unfolding decrypt_aes
  opens src pwd buffer dst packet size s len shape fits =
      let tag = e.get_tag s.key s.iv src in
      let n = length packet in
      let guard : (ltb n (16 + 16) || ltb (length dst) (n - 16 - 16)) ≡ false = ground arith in
      let the_iv : take 16 packet ≡ s.iv =
        ap (take 16) shape ∙ take-append s.iv _ 16 (sym s.iv_length) in
      let behind : drop 16 packet ≡ s.salt ++ (s.cipher ++ tag) =
        ap (drop 16) shape ∙ drop-append s.iv _ 16 (sym s.iv_length) in
      let the_salt : take 16 (drop 16 packet) ≡ s.salt =
        ap (take 16) behind ∙ take-append s.salt _ 16 (sym s.salt_length) in
      let input : drop 32 packet ≡ s.cipher ++ tag =
        ap (drop 32) shape
        ∙ drop-append-more s.iv _ 16 16 (sym s.iv_length)
        ∙ drop-append s.salt _ 16 (sym s.salt_length) in
      let at_tag : n - 16 ≡ 16 + (16 + length s.cipher) = omega (arith, len, s.cipher_size) in
      let end : drop (n - 16) packet ≡ tag =
        ap₂ drop at_tag shape
        ∙ drop-append-more s.iv _ 16 (16 + length s.cipher) (sym s.iv_length)
        ∙ drop-append-more s.salt _ 16 (length s.cipher) (sym s.salt_length)
        ∙ drop-append s.cipher tag (length s.cipher) refl in
      let the_tag : take 16 (drop (n - 16) packet) ≡ tag =
        ap (take 16) end ∙ take_all tag 16 (omega (arith, gcm.tag_length s.key s.iv src)) in
      let size_arg : cipher_length n ≡ pos (length src) = ground (arith, len) in
      rw (guard, the_iv, the_salt, s.key_made)
        (unseal_lem packet src dst s.key s.iv s.cipher s.started s.enciphered input size_arg the_tag
          fits)

  -- DecryptAES opens such a text: the plain text stands at the front of its buffer.
  pub decrypt_aes-Sealed :
      (src pwd buffer dst : Bytes) (size : ℕ)
      → Sealed src pwd buffer size
      → length src + 16 ≤ length dst
      → decrypt_aes e malloc (take size buffer) dst pwd
        ≡ done (src ++ drop (length src) dst, length src)
  decrypt_aes-Sealed src pwd buffer dst size s fits =
      let (text, long) = Sealed-text src pwd buffer size s in
      opens src pwd buffer dst (take size buffer) size s long text fits
