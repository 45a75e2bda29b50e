-- ===== src/Crypt/Bounds.antt =====
-- The sizes for which EncryptAESPacket stays inside its buffer of 1024 bytes. EncryptAES checks for
-- room for IV and salt, and writes a tag behind them.
use pcbu_natives_old.Prelude.{
  ℕ, ◌+◌, ◌≤◌, ◌<◌, ◌≡◌, ◌≢◌, refl, ap, sym, ◌∙◌, subst, Bool, true, false, Option, none, some, [],
  ◌++◌, arith, ltb, length, Option-cases, inl, inr, ◌⊎◌,
}
use pcbu_natives_old.Prelude.Texts.{Bytes}
use pcbu_natives_old.Utils.Hex.{Malloc}
use pcbu_natives_old.Crypt.Memory.{
  Outcome, done, failed, overflow, ◌>>=◌, or_fail, write_at, write_at_fits, write_at_overflow,
  or_fail-eq-done,
}
use pcbu_natives_old.Crypt.Ssl.{Ssl, IsGcm}
use pcbu_natives_old.Crypt.Aes.{encrypt_aes, seal, start_cipher, generate_key, check}
use pcbu_natives_old.Crypt.Sealed.{encrypt_aes-Sealed, Sealed-text}
use pcbu_natives_old.Crypt.RoundTrip.{encrypt_aes_packet-Encrypted, length-stamped}
use pcbu_natives_old.Crypt.Packet.{
  Host, ok, other_error, undefined, zeroed, length-zeroed, stamp, finish_encrypt,
  encrypt_aes_packet,
}

abbrev Safe {ℓ} : {A : Type ℓ} → Outcome A → Type ℓ
Safe {A} m = m ≢ overflow

Safe->>= {ℓ κ} :
    {A : Type ℓ} {B : Type κ} (m : Outcome A) (f : A → Outcome B)
    → m ≢ overflow
    → ((a : A) → m ≡ done a → f a ≢ overflow)
    → (m >>= f) ≢ overflow
Safe->>= (done a) f h k = k a refl
Safe->>= failed f h k = λ e. ground arith
Safe->>= overflow f h k = absurd (h refl)

Safe-or_fail {ℓ} : {A : Type ℓ} (o : Option A) → or_fail o ≢ overflow
Safe-or_fail none = λ e. ground arith
Safe-or_fail (some a) = λ e. ground arith

Safe-check : (b : Bool) → check b ≢ overflow
Safe-check true = λ e. ground arith
Safe-check false = λ e. ground arith

-- A write inside the buffer is safe, and what follows may count on the buffer's size.
Safe-write_at {ℓ} :
    {B : Type ℓ} (buffer bytes : Bytes) (at : ℕ) (f : Bytes → Outcome B)
    → at + length bytes ≤ length buffer
    → ((after : Bytes) → length after ≡ length buffer → f after ≢ overflow)
    → (write_at buffer at bytes >>= f) ≢ overflow
Safe-write_at buffer bytes at f h k =
    let (after, w, same) = write_at_fits buffer bytes at h in
    subst (λ m. (m >>= f) ≢ overflow) (sym w) (k after same)

module _ (e : Ssl) (malloc : Malloc) where
  Safe-generate_key : (pwd salt : Bytes) → generate_key e malloc pwd salt ≢ overflow
  unfolding generate_key
  Safe-generate_key pwd salt =
      Safe->>= (or_fail (malloc _)) _ (Safe-or_fail _) (λ b h. Safe-or_fail _)

  Safe-start_cipher : (key iv : Bytes) → start_cipher e key iv ≢ overflow
  unfolding start_cipher
  Safe-start_cipher key iv = Safe->>= (check e.ctx_new) _ (Safe-check _) λ u h.
      Safe->>= (check e.init_cipher) _ (Safe-check _) λ u h.
        Safe->>= (check (e.set_ivlen 16)) _ (Safe-check _) λ u h. Safe-check (e.init_key key iv)

  module _ (gcm : IsGcm e) where
    Safe-seal :
        (src dst key iv : Bytes)
        → length src + 48 ≤ length dst
        → seal e malloc src dst key iv ≢ overflow
    unfolding seal
    Safe-seal src dst key iv fits =
        Safe->>= (start_cipher e key iv) _ (Safe-start_cipher key iv) λ u h.
          Safe->>= (or_fail (e.encrypt_update key iv src)) _ (Safe-or_fail _) λ cipher h1.
            let long = gcm.same_length key iv src cipher (or_fail-eq-done _ h1) in
            Safe-write_at dst cipher 32 _ (omega (arith, long)) λ b1 s1.
              Safe->>= (or_fail (e.encrypt_final key iv src)) _ (Safe-or_fail _) λ last h2.
                let last_nil = gcm.nothing_left key iv src last (or_fail-eq-done _ h2) in
                Safe-write_at b1 last (32 + length cipher) _
                  (omega (arith, long, s1, ap length last_nil))
                  λ b2 s2.
                    Safe-write_at b2 (e.get_tag key iv src) (32 + length cipher) _
                      (omega (arith, long, s1, s2, gcm.tag_length key iv src))
                      λ b3 s3 e. ground arith

    Safe-encrypt_aes :
        (draw : ℕ) (src dst pwd : Bytes)
        → length src + 48 ≤ length dst
        → encrypt_aes e malloc draw src dst pwd ≢ overflow
    unfolding encrypt_aes
    Safe-encrypt_aes draw src dst pwd fits =
        let room : ltb (length dst) (length src + 16 + 16) ≡ false = ground arith in
        rw room (
          Safe->>= (or_fail (e.rand_bytes draw 16)) _ (Safe-or_fail _) λ iv h.
            let iv_length = gcm.drawn draw 16 iv (or_fail-eq-done _ h) in
            Safe-write_at dst iv 0 _ (omega (arith, iv_length)) λ b1 s1.
              Safe->>= (or_fail (e.rand_bytes (draw + 1) 16)) _ (Safe-or_fail _) λ salt h'.
                let salt_length = gcm.drawn (draw + 1) 16 salt (or_fail-eq-done _ h') in
                Safe-write_at b1 salt 16 _ (omega (arith, salt_length, s1)) λ b2 s2.
                  Safe->>= (generate_key e malloc pwd salt) _ (Safe-generate_key pwd salt)
                    λ key h''. Safe-seal src b2 key iv (omega (arith, s1, s2)))

finish_encrypt-ne-undefined :
    (h : Host) (r : Outcome (Bytes × ℕ)) → r ≢ overflow → finish_encrypt h r ≢ undefined
unfolding finish_encrypt
finish_encrypt-ne-undefined h failed s = λ e. ground arith
finish_encrypt-ne-undefined h overflow s = absurd (s refl)
finish_encrypt-ne-undefined h (done (b, n)) s = λ e. ground arith

encrypt_aes_packet-step :
    (h : Host) (draw now : ℕ) (payload pwd : Bytes)
    → (encrypt_aes_packet h draw now payload pwd ≡ other_error)
      ⊎ (encrypt_aes_packet h draw now payload pwd
          ≡ finish_encrypt h (encrypt_aes h.ssl h.malloc draw (stamp h now ++ payload) zeroed pwd))
unfolding encrypt_aes_packet
encrypt_aes_packet-step h draw now payload pwd =
    elim (Option-cases (h.malloc (length payload + 8))) [
      | inl null ↦ inl (rw (null, encrypt_aes_packet) refl)
      | inr (buf, got) ↦ inr (rw (got, encrypt_aes_packet) refl)
    ]

-- Up to 968 bytes EncryptAESPacket writes inside its buffer, and a packet that it returns is 56 bytes
-- longer than the payload.
pub encrypt_aes_packet_bounds :
    (h : Host) (draw now : ℕ) (payload pwd : Bytes)
    → IsGcm h.ssl
    → length payload ≤ 968
    → (encrypt_aes_packet h draw now payload pwd ≢ undefined)
      × ((packet : Bytes)
          → encrypt_aes_packet h draw now payload pwd ≡ ok packet
          → length packet ≡ length payload + 56)
encrypt_aes_packet_bounds h draw now payload pwd gcm fits = (safe, size)
  where
    src : Bytes
    src = stamp h now ++ payload

    room : length src + 48 ≤ length zeroed
    room = omega (arith, length-stamped h now payload, length-zeroed)

    safe : encrypt_aes_packet h draw now payload pwd ≢ undefined
    safe e = elim (encrypt_aes_packet-step h draw now payload pwd) [
      | inl f ↦ ground arith
      | inr f ↦
          finish_encrypt-ne-undefined h _
            (Safe-encrypt_aes h.ssl h.malloc gcm draw src zeroed pwd room) (sym f ∙ e)
    ]

    size :
        (packet : Bytes)
        → encrypt_aes_packet h draw now payload pwd ≡ ok packet
        → length packet ≡ length payload + 56
    size packet e =
        let s = encrypt_aes_packet-Encrypted h draw now payload pwd packet e in
        let sealed = encrypt_aes-Sealed h.ssl h.malloc gcm draw src zeroed pwd room s.encrypted in
        let text = Sealed-text h.ssl h.malloc gcm src pwd s.buffer s.size sealed in
        omega (arith, ap length s.text, text.1, length-stamped h now payload)

-- From 985 bytes on EncryptAESPacket fails and writes nothing out of bounds.
pub encrypt_aes_packet_too_long :
    (h : Host) (draw now : ℕ) (payload pwd : Bytes)
    → 984 < length payload
    → encrypt_aes_packet h draw now payload pwd ≡ other_error
unfolding encrypt_aes
encrypt_aes_packet_too_long h draw now payload pwd long =
    elim (encrypt_aes_packet-step h draw now payload pwd) [
      | inl f ↦ f
      | inr f ↦
          let n = length-stamped h now payload in
          let short : ltb (length zeroed) (length (stamp h now ++ payload) + 16 + 16) ≡ true =
            ground (arith, n, length-zeroed) in
          f ∙ rw (short, encrypt_aes) (unfold finish_encrypt in refl)
    ]

-- The writes of EncryptAES into a buffer that has room for IV, salt and cipher text, and not for
-- the tag.
seal_overflow :
    (e : Ssl) (malloc : Malloc) (src dst key iv cipher : Bytes)
    → IsGcm e
    → start_cipher e key iv ≡ done tt
    → e.encrypt_update key iv src ≡ some cipher
    → e.encrypt_final key iv src ≡ some []
    → length src + 32 ≤ length dst
    → length dst < length src + 48
    → seal e malloc src dst key iv ≡ overflow
unfolding seal
seal_overflow e malloc src dst key iv cipher gcm started enciphered last fits short =
    let long = gcm.same_length key iv src cipher enciphered in
    let (b1, w1, s1) = write_at_fits dst cipher 32 (omega (arith, long)) in
    let (b2, w2, s2) = write_at_fits b1 [] (32 + length cipher) (omega (arith, long, s1)) in
    let w3 =
      write_at_overflow b2 (e.get_tag key iv src) (32 + length cipher)
        (omega (arith, long, s1, s2, gcm.tag_length key iv src)) in
    rw (started, enciphered, w1, last, w2, w3) refl

-- Between 969 and 984 bytes, where no call of the crypto library or the allocator fails, the tag is
-- written behind the end of EncryptAESPacket's buffer.
pub encrypt_aes_packet_overflow :
    (h : Host) (draw now : ℕ) (payload pwd memory iv salt key cipher : Bytes)
    → IsGcm h.ssl
    → 968 < length payload
    → length payload ≤ 984
    → h.malloc (length payload + 8) ≡ some memory
    → h.ssl.rand_bytes draw 16 ≡ some iv
    → h.ssl.rand_bytes (draw + 1) 16 ≡ some salt
    → generate_key h.ssl h.malloc pwd salt ≡ done key
    → start_cipher h.ssl key iv ≡ done tt
    → h.ssl.encrypt_update key iv (stamp h now ++ payload) ≡ some cipher
    → h.ssl.encrypt_final key iv (stamp h now ++ payload) ≡ some []
    → encrypt_aes_packet h draw now payload pwd ≡ undefined
unfolding encrypt_aes_packet encrypt_aes
encrypt_aes_packet_overflow h draw now payload pwd memory iv salt key cipher gcm low high got d1 d2
      made started enciphered last =
    let src = stamp h now ++ payload in
    let n = length-stamped h now payload in
    let room : ltb (length zeroed) (length src + 16 + 16) ≡ false =
      ground (arith, n, length-zeroed) in
    let iv_length = gcm.drawn draw 16 iv d1 in
    let salt_length = gcm.drawn (draw + 1) 16 salt d2 in
    let (b1, w1, s1) = write_at_fits zeroed iv 0 (omega (arith, iv_length, length-zeroed)) in
    let (b2, w2, s2) = write_at_fits b1 salt 16 (omega (arith, salt_length, s1, length-zeroed)) in
    let out =
      seal_overflow h.ssl h.malloc src b2 key iv cipher gcm started enciphered last
        (omega (arith, n, s1, s2, length-zeroed)) (omega (arith, n, s1, s2, length-zeroed)) in
    rw (got, encrypt_aes_packet)
      (rw (room, d1, w1, d2, w2, made, out) (unfold finish_encrypt in refl))
