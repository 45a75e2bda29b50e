-- ===== src/Crypt/RoundTrip.antt =====
-- A packet is opened by a host that has the same crypto library and password.
use pcbu_natives_old.Prelude.{
  ℕ, ◌+◌, ◌-◌, ◌≤◌, ◌<◌, ◌≡◌, refl, ap, sym, ◌∙◌, Bool, true, false, some, ◌++◌, append_assoc,
  arith, leb, length, length-append, take, drop, take-append, drop-append, Option-cases, inl, inr,
  ◌||◌, ◌^◌, ◌⊎◌,
}
use pcbu_natives_old.Prelude.Texts.{Bytes}
use mathlib.Core.Path.{ap₂}
use pcbu_natives_old.Prelude.Signed.{above, below_neg}
use pcbu_natives_old.Crypt.Memory.{Outcome, done, failed, overflow}
use pcbu_natives_old.Crypt.Clock.{load64-stamp, length-stamp}
use pcbu_natives_old.Crypt.Ssl.{IsGcm}
use pcbu_natives_old.Crypt.Aes.{encrypt_aes, decrypt_aes}
use pcbu_natives_old.Crypt.Sealed.{encrypt_aes-Sealed, decrypt_aes-Sealed}
use pcbu_natives_old.Crypt.Packet.{
  Host, ok, invalid_timestamp, packet_timeout, zeroed, length-zeroed, stamp, read_stamp,
  finish_encrypt, encrypt_aes_packet, time_diff, finish_decrypt, decrypt_aes_packet,
}

-- What a successful EncryptAESPacket did.
pub record Encrypted (h : Host) (draw now : ℕ) (payload pwd packet : Bytes) : Type 0 where
  pub buffer : Bytes
  pub size : ℕ
  pub encrypted :
      encrypt_aes h.ssl h.malloc draw (stamp h now ++ payload) zeroed pwd ≡ done (buffer, size)
  pub text : packet ≡ take size buffer

finish_encrypt-ok :
    (h : Host) (r : Outcome (Bytes × ℕ)) {packet : Bytes}
    → finish_encrypt h r ≡ ok packet
    → (b : Bytes) × (n : ℕ) × (r ≡ done (b, n)) × (packet ≡ take n b)
unfolding finish_encrypt
finish_encrypt-ok h failed e = absurd (ground arith)
finish_encrypt-ok h overflow e = absurd (ground arith)
finish_encrypt-ok h (done (b, n)) e = (b, n, refl, ground arith)

pub encrypt_aes_packet-Encrypted :
    (h : Host) (draw now : ℕ) (payload pwd packet : Bytes)
    → encrypt_aes_packet h draw now payload pwd ≡ ok packet
    → Encrypted h draw now payload pwd packet
unfolding encrypt_aes_packet
encrypt_aes_packet-Encrypted h draw now payload pwd packet e =
    elim (Option-cases (h.malloc (length payload + 8))) [
      | inl null ↦ absurd (ground arith)
      | inr (buf, got) ↦
          let (b, n, enc, text) = finish_encrypt-ok h _ (rw (got, encrypt_aes_packet) at e) in
          record { buffer = b; size = n; encrypted = enc; text = text }
    ]

-- The time difference of two times that are close, and of two that are not.
fresh :
    (now sent t : ℕ)
    → now < 2 ^ 63
    → sent < 2 ^ 63
    → now ≤ sent + t
    → sent ≤ now + t
    → t < 2 ^ 62
    → (below_neg (time_diff now sent) t || above (time_diff now sent) t) ≡ false
unfolding time_diff
fresh now sent t a b c d e = ground arith

stale :
    (now sent t : ℕ)
    → now < 2 ^ 63
    → sent < 2 ^ 63
    → (sent + t < now) ⊎ (now + t < sent)
    → (below_neg (time_diff now sent) t || above (time_diff now sent) t) ≡ true
unfolding time_diff
stale now sent t a b (inl c) = ground arith
stale now sent t a b (inr c) = ground arith

-- The receiver: its byte order and its system are its own.
abbrev pub receiver : Host → Bool → Bool → Host
receiver h little windows = record h { little_endian = little; windows = windows }

stamp_size : (h : Host) (now : ℕ) → 8 ≡ length (stamp h now)
unfolding stamp
stamp_size h now = sym (length-stamp h.little_endian now)

pub length-stamped :
    (h : Host) (now : ℕ) (payload : Bytes) → length (stamp h now ++ payload) ≡ 8 + length payload
unfolding stamp
length-stamped h now payload =
    omega (arith, length-append (stamp h now) payload, length-stamp h.little_endian now)

read_stamp-stamp :
    (h : Host) (little windows : Bool) (sent : ℕ) (rest : Bytes)
    → sent < 2 ^ 64
    → read_stamp (receiver h little windows) (stamp h sent ++ rest) ≡ sent
unfolding read_stamp stamp
read_stamp-stamp h little windows sent rest small =
    load64-stamp h.little_endian little sent rest small

-- What DecryptAESPacket sees of a packet from EncryptAESPacket: the stamp and the payload.
opened_packet :
    (h : Host) (little windows : Bool) (draw sent now : ℕ) (payload pwd packet : Bytes)
    → IsGcm h.ssl
    → length payload ≤ 968
    → encrypt_aes_packet h draw sent payload pwd ≡ ok packet
    → (rest : Bytes) × (decrypt_aes_packet (receiver h little windows) now packet pwd
        ≡ finish_decrypt
            (receiver h little windows)
            now
            (done (stamp h sent ++ (payload ++ rest), 8 + length payload)))
unfolding decrypt_aes_packet
opened_packet h little windows draw sent now payload pwd packet gcm fits e =
    let src = stamp h sent ++ payload in
    let long = length-stamped h sent payload in
    let sealing = encrypt_aes_packet-Encrypted h draw sent payload pwd packet e in
    let sealed =
      encrypt_aes-Sealed h.ssl h.malloc gcm draw src zeroed pwd (omega (arith, long, length-zeroed))
        sealing.encrypted in
    let rest = drop (length src) zeroed in
    let plain =
      decrypt_aes-Sealed h.ssl h.malloc gcm src pwd sealing.buffer zeroed sealing.size sealed
        (omega (arith, long, length-zeroed)) in
    (
      rest,
      ap
            (λ p.
              finish_decrypt (receiver h little windows) now
                (decrypt_aes h.ssl h.malloc p zeroed pwd))
            sealing.text
          ∙ ap (finish_decrypt (receiver h little windows) now) plain
          ∙ ap₂ (λ b n. finish_decrypt (receiver h little windows) now (done (b, n)))
              (append_assoc (stamp h sent) payload rest) long,
    )

packet_timeout-lt : (h : Host) → packet_timeout h < 2 ^ 62
unfolding packet_timeout
packet_timeout-lt h = ground arith

-- A packet that EncryptAESPacket made of 1 to 968 bytes is opened with the same password, by a host
-- of either byte order and system, if the clocks differ by PACKET_TIMEOUT of the receiver at most and
-- the receiver can allocate the result: DecryptAESPacket returns the bytes.
pub decrypt-encrypt :
    (h : Host) (little windows : Bool) (draw sent now : ℕ) (payload pwd packet memory : Bytes)
    → IsGcm h.ssl
    → 0 < length payload
    → length payload ≤ 968
    → h.malloc (length payload) ≡ some memory
    → now < 2 ^ 63
    → sent < 2 ^ 63
    → now ≤ sent + packet_timeout (receiver h little windows)
    → sent ≤ now + packet_timeout (receiver h little windows)
    → encrypt_aes_packet h draw sent payload pwd ≡ ok packet
    → decrypt_aes_packet (receiver h little windows) now packet pwd ≡ ok payload
unfolding finish_decrypt
decrypt-encrypt h little windows draw sent now payload pwd packet memory gcm some_bytes fits got n63
      s63 late early e =
    let r = receiver h little windows in
    let (rest, opened) =
      opened_packet h little windows draw sent now payload pwd packet gcm fits e in
    let time = read_stamp-stamp h little windows sent (payload ++ rest) (omega arith) in
    let in_time = fresh now sent (packet_timeout r) n63 s63 late early (packet_timeout-lt r) in
    let long : leb (8 + length payload) 8 ≡ false = ground arith in
    let size : 8 + length payload - 8 ≡ length payload = omega arith in
    let behind = drop-append (stamp h sent) (payload ++ rest) 8 (stamp_size h sent) in
    opened
    ∙ rw (long, time, in_time, size, got, behind)
        (ap ok (take-append payload rest (8 + length payload - 8) size))

-- The same packet at a time that is further away is refused as stale, or as from the future.
pub decrypt-encrypt_stale :
    (h : Host) (little windows : Bool) (draw sent now : ℕ) (payload pwd packet : Bytes)
    → IsGcm h.ssl
    → 0 < length payload
    → length payload ≤ 968
    → now < 2 ^ 63
    → sent < 2 ^ 63
    → (sent + packet_timeout (receiver h little windows) < now)
      ⊎ (now + packet_timeout (receiver h little windows) < sent)
    → encrypt_aes_packet h draw sent payload pwd ≡ ok packet
    → decrypt_aes_packet (receiver h little windows) now packet pwd ≡ invalid_timestamp
unfolding finish_decrypt
decrypt-encrypt_stale h little windows draw sent now payload pwd packet gcm some_bytes fits n63 s63
      far e =
    let r = receiver h little windows in
    let (rest, opened) =
      opened_packet h little windows draw sent now payload pwd packet gcm fits e in
    let time = read_stamp-stamp h little windows sent (payload ++ rest) (omega arith) in
    let out = stale now sent (packet_timeout r) n63 s63 far in
    let long : leb (8 + length payload) 8 ≡ false = ground arith in
    opened ∙ rw (long, time, out) refl
