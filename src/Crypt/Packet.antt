-- ===== src/Crypt/Packet.antt =====
-- CryptUtils::EncryptAESPacket and DecryptAESPacket: a text with the time of its encryption.
use pcbu_natives_old.Prelude.{
  ℕ, ◌+◌, ◌-◌, ◌*◌, ◌%◌, ◌≡◌, Bool, none, some, ◌++◌, leb, ◌||◌, if◌then◌else◌, length, take, drop,
  replicate, length-replicate,
}
use pcbu_natives_old.Prelude.Texts.{Bytes}
use pcbu_natives_old.Prelude.Signed.{ℤ, signed64, above, below_neg, word64}
use pcbu_natives_old.Utils.Hex.{Malloc}
use pcbu_natives_old.Crypt.Memory.{Outcome, done, failed, overflow}
use pcbu_natives_old.Crypt.Clock.{reverse_bytes, store64, load64, time_size}
use pcbu_natives_old.Crypt.Ssl.{Ssl}
use pcbu_natives_old.Crypt.Aes.{encrypt_aes, decrypt_aes}

-- The host: byte order, allocator, crypto library, and whether it is Windows.
pub record Host : Type 0 where
  pub little_endian : Bool
  pub windows : Bool
  pub malloc : Malloc
  pub ssl : Ssl

-- PacketCryptResult, with the bytes that `OK` leaves in the output pointer; `undefined` is no
-- result, but a write behind the end of a buffer.
pub data PacketCryptResult : Type 0 where
  ok : Bytes → PacketCryptResult
  invalid_timestamp : PacketCryptResult
  other_error : PacketCryptResult
  undefined : PacketCryptResult

-- PACKET_TIMEOUT
unfoldable pub packet_timeout : Host → ℕ
packet_timeout h = if h.windows then 60000 * 2 else 30000

-- `uint8_t buffer[1024] = {}`
abbrev pub buffer_size : ℕ
buffer_size = 1024

unfoldable pub zeroed : Bytes
zeroed = replicate buffer_size 0

pub length-zeroed : length zeroed ≡ buffer_size
unfolding zeroed
length-zeroed = length-replicate {A = ℕ} buffer_size 0

-- The time that is put before the data.
unfoldable pub stamp : Host → ℕ → Bytes
unfolding reverse_bytes
stamp h time_ms = reverse_bytes h.little_endian (store64 h.little_endian time_ms) time_size

unfoldable pub read_stamp : Host → Bytes → ℕ
unfolding reverse_bytes
read_stamp h bytes =
    load64 h.little_endian (reverse_bytes h.little_endian (take time_size bytes) time_size)

-- The end of EncryptAESPacket, on what EncryptAES returned.
unfoldable pub finish_encrypt : Host → Outcome (Bytes × ℕ) → PacketCryptResult
finish_encrypt h failed = other_error
finish_encrypt h overflow = undefined
finish_encrypt h (done (enc_buffer, enc_len)) =
    if leb enc_len time_size
    then other_error
    else elim (h.malloc enc_len) [ none ↦ other_error | some _ ↦ ok (take enc_len enc_buffer) ]

-- At time `now`, with `draw` the number of the next random draw.
unfoldable pub encrypt_aes_packet : Host → ℕ → ℕ → Bytes → Bytes → PacketCryptResult
encrypt_aes_packet h draw now payload pwd = elim (h.malloc (length payload + 8)) [
  | none ↦ other_error
  | some _ ↦ finish_encrypt h (encrypt_aes h.ssl h.malloc draw (stamp h now ++ payload) zeroed pwd)
]

-- `GetCurrentTimeMillis() - timestamp`, in int64_t.
unfoldable pub time_diff : ℕ → ℕ → ℤ
time_diff now timestamp = signed64 ((now + word64 - timestamp) % word64)

unfoldable pub finish_decrypt : Host → ℕ → Outcome (Bytes × ℕ) → PacketCryptResult
finish_decrypt h now failed = other_error
finish_decrypt h now overflow = undefined
finish_decrypt h now (done (dec_buffer, dec_len)) =
    let diff = time_diff now (read_stamp h dec_buffer) in
    if leb dec_len time_size
    then other_error
    else if below_neg diff (packet_timeout h) || above diff (packet_timeout h)
    then invalid_timestamp
    else elim (h.malloc (dec_len - 8)) [
      | none ↦ other_error
      | some _ ↦ ok (take (dec_len - 8) (drop 8 dec_buffer))
    ]

unfoldable pub decrypt_aes_packet : Host → ℕ → Bytes → Bytes → PacketCryptResult
decrypt_aes_packet h now src pwd = finish_decrypt h now (decrypt_aes h.ssl h.malloc src zeroed pwd)
