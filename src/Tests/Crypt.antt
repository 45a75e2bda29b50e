-- ===== src/Tests/Crypt.antt =====
-- The packets at concrete inputs.
use pcbu_natives_old.Prelude.{
  ◌≡◌, ◌≢◌, refl, true, false, [], ◌∷◌, ◌++◌, arith, length, replicate, inl,
}
use pcbu_natives_old.Prelude.Texts.{Bytes}
use pcbu_natives_old.Crypt.Clock.{reverse_bytes}
use pcbu_natives_old.Crypt.Memory.{write_at}
use pcbu_natives_old.Crypt.Aes.{c_str, start_cipher, generate_key, seal, encrypt_aes}
use pcbu_natives_old.Crypt.Bounds.{encrypt_aes_packet_bounds, encrypt_aes_packet_overflow}
use pcbu_natives_old.Crypt.Packet.{
  ok, invalid_timestamp, undefined, zeroed, stamp, finish_encrypt, encrypt_aes_packet,
  decrypt_aes_packet, packet_timeout,
}
use pcbu_natives_old.Crypt.RoundTrip.{receiver, decrypt-encrypt, decrypt-encrypt_stale}
use pcbu_natives_old.Tests.Samples.{sample_host, sample_ssl-IsGcm, packet_of}

abbrev payload : Bytes
payload = 10 ∷ 20 ∷ 30 ∷ []

abbrev pwd : Bytes
pwd = 65 ∷ []

sealed :
    encrypt_aes_packet sample_host 0 1000 payload pwd
    ≡ ok (packet_of (encrypt_aes_packet sample_host 0 1000 payload pwd))
unfolding encrypt_aes_packet finish_encrypt zeroed stamp reverse_bytes encrypt_aes seal generate_key
    start_cipher c_str write_at
sealed = refl

decrypt-encrypt_example :
    decrypt_aes_packet
      (receiver sample_host true false)
      1500
      (packet_of (encrypt_aes_packet sample_host 0 1000 payload pwd))
      pwd
    ≡ ok payload
unfolding packet_timeout
decrypt-encrypt_example =
    decrypt-encrypt sample_host true false 0 1000 1500 payload pwd
      (packet_of (encrypt_aes_packet sample_host 0 1000 payload pwd)) (replicate 3 0)
      sample_ssl-IsGcm (omega arith) (omega arith) refl (omega arith) (omega arith) (omega arith)
      (omega arith) sealed

decrypt-encrypt_stale_example :
    decrypt_aes_packet
      (receiver sample_host true false)
      31001
      (packet_of (encrypt_aes_packet sample_host 0 1000 payload pwd))
      pwd
    ≡ invalid_timestamp
unfolding packet_timeout
decrypt-encrypt_stale_example =
    decrypt-encrypt_stale sample_host true false 0 1000 31001 payload pwd
      (packet_of (encrypt_aes_packet sample_host 0 1000 payload pwd)) sample_ssl-IsGcm (omega arith)
      (omega arith) (omega arith) (omega arith) (inl (omega arith)) sealed

encrypt_aes_packet_bounds_example :
    (encrypt_aes_packet sample_host 0 1000 payload pwd ≢ undefined)
    × ((packet : Bytes)
        → encrypt_aes_packet sample_host 0 1000 payload pwd ≡ ok packet
        → length packet ≡ 59)
encrypt_aes_packet_bounds_example =
    encrypt_aes_packet_bounds sample_host 0 1000 payload pwd sample_ssl-IsGcm (omega arith)

abbrev long_payload : Bytes
long_payload = replicate 970 1

encrypt_aes_packet_overflow_example :
    encrypt_aes_packet sample_host 0 1000 long_payload pwd ≡ undefined
unfolding generate_key start_cipher c_str
encrypt_aes_packet_overflow_example =
    encrypt_aes_packet_overflow sample_host 0 1000 long_payload pwd (replicate 978 0)
      (replicate 16 7) (replicate 16 7) (replicate 32 1) (stamp sample_host 1000 ++ long_payload)
      sample_ssl-IsGcm (omega arith) (omega arith) refl refl refl refl refl refl refl
