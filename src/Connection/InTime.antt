-- ===== src/Connection/InTime.antt =====
-- The phone's encrypted answer, in time and too late.
use pcbu_natives_old.Prelude.{
  ℕ, ◌+◌, ◌≤◌, ◌<◌, ◌^◌, ◌≡◌, refl, ap, ◌∙◌, ◌⊎◌, inl, inr, Bool, false, some, [], ◌∷◌, length,
  arith, Bool-cases,
}
use pcbu_natives_old.Prelude.Texts.{Bytes, codes, bytes_eq, bytes_eq-eq}
use pcbu_natives_old.UnlockState.{UnlockState}
use pcbu_natives_old.Storage.Json.{Json}
use pcbu_natives_old.Crypt.Ssl.{IsGcm}
use pcbu_natives_old.Crypt.Packet.{
  Host, PacketCryptResult, ok, invalid_timestamp, packet_timeout, encrypt_aes_packet,
  decrypt_aes_packet,
}
use pcbu_natives_old.Crypt.RoundTrip.{decrypt-encrypt, decrypt-encrypt_stale, receiver}
use pcbu_natives_old.Crypt.Bounds.{encrypt_aes_packet_bounds}
use pcbu_natives_old.Connection.Server.{
  UnlockResponseData, UnlockServer, plain_answer, read_response, accept_response, on_decrypted,
  on_response_received,
}
use pcbu_natives_old.Connection.Answers.{accept_response_right}

-- A text of 57 bytes and more is none of the plain answers.
plain_answer_long :
    (h : Host) (j : Json) (buffer : Bytes) (otherwise : UnlockState)
    → 56 < length buffer
    → plain_answer h j buffer otherwise ≡ otherwise
unfolding plain_answer
plain_answer_long h j buffer otherwise long =
    rw
      (
        differs (codes "CANCEL") (omega arith),
        differs (codes "NOT_PAIRED") (omega arith),
        differs (codes "ERROR") (omega arith),
        differs (codes "TIME_ERROR") (omega arith),
      )
      refl
  where
    differs : (t : Bytes) → length t ≤ 56 → bytes_eq buffer t ≡ false
    differs t short = elim (Bool-cases (bytes_eq buffer t)) [
      | inl same ↦ absurd (omega (arith, ap length (bytes_eq-eq buffer t same)))
      | inr other ↦ other
    ]

on_decrypted_of :
    (h : Host) (j : Json) (now : ℕ) (s : UnlockServer) (buffer : Bytes) (r : PacketCryptResult)
    → 0 < length buffer
    → decrypt_aes_packet h now buffer s.paired_device.encryption_key ≡ r
    → on_response_received h j now s buffer ≡ on_decrypted h j s buffer r
unfolding on_response_received
on_decrypted_of h j now s [] r pos e = absurd (omega arith)
on_decrypted_of h j now s (b ∷ buffer) r pos e = ap (on_decrypted h j s (b ∷ buffer)) e

on_decrypted_ok :
    (h : Host) (j : Json) (s : UnlockServer) (buffer payload : Bytes) (r : UnlockResponseData)
    → read_response h j payload ≡ some r
    → on_decrypted h j s buffer (ok payload) ≡ accept_response h j s (some r)
unfolding on_decrypted
on_decrypted_ok h j s buffer payload r e = ap (accept_response h j s) e

on_decrypted_late :
    (h : Host) (j : Json) (s : UnlockServer) (buffer : Bytes)
    → 56 < length buffer
    → ((on_decrypted h j s buffer invalid_timestamp).unlock_state ≡ UnlockState.time_error)
      × ((on_decrypted h j s buffer invalid_timestamp).response_data ≡ s.response_data)
unfolding on_decrypted
on_decrypted_late h j s buffer long =
    (plain_answer_long h j buffer UnlockState.time_error long, refl)

-- The phone encrypts its answer with the key of the pairing. An answer of 1 to 968 bytes that holds
-- the server's token leads to SUCCESS with its password if it comes in time, and to TIME_ERROR, with
-- the stored answer left alone, if the clocks differ by more than the receiver's PACKET_TIMEOUT.
pub on_response_received-encrypted :
    (h : Host) (little windows : Bool) (j : Json) (draw sent now : ℕ) (s : UnlockServer)
    (payload packet memory : Bytes) (response : UnlockResponseData)
    → IsGcm h.ssl
    → 0 < length payload
    → length payload ≤ 968
    → h.malloc (length payload) ≡ some memory
    → now < 2 ^ 63
    → sent < 2 ^ 63
    → encrypt_aes_packet h draw sent payload s.paired_device.encryption_key ≡ ok packet
    → read_response (receiver h little windows) j payload ≡ some response
    → response.unlock_token ≡ s.unlock_token
    → let t = on_response_received (receiver h little windows) j now s packet in
      let limit = packet_timeout (receiver h little windows) in
      (now ≤ sent + limit
        → sent ≤ now + limit
        → (t.unlock_state ≡ UnlockState.success) × (t.response_data ≡ response))
      × ((sent + limit < now) ⊎ (now + limit < sent)
          → (t.unlock_state ≡ UnlockState.time_error) × (t.response_data ≡ s.response_data))
on_response_received-encrypted h little windows j draw sent now s payload packet memory response gcm
      some_bytes fits got n63 s63 made right token =
    (in_time, out_of_time)
  where
    g : Host
    g = receiver h little windows

    long : length packet ≡ length payload + 56
    long =
        (encrypt_aes_packet_bounds h draw sent payload s.paired_device.encryption_key gcm fits).1
          packet made

    in_time :
        now ≤ sent + packet_timeout g
        → sent ≤ now + packet_timeout g
        → ((on_response_received g j now s packet).unlock_state ≡ UnlockState.success)
          × ((on_response_received g j now s packet).response_data ≡ response)
    in_time late early =
        let opened =
          decrypt-encrypt h little windows draw sent now payload s.paired_device.encryption_key
            packet memory gcm some_bytes fits got n63 s63 late early made in
        let run =
          on_decrypted_of g j now s packet (ok payload) (omega (arith, long)) opened
          ∙ on_decrypted_ok g j s packet payload response right in
        let final = accept_response_right g j s response token in
        (
          ap (λ (t : UnlockServer). t.unlock_state) run ∙ final.0,
          ap (λ (t : UnlockServer). t.response_data) run ∙ final.1,
        )

    out_of_time :
        (sent + packet_timeout g < now) ⊎ (now + packet_timeout g < sent)
        → ((on_response_received g j now s packet).unlock_state ≡ UnlockState.time_error)
          × ((on_response_received g j now s packet).response_data ≡ s.response_data)
    out_of_time far =
        let refused =
          decrypt-encrypt_stale h little windows draw sent now payload
            s.paired_device.encryption_key packet gcm some_bytes fits n63 s63 far made in
        let run =
          on_decrypted_of g j now s packet invalid_timestamp (omega (arith, long)) refused in
        let final = on_decrypted_late g j s packet (omega (arith, long)) in
        (
          ap (λ (t : UnlockServer). t.unlock_state) run ∙ final.0,
          ap (λ (t : UnlockServer). t.response_data) run ∙ final.1,
        )

-- An answer of 1 to 968 bytes that the phone encrypted with the key of the pairing, and that holds the
-- server's own token, leads to TIME_ERROR if the clocks differ by more than the receiver's
-- PACKET_TIMEOUT, in either direction, and the stored answer is left alone.
pub on_response_received_late :
    (h : Host) (little windows : Bool) (j : Json) (draw sent now : ℕ) (s : UnlockServer)
    (payload packet memory : Bytes) (response : UnlockResponseData)
    → IsGcm h.ssl
    → 0 < length payload
    → length payload ≤ 968
    → h.malloc (length payload) ≡ some memory
    → now < 2 ^ 63
    → sent < 2 ^ 63
    → encrypt_aes_packet h draw sent payload s.paired_device.encryption_key ≡ ok packet
    → read_response (receiver h little windows) j payload ≡ some response
    → response.unlock_token ≡ s.unlock_token
    → (sent + packet_timeout (receiver h little windows) < now)
      ⊎ (now + packet_timeout (receiver h little windows) < sent)
    → ((on_response_received (receiver h little windows) j now s packet).unlock_state
        ≡ UnlockState.time_error)
      × ((on_response_received (receiver h little windows) j now s packet).response_data
          ≡ s.response_data)
on_response_received_late h little windows j draw sent now s payload packet memory response gcm
      some_bytes fits got n63 s63 made right token =
    (on_response_received-encrypted h little windows j draw sent now s payload packet memory
      response gcm some_bytes fits got n63 s63 made right token).1
