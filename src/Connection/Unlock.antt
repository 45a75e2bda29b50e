-- ===== src/Connection/Unlock.antt =====
-- A whole unlock over TCP, from the connected socket to the password.
use pcbu_natives_old.Prelude.{
  ℕ, ◌+◌, ◌≤◌, ◌<◌, ◌^◌, ◌≡◌, ◌≢◌, refl, ap, ◌∙◌, Bool, true, false, some, [], ◌∷◌, ◌++◌, length,
  arith, inl, inr, Option-cases,
}
use pcbu_natives_old.Prelude.Texts.{Bytes}
use pcbu_natives_old.UnlockState.{UnlockState}
use pcbu_natives_old.Storage.Json.{Json}
use pcbu_natives_old.Crypt.Ssl.{IsGcm}
use pcbu_natives_old.Crypt.Memory.{done}
use pcbu_natives_old.Crypt.Bounds.{encrypt_aes_packet_bounds}
use pcbu_natives_old.Crypt.Packet.{Host, ok, packet_timeout, encrypt_aes_packet}
use pcbu_natives_old.Crypt.RoundTrip.{receiver}
use pcbu_natives_old.Connection.Socket.{read_packet, length_bytes}
use pcbu_natives_old.Connection.Framing.{flatten, Delivers, read_packet-frame}
use pcbu_natives_old.Connection.Server.{
  UnlockResponseData, UnlockServer, text, get_unlock_info_packet, read_response,
  on_response_received,
}
use pcbu_natives_old.Connection.InTime.{on_response_received-encrypted}
use pcbu_natives_old.Connection.Client.{Client, Exchange, hang_up, safe_close, talk}
use pcbu_natives_old.Connection.Endings.{connect_and_talk_up}
use pcbu_natives_old.Connection.TcpClient.{connect_thread}

pub safe_close-base : (c : Client) → (safe_close c).base ≡ c.base
unfolding safe_close
safe_close-base c = elim (Option-cases c.client_socket) [
  | inl e ↦ rw (e, safe_close) refl
  | inr (fd, e) ↦ rw (e, safe_close) refl
]

hang_up-base :
    (c : Client)
    → ((hang_up c).base.unlock_state ≡ c.base.unlock_state)
      × ((hang_up c).base.response_data ≡ c.base.response_data)
unfolding hang_up
hang_up-base c =
    let ended = record c {
      base = record (c.base) { is_running = false; has_connection = false };
    } in
    let same = safe_close-base ended in
    (
      ap (λ (b : UnlockServer). b.unlock_state) same,
      ap (λ (b : UnlockServer). b.response_data) same,
    )

talk_through :
    (h : Host) (j : Json) (x : Exchange) (c : Client) (packet : Bytes) (s : UnlockServer)
    → packet ≢ []
    → on_response_received h j x.answered_at c.base (read_packet x.pieces) ≡ s
    → (d : Client) × (talk h j x c (text packet) ≡ done d)
      × (d.base.unlock_state ≡ s.unlock_state)
      × (d.base.response_data ≡ s.response_data)
unfolding talk
talk_through h j x c [] s some_bytes e = absurd (some_bytes refl)
talk_through h j x c (b ∷ packet) s some_bytes e =
    let answered = hang_up-base _ in
    (
      _,
      refl,
      answered.0 ∙ ap (λ (t : UnlockServer). t.unlock_state) e,
      answered.1 ∙ ap (λ (t : UnlockServer). t.response_data) e,
    )

-- A TCP client that gets a connection, can make its packet, and receives in time an answer that was
-- encrypted with the key of the pairing and holds the client's token, ends its thread in SUCCESS with
-- the password of the answer. The answer has 1 to 968 bytes, may arrive in any pieces, and there is
-- memory for its text.
pub connect_thread_unlocks :
    (h : Host) (little windows : Bool) (j : Json) (fd draw sent : ℕ) (x : Exchange) (c : Client)
    (info payload packet memory more : Bytes) (response : UnlockResponseData)
    → IsGcm h.ssl
    → x.connected ≡ true
    → get_unlock_info_packet
        (receiver h little windows)
        j
        x.draw
        x.sent_at
        (record (c.base) { has_connection = true })
      ≡ text info
    → info ≢ []
    → 0 < length payload
    → length payload ≤ 968
    → h.malloc (length payload) ≡ some memory
    → x.answered_at < 2 ^ 63
    → sent < 2 ^ 63
    → x.answered_at ≤ sent + packet_timeout (receiver h little windows)
    → sent ≤ x.answered_at + packet_timeout (receiver h little windows)
    → encrypt_aes_packet h draw sent payload c.base.paired_device.encryption_key ≡ ok packet
    → read_response (receiver h little windows) j payload ≡ some response
    → response.unlock_token ≡ c.base.unlock_token
    → Delivers x.pieces
    → flatten x.pieces ≡ length_bytes (length packet) ++ (packet ++ more)
    → (d : Client) × (connect_thread (receiver h little windows) j true (some fd) x c ≡ done d)
      × (d.base.unlock_state ≡ UnlockState.success)
      × (d.base.response_data ≡ response)
unfolding connect_thread
connect_thread_unlocks h little windows j fd draw sent x c info payload packet memory more response
      gcm up made some_info some_bytes fits got n63 s63 late early answer right token d e =
    let g = receiver h little windows in
    let key = c.base.paired_device.encryption_key in
    let long = (encrypt_aes_packet_bounds h draw sent payload key gcm fits).1 packet answer in
    let opened = record c { client_socket = some fd } in
    let server = record (c.base) { has_connection = true } in
    let reads =
      read_packet-frame packet more x.pieces (omega (arith, long)) (omega (arith, long)) d e in
    let (success, kept) =
      (on_response_received-encrypted h little windows j draw sent x.answered_at server payload
          packet memory response gcm some_bytes fits got n63 s63 answer right token).0
        late early in
    let (final, run, state, stored) =
      talk_through g j x (record opened { base = server }) info
        (on_response_received g j x.answered_at server packet) some_info
        (ap (on_response_received g j x.answered_at server) reads) in
    (
      final,
      connect_and_talk_up g j x opened up
          ∙ ap (talk g j x (record opened { base = server })) made
          ∙ run,
      state ∙ success,
      stored ∙ kept,
    )
