-- ===== src/Connection/Answers.antt =====
-- What the phone's answer can do to a server.
use pcbu_natives_old.Prelude.{
  ℕ, ◌≡◌, ◌≢◌, refl, ap, subst, ◌∙◌, ◌↔◌, true, Option, none, some, [], ◌∷◌, arith,
}
use pcbu_natives_old.Prelude.Texts.{Bytes, bytes_eq, bytes_eq-eq, bytes_eq_refl}
use pcbu_natives_old.UnlockState.{UnlockState}
use pcbu_natives_old.Storage.Json.{Json}
use pcbu_natives_old.Crypt.Packet.{
  Host, PacketCryptResult, ok, invalid_timestamp, other_error, undefined, decrypt_aes_packet,
}
use pcbu_natives_old.Connection.Server.{
  UnlockResponseData, UnlockServer, plain_answer, read_response, accept_response, on_decrypted,
  on_response_received,
}

module _ (h : Host) (j : Json) where
  plain_answer-failure :
      (buffer : Bytes) (otherwise : UnlockState)
      → otherwise ≢ UnlockState.success
      → otherwise ≢ UnlockState.unknown
      → (plain_answer h j buffer otherwise ≢ UnlockState.success)
        × (plain_answer h j buffer otherwise ≢ UnlockState.unknown)
  unfolding plain_answer
  plain_answer-failure buffer otherwise a b = ground arith

  -- A well-formed answer with the right token.
  abbrev pub Answers : UnlockServer → Bytes → UnlockResponseData → Type 0
  Answers s dec_data response =
      (read_response h j dec_data ≡ some response) × (response.unlock_token ≡ s.unlock_token)

  accept_response-success :
      (s : UnlockServer) (r : Option UnlockResponseData)
      → (accept_response h j s r).unlock_state ≡ UnlockState.success
      → (response : UnlockResponseData) × (r ≡ some response)
        × (response.unlock_token ≡ s.unlock_token)
        × ((accept_response h j s r).response_data ≡ response)
  unfolding accept_response
  accept_response-success s none e = absurd (ground arith)
  accept_response-success s (some response) e =
      (response, refl, bytes_eq-eq response.unlock_token s.unlock_token (ground arith), refl)

  pub accept_response_right :
      (s : UnlockServer) (response : UnlockResponseData)
      → response.unlock_token ≡ s.unlock_token
      → ((accept_response h j s (some response)).unlock_state ≡ UnlockState.success)
        × ((accept_response h j s (some response)).response_data ≡ response)
  unfolding accept_response
  accept_response_right s response e =
      let same : bytes_eq response.unlock_token s.unlock_token ≡ true =
        subst (λ t. bytes_eq response.unlock_token t ≡ true) e
          (bytes_eq_refl response.unlock_token) in
      (rw same refl, refl)

  on_decrypted-success :
      (s : UnlockServer) (buffer : Bytes) (r : PacketCryptResult)
      → (on_decrypted h j s buffer r).unlock_state ≡ UnlockState.success
      → (dec_data : Bytes) × (response : UnlockResponseData) × (r ≡ ok dec_data)
        × Answers s dec_data response
        × ((on_decrypted h j s buffer r).response_data ≡ response)
  unfolding on_decrypted
  on_decrypted-success s buffer (ok dec_data) e =
      let (response, got, token, stored) =
        accept_response-success s (read_response h j dec_data) e in
      (dec_data, response, refl, (got, token), stored)
  on_decrypted-success s buffer invalid_timestamp e =
      absurd ((plain_answer-failure buffer UnlockState.time_error (λ x. cc) (λ x. cc)).0 e)
  on_decrypted-success s buffer other_error e =
      absurd ((plain_answer-failure buffer UnlockState.data_error (λ x. cc) (λ x. cc)).0 e)
  on_decrypted-success s buffer undefined e =
      absurd ((plain_answer-failure buffer UnlockState.data_error (λ x. cc) (λ x. cc)).0 e)

  -- An answer ends in SUCCESS exactly if it can be decrypted with the key of the paired device at
  -- that time and holds the server's own token; the password is then the one that came with it.
  pub on_response_received-success :
      (now : ℕ) (s : UnlockServer) (buffer : Bytes)
      → ((on_response_received h j now s buffer).unlock_state ≡ UnlockState.success) ↔ (
          (dec_data : Bytes) × (response : UnlockResponseData) × (buffer ≢ [])
          × (decrypt_aes_packet h now buffer s.paired_device.encryption_key ≡ ok dec_data)
          × Answers s dec_data response
          × ((on_response_received h j now s buffer).response_data ≡ response))
  unfolding on_response_received
  on_response_received-success now s [] = ((λ e. absurd (ground arith)), (λ r. absurd (r.2 refl)))
  on_response_received-success now s (b ∷ buffer) = (
    (λ e.
        let (dec_data, response, got, right, stored) = on_decrypted-success s (b ∷ buffer) _ e in
        (dec_data, response, (λ x. cc), got, right, stored)),
    λ r.
        ap (λ c. (on_decrypted h j s (b ∷ buffer) c).unlock_state) r.3
        ∙ unfold on_decrypted in
          (ap (λ o. (accept_response h j s o).unlock_state) r.4.0
            ∙ (accept_response_right s r.1 r.4.1).0),
  )

  accept_response-ne-unknown :
      (s : UnlockServer) (r : Option UnlockResponseData)
      → (accept_response h j s r).unlock_state ≢ UnlockState.unknown
  unfolding accept_response
  accept_response-ne-unknown s none = λ e. cc
  accept_response-ne-unknown s (some response) = λ e. ground arith

  on_decrypted-ne-unknown :
      (s : UnlockServer) (buffer : Bytes) (r : PacketCryptResult)
      → (on_decrypted h j s buffer r).unlock_state ≢ UnlockState.unknown
  unfolding on_decrypted
  on_decrypted-ne-unknown s buffer (ok dec_data) =
      accept_response-ne-unknown s (read_response h j dec_data)
  on_decrypted-ne-unknown s buffer invalid_timestamp =
      (plain_answer-failure buffer UnlockState.time_error (λ x. cc) (λ x. cc)).1
  on_decrypted-ne-unknown s buffer other_error =
      (plain_answer-failure buffer UnlockState.data_error (λ x. cc) (λ x. cc)).1
  on_decrypted-ne-unknown s buffer undefined =
      (plain_answer-failure buffer UnlockState.data_error (λ x. cc) (λ x. cc)).1

  -- Every answer, the empty one too, decides the state.
  pub on_response_received-ne-unknown :
      (now : ℕ) (s : UnlockServer) (buffer : Bytes)
      → (on_response_received h j now s buffer).unlock_state ≢ UnlockState.unknown
  unfolding on_response_received
  on_response_received-ne-unknown now s [] = λ e. cc
  on_response_received-ne-unknown now s (b ∷ buffer) = on_decrypted-ne-unknown s (b ∷ buffer) _

  -- What an answer cannot change.
  pub record SameServer (s t : UnlockServer) : Type 0 where
    pub is_running : t.is_running ≡ s.is_running
    pub has_connection : t.has_connection ≡ s.has_connection
    pub paired_device : t.paired_device ≡ s.paired_device
    pub auth_user : t.auth_user ≡ s.auth_user
    pub unlock_token : t.unlock_token ≡ s.unlock_token

  accept_response-SameServer :
      (s : UnlockServer) (r : Option UnlockResponseData) → SameServer s (accept_response h j s r)
  unfolding accept_response
  accept_response-SameServer s none = ground arith
  accept_response-SameServer s (some response) = ground arith

  on_decrypted-SameServer :
      (s : UnlockServer) (buffer : Bytes) (r : PacketCryptResult)
      → SameServer s (on_decrypted h j s buffer r)
  unfolding on_decrypted
  on_decrypted-SameServer s buffer (ok dec_data) =
      accept_response-SameServer s (read_response h j dec_data)
  on_decrypted-SameServer s buffer invalid_timestamp = ground arith
  on_decrypted-SameServer s buffer other_error = ground arith
  on_decrypted-SameServer s buffer undefined = ground arith

  pub on_response_received-SameServer :
      (now : ℕ) (s : UnlockServer) (buffer : Bytes)
      → SameServer s (on_response_received h j now s buffer)
  unfolding on_response_received
  on_response_received-SameServer now s [] = ground arith
  on_response_received-SameServer now s (b ∷ buffer) = on_decrypted-SameServer s (b ∷ buffer) _
