-- ===== src/Connection/Endings.antt =====
-- How the thread of a client ends.
use pcbu_natives_old.Prelude.{
  ℕ, ◌≡◌, ◌≢◌, refl, ◌∙◌, ◌⊎◌, inl, inr, Bool, true, false, ◌||◌, ◌++◌, Option, none, some, List,
  [], ◌∷◌, ◌++◌, if◌then◌else◌, Bool-cases,
}
use pcbu_natives_old.UnlockState.{UnlockState}
use pcbu_natives_old.Storage.Json.{Json}
use pcbu_natives_old.Crypt.Memory.{Outcome, done, overflow}
use pcbu_natives_old.Crypt.Packet.{Host}
use pcbu_natives_old.Connection.Socket.{read_packet}
use pcbu_natives_old.Connection.Server.{InfoPacket, text, corrupt, get_unlock_info_packet}
use pcbu_natives_old.Connection.Answers.{on_response_received-ne-unknown}
use pcbu_natives_old.Connection.Client.{
  Client, Exchange, safe_close, hang_up, talk, connect_and_talk, is_open,
}
use pcbu_natives_old.Connection.TcpClient.{connect_thread}
use pcbu_natives_old.Connection.BtClient.{bt_connect_from, bt_connect_thread}

-- The thread has stopped, its socket is closed, and the state is decided.
pub record Ended (c : Client) : Type 0 where
  pub stopped : c.base.is_running ≡ false
  pub no_socket : c.client_socket ≡ none
  pub decided : c.base.unlock_state ≢ UnlockState.unknown

module _ (h : Host) (j : Json) where
  -- Once the socket is open, the thread ends with it closed, and closed once.
  abbrev ClosedOnce : ℕ → Client → Client → Type 0
  ClosedOnce fd before after = Ended after × (after.closed ≡ fd ∷ before.closed)

  hang_up-ClosedOnce :
      (fd : ℕ) (c : Client)
      → c.client_socket ≡ some fd
      → c.base.unlock_state ≢ UnlockState.unknown
      → ClosedOnce fd c (hang_up c)
  unfolding hang_up safe_close
  hang_up-ClosedOnce fd c e state =
      rw (e, hang_up, safe_close)
        (record { stopped = refl; no_socket = refl; decided = state }, refl)

  talk-ClosedOnce :
      (fd : ℕ) (x : Exchange) (c : Client) (packet : InfoPacket)
      → c.client_socket ≡ some fd
      → ((packet ≡ corrupt) × (talk h j x c packet ≡ overflow))
        ⊎ ((d : Client) × (talk h j x c packet ≡ done d) × ClosedOnce fd c d)
  unfolding talk
  talk-ClosedOnce fd x c corrupt e = inl (refl, refl)
  talk-ClosedOnce fd x c (text []) e = inr (
    _,
    refl,
    (unfold safe_close in
        rw (e, safe_close) (record { stopped = refl; no_socket = refl; decided = λ s. cc }, refl)),
  )
  talk-ClosedOnce fd x c (text (b ∷ packet)) e = inr (
    _,
    refl,
    hang_up-ClosedOnce fd _ e
        (on_response_received-ne-unknown h j x.answered_at c.base (read_packet x.pieces)),
  )

  abbrev with_connection : Client → Client
  with_connection c = record c { base = record (c.base) { has_connection = true } }

  pub connect_and_talk_up :
      (x : Exchange) (c : Client)
      → x.connected ≡ true
      → connect_and_talk h j x c
        ≡ talk h j x (with_connection c) (
            get_unlock_info_packet h j x.draw x.sent_at (record (c.base) { has_connection = true }))
  unfolding connect_and_talk
  connect_and_talk_up x c e = λ i.
      if e i
      then talk h j x (with_connection c)
          (get_unlock_info_packet h j x.draw x.sent_at (record (c.base) { has_connection = true }))
      else done (hang_up (fail c))
    where
      fail : Client → Client
      fail c = record c { base = record (c.base) { unlock_state = UnlockState.connect_error } }

  connect_and_talk_down :
      (x : Exchange) (c : Client)
      → x.connected ≡ false
      → connect_and_talk h j x c
        ≡ done (
            hang_up
              (record c { base = record (c.base) { unlock_state = UnlockState.connect_error } }))
  unfolding connect_and_talk
  connect_and_talk_down x c e = λ i.
      if e i
      then talk h j x (with_connection c)
          (get_unlock_info_packet h j x.draw x.sent_at (record (c.base) { has_connection = true }))
      else done (
          hang_up
            (record c { base = record (c.base) { unlock_state = UnlockState.connect_error } }))

  -- The packet of the client is written behind its buffer.
  abbrev pub Overflows : Exchange → Client → Type 0
  Overflows x c =
      (x.connected ≡ true)
      × (get_unlock_info_packet h j x.draw x.sent_at (record (c.base) { has_connection = true })
          ≡ corrupt)

  connect_and_talk-ClosedOnce :
      (fd : ℕ) (x : Exchange) (c : Client)
      → c.client_socket ≡ some fd
      → (Overflows x c × (connect_and_talk h j x c ≡ overflow))
        ⊎ ((d : Client) × (connect_and_talk h j x c ≡ done d) × ClosedOnce fd c d)
  connect_and_talk-ClosedOnce fd x c e = elim (Bool-cases x.connected) [
    | inr down ↦ inr (
      _,
      connect_and_talk_down x c down,
      hang_up-ClosedOnce fd
          (record c { base = record (c.base) { unlock_state = UnlockState.connect_error } }) e
          (λ s. cc),
    )
    | inl up ↦
        elim (talk-ClosedOnce fd x (with_connection c)
          (get_unlock_info_packet h j x.draw x.sent_at (record (c.base) { has_connection = true }))
          e) [
            | inl (bad, run) ↦ inl ((up, bad), connect_and_talk_up x c up ∙ run)
            | inr (d, run, once) ↦ inr (d, connect_and_talk_up x c up ∙ run, once)
          ]
  ]

  -- The descriptors that a thread opens.
  abbrev pub descriptors : Bool → Option ℕ → List ℕ
  descriptors go none = []
  descriptors false (some fd) = []
  descriptors true (some fd) = fd ∷ []

  -- How a thread ends: where the packet for the phone overflows its buffer the run is undefined;
  -- else the thread has stopped, decided the state and closed what it opened.
  abbrev pub Ends : Bool → Option ℕ → Exchange → Client → Outcome Client → Type 0
  Ends go opened x c run =
      ((go ≡ true) × (is_open opened ≡ true) × Overflows x c × (run ≡ overflow))
      ⊎ ((d : Client) × (run ≡ done d) × Ended d × (d.closed ≡ descriptors go opened ++ c.closed))

  talked-Ends :
      (fd : ℕ) (x : Exchange) (c : Client)
      → Ends true (some fd) x c (connect_and_talk h j x (record c { client_socket = some fd }))
  talked-Ends fd x c =
      elim (connect_and_talk-ClosedOnce fd x (record c { client_socket = some fd }) refl) [
        | inl (bad, run) ↦ inl (refl, refl, bad, run)
        | inr (d, run, once) ↦ inr (d, run, once.0, once.1)
      ]

  -- However the connection of a TCP client goes, its thread ends with m_IsRunning false, no open
  -- socket and a decided state, and has closed every descriptor that it opened once, unless the
  -- packet for the phone is written behind its buffer: then, and only with a connection, the run is
  -- undefined. The conditions are that the client has no socket at first, that Stop is not called
  -- meanwhile, and that the texts of the packet are UTF-8.
  pub connect_thread-Ended :
      (valid_ip : Bool) (opened : Option ℕ) (x : Exchange) (c : Client)
      → c.client_socket ≡ none
      → Ends valid_ip opened x c (connect_thread h j valid_ip opened x c)
  unfolding connect_thread
  connect_thread-Ended false none x c e =
      inr (_, refl, record { stopped = refl; no_socket = e; decided = λ s. cc }, refl)
  connect_thread-Ended false (some fd) x c e =
      inr (_, refl, record { stopped = refl; no_socket = e; decided = λ s. cc }, refl)
  connect_thread-Ended true none x c e =
      inr (_, refl, record { stopped = refl; no_socket = refl; decided = λ s. cc }, refl)
  connect_thread-Ended true (some fd) x c e = talked-Ends fd x c

  bt_connect_from-Ended :
      (go : Bool) (opened : Option ℕ) (x : Exchange) (c : Client)
      → c.client_socket ≡ none
      → Ends go opened x c (bt_connect_from h j go opened x c)
  unfolding bt_connect_from
  bt_connect_from-Ended false none x c e =
      inr (_, refl, record { stopped = refl; no_socket = e; decided = λ s. cc }, refl)
  bt_connect_from-Ended false (some fd) x c e =
      inr (_, refl, record { stopped = refl; no_socket = e; decided = λ s. cc }, refl)
  bt_connect_from-Ended true none x c e =
      inr (_, refl, record { stopped = refl; no_socket = refl; decided = λ s. cc }, refl)
  bt_connect_from-Ended true (some fd) x c e = talked-Ends fd x c

  -- The same of a Bluetooth client, on Linux, where the channel is looked up first, and on Windows.
  pub bt_connect_thread-Ended :
      (channel opened : Option ℕ) (x : Exchange) (c : Client)
      → c.client_socket ≡ none
      → Ends (h.windows || is_open channel) opened x c (bt_connect_thread h j channel opened x c)
  unfolding bt_connect_thread
  bt_connect_thread-Ended channel opened x c e =
      bt_connect_from-Ended (h.windows || is_open channel) opened x c e
