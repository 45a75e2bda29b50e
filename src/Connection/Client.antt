-- ===== src/Connection/Client.antt =====
-- What TCPUnlockClient and BTUnlockClient have in common, in the words of both files: starting and
-- stopping the thread, and the exchange on a connected socket.
use pcbu_natives_old.Prelude.{
  ℕ, Bool, true, false, not, ◌&&◌, ◌||◌, Option, none, some, List, [], ◌∷◌, ◌++◌, if◌then◌else◌,
}
use pcbu_natives_old.Prelude.Texts.{Bytes}
use pcbu_natives_old.UnlockState.{UnlockState}
use pcbu_natives_old.Storage.Json.{Json}
use pcbu_natives_old.Crypt.Packet.{Host}
use pcbu_natives_old.Crypt.Memory.{Outcome, done, overflow}
use pcbu_natives_old.Connection.Socket.{read_packet, write_packet}
use pcbu_natives_old.Connection.Server.{
  UnlockServer, InfoPacket, text, corrupt, get_unlock_info_packet, on_response_received,
}

-- `client_socket` is `none` for -1. `closed` are the descriptors closed so far, `sent` the bytes of the
-- packets that went out, `close_said` whether Stop wrote "CLOSE", and `has_thread` whether the thread
-- handle holds a thread.
pub record Client : Type 0 where
  pub base : UnlockServer
  pub client_socket : Option ℕ
  pub closed : List ℕ
  pub sent : Bytes
  pub close_said : Bool
  pub has_thread : Bool

unfoldable pub new_client : UnlockServer → Client
new_client base = record {
  base = record base { is_running = false };
  client_socket = none;
  closed = [];
  sent = [];
  close_said = false;
  has_thread = false;
}

-- SAFE_CLOSE(m_ClientSocket)
unfoldable pub safe_close : Client → Client
safe_close c = elim c.client_socket [
  | none ↦ c
  | some fd ↦ record c { client_socket = none; closed = fd ∷ c.closed }
]

-- `wsa` is whether WSAStartup succeeds; other systems do not call it.
unfoldable pub start : Host → Bool → Client → Client × Bool
start h wsa c =
    if c.base.is_running
    then (c, true)
    else if h.windows && not wsa
    then (c, false)
    else (record c { base = record (c.base) { is_running = true }; has_thread = true }, true)

abbrev pub is_open : Option ℕ → Bool
is_open none = false
is_open (some fd) = true

-- The thread is joined at the end.
unfoldable pub stop : Client → Client
unfolding safe_close
stop c =
    if not c.base.is_running
    then c
    else (let said = record c {
      close_said = c.close_said || is_open c.client_socket && c.base.has_connection;
    } in
        record (safe_close
          (record said { base = record (c.base) { is_running = false; has_connection = false } })) {
            has_thread = false;
          })

-- What the network does in one connection: whether `connect` succeeds, the results of the writes, the
-- pieces in which the answer arrives, and the times at which the packets are made and read.
pub record Exchange : Type 0 where
  pub connected : Bool
  pub write_results : List ℕ
  pub pieces : List Bytes
  pub draw : ℕ
  pub sent_at : ℕ
  pub answered_at : ℕ

-- The thread gives up with an error before it has talked to the phone.
abbrev pub fail_with : UnlockState → Client → Client
fail_with state c = record c { base = record (c.base) { is_running = false; unlock_state = state } }

-- The last three lines of ConnectThread.
unfoldable pub hang_up : Client → Client
unfolding safe_close
hang_up c =
    safe_close (record c { base = record (c.base) { is_running = false; has_connection = false } })

module _ (h : Host) (j : Json) where
  -- With a connection: the packet goes out, and the answer is taken in.
  unfoldable pub talk : Exchange → Client → InfoPacket → Outcome Client
  talk x c corrupt = overflow
  talk x c (text []) = done (safe_close (fail_with UnlockState.unk_error c))
  talk x c (text (b ∷ packet)) = done (
      hang_up (record c {
        base = on_response_received h j x.answered_at c.base (read_packet x.pieces);
        sent = c.sent ++ (write_packet x.write_results (b ∷ packet)).sent;
      }))

  -- From the call of `connect` on.
  unfoldable pub connect_and_talk : Exchange → Client → Outcome Client
  connect_and_talk x c =
      let connected = record c { base = record (c.base) { has_connection = true } } in
      if x.connected
      then talk x connected (get_unlock_info_packet h j x.draw x.sent_at connected.base)
      else done (
          hang_up
            (record c { base = record (c.base) { unlock_state = UnlockState.connect_error } }))
