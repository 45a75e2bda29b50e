-- ===== src/Connection/TcpServer.antt =====
-- common-cpp/src/connection/servers/TCPUnlockServer.cpp and TCPUnlockServer.h: the PC waits for the
-- phone.
use pcbu_natives_old.Prelude.{
  ℕ, Bool, true, false, not, ◌&&◌, Option, none, some, List, [], ◌∷◌, if◌then◌else◌, take,
}
use pcbu_natives_old.Prelude.Texts.{Bytes}
use pcbu_natives_old.UnlockState.{UnlockState}
use pcbu_natives_old.Storage.Json.{Json}
use pcbu_natives_old.Crypt.Packet.{Host}
use pcbu_natives_old.Connection.Server.{UnlockServer, on_response_received}

-- A descriptor is `none` for 0. A call that fails with -1 leaves that in the member; no code reads it
-- again, since the thread has ended or not begun and Stop then returns at once. `closed` are the descriptors closed so far.
pub record TcpServer : Type 0 where
  pub base : UnlockServer
  pub server_socket : Option ℕ
  pub client_socket : Option ℕ
  pub closed : List ℕ
  pub has_thread : Bool

unfoldable pub new_tcp_server : UnlockServer → TcpServer
new_tcp_server base = record {
  base = record base {
    is_running = false;
    has_connection = false;
    unlock_state = UnlockState.unknown;
    response_data = record { unlock_token = []; password = [] };
  };
  server_socket = none;
  client_socket = none;
  closed = [];
  has_thread = false;
}

-- What the calls of Start return: the descriptor of `socket`, and whether each of the others succeeds.
pub record Listening : Type 0 where
  pub wsa : Bool
  pub socket : Option ℕ
  pub options_set : Bool
  pub bound : Bool
  pub listens : Bool

unfoldable pub start_server : Host → Listening → TcpServer → TcpServer × Bool
start_server h l s =
    if s.base.is_running
    then (s, true)
    else if h.windows && not l.wsa
    then (s, false)
    else (let opened = record s { server_socket = l.socket } in
        elim l.socket [
          | none ↦ (opened, false)
          | some fd ↦
              if l.options_set && (l.bound && l.listens)
              then (
                record opened { base = record (s.base) { is_running = true }; has_thread = true },
                true,
              )
              else (opened, false)
        ])

-- SAFE_CLOSE of either descriptor.
unfoldable pub close_client : TcpServer → TcpServer
close_client s = elim s.client_socket [
  | none ↦ s
  | some fd ↦ record s { client_socket = none; closed = fd ∷ s.closed }
]

unfoldable pub close_server : TcpServer → TcpServer
close_server s = elim s.server_socket [
  | none ↦ s
  | some fd ↦ record s { server_socket = none; closed = fd ∷ s.closed }
]

unfoldable pub stop_server : TcpServer → TcpServer
unfolding close_client close_server
stop_server s =
    if not s.base.is_running
    then s
    else (let shut = close_server (close_client s) in
        record shut {
          base = record (shut.base) { is_running = false; has_connection = false };
          has_thread = false;
        })

-- One round of the wait: what m_IsRunning is at its start, and what `select` returns.
pub data Select : Type 0 where
  error timeout ready : Select

-- How the wait ends: by an error, because the server was stopped or never saw a client (the status is
-- still 0), or with a client. `waiting` is a thread that is still in the loop.
pub data Wait : Type 0 where
  failed no_client connected waiting : Wait

unfoldable pub accept_wait : List (Bool × Select) → Wait
accept_wait [] = waiting
accept_wait ((false, s) ∷ rounds) = no_client
accept_wait ((true, error) ∷ rounds) = failed
accept_wait ((true, timeout) ∷ rounds) = accept_wait rounds
accept_wait ((true, ready) ∷ rounds) = connected

-- The end of a thread that has got no client.
abbrev pub give_up : TcpServer → TcpServer
give_up s = close_server (record s { base = record (s.base) { is_running = false } })

module _ (h : Host) (j : Json) where
  -- The client is connected; `answer` is what the one `read` gives, `none` for a result of 0 or -1.
  unfoldable pub serve : ℕ → Option Bytes → TcpServer → TcpServer
  serve now none s =
      close_server
        (close_client (record s { base = record (s.base) { unlock_state = UnlockState.canceled } }))
  serve now (some answer) s =
      close_server
        (close_client (record s { base = on_response_received h j now s.base (take 1024 answer) }))

  -- From the end of the wait on; `accepted` is the descriptor of `accept`, `none` for a negative one.
  unfoldable pub after_wait : Wait → Option ℕ → ℕ → Option Bytes → TcpServer → Option TcpServer
  after_wait waiting accepted now answer s = none
  after_wait failed accepted now answer s = some (give_up s)
  after_wait no_client accepted now answer s = some (give_up s)
  after_wait connected none now answer s = some (give_up s)
  after_wait connected (some fd) now answer s = some (
      serve now answer
        (record s { client_socket = some fd; base = record (s.base) { has_connection = true } }))

  -- `none` is a thread that has not ended.
  unfoldable pub accept_thread :
      List (Bool × Select) → Option ℕ → ℕ → Option Bytes → TcpServer → Option TcpServer
  accept_thread rounds accepted now answer s = after_wait (accept_wait rounds) accepted now answer s
