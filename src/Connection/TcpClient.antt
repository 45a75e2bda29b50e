-- ===== src/Connection/TcpClient.antt =====
-- TCPUnlockClient::ConnectThread.
use pcbu_natives_old.Prelude.{ℕ, Bool, not, Option, none, some, if◌then◌else◌}
use pcbu_natives_old.UnlockState.{UnlockState}
use pcbu_natives_old.Storage.Json.{Json}
use pcbu_natives_old.Crypt.Packet.{Host}
use pcbu_natives_old.Crypt.Memory.{Outcome, done}
use pcbu_natives_old.Connection.Client.{Client, Exchange, fail_with, connect_and_talk}

-- `valid_ip` is whether inet_pton accepts the address, and `opened` the descriptor of `socket`.
unfoldable pub connect_thread :
    (h : Host) (j : Json) → Bool → Option ℕ → Exchange → Client → Outcome Client
connect_thread h j valid_ip opened x c =
    if not valid_ip then done (fail_with UnlockState.unk_error c) else elim opened [
      | none ↦ done (fail_with UnlockState.unk_error (record c { client_socket = none }))
      | some fd ↦ connect_and_talk h j x (record c { client_socket = some fd })
    ]
