-- ===== src/Connection/BtClient.antt =====
-- common-cpp/src/connection/clients/BTUnlockClient.cpp: the Linux and Windows builds.
use pcbu_natives_old.Prelude.{ℕ, Bool, true, false, ◌||◌, Option, none, some}
use pcbu_natives_old.UnlockState.{UnlockState}
use pcbu_natives_old.Storage.Json.{Json}
use pcbu_natives_old.Crypt.Packet.{Host}
use pcbu_natives_old.Crypt.Memory.{Outcome, done}
use pcbu_natives_old.Prelude.{List}
use pcbu_natives_old.Prelude.Texts.{Bytes}
use pcbu_natives_old.Connection.Server.{UnlockServer}
use pcbu_natives_old.Connection.Socket.{Written, read_packet, write_packet}
use pcbu_natives_old.Connection.Client.{
  Client, Exchange, is_open, fail_with, connect_and_talk, new_client, start, stop,
}

-- After the look-up of the channel; `opened` is the descriptor of `socket`.
unfoldable pub bt_connect_from :
    (h : Host) (j : Json) → Bool → Option ℕ → Exchange → Client → Outcome Client
bt_connect_from h j false opened x c = done (fail_with UnlockState.connect_error c)
bt_connect_from h j true opened x c = elim opened [
  | none ↦ done (fail_with UnlockState.unk_error (record c { client_socket = none }))
  | some fd ↦ connect_and_talk h j x (record c { client_socket = some fd })
]

-- `channel` is what FindChannelSDP finds, `none` for -1; Windows does not look for it.
unfoldable pub bt_connect_thread :
    (h : Host) (j : Json) → Option ℕ → Option ℕ → Exchange → Client → Outcome Client
bt_connect_thread h j channel opened x c =
    bt_connect_from h j (h.windows || is_open channel) opened x c

-- BTUnlockClient has its own copy of what TCPUnlockClient does, statement by statement: the
-- constructor, Start, Stop, ReadPacket and WritePacket.
unfoldable pub new_bt_client : UnlockServer → Client
unfolding new_client
new_bt_client base = new_client base

unfoldable pub bt_start : Host → Bool → Client → Client × Bool
unfolding start
bt_start h wsa c = start h wsa c

unfoldable pub bt_stop : Client → Client
unfolding stop
bt_stop c = stop c

unfoldable pub bt_read_packet : List Bytes → Bytes
unfolding read_packet
bt_read_packet pieces = read_packet pieces

unfoldable pub bt_write_packet : List ℕ → Bytes → Written
unfolding write_packet
bt_write_packet results payload = write_packet results payload
