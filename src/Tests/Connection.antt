-- ===== src/Tests/Connection.antt =====
-- The connections at concrete inputs.
use pcbu_natives_old.Prelude.{
  ℕ, ◌≡◌, ◌≢◌, ◌↔◌, refl, true, false, none, some, List, [], ◌∷◌, ◌++◌, arith, length, replicate,
}
use pcbu_natives_old.Prelude.Texts.{Bytes}
use pcbu_natives_old.UnlockState.{UnlockState}
use pcbu_natives_old.Crypt.Clock.{reverse_bytes}
use pcbu_natives_old.Crypt.Memory.{done, write_at}
use pcbu_natives_old.Crypt.Aes.{c_str, start_cipher, generate_key, seal, encrypt_aes}
use pcbu_natives_old.Crypt.Packet.{
  ok, zeroed, stamp, finish_encrypt, encrypt_aes_packet, decrypt_aes_packet, packet_timeout,
}
use pcbu_natives_old.Crypt.RoundTrip.{receiver}
use pcbu_natives_old.Connection.Socket.{read_packet, write_loop, write_packet, length_bytes}
use pcbu_natives_old.Connection.Framing.{Delivers, read_packet-frame}
use pcbu_natives_old.Connection.Writing.{read_packet-write_packet}
use pcbu_natives_old.Connection.Server.{
  UnlockServer, UnlockResponseData, text, server_data, wrap_packet, get_unlock_info_packet,
  read_response, on_response_received,
}
use pcbu_natives_old.Connection.Answers.{Answers, on_response_received-success}
use pcbu_natives_old.Connection.Client.{Client, Exchange}
use pcbu_natives_old.Connection.TcpClient.{connect_thread}
use pcbu_natives_old.Connection.TcpServer.{
  TcpServer, Select, accept_wait, after_wait, accept_thread, close_server,
}
use pcbu_natives_old.Connection.Serving.{Served, accept_thread-Served}
use pcbu_natives_old.Connection.Endings.{Ends, connect_thread-Ended}
use pcbu_natives_old.Connection.Unlock.{connect_thread_unlocks}
use pcbu_natives_old.Handler.Result.{UnlockResult}
use pcbu_natives_old.Handler.RunServer.{Round}
use pcbu_natives_old.Handler.Loads.{success_of}
use pcbu_natives_old.Pam.Auth.{Accounts}
use pcbu_natives_old.Pam.Login.{ended_client}
use pcbu_natives_old.Tests.Samples.{
  sample_host, sample_json, sample_ssl-IsGcm, sample_device, packet_of,
}

abbrev token : Bytes
token = 50 ∷ 51 ∷ []

abbrev server : UnlockServer
server = record {
  is_running = true;
  has_connection = false;
  unlock_state = UnlockState.unknown;
  paired_device = sample_device;
  response_data = record { unlock_token = []; password = [] };
  auth_user = 3 ∷ [];
  auth_program = 2 ∷ [];
  unlock_token = token;
}

abbrev answer : UnlockResponseData
answer = record { unlock_token = token; password = token }

abbrev packet : Bytes
packet = packet_of (encrypt_aes_packet sample_host 0 1000 token (4 ∷ 4 ∷ []))

sealed : encrypt_aes_packet sample_host 0 1000 token (4 ∷ 4 ∷ []) ≡ ok packet
unfolding encrypt_aes_packet finish_encrypt zeroed stamp reverse_bytes encrypt_aes seal generate_key
    start_cipher c_str write_at
sealed = refl

on_response_received-success_example :
    ((on_response_received sample_host sample_json 1500 server packet).unlock_state
      ≡ UnlockState.success)
    ↔ ((dec_data : Bytes) × (response : UnlockResponseData) × (packet ≢ [])
        × (decrypt_aes_packet sample_host 1500 packet (4 ∷ 4 ∷ []) ≡ ok dec_data)
        × Answers sample_host sample_json server dec_data response
        × ((on_response_received sample_host sample_json 1500 server packet).response_data
            ≡ response))
on_response_received-success_example =
    on_response_received-success sample_host sample_json 1500 server packet

abbrev frame : List Bytes
frame = (0 ∷ []) ∷ (2 ∷ 50 ∷ []) ∷ (51 ∷ 7 ∷ []) ∷ []

frame-Delivers : Delivers frame
frame-Delivers = ((λ e. cc), ((λ e. cc), ((λ e. cc), tt)))

read_packet-write_packet_example : read_packet frame ≡ token
unfolding write_packet write_loop length_bytes
read_packet-write_packet_example =
    read_packet-write_packet (2 ∷ 2 ∷ []) token (7 ∷ []) frame refl (omega arith) (omega arith)
      frame-Delivers refl

read_packet-frame_example : read_packet frame ≡ token
unfolding length_bytes
read_packet-frame_example =
    read_packet-frame token (7 ∷ []) frame (omega arith) (omega arith) frame-Delivers refl

abbrev nothing : List ℕ
nothing = []

abbrev client : Client
client = record {
  base = server;
  client_socket = none;
  closed = [];
  sent = [];
  close_said = false;
  has_thread = true;
}

abbrev exchange : Exchange
exchange = record {
  connected = true;
  write_results = 100 ∷ 100 ∷ [];
  pieces = (length_bytes (length packet) ++ packet) ∷ [];
  draw = 0;
  sent_at = 900;
  answered_at = 1500;
}

connect_thread-Ended_example :
    Ends
      (receiver sample_host true false)
      sample_json
      true
      (some 5)
      exchange
      client
      (connect_thread (receiver sample_host true false) sample_json true (some 5) exchange client)
connect_thread-Ended_example =
    connect_thread-Ended (receiver sample_host true false) sample_json true (some 5) exchange client
      refl

-- The server listens on descriptor 4; its wait fails in the second round.
abbrev listening : TcpServer
listening = record {
  base = server;
  server_socket = some 4;
  client_socket = none;
  closed = [];
  has_thread = true;
}

abbrev gave_up : TcpServer
gave_up = record listening {
  base = record server { is_running = false };
  server_socket = none;
  closed = 4 ∷ [];
}

accept_thread-Served_example :
    Served sample_host sample_json
      ((true, Select.timeout) ∷ (true, Select.error) ∷ [])
      none
      none
      listening
      gave_up
unfolding accept_thread accept_wait after_wait close_server
accept_thread-Served_example =
    accept_thread-Served sample_host sample_json
      ((true, Select.timeout) ∷ (true, Select.error) ∷ []) none 0 none listening gave_up refl refl

info_lem :
    get_unlock_info_packet
      (receiver sample_host true false)
      sample_json
      0
      900
      (record server { has_connection = true })
    ≡ text (1 ∷ [])
unfolding get_unlock_info_packet server_data wrap_packet encrypt_aes_packet finish_encrypt zeroed
    stamp reverse_bytes encrypt_aes seal generate_key start_cipher c_str write_at
info_lem = refl

packet-Delivers : Delivers exchange.pieces
unfolding length_bytes
packet-Delivers = ((λ e. cc), tt)

connect_thread_unlocks_example :
    (d : Client) × (connect_thread
        (receiver sample_host true false)
        sample_json
        true
        (some 5)
        exchange
        client
      ≡ done d)
    × (d.base.unlock_state ≡ UnlockState.success)
    × (d.base.response_data ≡ answer)
unfolding packet_timeout read_response length_bytes
connect_thread_unlocks_example =
    connect_thread_unlocks sample_host true false sample_json 5 0 1000 exchange client (1 ∷ [])
      token packet (replicate 2 0) [] answer sample_ssl-IsGcm refl info_lem (λ e. cc) (omega arith)
      (omega arith) refl (omega arith) (omega arith) (omega arith) (omega arith) sealed refl refl
      packet-Delivers refl

-- The waiting loop sees the success at once.
abbrev polling : Round
polling = record {
  other_success = false;
  stopped = false;
  had_client = true;
  polled = UnlockState.success;
  has_client = true;
  now = 1600;
  left_ctrl = false;
  left_alt = false;
}

abbrev accounts : Accounts
accounts = record {
  passwd_of = λ user. some (9 ∷ []);
  shadow_of = λ user. none;
  crypt = λ password hash. 9 ∷ [];
}

-- The client after its thread, whose server has the answer.
abbrev ended : Client
ended =
    ended_client
      (connect_thread (receiver sample_host true false) sample_json true (some 5) exchange client)
      client

abbrev server_result : UnlockResult
server_result = success_of ended.base
