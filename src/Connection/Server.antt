-- ===== src/Connection/Server.antt =====
-- common-cpp/src/connection/BaseUnlockServer.cpp and BaseUnlockServer.h: the packet that goes to the
-- phone and the state that its answer leads to.
use pcbu_natives_old.Prelude.{ℕ, Bool, false, Option, none, some, [], ◌∷◌, if◌then◌else◌, ◌>>=◌}
use pcbu_natives_old.Prelude.Texts.{Bytes, codes, bytes_eq}
use pcbu_natives_old.UnlockState.{UnlockState}
use pcbu_natives_old.Storage.Json.{Json}
use pcbu_natives_old.Storage.PairedDevice.{PairedDevice}
use pcbu_natives_old.Utils.Hex.{to_hex_string}
use pcbu_natives_old.Utils.Random.{Draws, get_random_string}
use pcbu_natives_old.Crypt.Packet.{
  Host, PacketCryptResult, ok, invalid_timestamp, other_error, undefined, encrypt_aes_packet,
  decrypt_aes_packet,
}

pub record UnlockResponseData : Type 0 where
  pub unlock_token : Bytes
  pub password : Bytes

-- The members of BaseUnlockServer, but for the thread handle; `m_UserName` is never used.
pub record UnlockServer : Type 0 where
  pub is_running : Bool
  pub has_connection : Bool
  pub unlock_state : UnlockState
  pub paired_device : PairedDevice
  pub response_data : UnlockResponseData
  pub auth_user : Bytes
  pub auth_program : Bytes
  pub unlock_token : Bytes

-- The constructor, with the draws of its random token from number `draw` on.
unfoldable pub new_server : Draws → ℕ → PairedDevice → UnlockServer
new_server draws draw device = record {
  is_running = false;
  has_connection = false;
  unlock_state = UnlockState.unknown;
  paired_device = device;
  response_data = record { unlock_token = []; password = [] };
  auth_user = [];
  auth_program = [];
  unlock_token = get_random_string draws draw 64;
}

unfoldable pub set_unlock_info : UnlockServer → Bytes → Bytes → UnlockServer
set_unlock_info s user program = record s { auth_user = user; auth_program = program }

unfoldable pub get_device : UnlockServer → PairedDevice
get_device s = s.paired_device

unfoldable pub get_response_data : UnlockServer → UnlockResponseData
get_response_data s = s.response_data

unfoldable pub has_client : UnlockServer → Bool
has_client s = s.has_connection

unfoldable pub poll_result : UnlockServer → UnlockState
poll_result s = s.unlock_state

-- What GetUnlockInfoPacket returns: a text, or nothing sensible after a write out of bounds.
pub data InfoPacket : Type 0 where
  text : Bytes → InfoPacket
  corrupt : InfoPacket

module _ (h : Host) (j : Json) where
  -- The JSON that is encrypted, and the JSON that carries it.
  unfoldable pub server_data : UnlockServer → Bytes
  server_data s = j.dump (
      (codes "authUser", s.auth_user)
      ∷ (codes "authProgram", s.auth_program)
      ∷ (codes "unlockToken", s.unlock_token)
      ∷ [])

  unfoldable pub wrap_packet : UnlockServer → PacketCryptResult → InfoPacket
  wrap_packet s (ok enc_data) = text (
      j.dump (
        (codes "pairingId", s.paired_device.pairing_id)
        ∷ (codes "encData", to_hex_string h.malloc enc_data)
        ∷ []))
  wrap_packet s invalid_timestamp = text []
  wrap_packet s other_error = text []
  wrap_packet s undefined = corrupt

  unfoldable pub get_unlock_info_packet : ℕ → ℕ → UnlockServer → InfoPacket
  unfolding server_data wrap_packet
  get_unlock_info_packet draw now s =
      wrap_packet s (encrypt_aes_packet h draw now (server_data s) s.paired_device.encryption_key)

  -- A plain answer of the phone, if the packet is none that can be decrypted.
  unfoldable pub plain_answer : Bytes → UnlockState → UnlockState
  unfolding bytes_eq
  plain_answer resp_str otherwise =
      if bytes_eq resp_str (codes "CANCEL")
      then UnlockState.canceled
      else if bytes_eq resp_str (codes "NOT_PAIRED")
      then UnlockState.not_paired_error
      else if bytes_eq resp_str (codes "ERROR")
      then UnlockState.app_error
      else if bytes_eq resp_str (codes "TIME_ERROR")
      then UnlockState.time_error
      else otherwise

  -- The `try` block: `none` is an exception.
  unfoldable pub read_response : Bytes → Option UnlockResponseData
  read_response data_str = do
    json ← j.parse data_str
    token ← j.string_at json (codes "unlockToken")
    password ← j.string_at json (codes "password")
    some (record { unlock_token = token; password = password })

  unfoldable pub accept_response : UnlockServer → Option UnlockResponseData → UnlockServer
  accept_response s none = record s { unlock_state = UnlockState.data_error }
  accept_response s (some response) = record s {
    response_data = response;
    unlock_state =
        if bytes_eq response.unlock_token s.unlock_token
        then UnlockState.success
        else UnlockState.unk_error;
  }

  -- On what DecryptAESPacket returned; `undefined` goes the way of the `default` case.
  unfoldable pub on_decrypted : UnlockServer → Bytes → PacketCryptResult → UnlockServer
  on_decrypted s buffer (ok dec_data) = accept_response s (read_response dec_data)
  on_decrypted s buffer invalid_timestamp = record s {
    unlock_state = plain_answer buffer UnlockState.time_error;
  }
  on_decrypted s buffer other_error = record s {
    unlock_state = plain_answer buffer UnlockState.data_error;
  }
  on_decrypted s buffer undefined = record s {
    unlock_state = plain_answer buffer UnlockState.data_error;
  }

  -- At time `now`; a null buffer and one of size 0 are the empty text.
  unfoldable pub on_response_received : ℕ → UnlockServer → Bytes → UnlockServer
  on_response_received now s [] = record s { unlock_state = UnlockState.data_error }
  on_response_received now s (b ∷ buffer) =
      on_decrypted s (b ∷ buffer)
        (decrypt_aes_packet h now (b ∷ buffer) s.paired_device.encryption_key)
