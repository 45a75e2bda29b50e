-- ===== src/Handler/Result.antt =====
-- UnlockResult of common-cpp/src/handler/UnlockHandler.h.
use pcbu_natives_old.Prelude.{[]}
use pcbu_natives_old.Prelude.Texts.{Bytes}
use pcbu_natives_old.UnlockState.{UnlockState}
use pcbu_natives_old.Storage.PairedDevice.{PairedDevice, tcp}

pub record UnlockResult : Type 0 where
  pub state : UnlockState
  pub device : PairedDevice
  pub password : Bytes

-- `PairedDevice device{}`
abbrev pub no_device : PairedDevice
no_device = record {
  pairing_id = [];
  pairing_method = tcp;
  device_name = [];
  user_name = [];
  encryption_key = [];
  ip_address = [];
  bluetooth_address = [];
  cloud_token = [];
}

-- The constructor from a state; with UNKNOWN it is the default one.
abbrev pub of_state : UnlockState → UnlockResult
of_state state = record { state = state; device = no_device; password = [] }
