-- ===== src/Pam/Login.antt =====
-- A whole login: the thread of a TCP client (common-cpp/src/connection/clients), RunServer
-- (common-cpp/src/handler/UnlockHandler.cpp) on its server object, and the main function of pcbu_auth
-- (pam-pcbiounlock/pcbu-auth/src/main.cpp).
use pcbu_natives_old.Prelude.{◌≡◌}
use pcbu_natives_old.UnlockState.{UnlockState}
use pcbu_natives_old.Storage.PairedDevice.{PairedDevice}
use pcbu_natives_old.Storage.Json.{Json}
use pcbu_natives_old.Crypt.Memory.{Outcome, failed, overflow, done}
use pcbu_natives_old.Connection.Client.{Client}

-- The client of an outcome has the device.
abbrev Keeps : PairedDevice → Outcome Client → Type 0
Keeps device (done d) = d.base.paired_device ≡ device
Keeps device failed = Unit
Keeps device overflow = Unit

-- The client as its thread leaves it.
abbrev pub ended_client : Outcome Client → Client → Client
ended_client (done d) c = d
ended_client _ c = c
