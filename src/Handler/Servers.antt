-- ===== src/Handler/Servers.antt =====
-- UnlockHandler::GetResult, up to the start of the threads: one server for each device.
use Prim.Native.String.{String}
use pcbu_natives_old.Prelude.{
  ℕ, ◌+◌, ◌≡◌, refl, ap, ◌⊎◌, inl, inr, false, List, [], ◌∷◌, map, length, All,
}
use pcbu_natives_old.Prelude.Texts.{Bytes}
use pcbu_natives_old.UnlockState.{UnlockState}
use pcbu_natives_old.Utils.Random.{Draws}
use pcbu_natives_old.Storage.AppStorage.{PcbuAppSettings}
use pcbu_natives_old.Storage.PairedDevice.{PairedDevice, PairingMethod, tcp, bluetooth, cloud_tcp}
use pcbu_natives_old.Connection.Server.{UnlockServer, new_server, set_unlock_info}
use pcbu_natives_old.Connection.Client.{Client, new_client}
use pcbu_natives_old.Connection.TcpServer.{TcpServer, new_tcp_server}
use pcbu_natives_old.Handler.Result.{UnlockResult, of_state}
use pcbu_natives_old.Handler.Threads.{Threads, start_threads}

-- The three classes, with the members that say where they connect to.
pub data AnyServer : Type 0 where
  tcp_client : (ip : Bytes) (port : ℕ) → Client → AnyServer
  bt_client : (device_address : Bytes) → Client → AnyServer
  tcp_server : (port : ℕ) → TcpServer → AnyServer

unfoldable pub base_of : AnyServer → UnlockServer
base_of (tcp_client ip port c) = c.base
base_of (bt_client device_address c) = c.base
base_of (tcp_server port s) = s.base

unfoldable pub with_info : Bytes → Bytes → AnyServer → AnyServer
with_info user program (tcp_client ip port c) =
    tcp_client ip port (record c { base = set_unlock_info c.base user program })
with_info user program (bt_client device_address c) =
    bt_client device_address (record c { base = set_unlock_info c.base user program })
with_info user program (tcp_server port s) =
    tcp_server port (record s { base = set_unlock_info s.base user program })

-- The `switch`.
unfoldable pub server_for :
    PcbuAppSettings → UnlockServer → PairedDevice → PairingMethod → AnyServer
server_for settings base device tcp = tcp_client device.ip_address 43298 (new_client base)
server_for settings base device bluetooth = bt_client device.bluetooth_address (new_client base)
server_for settings base device cloud_tcp =
    tcp_server settings.unlock_server_port (new_tcp_server base)

-- One round of the loop.
unfoldable pub make_server :
    PcbuAppSettings → Bytes → Bytes → UnlockServer → PairedDevice → AnyServer
unfolding with_info server_for
make_server settings user program base device =
    with_info user program (server_for settings base device device.pairing_method)

-- The loop over the devices; each server draws the 64 letters of its token.
unfoldable pub make_servers :
    PcbuAppSettings → Draws → ℕ → Bytes → Bytes → List PairedDevice → List AnyServer
make_servers settings draws draw user program [] = []
make_servers settings draws draw user program (device ∷ devices) =
    make_server settings user program (new_server draws draw device) device
    ∷ make_servers settings draws (draw + 64) user program devices

-- Without a server, the result and the message; else the threads.
unfoldable pub get_result_start : List AnyServer → (UnlockResult × String) ⊎ Threads
get_result_start [] = inl (of_state UnlockState.not_paired_error, "error_not_paired")
get_result_start (s ∷ servers) = inr (start_threads (length (s ∷ servers)))

-- Where a server connects to is what its own device and the settings say.
abbrev pub Reaches : PcbuAppSettings → PairedDevice → AnyServer → Type 0
Reaches settings d (tcp_client ip port c) =
    (d.pairing_method ≡ tcp) × (ip ≡ d.ip_address) × (port ≡ 43298)
Reaches settings d (bt_client device_address c) =
    (d.pairing_method ≡ bluetooth) × (device_address ≡ d.bluetooth_address)
Reaches settings d (tcp_server port s) =
    (d.pairing_method ≡ cloud_tcp) × (port ≡ settings.unlock_server_port)

-- A server that is ready to be started.
pub record Ready (settings : PcbuAppSettings) (user program : Bytes) (s : AnyServer) : Type 0 where
  pub reaches : Reaches settings (base_of s).paired_device s
  pub auth_user : (base_of s).auth_user ≡ user
  pub auth_program : (base_of s).auth_program ≡ program
  pub unknown : (base_of s).unlock_state ≡ UnlockState.unknown
  pub not_running : (base_of s).is_running ≡ false
  pub no_client : (base_of s).has_connection ≡ false

server_for-Ready :
    (settings : PcbuAppSettings) (user program : Bytes) (draws : Draws) (draw : ℕ)
    (device : PairedDevice) (method : PairingMethod)
    → device.pairing_method ≡ method
    → Ready settings user program
        (with_info user program (server_for settings (new_server draws draw device) device method))
      × ((base_of (
            with_info user program
              (server_for settings (new_server draws draw device) device method))).paired_device
          ≡ device)
unfolding server_for with_info base_of new_server new_client new_tcp_server set_unlock_info
server_for-Ready settings user program draws draw device tcp e = (
  record {
    reaches = (e, refl, refl);
    auth_user = refl;
    auth_program = refl;
    unknown = refl;
    not_running = refl;
    no_client = refl;
  },
  refl,
)
server_for-Ready settings user program draws draw device bluetooth e = (
  record {
    reaches = (e, refl);
    auth_user = refl;
    auth_program = refl;
    unknown = refl;
    not_running = refl;
    no_client = refl;
  },
  refl,
)
server_for-Ready settings user program draws draw device cloud_tcp e = (
  record {
    reaches = (e, refl);
    auth_user = refl;
    auth_program = refl;
    unknown = refl;
    not_running = refl;
    no_client = refl;
  },
  refl,
)

-- GetResult makes one server for each device, in their order: a TCP client to the device's address and
-- port 43298, a Bluetooth client to its Bluetooth address, or a TCP server on the port of the settings,
-- as the device's pairing method says; each carries the user and the program, is not running, has no
-- client, and is undecided.
pub make_servers-Ready :
    (settings : PcbuAppSettings) (draws : Draws) (draw : ℕ) (user program : Bytes)
    (devices : List PairedDevice)
    → (map (λ s. (base_of s).paired_device) (make_servers settings draws draw user program devices)
        ≡ devices)
      × All (Ready settings user program) (make_servers settings draws draw user program devices)
unfolding make_servers make_server
make_servers-Ready settings draws draw user program [] = (refl, tt)
make_servers-Ready settings draws draw user program (d ∷ ds) =
    let (ready, own) = server_for-Ready settings user program draws draw d d.pairing_method refl in
    let (rest, all) = make_servers-Ready settings draws (draw + 64) user program ds in
    (rw own (ap (◌∷◌ d) rest), (ready, all))
