-- ===== src/Win/Listener.antt =====
-- CUnlockListener of win-pcbiounlock/src/CUnlockListener.cpp: the thread that waits for a phone while
-- a tile is selected.
pub mod Lifecycle
pub mod Waiting
use Prim.Native.String.{String}
use pcbu_natives_old.Prelude.{
  ℕ, zero, suc, Bool, true, false, Option, none, some, List, [], ◌∷◌, ◌++◌, map, ◌==◌, ◌&&◌, ◌||◌,
  not, if◌then◌else◌, length,
}
use pcbu_natives_old.Prelude.Texts.{Bytes, bytes_eq}
use pcbu_natives_old.Utils.Split.{split_string}
use pcbu_natives_old.Storage.AppStorage.{PcbuAppSettings}
use pcbu_natives_old.Storage.PairedDevice.{PairedDevice, PairingMethod, tcp, bluetooth, cloud_tcp}
use pcbu_natives_old.Handler.Result.{UnlockResult}
use pcbu_natives_old.Win.Kerb.{UsageScenario}
use mathlib.Core.Option

-- What the thread has the tile, the handler and the provider do: a message by its key,
-- UnlockHandler::GetResult for a user, SetUnlockData and UpdateCredsStatus.
pub data ListenEffect : Type 0 where
  show_message : String → ListenEffect
  get_result : Bytes → ListenEffect
  set_data : UnlockResult → ListenEffect
  update_status : ListenEffect

-- One round of the wait for the network: m_IsRunning, IsNetworkAlive with GetLastError after it,
-- and whether the two keys are down.
pub record NetworkRound : Type 0 where
  pub running : Bool
  pub alive : Bool
  pub last_error : ℕ
  pub control_down : Bool
  pub menu_down : Bool

-- One round of the wait for a key: m_IsRunning, and the keys that are down.
pub record KeyRound : Type 0 where
  pub running : Bool
  pub down : ℕ → Bool

abbrev pub key_range : ℕ
key_range = 166

-- GetAllKeyState: the bytes from key `i` on.
unfoldable pub get_all_key_state : (ℕ → Bool) → ℕ → ℕ → List ℕ
get_all_key_state down i zero = []
get_all_key_state down i (suc len) = (if down i then 1 else 0) ∷ get_all_key_state down (suc i) len

-- The two loops; `false` where they still wait after the last round.
unfoldable pub wait_network : List NetworkRound → Bool
wait_network [] = false
wait_network (r ∷ rs) =
    if not r.running || ((r.alive && r.last_error == 0) || (r.control_down && r.menu_down))
    then true
    else wait_network rs

unfoldable pub wait_key : List ℕ → List KeyRound → Bool
unfolding get_all_key_state
wait_key last_keys [] = false
wait_key last_keys (r ∷ rs) =
    if not r.running || not (bytes_eq (get_all_key_state r.down 0 key_range) last_keys)
    then true
    else wait_key last_keys rs

abbrev pub needs_network : PairingMethod → Bool
needs_network tcp = true
needs_network cloud_tcp = true
needs_network bluetooth = false

-- std::any_of
unfoldable pub wait_for_network : List PairedDevice → Bool
wait_for_network [] = false
wait_for_network (d ∷ ds) = needs_network d.pairing_method || wait_for_network ds

abbrev pub waits_in : UsageScenario → Bool
waits_in UsageScenario.logon = true
waits_in UsageScenario.unlock_workstation = true
waits_in _ = false

-- What the thread sees: the user's name as Utils::WideStringToString gives it, the settings, the
-- devices, the rounds of the two waits with the keys down at the start, and the handler's result.
pub record Surroundings : Type 0 where
  pub usage : UsageScenario
  pub user_domain : Bytes
  pub settings : PcbuAppSettings
  pub devices : List PairedDevice
  pub network : List NetworkRound
  pub keys_down : ℕ → Bool
  pub keys : List KeyRound
  pub result : UnlockResult

-- The part after `// Unlock`.
abbrev pub unlock_part : Surroundings → List ListenEffect
unlock_part s = get_result s.user_domain ∷ set_data s.result ∷ update_status ∷ []

abbrev pub prefixed : List ListenEffect → Option (List ListenEffect) → Option (List ListenEffect)
prefixed effects = Option.map (λ rest. effects ++ rest)

-- The wait for a key press and what follows.
unfoldable pub key_part : Surroundings → Option (List ListenEffect)
unfolding wait_key get_all_key_state
key_part s =
    if s.settings.wait_for_key_press
    then (if wait_key (get_all_key_state s.keys_down 0 key_range) s.keys
        then some (show_message "wait_key_press" ∷ unlock_part s)
        else none)
    else some (unlock_part s)

-- The wait for the network and what follows.
unfoldable pub network_part : Surroundings → Option (List ListenEffect)
unfolding wait_network wait_for_network key_part
network_part s =
    if waits_in s.usage
    then (if wait_for_network s.devices
        then (if wait_network s.network
            then prefixed (show_message "wait_network" ∷ []) (key_part s)
            else none)
        else key_part s)
    else some (unlock_part s)

abbrev pub is_two : Option (List Bytes) → Bool
is_two none = false
is_two (some parts) = length parts == 2

-- ListenThread: what it does, in order, and `none` while it still waits after the last round.
unfoldable pub listen_thread : Surroundings → Option (List ListenEffect)
unfolding network_part
listen_thread s = prefixed (show_message "initializing" ∷ []) (
    if is_two (split_string s.user_domain 92)
    then network_part s
    else some (show_message "error_invalid_user" ∷ []))
