-- ===== src/Api/Bluetooth.antt =====
-- common-cpp/src/api/bt_api.cpp: what the desktop app asks of Bluetooth. An `int` below zero is
-- `none`.
use pcbu_natives_old.Prelude.{
  ℕ, Bool, true, false, Option, none, some, List, [], ◌∷◌, ◌++◌, map, ltb, leb, ◌==◌, ◌&&◌, ◌||◌,
  if◌then◌else◌, length,
}
use pcbu_natives_old.Prelude.Texts.{Bytes, codes, bytes_eq}
use pcbu_natives_old.Crypt.Memory.{Outcome, done, failed, overflow, ◌>>=◌}

-- The texts in the two fields of BluetoothDevice.
pub record BluetoothDevice : Type 0 where
  pub name : Bytes
  pub address : Bytes

abbrev pub device_limit : ℕ
device_limit = 20

-- Windows: BluetoothFindFirstRadio finds one. Linux: hci_get_route and hci_open_dev succeed.
abbrev pub bt_is_available_windows : Option ℕ → Bool
bt_is_available_windows none = false
bt_is_available_windows (some radio) = true

abbrev pub bt_is_available_linux : Option ℕ → Option ℕ → Bool
bt_is_available_linux (some dev_id) (some sock) = true
bt_is_available_linux _ _ = false

-- strcpy_s to a field of `size` bytes: a text that does not fit with its NUL goes to the handler of
-- invalid parameters, which ends the program.
unfoldable pub strcpy_s : ℕ → Bytes → Outcome Bytes
strcpy_s size text = if ltb (length text) size then done text else failed

-- The two copies into entry `idx` of an array of `room` devices, of which the first `idx` are in
-- `written`.
unfoldable pub write_device :
    ℕ → List BluetoothDevice → BluetoothDevice → Outcome (List BluetoothDevice)
unfolding strcpy_s
write_device room written d =
    if ltb (length written) room
    then (strcpy_s 255 d.name >>= λ name. strcpy_s 18 d.address >>= λ address.
        done (written ++ record { name = name; address = address } ∷ []))
    else overflow

-- The loop of bt_scan_devices on Windows: what WSALookupServiceNextW finds, up to its first failure.
unfoldable pub scan_windows :
    List BluetoothDevice → List BluetoothDevice → Outcome (List BluetoothDevice)
unfolding write_device
scan_windows [] written = done written
scan_windows (d ∷ ds) written =
    let next = write_device device_limit written d in
    if leb device_limit (length written) then done written else (next >>= scan_windows ds)

-- The loop of bt_get_paired_devices on Windows: what BluetoothFindFirstDevice and
-- BluetoothFindNextDevice find.
unfoldable pub paired_windows :
    List BluetoothDevice → List BluetoothDevice → Outcome (List BluetoothDevice)
unfolding write_device
paired_windows [] written = done written
paired_windows (d ∷ ds) written = write_device device_limit written d >>= paired_windows ds

-- The answer: the devices, and *count. `memory` is malloc's, and the first arguments are what has to
-- succeed before it.
pub record Scan : Type 0 where
  pub devices : Option (List BluetoothDevice)
  pub count : ℕ

abbrev pub no_scan : Scan
no_scan = record { devices = none; count = 0 }

abbrev pub scanned : List BluetoothDevice → Scan
scanned ds = record { devices = some ds; count = length ds }

unfoldable pub bt_scan_devices_windows : Bool → Bool → Bool → List BluetoothDevice → Outcome Scan
unfolding scan_windows
bt_scan_devices_windows started lookup memory found =
    if started && (lookup && memory)
    then (scan_windows found [] >>= λ ds. done (scanned ds))
    else done no_scan

unfoldable pub bt_get_paired_devices_windows : Bool → Option (List BluetoothDevice) → Outcome Scan
unfolding paired_windows
bt_get_paired_devices_windows memory none = done no_scan
bt_get_paired_devices_windows memory (some found) =
    if memory then (paired_windows found [] >>= λ ds. done (scanned ds)) else done no_scan

-- On Linux: an inquiry response is its address as ba2str writes it, and its name, which is none
-- where hci_read_remote_name fails. The second malloc is not checked before memset writes to it.
abbrev pub remote_device : Bytes × Option Bytes → BluetoothDevice
remote_device (address, none) = record { name = codes "[unknown]"; address = address }
remote_device (address, some name) = record { name = name; address = address }

unfoldable pub bt_scan_devices_linux :
    Option ℕ → Option ℕ → Option (List (Bytes × Option Bytes)) → Bool → Outcome Scan
bt_scan_devices_linux none sock inquiry memory = done no_scan
bt_scan_devices_linux (some dev_id) none inquiry memory = done no_scan
bt_scan_devices_linux (some dev_id) (some sock) none memory = done no_scan
bt_scan_devices_linux (some dev_id) (some sock) (some []) memory = done no_scan
bt_scan_devices_linux (some dev_id) (some sock) (some (r ∷ rs)) memory =
    if memory then done (scanned (map remote_device (r ∷ rs))) else overflow

-- The search of bt_pair_device on Windows: the first device with the address.
unfoldable pub find_device : Bytes → List Bytes → Option Bytes
find_device address [] = none
find_device address (a ∷ found) = if bytes_eq a address then some a else find_device address found

-- `address` is what sscanf_s reads, `found` the devices of the search (`none` where it fails), and
-- `authenticate` BluetoothAuthenticateDevice: 0 is ERROR_SUCCESS, 259 ERROR_NO_MORE_ITEMS.
unfoldable pub bt_pair_device_windows : Bytes → Option (List Bytes) → (Bytes → ℕ) → Bool
unfolding find_device
bt_pair_device_windows address none authenticate = false
bt_pair_device_windows address (some found) authenticate = elim (find_device address found) [
  | none ↦ false
  | some device ↦ authenticate device == 0 || authenticate device == 259
]
