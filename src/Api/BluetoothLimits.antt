-- ===== src/Api/BluetoothLimits.antt =====
-- The limits of what common-cpp/src/api/bt_api.cpp writes on Windows, and its pairing.
use pcbu_natives_old.Prelude.{
  ℕ, zero, suc, ◌+◌, ◌<◌, ◌≤◌, ◌≡◌, refl, ap, sym, ◌∙◌, subst, ◌⊎◌, inl, inr, ◌↔◌, true, false,
  Bool-cases, none, some, List, [], ◌∷◌, ◌++◌, append_assoc, append-nil, arith, ltb, leb, length,
  length-append, take, All,
}
use pcbu_natives_old.Prelude.Texts.{Bytes, bytes_eq, bytes_eq-eq, bytes_eq_refl}
use pcbu_natives_old.Crypt.Memory.{done, overflow}
use pcbu_natives_old.Api.Bluetooth.{
  BluetoothDevice, device_limit, strcpy_s, write_device, scan_windows, paired_windows, scanned,
  bt_scan_devices_windows, bt_get_paired_devices_windows, find_device, bt_pair_device_windows,
}

-- A device whose texts fit the two fields.
abbrev pub Fits : BluetoothDevice → Type 0
Fits d = (length d.name < 255) × (length d.address < 18)

write_device-Fits :
    (written : List BluetoothDevice) (d : BluetoothDevice)
    → Fits d
    → length written < device_limit
    → write_device device_limit written d ≡ done (written ++ d ∷ [])
unfolding write_device strcpy_s
write_device-Fits written d (n, a) room =
    let fits : ltb (length written) device_limit ≡ true = ground arith in
    let name : ltb (length d.name) 255 ≡ true = ground arith in
    let address : ltb (length d.address) 18 ≡ true = ground arith in rw (fits, name, address) refl

write_device_full :
    (written : List BluetoothDevice) (d : BluetoothDevice)
    → ltb (length written) device_limit ≡ false
    → write_device device_limit written d ≡ overflow
unfolding write_device
write_device_full written d full = rw full refl

scan_windows-take :
    (ds written : List BluetoothDevice) (left : ℕ)
    → All Fits ds
    → length written + left ≡ device_limit
    → scan_windows ds written ≡ done (written ++ take left ds)
unfolding scan_windows
scan_windows-take [] written zero h e = ap done (sym (append-nil written))
scan_windows-take [] written (suc left) h e = ap done (sym (append-nil written))
scan_windows-take (d ∷ ds) written zero h e =
    let full : leb device_limit (length written) ≡ true = ground arith in
    rw full (ap done (sym (append-nil written)))
scan_windows-take (d ∷ ds) written (suc left) h e =
    let more : leb device_limit (length written) ≡ false = ground arith in
    let next = write_device-Fits written d h.0 (omega arith) in
    let rest =
      scan_windows-take ds (written ++ d ∷ []) left h.1
        (omega (arith, length-append written (d ∷ []))) in
    rw (more, next) (rest ∙ ap done (append_assoc written (d ∷ []) (take left ds)))

-- The scan on Windows writes nothing out of its array: it gives the first twenty devices found, in
-- their order, and as many as there are if there are fewer. The condition is that their texts fit
-- the two fields.
pub bt_scan_devices_windows-take :
    (found : List BluetoothDevice)
    → All Fits found
    → bt_scan_devices_windows true true true found ≡ done (scanned (take device_limit found))
unfolding bt_scan_devices_windows
bt_scan_devices_windows-take found h = rw (scan_windows-take found [] device_limit h refl) refl

-- What the loop over the paired devices comes to.
abbrev AllOrOverflow : List BluetoothDevice → List BluetoothDevice → Type 0
AllOrOverflow ds written =
    ((length written + length ds ≤ device_limit)
      × (paired_windows ds written ≡ done (written ++ ds)))
    ⊎ ((device_limit < length written + length ds) × (paired_windows ds written ≡ overflow))

paired_windows-AllOrOverflow :
    (ds written : List BluetoothDevice)
    → All Fits ds
    → length written ≤ device_limit
    → AllOrOverflow ds written
unfolding paired_windows
paired_windows-AllOrOverflow [] written h few =
    inl (omega (arith, few), ap done (sym (append-nil written)))
paired_windows-AllOrOverflow (d ∷ ds) written h few =
    elim (Bool-cases (ltb (length written) device_limit)) [
      | inr full ↦ inr (ground (arith, full, few), rw (write_device_full written d full) refl)
      | inl room ↦
          let longer : length (written ++ d ∷ []) ≡ length written + 1 =
            length-append written (d ∷ []) in
          let next = write_device-Fits written d h.0 (ground (arith, room)) in
          let joined : (written ++ d ∷ []) ++ ds ≡ written ++ d ∷ ds =
            append_assoc written (d ∷ []) ds in
          rw (next)
            (elim (paired_windows-AllOrOverflow ds (written ++ d ∷ []) h.1
              (ground (arith, room, longer))) [
                | inl (fits, e) ↦ inl (omega (arith, fits, longer), e ∙ ap done joined)
                | inr (more, e) ↦ inr (omega (arith, more, longer), e)
              ])
    ]

-- The list of the paired devices on Windows has no such limit: with up to twenty devices the call
-- gives all of them, and with more it writes behind the end of its array. The condition is that the
-- texts fit the two fields.
pub bt_get_paired_devices_windows-limit :
    (found : List BluetoothDevice)
    → All Fits found
    → ((length found ≤ device_limit)
        × (bt_get_paired_devices_windows true (some found) ≡ done (scanned found)))
      ⊎ ((device_limit < length found)
          × (bt_get_paired_devices_windows true (some found) ≡ overflow))
unfolding bt_get_paired_devices_windows
bt_get_paired_devices_windows-limit found h =
    elim (paired_windows-AllOrOverflow found [] h (omega arith)) [
      | inl (fits, e) ↦ inl (omega (arith, fits), rw e refl)
      | inr (more, e) ↦ inr (omega (arith, more), rw e refl)
    ]

-- A device of the search.
abbrev Found : Bytes → List Bytes → Type 0
Found address [] = ⊥
Found address (a ∷ found) = (a ≡ address) ⊎ Found address found

bytes_eq_differs : (a b : Bytes) → bytes_eq a b ≡ false → a ≡ b → ⊥
bytes_eq_differs a b differs same =
    let equal = subst (λ c. bytes_eq c b ≡ true) (sym same) (bytes_eq_refl b) in absurd cc

find_device-Found :
    (address : Bytes) (found : List Bytes)
    → ((Found address found) × (find_device address found ≡ some address))
      ⊎ ((Found address found → ⊥) × (find_device address found ≡ none))
unfolding find_device
find_device-Found address [] = inr ((λ h. h), refl)
find_device-Found address (a ∷ found) = elim (Bool-cases (bytes_eq a address)) [
  | inl hit ↦ let same = bytes_eq-eq a address hit in inl (inl same, rw hit (ap some same))
  | inr miss ↦ elim (find_device-Found address found) [
    | inl (h, e) ↦ inl (inr h, rw miss e)
    | inr (h, e) ↦ inr (
      (λ f. elim f [ inl same ↦ bytes_eq_differs a address miss same | inr later ↦ h later ]),
      rw miss e,
    )
  ]
]

-- BluetoothAuthenticateDevice says that the device is paired.
abbrev pub IsAccepted : ℕ → Type 0
IsAccepted result = (result ≡ 0) ⊎ (result ≡ 259)

-- Pairing on Windows succeeds exactly if the search finds a device with the address and
-- BluetoothAuthenticateDevice accepts it.
pub bt_pair_device_windows_iff :
    (address : Bytes) (found : List Bytes) (authenticate : Bytes → ℕ)
    → (bt_pair_device_windows address (some found) authenticate ≡ true)
      ↔ (Found address found × IsAccepted (authenticate address))
unfolding bt_pair_device_windows
bt_pair_device_windows_iff address found authenticate = elim (find_device-Found address found) [
  | inl (h, e) ↦
      rw (e, bt_pair_device_windows)
        ((λ t. (h, ground (arith, t))), (λ (f, ok). ground (arith, ok)))
  | inr (h, e) ↦ rw (e, bt_pair_device_windows) ((λ t. absurd cc), (λ (f, ok). absurd (h f)))
]
