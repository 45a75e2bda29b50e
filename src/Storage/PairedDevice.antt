-- ===== src/Storage/PairedDevice.antt =====
-- common-cpp/src/storage/PairedDevice.cpp and PairedDevice.h.
use pcbu_natives_old.Prelude.{
  ◌≡◌, refl, ap, subst, ◌∙◌, ◌↔◌, ◌⊎◌, inl, inr, true, Option, none, some, List, [], ◌∷◌, ◌++◌, map,
  if◌then◌else◌, ◌>>=◌, Bool-cases, Option-cases,
}
use pcbu_natives_old.Prelude.Texts.{Bytes, codes, bytes_eq, bytes_eq-eq, bytes_eq_refl}
use pcbu_natives_old.Storage.Json.{Json}

pub data PairingMethod : Type 0 where
  tcp bluetooth cloud_tcp : PairingMethod

pub record PairedDevice : Type 0 where
  pub pairing_id : Bytes
  pub pairing_method : PairingMethod
  pub device_name : Bytes
  pub user_name : Bytes
  pub encryption_key : Bytes
  pub ip_address : Bytes
  pub bluetooth_address : Bytes
  pub cloud_token : Bytes

-- Any other text throws "Invalid pairing method."
read_method : Bytes → Option PairingMethod
unfolding bytes_eq
read_method s =
    if bytes_eq s (codes "TCP")
    then some tcp
    else if bytes_eq s (codes "BLUETOOTH")
    then some bluetooth
    else if bytes_eq s (codes "CLOUD_TCP")
    then some cloud_tcp
    else none

module _ (j : Json) where
  -- One round of the loop in GetDevices, up to `emplace_back`.
  unfoldable pub read_device : j.Value → Option PairedDevice
  unfolding read_method
  read_device entry = do
    pairing_id ← j.string_at entry (codes "pairingId")
    device_name ← j.string_at entry (codes "deviceName")
    user_name ← j.string_at entry (codes "userName")
    encryption_key ← j.string_at entry (codes "encryptionKey")
    ip_address ← j.string_at entry (codes "ipAddress")
    bluetooth_address ← j.string_at entry (codes "bluetoothAddress")
    cloud_token ← j.string_at entry (codes "cloudToken")
    method_str ← j.string_at entry (codes "pairingMethod")
    method ← read_method method_str
    some (record {
      pairing_id = pairing_id;
      pairing_method = method;
      device_name = device_name;
      user_name = user_name;
      encryption_key = encryption_key;
      ip_address = ip_address;
      bluetooth_address = bluetooth_address;
      cloud_token = cloud_token;
    })

  -- The loop: an exception ends it, and what it has pushed stays in `result`.
  unfoldable pub read_devices : List j.Value → List PairedDevice
  read_devices [] = []
  read_devices (entry ∷ rest) = elim (read_device entry) [
    | none ↦ []
    | some device ↦ device ∷ read_devices rest
  ]

  -- `file` is what the file holds, and empty if it cannot be opened.
  unfoldable pub get_devices : Bytes → List PairedDevice
  get_devices file = elim (j.parse file) [ none ↦ [] | some json ↦ read_devices (j.entries json) ]

-- The loop of GetDevicesForUser.
unfoldable pub select_user : List PairedDevice → Bytes → List PairedDevice
select_user [] user_name = []
select_user (device ∷ devices) user_name =
    if bytes_eq device.user_name user_name
    then device ∷ select_user devices user_name
    else select_user devices user_name

unfoldable pub get_devices_for_user : (j : Json) → Bytes → Bytes → List PairedDevice
get_devices_for_user j file user_name = select_user (get_devices j file) user_name

-- `device` stands in the list.
abbrev pub In : PairedDevice → List PairedDevice → Type 0
In device [] = ⊥
In device (d ∷ ds) = (device ≡ d) ⊎ In device ds

select_user_sound :
    (ds : List PairedDevice) (user : Bytes) (d : PairedDevice)
    → In d (select_user ds user)
    → In d ds × (d.user_name ≡ user)
unfolding select_user
select_user_sound [] user d h = absurd h
select_user_sound (x ∷ ds) user d h = elim (Bool-cases (bytes_eq x.user_name user)) [
  | inl hit ↦
      let found : (d ≡ x) ⊎ In d (select_user ds user) = rw (hit, select_user) at h in
      elim found [
        | inl e ↦ (inl e, ap (λ (y : PairedDevice). y.user_name) e ∙ bytes_eq-eq _ _ hit)
        | inr later ↦ let r = select_user_sound ds user d later in (inr r.0, r.1)
      ]
  | inr miss ↦ let r = select_user_sound ds user d (rw (miss, select_user) at h) in (inr r.0, r.1)
]

select_user_complete :
    (ds : List PairedDevice) (user : Bytes) (d : PairedDevice)
    → In d ds
    → d.user_name ≡ user
    → In d (select_user ds user)
unfolding select_user
select_user_complete [] user d h e = absurd h
select_user_complete (x ∷ ds) user d (inl same) e =
    let hit : bytes_eq x.user_name user ≡ true =
      subst (λ (y : PairedDevice). bytes_eq y.user_name user ≡ true) same
        (subst (λ u. bytes_eq d.user_name u ≡ true) e (bytes_eq_refl d.user_name)) in
    rw hit (inl same)
select_user_complete (x ∷ ds) user d (inr later) e = elim (Bool-cases (bytes_eq x.user_name user)) [
  | inl hit ↦ rw hit (inr (select_user_complete ds user d later e))
  | inr miss ↦ rw miss (select_user_complete ds user d later e)
]

-- GetDevicesForUser returns exactly the stored devices of that user.
pub get_devices_for_user_iff :
    (j : Json) (file user : Bytes) (d : PairedDevice)
    → In d (get_devices_for_user j file user) ↔ (In d (get_devices j file) × (d.user_name ≡ user))
unfolding get_devices_for_user
get_devices_for_user_iff j file user d = (
  select_user_sound (get_devices j file) user d,
  λ r. select_user_complete (get_devices j file) user d r.0 r.1,
)

-- The entries from the first unreadable one on, if there is one.
abbrev pub Stops : (j : Json) → List j.Value → Type 0
Stops j [] = Unit
Stops j (entry ∷ rest) = read_device j entry ≡ none

read_devices_prefix :
    (j : Json) (entries : List j.Value)
    → (front rest : List j.Value) × (entries ≡ front ++ rest)
      × (map (read_device j) front ≡ map some (read_devices j entries))
      × Stops j rest
unfolding read_devices
read_devices_prefix j [] = ([], [], refl, refl, tt)
read_devices_prefix j (entry ∷ entries) = elim (Option-cases (read_device j entry)) [
  | inl bad ↦ ([], entry ∷ entries, refl, rw (bad, read_devices) refl, bad)
  | inr (d, good) ↦
      let (front, rest, cut, same, stop) = read_devices_prefix j entries in
      (
        entry ∷ front,
        rest,
        ap (◌∷◌ entry) cut,
        rw (good, read_devices) (ap (◌∷◌ (some d)) same),
        stop,
      )
]

-- GetDevices returns the devices of the entries before the first unreadable entry, in order: a bad
-- entry hides itself and all that follow it. A file that is no JSON has no device.
pub get_devices_prefix :
    (j : Json) (file : Bytes)
    → ((j.parse file ≡ none) × (get_devices j file ≡ []))
      ⊎ ((json : j.Value) × (front rest : List j.Value) × (j.parse file ≡ some json)
          × (j.entries json ≡ front ++ rest)
          × (map (read_device j) front ≡ map some (get_devices j file))
          × Stops j rest)
unfolding get_devices
get_devices_prefix j file = elim (Option-cases (j.parse file)) [
  | inl bad ↦ inl (bad, rw (bad, get_devices) refl)
  | inr (json, good) ↦
      let (front, rest, cut, same, stop) = read_devices_prefix j (j.entries json) in
      inr (json, front, rest, good, cut, rw (good, get_devices) same, stop)
]
