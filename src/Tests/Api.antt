-- ===== src/Tests/Api.antt =====
-- The functions for the desktop app at concrete inputs, with an insertion sort for std::sort.
use pcbu_natives_old.Prelude.{
  ◌<◌, ◌≤◌, ◌≡◌, ◌↔◌, ◌⊎◌, inl, inr, Bool, true, false, Bool-cases, Option, none, some, List, [],
  ◌∷◌, arith, if◌then◌else◌, All,
}
use pcbu_natives_old.Prelude.Texts.{Bytes, codes}
use pcbu_natives_old.Crypt.Memory.{done, overflow}
use pcbu_natives_old.Api.Regex.{local_v4}
use pcbu_natives_old.Api.LocalV4.{IsLocal, local_v4-IsLocal}
use pcbu_natives_old.Api.Rank.{NetworkInterface, StrictWeak, is_virtual_linux}
use pcbu_natives_old.Api.Interfaces.{
  Entry, inet, visit_all, with_ip, get_local_ip_and_mac, ip_and_mac, In, Ordered, Sorts,
}
use pcbu_natives_old.Api.Sourced.{GivenBy}
use pcbu_natives_old.Api.Best.{IsFirst, get_local_ip_and_mac-IsFirst}
use pcbu_natives_old.Api.BluetoothLimits.{bt_get_paired_devices_windows-limit}
use pcbu_natives_old.Api.Bluetooth.{
  BluetoothDevice, scanned, device_limit, bt_get_paired_devices_windows,
}

-- An address that is not a private one.
local_v4-IsLocal_example : (local_v4 (codes "172.160.0.1") ≡ true) ↔ IsLocal (codes "172.160.0.1")
local_v4-IsLocal_example = local_v4-IsLocal (codes "172.160.0.1")

abbrev Interfaces : Type 0
Interfaces = List NetworkInterface

module _ (lt : NetworkInterface → NetworkInterface → Bool) where
  abbrev insert : NetworkInterface → Interfaces → Interfaces
  insert x [] = x ∷ []
  insert x (y ∷ ys) = let later = insert x ys in if lt y x then y ∷ later else x ∷ y ∷ ys

  abbrev insertion_sort : Interfaces → Interfaces
  insertion_sort [] = []
  insertion_sort (x ∷ xs) = insert x (insertion_sort xs)

  In-insert : (x z : NetworkInterface) (ys : Interfaces) → In z (insert x ys) → In z (x ∷ ys)
  In-insert x z [] h = h
  In-insert x z (y ∷ ys) h = elim (Bool-cases (lt y x)) [
    | inr stays ↦ rw stays at h
    | inl later ↦
        let k : In z (y ∷ insert x ys) = rw later at h in
        elim k [
          | inl same ↦ inr (inl same)
          | inr deeper ↦ elim (In-insert x z ys deeper) [
            | inl same ↦ inl same
            | inr in_ys ↦ inr (inr in_ys)
          ]
        ]
  ]

  insert-In : (x z : NetworkInterface) (ys : Interfaces) → In z (x ∷ ys) → In z (insert x ys)
  insert-In x z [] h = h
  insert-In x z (y ∷ ys) h = elim (Bool-cases (lt y x)) [
    | inr stays ↦ rw stays h
    | inl later ↦ rw later (elim h [
      | inl same ↦ inr (insert-In x z ys (inl same))
      | inr (inl same) ↦ inl same
      | inr (inr in_ys) ↦ inr (insert-In x z ys (inr in_ys))
    ])
  ]

  In-sort : (z : NetworkInterface) (xs : Interfaces) → In z (insertion_sort xs) ↔ In z xs
  In-sort z [] = ((λ h. h), (λ h. h))
  In-sort z (x ∷ xs) = (
    (λ h. elim (In-insert x z (insertion_sort xs) h) [
      | inl same ↦ inl same
      | inr deeper ↦ inr ((In-sort z xs).0 deeper)
    ]),
    (λ h.
        insert-In x z (insertion_sort xs)
          (elim h [ inl same ↦ inl same | inr deeper ↦ inr ((In-sort z xs).1 deeper) ])),
  )

  module _ (weak : StrictWeak lt) where
    All-insert :
        (P : NetworkInterface → Type 0) (x : NetworkInterface) (ys : Interfaces)
        → P x
        → All P ys
        → All P (insert x ys)
    All-insert P x [] px h = (px, tt)
    All-insert P x (y ∷ ys) px h = elim (Bool-cases (lt y x)) [
      | inr stays ↦ rw stays (px, h)
      | inl later ↦ rw later (h.0, All-insert P x ys px h.1)
    ]

    none_before :
        (x y : NetworkInterface) (zs : Interfaces)
        → lt y x ≡ false
        → All (λ z. lt z y ≡ false) zs
        → All (λ z. lt z x ≡ false) zs
    none_before x y [] h k = tt
    none_before x y (z ∷ zs) h k = (one, none_before x y zs h k.1)
      where
        one : lt z x ≡ false
        one = elim (Bool-cases (lt z x)) [
          | inr good ↦ good
          | inl bad ↦ elim (weak.splits z y x bad) [ inl a ↦ absurd cc | inr b ↦ absurd cc ]
        ]

    asymmetric : (x y : NetworkInterface) → lt y x ≡ true → lt x y ≡ false
    asymmetric x y h = elim (Bool-cases (lt x y)) [
      | inr good ↦ good
      | inl bad ↦
          let loop = weak.transitive x y x bad h in let never = weak.irreflexive x in absurd cc
    ]

    Ordered-insert :
        (x : NetworkInterface) (ys : Interfaces) → Ordered lt ys → Ordered lt (insert x ys)
    Ordered-insert x [] h = (tt, tt)
    Ordered-insert x (y ∷ ys) h = elim (Bool-cases (lt y x)) [
      | inr stays ↦ rw stays ((stays, none_before x y ys stays h.0), h)
      | inl later ↦ rw later (
        All-insert (λ z. lt z y ≡ false) x ys (asymmetric x y later) h.0,
        Ordered-insert x ys h.1,
      )
    ]

    Ordered-sort : (xs : Interfaces) → Ordered lt (insertion_sort xs)
    Ordered-sort [] = tt
    Ordered-sort (x ∷ xs) = Ordered-insert x (insertion_sort xs) (Ordered-sort xs)

insertion-Sorts : Sorts insertion_sort
insertion-Sorts lt xs weak = ((λ x. In-sort lt x xs), Ordered-sort lt weak xs)

abbrev entry : Bytes → Bytes → Entry
entry name address = record {
  loopback = false;
  family = inet;
  name = name;
  address = some address;
  hardware = [];
}

abbrev entries : List (Option Entry)
entries =
    some (entry (codes "docker0") (codes "172.17.0.1"))
    ∷ none
    ∷ some (entry (codes "eth0") (codes "192.168.1.5"))
    ∷ []

get_local_ip_and_mac-IsFirst_example :
    ((with_ip (visit_all entries []) ≡ [])
      × (get_local_ip_and_mac insertion_sort true (some entries) ≡ none))
    ⊎ ((x : NetworkInterface) × IsFirst is_virtual_linux (with_ip (visit_all entries [])) x
        × GivenBy entries x.if_name x.ip_address
        × (get_local_ip_and_mac insertion_sort true (some entries) ≡ some (ip_and_mac x)))
get_local_ip_and_mac-IsFirst_example =
    get_local_ip_and_mac-IsFirst insertion_sort insertion-Sorts entries

abbrev phone : BluetoothDevice
phone = record { name = codes "phone"; address = codes "00:11:22:33:44:55" }

bt_get_paired_devices_windows-limit_example :
    ((1 ≤ device_limit)
      × (bt_get_paired_devices_windows true (some (phone ∷ [])) ≡ done (scanned (phone ∷ []))))
    ⊎ ((device_limit < 1) × (bt_get_paired_devices_windows true (some (phone ∷ [])) ≡ overflow))
bt_get_paired_devices_windows-limit_example =
    bt_get_paired_devices_windows-limit (phone ∷ []) ((omega arith, omega arith), tt)
