-- ===== src/Api/Interfaces.antt =====
-- get_local_ip_and_mac of common-cpp/src/api/api.cpp on Linux.
use pcbu_natives_old.Prelude.{
  ℕ, ◌-◌, ◌/◌, ◌%◌, ◌≡◌, ◌↔◌, ◌⊎◌, Bool, false, Option, none, some, List, [], ◌∷◌, ◌++◌, ltb,
  if◌then◌else◌, length, take, replicate, All,
}
use pcbu_natives_old.Prelude.Texts.{Bytes, bytes_eq}
use pcbu_natives_old.Utils.Hex.{hex_digit}
use pcbu_natives_old.Api.Rank.{
  NetworkInterface, text_lt, comes_before, is_virtual_linux, is_virtual_windows, StrictWeak,
}

-- The family of an address; `other` is neither AF_INET nor AF_PACKET.
pub data Family : Type 0 where
  inet packet other : Family

-- One entry of getifaddrs with an address: its flag IFF_LOOPBACK, its family, its name, the text that
-- getnameinfo writes (`none` where it fails), and the hardware address of an AF_PACKET entry.
pub record Entry : Type 0 where
  pub loopback : Bool
  pub family : Family
  pub name : Bytes
  pub address : Option Bytes
  pub hardware : List ℕ

-- `%02X`
unfoldable pub hex_byte : ℕ → Bytes
unfolding hex_digit
hex_byte b = hex_digit (b / 16 % 16) ∷ hex_digit (b % 16) ∷ []

-- Six bytes with colons between.
unfoldable pub mac_text : List ℕ → Bytes
unfolding hex_byte
mac_text [] = []
mac_text (b ∷ []) = hex_byte b
mac_text (b ∷ c ∷ bs) = hex_byte b ++ (58 ∷ mac_text (c ∷ bs))

abbrev pub fresh_interface : Bytes → NetworkInterface
fresh_interface name = record { if_name = name; ip_address = []; mac_address = [] }

-- `ifMap`, in the order of its keys: a name that is not there gets an interface first.
unfoldable pub at_name :
    Bytes → (NetworkInterface → NetworkInterface) → List NetworkInterface → List NetworkInterface
at_name name change [] = change (fresh_interface name) ∷ []
at_name name change (x ∷ xs) =
    if bytes_eq x.if_name name
    then change x ∷ xs
    else if text_lt name x.if_name
    then change (fresh_interface name) ∷ x ∷ xs
    else x ∷ at_name name change xs

unfoldable pub visit : Entry → List NetworkInterface → List NetworkInterface
unfolding at_name mac_text
visit e if_map = if e.loopback then if_map else elim e.family [
  | other ↦ if_map
  | inet ↦ elim e.address [
    | none ↦ if_map
    | some text ↦ at_name e.name (λ x. record x { ip_address = text }) if_map
  ]
  | packet ↦ at_name e.name (λ x. record x { mac_address = mac_text e.hardware }) if_map
]

-- The loop over the entries, `none` for one without an address.
unfoldable pub visit_all : List (Option Entry) → List NetworkInterface → List NetworkInterface
unfolding visit
visit_all [] if_map = if_map
visit_all (none ∷ es) if_map = visit_all es if_map
visit_all (some e ∷ es) if_map = visit_all es (visit e if_map)

abbrev pub has_ip : NetworkInterface → Bool
has_ip x = ltb 0 (length x.ip_address)

unfoldable pub with_ip : List NetworkInterface → List NetworkInterface
with_ip [] = []
with_ip (x ∷ xs) = if has_ip x then x ∷ with_ip xs else with_ip xs

-- A char array of `size` that was zeroed, after the copy of a text.
abbrev pub copied_field : ℕ → Bytes → Bytes
copied_field size text = take size text ++ replicate (size - length text) 0

pub record IpAndMac : Type 0 where
  pub ip_addr : Bytes
  pub mac_addr : Bytes

abbrev pub ip_and_mac : NetworkInterface → IpAndMac
ip_and_mac x = record {
  ip_addr = copied_field 16 x.ip_address;
  mac_addr = copied_field 18 x.mac_address;
}

-- One entry of GetAdaptersAddresses on Windows: whether it is the loopback, its name, its hardware
-- address, and its unicast addresses, `none` for one that is not AF_INET.
pub record Adapter : Type 0 where
  pub software_loopback : Bool
  pub friendly_name : Bytes
  pub physical_address : List ℕ
  pub unicast : List (Option Bytes)

-- The inner loop: each address replaces the one before.
unfoldable pub last_address : List (Option Bytes) → Bytes → Bytes
last_address [] text = text
last_address (none ∷ us) text = last_address us text
last_address (some address ∷ us) text = last_address us address

unfoldable pub interface_of : Adapter → NetworkInterface
unfolding last_address mac_text
interface_of a = record {
  if_name = a.friendly_name;
  ip_address = last_address a.unicast [];
  mac_address = mac_text a.physical_address;
}

unfoldable pub visit_adapters : List Adapter → List NetworkInterface
unfolding interface_of
visit_adapters [] = []
visit_adapters (a ∷ rest_of) =
    let rest = visit_adapters rest_of in
    if a.software_loopback
    then rest
    else if has_ip (interface_of a)
    then interface_of a ∷ rest
    else rest

-- `sort` is std::sort with a comparison, `memory` tells whether malloc gives memory, and the entries
-- are `none` where getifaddrs or GetAdaptersAddresses fails.
module _
    (sort : (NetworkInterface → NetworkInterface → Bool)
      → List NetworkInterface
      → List NetworkInterface)
    (memory : Bool) where
  -- What both builds do with the interfaces found.
  unfoldable pub answer_with : (Bytes → Bool) → List NetworkInterface → Option IpAndMac
  answer_with is_virtual found = elim (sort (comes_before is_virtual) found) [
    | [] ↦ none
    | x ∷ xs ↦ if memory then some (ip_and_mac x) else none
  ]

  unfoldable pub get_local_ip_and_mac : Option (List (Option Entry)) → Option IpAndMac
  unfolding visit_all with_ip answer_with
  get_local_ip_and_mac none = none
  get_local_ip_and_mac (some entries) =
      answer_with is_virtual_linux (with_ip (visit_all entries []))

  unfoldable pub get_local_ip_and_mac_windows : Option (List Adapter) → Option IpAndMac
  unfolding visit_adapters answer_with
  get_local_ip_and_mac_windows none = none
  get_local_ip_and_mac_windows (some adapters) =
      answer_with is_virtual_windows (visit_adapters adapters)

abbrev pub In : NetworkInterface → List NetworkInterface → Type 0
In x [] = ⊥
In x (y ∷ ys) = (x ≡ y) ⊎ In x ys

-- What std::sort promises for a strict weak order: the same elements, and none before an earlier one.
abbrev pub Ordered : (NetworkInterface → NetworkInterface → Bool) → List NetworkInterface → Type 0
Ordered lt [] = Unit
Ordered lt (x ∷ xs) = All (λ y. lt y x ≡ false) xs × Ordered lt xs

abbrev pub Sorts :
    ((NetworkInterface → NetworkInterface → Bool) → List NetworkInterface → List NetworkInterface)
    → Type 0
Sorts sort =
    (lt : NetworkInterface → NetworkInterface → Bool) (xs : List NetworkInterface)
    → StrictWeak lt
    → ((x : NetworkInterface) → In x (sort lt xs) ↔ In x xs) × Ordered lt (sort lt xs)
