-- ===== src/Api/Best.antt =====
-- The interface that get_local_ip_and_mac of common-cpp/src/api/api.cpp answers with.
use pcbu_natives_old.Prelude.{
  ◌≡◌, refl, sym, subst, ◌↔◌, ◌⊎◌, inl, inr, Bool, true, false, Option, none, some, List, [], ◌∷◌,
  All,
}
use pcbu_natives_old.Prelude.Texts.{Bytes}
use pcbu_natives_old.Api.Rank.{
  NetworkInterface, comes_before, is_virtual_linux, comes_before-StrictWeak,
}
use pcbu_natives_old.Api.Interfaces.{
  Entry, visit_all, with_ip, ip_and_mac, get_local_ip_and_mac, In, Ordered, Sorts,
}
use pcbu_natives_old.Api.Interfaces.{
  Adapter, visit_adapters, answer_with, get_local_ip_and_mac_windows,
}
use pcbu_natives_old.Api.Rank.{is_virtual_windows}
use pcbu_natives_old.Api.Sourced.{GivenBy, with_ip-GivenBy, visit_all-Sourced}

In-All :
    (P : NetworkInterface → Type 0) (x : NetworkInterface) (xs : List NetworkInterface)
    → In x xs
    → All P xs
    → P x
In-All P x [] h a = absurd h
In-All P x (y ∷ ys) (inl e) a = subst P (sym e) a.0
In-All P x (y ∷ ys) (inr h) a = In-All P x ys h a.1

All-In :
    (P : NetworkInterface → Type 0) (xs : List NetworkInterface)
    → ((y : NetworkInterface) → In y xs → P y)
    → All P xs
All-In P [] f = tt
All-In P (x ∷ xs) f = (f x (inl refl), All-In P xs (λ y h. f y (inr h)))

-- An interface of a list that no other one comes before.
abbrev pub IsFirst : (Bytes → Bool) → List NetworkInterface → NetworkInterface → Type 0
IsFirst is_virtual found x = In x found × All (λ y. comes_before is_virtual y x ≡ false) found

module _
    (sort : (NetworkInterface → NetworkInterface → Bool)
      → List NetworkInterface
      → List NetworkInterface)
    (sorts : Sorts sort) where
  sort-IsFirst :
      (v : Bytes → Bool) (found : List NetworkInterface) (x : NetworkInterface)
      (rest : List NetworkInterface)
      → sort (comes_before v) found ≡ x ∷ rest
      → IsFirst v found x
  sort-IsFirst v found x rest e =
      let lt = comes_before v in
      let weak = comes_before-StrictWeak v in
      let (same, ordered) = sorts lt found weak in
      let inside : In x found = (same x).0 (subst (In x) (sym e) (inl refl)) in
      let first : All (λ y. lt y x ≡ false) rest = (subst (Ordered lt) e ordered).0 in
      (
        inside,
        All-In (λ y. lt y x ≡ false) found
            (λ y h.
              In-All (λ z. lt z x ≡ false) y (x ∷ rest) (subst (In y) e ((same y).1 h))
                (weak.irreflexive x, first)),
      )

  -- With memory, the answer is none for no interface, and else one that no other one comes before.
  answer_with-IsFirst :
      (v : Bytes → Bool) (found : List NetworkInterface)
      → ((found ≡ []) × (answer_with sort true v found ≡ none))
        ⊎ ((x : NetworkInterface) × IsFirst v found x
            × (answer_with sort true v found ≡ some (ip_and_mac x)))
  unfolding answer_with
  answer_with-IsFirst v found = go (sort (comes_before v) found) refl
    where
      nothing :
          (xs : List NetworkInterface) → ((x : NetworkInterface) → In x [] ↔ In x xs) → xs ≡ []
      nothing [] same = refl
      nothing (x ∷ xs) same = absurd ((same x).1 (inl refl))

      go :
          (sorted : List NetworkInterface)
          → sort (comes_before v) found ≡ sorted
          → ((found ≡ []) × (answer_with sort true v found ≡ none))
            ⊎ ((x : NetworkInterface) × IsFirst v found x
                × (answer_with sort true v found ≡ some (ip_and_mac x)))
      go [] e =
          let (same, ordered) = sorts (comes_before v) found (comes_before-StrictWeak v) in
          inl (
            nothing found (λ x. subst (λ xs. In x xs ↔ In x found) e (same x)),
            rw (e, answer_with) refl,
          )
      go (x ∷ rest) e = inr (x, sort-IsFirst v found x rest e, rw (e, answer_with) refl)

  -- The answer on Linux is the address and the hardware address of an interface that no other one
  -- with an address comes before, and whose address an AF_INET entry gave that is not of the
  -- loopback; there is none only if no interface has an address. The conditions are that the entries
  -- could be read, that there is memory, and that std::sort sorts by a strict weak order.
  pub get_local_ip_and_mac-IsFirst :
      (entries : List (Option Entry))
      → ((with_ip (visit_all entries []) ≡ [])
          × (get_local_ip_and_mac sort true (some entries) ≡ none))
        ⊎ ((x : NetworkInterface) × IsFirst is_virtual_linux (with_ip (visit_all entries [])) x
            × GivenBy entries x.if_name x.ip_address
            × (get_local_ip_and_mac sort true (some entries) ≡ some (ip_and_mac x)))
  unfolding get_local_ip_and_mac
  get_local_ip_and_mac-IsFirst entries =
      elim (answer_with-IsFirst is_virtual_linux (with_ip (visit_all entries []))) [
        | inl nothing ↦ inl nothing
        | inr (x, first, e) ↦ inr (
          x,
          first,
          In-All (λ z. GivenBy entries z.if_name z.ip_address) x (with_ip (visit_all entries []))
              (first.0)
              (with_ip-GivenBy entries (visit_all entries [])
                (visit_all-Sourced entries (λ name text. ⊥) [] tt)),
          e,
        )
      ]

  -- On Windows it is, in the same way, one of the adapters with an address.
  pub get_local_ip_and_mac_windows-IsFirst :
      (adapters : List Adapter)
      → ((visit_adapters adapters ≡ [])
          × (get_local_ip_and_mac_windows sort true (some adapters) ≡ none))
        ⊎ ((x : NetworkInterface) × IsFirst is_virtual_windows (visit_adapters adapters) x
            × (get_local_ip_and_mac_windows sort true (some adapters) ≡ some (ip_and_mac x)))
  unfolding get_local_ip_and_mac_windows
  get_local_ip_and_mac_windows-IsFirst adapters =
      answer_with-IsFirst is_virtual_windows (visit_adapters adapters)
