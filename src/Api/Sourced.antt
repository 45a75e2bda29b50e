-- ===== src/Api/Sourced.antt =====
-- Where the addresses of the interfaces come from that get_local_ip_and_mac of
-- common-cpp/src/api/api.cpp finds on Linux.
use pcbu_natives_old.Prelude.{
  ◌≡◌, refl, ap, sym, subst, ◌⊎◌, inl, inr, false, Bool-cases, Option, none, some, List, [], ◌∷◌,
  arith, length, All,
}
use pcbu_natives_old.Prelude.Texts.{Bytes, bytes_eq, bytes_eq-eq}
use pcbu_natives_old.Api.Rank.{NetworkInterface, text_lt}
use pcbu_natives_old.Api.Interfaces.{
  Entry, Family, inet, packet, other, at_name, fresh_interface, visit, visit_all, mac_text, has_ip,
  with_ip,
}

at_name-All :
    (P : NetworkInterface → Type 0) (name : Bytes) (change : NetworkInterface → NetworkInterface)
    (xs : List NetworkInterface)
    → P (change (fresh_interface name))
    → ((x : NetworkInterface) → x.if_name ≡ name → P x → P (change x))
    → All P xs
    → All P (at_name name change xs)
unfolding at_name
at_name-All P name change [] new old h = (new, tt)
at_name-All P name change (x ∷ xs) new old h = elim (Bool-cases (bytes_eq x.if_name name)) [
  | inl same ↦ rw same (old x (bytes_eq-eq x.if_name name same) h.0, h.1)
  | inr differs ↦ elim (Bool-cases (text_lt name x.if_name)) [
    | inl before ↦ rw (differs, before) (new, h)
    | inr after ↦ rw (differs, after) (h.0, at_name-All P name change xs new old h.1)
  ]
]

-- An entry that gives the interface `name` the address `text`.
abbrev pub Gives : Option Entry → Bytes → Bytes → Type 0
Gives none name text = ⊥
Gives (some e) name text =
    (e.loopback ≡ false) × (e.family ≡ inet) × (e.name ≡ name) × (e.address ≡ some text)

abbrev pub GivenBy : List (Option Entry) → Bytes → Bytes → Type 0
GivenBy [] name text = ⊥
GivenBy (e ∷ es) name text = Gives e name text ⊎ GivenBy es name text

-- An interface without an address, or with one from the source `From`.
abbrev Sourced : (Bytes → Bytes → Type 0) → NetworkInterface → Type 0
Sourced From x = (x.ip_address ≡ []) ⊎ From x.if_name x.ip_address

All-map :
    (P Q : NetworkInterface → Type 0) (xs : List NetworkInterface)
    → ((x : NetworkInterface) → P x → Q x)
    → All P xs
    → All Q xs
All-map P Q [] f h = tt
All-map P Q (x ∷ xs) f h = (f x h.0, All-map P Q xs f h.1)

Sourced-map :
    (From To : Bytes → Bytes → Type 0) (xs : List NetworkInterface)
    → ((name text : Bytes) → From name text → To name text)
    → All (Sourced From) xs
    → All (Sourced To) xs
Sourced-map From To xs f =
    All-map (Sourced From) (Sourced To) xs
      (λ x s. elim s [ inl e ↦ inl e | inr h ↦ inr (f x.if_name x.ip_address h) ])

abbrev Also : (Bytes → Bytes → Type 0) → Option Entry → Bytes → Bytes → Type 0
Also From e name text = From name text ⊎ Gives e name text

visit-Sourced :
    (From : Bytes → Bytes → Type 0) (e : Entry) (m : List NetworkInterface)
    → All (Sourced From) m
    → All (Sourced (Also From (some e))) (visit e m)
unfolding visit
visit-Sourced From e m h = elim (Bool-cases e.loopback) [
  | inl loop ↦ same_as m (rw (loop, visit) refl) kept
  | inr real ↦ go real e.family refl
]
  where
    same_as :
        (after : List NetworkInterface)
        → visit e m ≡ after
        → All (Sourced (Also From (some e))) after
        → All (Sourced (Also From (some e))) (visit e m)
    same_as after e' = subst (All (Sourced (Also From (some e)))) (sym e')

    kept : All (Sourced (Also From (some e))) m
    kept = Sourced-map From (Also From (some e)) m (λ name text f. inl f) h

    addressed :
        (text : Bytes)
        → e.loopback ≡ false
        → e.family ≡ inet
        → e.address ≡ some text
        → All
            (Sourced (Also From (some e)))
            (at_name e.name (λ x. record x { ip_address = text }) m)
    addressed text real kind e' =
        at_name-All (Sourced (Also From (some e))) e.name (λ x. record x { ip_address = text }) m
          (inr (inr (real, kind, refl, e'))) (λ x same s. inr (inr (real, kind, sym same, e'))) kept

    with_address :
        (o : Option Bytes)
        → e.address ≡ o
        → e.loopback ≡ false
        → e.family ≡ inet
        → All (Sourced (Also From (some e))) (visit e m)
    with_address none e' real kind = same_as m (rw (real, kind, e', visit) refl) kept
    with_address (some text) e' real kind =
        same_as (at_name e.name (λ x. record x { ip_address = text }) m)
          (rw (real, kind, e', visit) refl) (addressed text real kind e')

    go :
        e.loopback ≡ false
        → (k : Family) → e.family ≡ k
        → All (Sourced (Also From (some e))) (visit e m)
    go real other kind = same_as m (rw (real, kind, visit) refl) kept
    go real inet kind = with_address e.address refl real kind
    go real packet kind =
        same_as (at_name e.name (λ x. record x { mac_address = mac_text e.hardware }) m)
          (rw (real, kind, visit) refl)
          (at_name-All (Sourced (Also From (some e))) e.name
            (λ x. record x { mac_address = mac_text e.hardware }) m (inl refl) (λ x same s. s) kept)

pub visit_all-Sourced :
    (es : List (Option Entry)) (From : Bytes → Bytes → Type 0) (m : List NetworkInterface)
    → All (Sourced From) m
    → All (Sourced (λ name text. From name text ⊎ GivenBy es name text)) (visit_all es m)
unfolding visit_all
visit_all-Sourced [] From m h = Sourced-map From _ m (λ name text f. inl f) h
visit_all-Sourced (none ∷ es) From m h =
    Sourced-map (λ name text. From name text ⊎ GivenBy es name text) _ (visit_all es m)
      (λ name text f. elim f [ inl a ↦ inl a | inr b ↦ inr (inr b) ])
      (visit_all-Sourced es From m h)
visit_all-Sourced (some e ∷ es) From m h =
    Sourced-map (λ name text. Also From (some e) name text ⊎ GivenBy es name text) _
      (visit_all es (visit e m))
      (λ name text f. elim f [
        | inl (inl a) ↦ inl a
        | inl (inr b) ↦ inr (inl b)
        | inr b ↦ inr (inr b)
      ])
      (visit_all-Sourced es (Also From (some e)) (visit e m) (visit-Sourced From e m h))

pub with_ip-GivenBy :
    (es : List (Option Entry)) (xs : List NetworkInterface)
    → All (Sourced (λ name text. ⊥ ⊎ GivenBy es name text)) xs
    → All (λ x. GivenBy es x.if_name x.ip_address) (with_ip xs)
unfolding with_ip
with_ip-GivenBy es [] h = tt
with_ip-GivenBy es (x ∷ xs) h = elim (Bool-cases (has_ip x)) [
  | inr lacks ↦ rw lacks (with_ip-GivenBy es xs h.1)
  | inl has ↦
      let given : GivenBy es x.if_name x.ip_address = elim (h.0) [
        | inl e ↦ absurd (ground (arith, has, ap length e))
        | inr (inl f) ↦ absurd f
        | inr (inr g) ↦ g
      ] in
      rw has (given, with_ip-GivenBy es xs h.1)
]
