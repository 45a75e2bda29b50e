-- ===== src/Api/LocalV4.antt =====
-- The addresses that local_v4_regex of common-cpp/src/api/api.cpp takes as local.
use pcbu_natives_old.Prelude.{
  ℕ, ◌≤◌, ◌≡◌, refl, ap, sym, ◌∙◌, subst, ◌↔◌, ◌⊎◌, inl, inr, Bool, true, Bool-cases, List, [], ◌∷◌,
  ◌++◌, arith, ◌||◌, length, All,
}
use pcbu_natives_old.Prelude.Texts.{Bytes, codes}
use pcbu_natives_old.Api.Regex.{
  Atom, one, optional, regex_match, literal, octet, dot, two_octets, tens_1, tens_2, tens_3,
  local_10, local_172, local_192, local_v4, regex_match-append, Matches, literal_sound,
  literal_complete, octet_sound, octet_complete, Digit, IsOctet,
}

-- `front`, and two octets, with dots between.
abbrev Dotted : Bytes → Bytes → Type 0
Dotted s a = (c : Bytes) × (d : Bytes) × (s ≡ a ++ (46 ∷ (c ++ (46 ∷ d)))) × IsOctet c × IsOctet d

dot_sound : (t : Bytes) → Matches dot t → t ≡ 46 ∷ []
dot_sound t h = literal_sound (46 ∷ []) t h

Dotted-sound :
    (front : List Atom) (s : Bytes)
    → Matches (front ++ two_octets) s
    → (a : Bytes) × Matches front a × Dotted s a
Dotted-sound front s h =
    let (a, r, e, left, right) = (regex_match-append front two_octets s).0 h in
    let (p, r2, e2, at_dot, right2) = (regex_match-append dot (octet ++ dot ++ octet) r).0 right in
    let (c, r3, e3, third, right3) = (regex_match-append octet (dot ++ octet) r2).0 right2 in
    let (q, d, e4, at_dot2, fourth) = (regex_match-append dot octet r3).0 right3 in
    let p_dot = dot_sound p at_dot in
    let q_dot = dot_sound q at_dot2 in
    let tail : r3 ≡ 46 ∷ d = e4 ∙ ap (λ t. t ++ d) q_dot in
    let middle : r2 ≡ c ++ (46 ∷ d) = e3 ∙ ap (λ t. c ++ t) tail in
    let whole : r ≡ 46 ∷ (c ++ (46 ∷ d)) = e2 ∙ ap (λ t. t ++ r2) p_dot ∙ ap (λ t. 46 ∷ t) middle in
    (a, left, (c, d, e ∙ ap (λ t. a ++ t) whole, octet_sound c third, octet_sound d fourth))

Dotted-complete :
    (front : List Atom) (s a : Bytes)
    → Matches front a
    → Dotted s a
    → Matches (front ++ two_octets) s
Dotted-complete front s a left (c, d, e, third, fourth) =
    let dots = literal_complete (46 ∷ []) in
    (regex_match-append front two_octets s).1 (
      a,
      46 ∷ (c ++ (46 ∷ d)),
      e,
      left,
      (regex_match-append dot (octet ++ dot ++ octet) (46 ∷ (c ++ (46 ∷ d)))).1 (
        46 ∷ [],
        c ++ (46 ∷ d),
        refl,
        dots,
        (regex_match-append octet (dot ++ octet) (c ++ (46 ∷ d))).1 (
          c,
          46 ∷ d,
          refl,
          octet_complete c third,
          (regex_match-append dot octet (46 ∷ d)).1
              (46 ∷ [], d, refl, dots, octet_complete d fourth),
        ),
      ),
    )

-- At most one more digit.
abbrev pub MaybeDigit : Bytes → Type 0
MaybeDigit t = (length t ≤ 1) × All Digit t

-- The two digits that start the second octet after 172, and the most one more that may follow.
abbrev pub Second : ℕ → ℕ → ℕ → Bytes → Type 0
Second x lo hi b = (y : ℕ) × (t : Bytes) × (b ≡ x ∷ y ∷ t) × (lo ≤ y) × (y ≤ hi) × MaybeDigit t

Second-sound :
    (x lo hi : ℕ) (b : Bytes)
    → Matches (one x x ∷ one lo hi ∷ optional 48 57 ∷ []) b
    → Second x lo hi b
unfolding regex_match
Second-sound x lo hi [] h = absurd cc
Second-sound x lo hi (c ∷ []) h = absurd (ground arith)
Second-sound x lo hi (c ∷ y ∷ []) h =
    let first : c ≡ x = ground arith in
    (y, [], ap (λ u. u ∷ y ∷ []) first, ground arith, ground arith, (omega arith, tt))
Second-sound x lo hi (c ∷ y ∷ z ∷ []) h =
    let first : c ≡ x = ground arith in
    (
      y,
      z ∷ [],
      ap (λ u. u ∷ y ∷ z ∷ []) first,
      ground arith,
      ground arith,
      (omega arith, (ground arith, tt)),
    )
Second-sound x lo hi (c ∷ y ∷ z ∷ w ∷ t) h = absurd (ground arith)

second_text :
    (x lo hi y : ℕ) (t : Bytes)
    → lo ≤ y
    → y ≤ hi
    → MaybeDigit t
    → Matches (one x x ∷ one lo hi ∷ optional 48 57 ∷ []) (x ∷ y ∷ t)
unfolding regex_match
second_text x lo hi y [] low high few = ground (arith, low, high)
second_text x lo hi y (z ∷ []) low high few = ground (arith, low, high, few.1.0)
second_text x lo hi y (z ∷ w ∷ t) low high few = absurd (omega (arith, few.0))

Second-complete :
    (x lo hi : ℕ) (b : Bytes)
    → Second x lo hi b
    → Matches (one x x ∷ one lo hi ∷ optional 48 57 ∷ []) b
Second-complete x lo hi b (y, t, e, low, high, few) =
    subst (Matches (one x x ∷ one lo hi ∷ optional 48 57 ∷ [])) (sym e)
      (second_text x lo hi y t low high few)

-- What stands before the last two octets: 10 and an octet, 172 and one of three kinds of second
-- octets, or 192.168.
abbrev pub LocalFront : Bytes → Type 0
LocalFront a =
    ((b : Bytes) × (a ≡ codes "10." ++ b) × IsOctet b)
    ⊎ ((b : Bytes) × (a ≡ codes "172." ++ b)
        × (Second 49 54 57 b ⊎ Second 50 48 57 b ⊎ Second 51 48 49 b))
    ⊎ (a ≡ codes "192.168")

abbrev pub IsLocal : Bytes → Type 0
IsLocal s = (a : Bytes) × LocalFront a × Dotted s a

front_sound :
    (prefix : Bytes) (ps : List Atom) (a : Bytes)
    → Matches (literal prefix ++ ps) a
    → (b : Bytes) × (a ≡ prefix ++ b) × Matches ps b
front_sound prefix ps a h =
    let (p, b, e, left, right) = (regex_match-append (literal prefix) ps a).0 h in
    (b, e ∙ ap (λ t. t ++ b) (literal_sound prefix p left), right)

front_complete :
    (prefix : Bytes) (ps : List Atom) (a b : Bytes)
    → a ≡ prefix ++ b
    → Matches ps b
    → Matches (literal prefix ++ ps) a
front_complete prefix ps a b e h =
    (regex_match-append (literal prefix) ps a).1 (prefix, b, e, literal_complete prefix, h)

local_172_sound :
    (x lo hi : ℕ) (s : Bytes)
    → Matches (local_172 (one x x ∷ one lo hi ∷ optional 48 57 ∷ [])) s
    → (a : Bytes) × ((b : Bytes) × (a ≡ codes "172." ++ b) × Second x lo hi b) × Dotted s a
local_172_sound x lo hi s h =
    let second = one x x ∷ one lo hi ∷ optional 48 57 ∷ [] in
    let (a, left, rest) = Dotted-sound (literal (codes "172.") ++ second) s h in
    let (b, e, right) = front_sound (codes "172.") second a left in
    (a, (b, e, Second-sound x lo hi b right), rest)

local_v4_sound : (s : Bytes) → local_v4 s ≡ true → IsLocal s
unfolding local_v4
local_v4_sound s h = elim (Bool-cases (regex_match local_10 s)) [
  | inl ten ↦
      let (a, left, rest) = Dotted-sound (literal (codes "10.") ++ octet) s ten in
      let (b, e, right) = front_sound (codes "10.") octet a left in
      (a, inl (b, e, octet_sound b right), rest)
  | inr no_10 ↦ elim (Bool-cases (regex_match (local_172 tens_1) s)) [
    | inl m ↦
        let (a, (b, e, right), rest) = local_172_sound 49 54 57 s m in
        (a, inr (inl (b, e, inl right)), rest)
    | inr no_1 ↦ elim (Bool-cases (regex_match (local_172 tens_2) s)) [
      | inl m ↦
          let (a, (b, e, right), rest) = local_172_sound 50 48 57 s m in
          (a, inr (inl (b, e, inr (inl right))), rest)
      | inr no_2 ↦ elim (Bool-cases (regex_match (local_172 tens_3) s)) [
        | inl m ↦
            let (a, (b, e, right), rest) = local_172_sound 51 48 49 s m in
            (a, inr (inl (b, e, inr (inr right))), rest)
        | inr no_3 ↦
            let m : Matches local_192 s = rw (no_10, no_1, no_2, no_3) at h in
            let (a, left, rest) = Dotted-sound (literal (codes "192.168")) s m in
            (a, inr (inr (literal_sound (codes "192.168") a left)), rest)
      ]
    ]
  ]
]

-- One of the five alternatives.
abbrev AnyOf : Bytes → Type 0
AnyOf s =
    Matches local_10 s
    ⊎ Matches (local_172 tens_1) s
    ⊎ Matches (local_172 tens_2) s
    ⊎ Matches (local_172 tens_3) s
    ⊎ Matches local_192 s

any_of :
    (a b c d e : Bool)
    → (a ≡ true ⊎ b ≡ true ⊎ c ≡ true ⊎ d ≡ true ⊎ e ≡ true)
    → a || (b || (c || (d || e))) ≡ true
any_of a b c d e h = ground (arith, h)

AnyOf-local_v4 : (s : Bytes) → AnyOf s → local_v4 s ≡ true
unfolding local_v4
AnyOf-local_v4 s h =
    any_of (regex_match local_10 s) (regex_match (local_172 tens_1) s)
      (regex_match (local_172 tens_2) s) (regex_match (local_172 tens_3) s)
      (regex_match local_192 s) h

local_172_complete :
    (x lo hi : ℕ) (s a b : Bytes)
    → a ≡ codes "172." ++ b
    → Second x lo hi b
    → Dotted s a
    → Matches (local_172 (one x x ∷ one lo hi ∷ optional 48 57 ∷ [])) s
local_172_complete x lo hi s a b e second rest =
    let ps = one x x ∷ one lo hi ∷ optional 48 57 ∷ [] in
    Dotted-complete (literal (codes "172.") ++ ps) s a
      (front_complete (codes "172.") ps a b e (Second-complete x lo hi b second)) rest

IsLocal-AnyOf : (s : Bytes) → IsLocal s → AnyOf s
IsLocal-AnyOf s (a, inl (b, e, first), rest) = inl (
    Dotted-complete (literal (codes "10.") ++ octet) s a
      (front_complete (codes "10.") octet a b e (octet_complete b first)) rest)
IsLocal-AnyOf s (a, inr (inl (b, e, inl second)), rest) =
    inr (inl (local_172_complete 49 54 57 s a b e second rest))
IsLocal-AnyOf s (a, inr (inl (b, e, inr (inl second))), rest) =
    inr (inr (inl (local_172_complete 50 48 57 s a b e second rest)))
IsLocal-AnyOf s (a, inr (inl (b, e, inr (inr second))), rest) =
    inr (inr (inr (inl (local_172_complete 51 48 49 s a b e second rest))))
IsLocal-AnyOf s (a, inr (inr e), rest) = inr (
    inr (
      inr (
        inr (
          Dotted-complete (literal (codes "192.168")) s a
            (subst (Matches (literal (codes "192.168"))) (sym e)
              (literal_complete (codes "192.168")))
            rest))))

-- The expression matches exactly the texts of four parts with dots between, of which the last two
-- have one to three digits each, and of which the first two are 10 and one to three digits, or 192
-- and 168, or 172 and two digits from 16 to 19, from 20 to 29 or from 30 to 31, with at most one more digit behind them.
pub local_v4-IsLocal : (s : Bytes) → (local_v4 s ≡ true) ↔ IsLocal s
local_v4-IsLocal s = (local_v4_sound s, λ h. AnyOf-local_v4 s (IsLocal-AnyOf s h))
