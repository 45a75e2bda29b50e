-- ===== src/Api/Regex.antt =====
-- local_v4_regex of common-cpp/src/api/api.cpp: the five alternatives, and std::regex_match for
-- patterns of character classes of which each stands once or may be left out.
use pcbu_natives_old.Prelude.{
  ℕ, ◌≤◌, ◌≡◌, refl, ap, ◌↔◌, inl, inr, Bool, true, false, Bool-cases, List, [], ◌∷◌, ◌++◌, map,
  arith, leb, ◌&&◌, ◌||◌, length, All,
}
use pcbu_natives_old.Prelude.Texts.{Bytes, codes}

-- `[lo-hi]` or `[lo-hi]{1}`, and `[lo-hi]{0,1}`.
pub data Atom : Type 0 where
  one optional : ℕ → ℕ → Atom

abbrev pub in_class : ℕ → ℕ → ℕ → Bool
in_class lo hi c = leb lo c && leb c hi

unfoldable pub regex_match : List Atom → Bytes → Bool
regex_match [] [] = true
regex_match [] (c ∷ s) = false
regex_match (one lo hi ∷ ps) [] = false
regex_match (one lo hi ∷ ps) (c ∷ s) = let rest = regex_match ps s in in_class lo hi c && rest
regex_match (optional lo hi ∷ ps) [] = regex_match ps []
regex_match (optional lo hi ∷ ps) (c ∷ s) =
    let without = regex_match ps (c ∷ s) in
    let rest = regex_match ps s in (in_class lo hi c && rest) || without

abbrev pub literal : Bytes → List Atom
literal = map (λ c. one c c)

-- `[0-9]{1,3}`
abbrev pub octet : List Atom
octet = one 48 57 ∷ optional 48 57 ∷ optional 48 57 ∷ []

abbrev pub dot : List Atom
dot = one 46 46 ∷ []

-- `\.[0-9]{1,3}\.[0-9]{1,3}`
abbrev pub two_octets : List Atom
two_octets = dot ++ octet ++ dot ++ octet

abbrev pub local_10 : List Atom
local_10 = literal (codes "10.") ++ octet ++ two_octets

-- The second octets of the three alternatives for 172.
abbrev pub tens_1 : List Atom
tens_1 = one 49 49 ∷ one 54 57 ∷ optional 48 57 ∷ []

abbrev pub tens_2 : List Atom
tens_2 = one 50 50 ∷ one 48 57 ∷ optional 48 57 ∷ []

abbrev pub tens_3 : List Atom
tens_3 = one 51 51 ∷ one 48 49 ∷ optional 48 57 ∷ []

abbrev pub local_172 : List Atom → List Atom
local_172 second = literal (codes "172.") ++ second ++ two_octets

abbrev pub local_192 : List Atom
local_192 = literal (codes "192.168") ++ two_octets

unfoldable pub local_v4 : Bytes → Bool
unfolding regex_match
local_v4 s =
    regex_match local_10 s
    || (regex_match (local_172 tens_1) s
        || (regex_match (local_172 tens_2) s
            || (regex_match (local_172 tens_3) s || regex_match local_192 s)))

optional_skipped :
    (lo hi : ℕ) (ps : List Atom) (s : Bytes)
    → regex_match ps s ≡ true
    → regex_match (optional lo hi ∷ ps) s ≡ true
unfolding regex_match
optional_skipped lo hi ps [] h = h
optional_skipped lo hi ps (c ∷ s) h = ground (arith, h)

-- A match of two patterns one after the other cuts the text in two.
regex_match_sound :
    (ps qs : List Atom) (s : Bytes)
    → regex_match (ps ++ qs) s ≡ true
    → (a : Bytes) × (b : Bytes) × (s ≡ a ++ b)
      × (regex_match ps a ≡ true)
      × (regex_match qs b ≡ true)
unfolding regex_match
regex_match_sound [] qs s h = ([], s, refl, refl, h)
regex_match_sound (one lo hi ∷ ps) qs [] h = absurd cc
regex_match_sound (one lo hi ∷ ps) qs (c ∷ s) h =
    let (a, b, e, left, right) = regex_match_sound ps qs s (ground arith) in
    let hit : in_class lo hi c ≡ true = ground arith in
    (c ∷ a, b, ap (◌∷◌ c) e, ground (arith, hit, left), right)
regex_match_sound (optional lo hi ∷ ps) qs [] h =
    let (a, b, e, left, right) = regex_match_sound ps qs [] h in
    (a, b, e, optional_skipped lo hi ps a left, right)
regex_match_sound (optional lo hi ∷ ps) qs (c ∷ s) h =
    elim (Bool-cases (in_class lo hi c && regex_match (ps ++ qs) s)) [
      | inl taken ↦
          let (a, b, e, left, right) = regex_match_sound ps qs s (ground arith) in
          let hit : in_class lo hi c ≡ true = ground arith in
          (c ∷ a, b, ap (◌∷◌ c) e, ground (arith, hit, left), right)
      | inr left_out ↦
          let (a, b, e, left, right) = regex_match_sound ps qs (c ∷ s) (ground arith) in
          (a, b, e, optional_skipped lo hi ps a left, right)
    ]

regex_match_complete :
    (ps qs : List Atom) (a b : Bytes)
    → regex_match ps a ≡ true
    → regex_match qs b ≡ true
    → regex_match (ps ++ qs) (a ++ b) ≡ true
unfolding regex_match
regex_match_complete [] qs [] b left right = right
regex_match_complete [] qs (c ∷ a) b left right = absurd cc
regex_match_complete (one lo hi ∷ ps) qs [] b left right = absurd cc
regex_match_complete (one lo hi ∷ ps) qs (c ∷ a) b left right =
    let rest = regex_match_complete ps qs a b (ground arith) right in ground (arith, rest)
regex_match_complete (optional lo hi ∷ ps) qs [] b left right =
    optional_skipped lo hi (ps ++ qs) b (regex_match_complete ps qs [] b left right)
regex_match_complete (optional lo hi ∷ ps) qs (c ∷ a) b left right =
    elim (Bool-cases (in_class lo hi c && regex_match ps a)) [
      | inl taken ↦
          let rest = regex_match_complete ps qs a b (ground arith) right in
          ground (arith, rest, taken)
      | inr left_out ↦
          optional_skipped lo hi (ps ++ qs) (c ∷ a ++ b)
            (regex_match_complete ps qs (c ∷ a) b (ground arith) right)
    ]

-- The texts that a pattern stands for.
abbrev pub Matches : List Atom → Bytes → Type 0
Matches ps s = regex_match ps s ≡ true

pub regex_match-append :
    (ps qs : List Atom) (s : Bytes)
    → Matches (ps ++ qs) s
      ↔ ((a : Bytes) × (b : Bytes) × (s ≡ a ++ b) × Matches ps a × Matches qs b)
regex_match-append ps qs s = (
  regex_match_sound ps qs s,
  λ (a, b, e, left, right). rw e (regex_match_complete ps qs a b left right),
)

pub literal_sound : (t s : Bytes) → Matches (literal t) s → s ≡ t
unfolding regex_match
literal_sound [] [] h = refl
literal_sound [] (c ∷ s) h = absurd cc
literal_sound (d ∷ t) [] h = absurd cc
literal_sound (d ∷ t) (c ∷ s) h =
    let same = literal_sound t s (ground arith) in
    let first : c ≡ d = ground arith in rw (first, same) refl

pub literal_complete : (t : Bytes) → Matches (literal t) t
unfolding regex_match
literal_complete [] = refl
literal_complete (d ∷ t) = let rest = literal_complete t in ground (arith, rest)

abbrev pub Digit : ℕ → Type 0
Digit c = (48 ≤ c) × (c ≤ 57)

-- One to three digits.
abbrev pub IsOctet : Bytes → Type 0
IsOctet t = (1 ≤ length t) × (length t ≤ 3) × All Digit t

pub octet_sound : (t : Bytes) → Matches octet t → IsOctet t
unfolding regex_match
octet_sound [] h = absurd cc
octet_sound (x ∷ []) h = (omega arith, omega arith, (ground arith, tt))
octet_sound (x ∷ y ∷ []) h = (omega arith, omega arith, (ground arith, (ground arith, tt)))
octet_sound (x ∷ y ∷ z ∷ []) h =
    (omega arith, omega arith, (ground arith, (ground arith, (ground arith, tt))))
octet_sound (x ∷ y ∷ z ∷ w ∷ t) h = absurd (ground arith)

pub octet_complete : (t : Bytes) → IsOctet t → Matches octet t
unfolding regex_match
octet_complete [] (a, b, c) = absurd (omega arith)
octet_complete (x ∷ []) (a, b, c) = ground (arith, c.0)
octet_complete (x ∷ y ∷ []) (a, b, c) = ground (arith, c.0, c.1)
octet_complete (x ∷ y ∷ z ∷ []) (a, b, c) = ground (arith, c.0, c.1)
octet_complete (x ∷ y ∷ z ∷ w ∷ t) (a, b, c) = absurd (omega arith)
