-- ===== src/Win/Names.antt =====
-- DomainUsernameStringAlloc and SplitDomainAndUsername of win-pcbiounlock/src/helpers.cpp.
use pcbu_natives_old.Prelude.{
  ℕ, suc, ◌+◌, ◌-◌, ◌*◌, ◌<◌, ◌≤◌, ◌≡◌, refl, ap, sym, ◌∙◌, ◌≢◌, ◌⊎◌, inl, inr, Bool, true, false,
  Bool-cases, ==_iff, subst, none, some, [], ◌∷◌, ◌++◌, arith, ◌==◌, length, length-append, take,
  drop, take-append, drop-append-more, take_all, All,
}
use pcbu_natives_old.Prelude.Texts.{Bytes}
use pcbu_natives_old.Win.Results.{Wide, Result, ok, error, ◌>>=◌, allocated, e_unexpected, size_t}
use pcbu_natives_old.Utils.Split.{find_char, Lacks, join_with, split_string, split_string-IsSplit}

-- The backslash, and the memory a call asks for.
abbrev pub whack : ℕ
whack = 92

pub data NameMemory : Type 0 where
  qualified_text domain_text username_text : NameMemory

-- CoTaskMemAlloc and HeapAlloc by what the memory is for and its size; StringCbPrintfW with
-- "%s\\%s" by the size of the buffer and the two texts; StringCchCopyNW by the size of the buffer,
-- the source and the most units it takes of it.
pub record NameCalls : Type 0 where
  pub memory : NameMemory → ℕ → Bool
  pub print_pair : ℕ → Wide → Wide → Result Wide
  pub copy_units : ℕ → Wide → ℕ → Result Wide

abbrev pub max_units : ℕ
max_units = 2147483647

-- Calls that are given memory, and that keep to the documentation of StringCbPrintfW and
-- StringCchCopyNW: both write what fits, as long as the size of the buffer is at most
-- STRSAFE_MAX_CCH.
pub record KeepsNames (calls : NameCalls) : Type 0 where
  pub memory_given : (use_of : NameMemory) (size : ℕ) → calls.memory use_of size ≡ true
  pub print_pair_fits :
      (size : ℕ) (d u : Wide)
      → 2 * (length d + 1 + length u + 1) ≤ size
      → size ≤ 2 * max_units
      → calls.print_pair size d u ≡ ok (d ++ whack ∷ u)
  pub copy_units_fits :
      (size : ℕ) (src : Wide) (n : ℕ)
      → n ≤ length src
      → n < size
      → size ≤ max_units
      → calls.copy_units size src n ≡ ok (take n src)

unfoldable pub domain_username_string_alloc : NameCalls → Wide → Wide → Result Wide
domain_username_string_alloc calls domain username =
    let size = size_t (2 * (length domain + 1 + length username + 1)) in
    allocated (calls.memory qualified_text size) (calls.print_pair size domain username)

-- What SplitDomainAndUsername does with a backslash at `at`.
unfoldable pub split_at : NameCalls → Wide → ℕ → Result (Wide × Wide)
split_at calls name at =
    let username_begin = suc at in
    let len_domain = at in
    let len_username = length name - username_begin in
    allocated (calls.memory domain_text (size_t (2 * (len_domain + 1)))) (
      calls.copy_units (len_domain + 1) name len_domain >>= λ domain.
      allocated (calls.memory username_text (size_t (2 * (len_username + 1)))) (
        calls.copy_units (len_username + 1) (drop username_begin name) len_username >>= λ username.
        ok (domain, username)))

unfoldable pub split_domain_and_username : NameCalls → Wide → Result (Wide × Wide)
split_domain_and_username calls name = elim (find_char name whack 0) [
  | none ↦ error e_unexpected
  | some at ↦ split_at calls name at
]

find_char-append : (d u : Wide) (c : ℕ) → Lacks c d → find_char (d ++ c ∷ u) c 0 ≡ some (length d)
unfolding find_char
find_char-append [] u c h = rw ((==_iff c c).1 refl)
find_char-append (x ∷ d) u c h =
    let miss : (x == c) ≡ false = ground arith in rw (miss, find_char-append d u c h.1)

-- A text either lacks the unit, or is cut at the first one.
abbrev Cut : ℕ → Wide → Type 0
Cut c q = (d : Wide) × (u : Wide) × (q ≡ d ++ c ∷ u) × Lacks c d

Cut-cons : (c x : ℕ) (q : Wide) → x ≢ c → (Lacks c q ⊎ Cut c q) → Lacks c (x ∷ q) ⊎ Cut c (x ∷ q)
Cut-cons c x q ne (inl none_here) = inl (ne, none_here)
Cut-cons c x q ne (inr (d, u, e, lacks)) = inr (x ∷ d, u, ap (◌∷◌ x) e, (ne, lacks))

pub Lacks-or-Cut : (c : ℕ) (q : Wide) → Lacks c q ⊎ Cut c q
Lacks-or-Cut c [] = inl tt
Lacks-or-Cut c (x ∷ q) = elim (Bool-cases (x == c)) [
  | inl hit ↦ let same : x ≡ c = ground arith in inr ([], q, ap (λ y. y ∷ q) same, tt)
  | inr miss ↦ Cut-cons c x q (ground arith) (Lacks-or-Cut c q)
]

find_char-Lacks : (q : Wide) (c : ℕ) → Lacks c q → find_char q c 0 ≡ none
unfolding find_char
find_char-Lacks [] c h = refl
find_char-Lacks (x ∷ q) c h =
    let miss : (x == c) ≡ false = ground arith in rw (miss, find_char-Lacks q c h.1)

-- What the conversion to UTF-8 promises of backslashes: the one between two texts stays between
-- them, and a text without one gets none.
pub record KeepsWhack (to_narrow : Wide → Bytes) : Type 0 where
  pub keeps : (d u : Wide) → to_narrow (d ++ whack ∷ u) ≡ to_narrow d ++ whack ∷ to_narrow u
  pub makes_none : (w : Wide) → Lacks whack w → Lacks whack (to_narrow w)

not-Lacks : (d u : Bytes) (c : ℕ) → ¬ Lacks c (d ++ c ∷ u)
not-Lacks [] u c h = h.0 refl
not-Lacks (x ∷ d) u c h = not-Lacks d u c h.1

head_of : ℕ → Bytes → ℕ
head_of x [] = x
head_of x (y ∷ ys) = y

tail_of : Bytes → Bytes
tail_of [] = []
tail_of (y ∷ ys) = ys

-- A text is cut at its first `c` in one way.
Cut-unique :
    (d e u v : Bytes) (c : ℕ) → Lacks c d → Lacks c e → d ++ c ∷ u ≡ e ++ c ∷ v → (d ≡ e) × (u ≡ v)
unfolding head_of tail_of
Cut-unique [] [] u v c h k same = (refl, ap tail_of same)
Cut-unique [] (y ∷ e) u v c h k same = absurd (k.0 (sym (ap (head_of c) same)))
Cut-unique (x ∷ d) [] u v c h k same = absurd (h.0 (ap (head_of c) same))
Cut-unique (x ∷ d) (y ∷ e) u v c h k same =
    let (left, right) = Cut-unique d e u v c h.1 k.1 (ap tail_of same) in
    let first : x ≡ y = ap (head_of c) same in (rw first (ap (◌∷◌ y) left), right)

module _ (calls : NameCalls) (keeps : KeepsNames calls) where
  split_at-whack :
      (d u : Wide)
      → length (d ++ whack ∷ u) < max_units
      → split_at calls (d ++ whack ∷ u) (length d) ≡ ok (d, u)
  unfolding split_at
  split_at-whack d u small =
      let len : length (d ++ whack ∷ u) ≡ length d + suc (length u) = length-append d (whack ∷ u) in
      let left : length (d ++ whack ∷ u) - suc (length d) ≡ length u = omega (arith, len) in
      let ahead : suc (length d) ≡ length d + 1 = omega arith in
      let tail : drop (suc (length d)) (d ++ whack ∷ u) ≡ u =
        rw ahead (drop-append-more d (whack ∷ u) (length d) 1 refl) in
      let front : calls.copy_units (length d + 1) (d ++ whack ∷ u) (length d) ≡ ok d =
        keeps.copy_units_fits (length d + 1) (d ++ whack ∷ u) (length d) (omega (arith, len))
          (omega arith) (omega (arith, len))
        ∙ ap ok (take-append d (whack ∷ u) (length d) refl) in
      let back : calls.copy_units (length u + 1) u (length u) ≡ ok u =
        keeps.copy_units_fits (length u + 1) u (length u) (omega arith) (omega arith)
          (omega (arith, len))
        ∙ ap ok (take_all u (length u) (omega arith)) in
      rw (
        keeps.memory_given domain_text (size_t (2 * (length d + 1))),
        front,
        tail,
        left,
        keeps.memory_given username_text (size_t (2 * (length u + 1))),
        back,
      )

  pub split_whole :
      (d u : Wide)
      → Lacks whack d
      → length (d ++ whack ∷ u) < max_units
      → split_domain_and_username calls (d ++ whack ∷ u) ≡ ok (d, u)
  unfolding split_domain_and_username
  split_whole d u lacks small =
      rw (find_char-append d u whack lacks, split_domain_and_username) (split_at-whack d u small)

  fails_whole :
      (name : Wide) → Lacks whack name → split_domain_and_username calls name ≡ error e_unexpected
  unfolding split_domain_and_username
  fails_whole name lacks = rw (find_char-Lacks name whack lacks, split_domain_and_username)

  -- A name is split at its first backslash: the call gives the two sides of it, and a name without
  -- a backslash fails with E_UNEXPECTED. The conditions are that the calls of Windows keep to their
  -- documentation and that the name is shorter than STRSAFE_MAX_CCH.
  pub split_domain_and_username-Cut :
      (name : Wide)
      → length name < max_units
      → ((Lacks whack name) × (split_domain_and_username calls name ≡ error e_unexpected))
        ⊎ ((d : Wide) × (u : Wide) × (name ≡ d ++ whack ∷ u)
            × Lacks whack d
            × (split_domain_and_username calls name ≡ ok (d, u)))
  split_domain_and_username-Cut name small = elim (Lacks-or-Cut whack name) [
    | inl lacks ↦ inl (lacks, fails_whole name lacks)
    | inr (d, u, e, lacks) ↦
        inr
          (d, u, e, lacks, rw e (split_whole d u lacks (subst (λ q. length q < max_units) e small)))
  ]

  -- A domain without a backslash and a user name come back from the text that
  -- DomainUsernameStringAlloc makes of them. The conditions are that memory is given, that the calls
  -- of Windows keep to their documentation, and that the text is shorter than STRSAFE_MAX_CCH.
  pub split-DomainUsername :
      (domain username : Wide)
      → Lacks whack domain
      → length domain + length username + 2 < max_units
      → (domain_username_string_alloc calls domain username >>= split_domain_and_username calls)
        ≡ ok (domain, username)
  unfolding domain_username_string_alloc
  split-DomainUsername d u lacks small =
      let n = 2 * (length d + 1 + length u + 1) in
      let same : size_t n ≡ n = omega arith in
      rw
        (
          same,
          keeps.memory_given qualified_text n,
          keeps.print_pair_fits n d u (omega arith) (omega arith),
        )
        (split_whole d u lacks (omega (arith, length-append d (whack ∷ u))))

  -- Where SplitString cuts the UTF-8 text of a name at its backslashes into two parts, as
  -- ListenThread asks of the user it unlocks for, SplitDomainAndUsername cuts the name itself into two
  -- texts, and these in UTF-8 are the two parts. The conditions are that memory is given, that the
  -- calls of Windows keep to their documentation, that the conversion keeps a backslash where it is
  -- and makes none, and that the name is shorter than STRSAFE_MAX_CCH.
  pub split_domain_and_username-split_string :
      (to_narrow : Wide → Bytes)
      → KeepsWhack to_narrow
      → (name : Wide) (domain username : Bytes) → length name < max_units
      → split_string (to_narrow name) whack ≡ some (domain ∷ username ∷ [])
      → (d : Wide) × (u : Wide) × (split_domain_and_username calls name ≡ ok (d, u))
        × (to_narrow d ≡ domain)
        × (to_narrow u ≡ username)
  split_domain_and_username-split_string to_narrow utf8 name domain username small two =
      let (ps, got, (nonempty, joined, lacking)) = split_string-IsSplit (to_narrow name) whack in
      let parts : ps ≡ domain ∷ username ∷ [] = cc in
      let back : domain ++ whack ∷ username ≡ to_narrow name =
        unfold join_with in subst (λ qs. join_with whack qs ≡ to_narrow name) parts joined in
      let lacks = subst (All (Lacks whack)) parts lacking in
      elim (Lacks-or-Cut whack name) [
        | inl clean ↦ absurd (
            not-Lacks domain username whack
              (subst (Lacks whack) (sym back) (utf8.makes_none name clean)))
        | inr (d, u, e, clean) ↦
            let both : domain ++ whack ∷ username ≡ to_narrow d ++ whack ∷ to_narrow u =
              back ∙ ap to_narrow e ∙ utf8.keeps d u in
            let (left, right) =
              Cut-unique domain (to_narrow d) username (to_narrow u) whack lacks.0
                (utf8.makes_none d clean) both in
            (
              d,
              u,
              ap (split_domain_and_username calls) e
                  ∙ split_whole d u clean (subst (λ q. length q < max_units) e small),
              sym left,
              sym right,
            )
      ]
