-- ===== src/Utils/Random.antt =====
-- Utils::GetRandomInt, GetRandomString and IsLittleEndian. `RAND_bytes` is a parameter: the k-th
-- draw is the bit pattern of an int, a number below 2 ^ 32.
use pcbu_natives_old.Prelude.{
  ℕ, zero, suc, ◌+◌, ◌-◌, ◌%◌, ◌^◌, ◌<◌, ◌≡◌, refl, ap, Bool, true, [], ◌∷◌, arith, ltb, leb, ◌&&◌,
  ◌||◌, if◌then◌else◌, length, get_or, All, Bool-cases, ==_iff, ◌==◌, inl, inr, subst,
}
use pcbu_natives_old.Prelude.Texts.{Bytes, codes}

abbrev pub Draws : Type 0
Draws = ℕ → ℕ

unfoldable pub get_random_int : Draws → ℕ → ℕ
get_random_int draws k = draws k

-- An int that is converted to size_t keeps its value modulo 2 ^ 64.
size_of_int : ℕ → ℕ
size_of_int v = if ltb v (2 ^ 31) then v else v + 2 ^ 64 - 2 ^ 32

charset : Bytes
charset = codes "0123456789ABCDEFGHIJKLMNOPQRSTUVWXYZabcdefghijklmnopqrstuvwxyz"

-- `sizeof(charset) - 1`
abbrev max_index : ℕ
max_index = 62

rand_char : Draws → ℕ → ℕ
unfolding charset size_of_int get_random_int
rand_char draws k = get_or charset (size_of_int (get_random_int draws k) % max_index) 0

-- `generate_n`, from draw number k on.
unfoldable pub get_random_string : Draws → ℕ → ℕ → Bytes
unfolding rand_char
get_random_string draws k zero = []
get_random_string draws k (suc n) = rand_char draws k ∷ get_random_string draws (suc k) n

abbrev pub is_alnum : ℕ → Bool
is_alnum c = leb b'0' c && leb c b'9' || (leb b'A' c && leb c b'Z' || leb b'a' c && leb c b'z')

all_alnum : ℕ → Bool
unfolding charset
all_alnum zero = true
all_alnum (suc n) = is_alnum (get_or charset n 0) && all_alnum n

all_alnum-lt : (n i : ℕ) → all_alnum n ≡ true → i < n → is_alnum (get_or charset i 0) ≡ true
unfolding all_alnum
all_alnum-lt zero i h lt = absurd (omega arith)
all_alnum-lt (suc n) i h lt = elim (Bool-cases (n == i)) [
  | inl same ↦
      let e : n ≡ i = (==_iff n i).0 same in
      subst (λ k. is_alnum (get_or charset k 0) ≡ true) e (and_parts h).0
  | inr other ↦ all_alnum-lt n i (and_parts h).1 (ground arith)
]
  where
    and_parts : {a b : Bool} → (a && b) ≡ true → (a ≡ true) × (b ≡ true)
    and_parts {a} {b} e = ground arith

charset_alnum : all_alnum max_index ≡ true
unfolding all_alnum
charset_alnum = refl

rand_char-is_alnum : (draws : Draws) (k : ℕ) → is_alnum (rand_char draws k) ≡ true
unfolding rand_char
rand_char-is_alnum draws k =
    all_alnum-lt max_index (size_of_int (get_random_int draws k) % max_index) charset_alnum
      (omega arith)

-- GetRandomString draws a text of the length asked for, and every character is a digit or a letter,
-- for negative draws too.
pub get_random_string-is_alnum :
    (draws : Draws) (k n : ℕ)
    → (length (get_random_string draws k n) ≡ n)
      × All (λ c. is_alnum c ≡ true) (get_random_string draws k n)
unfolding get_random_string
get_random_string-is_alnum draws k zero = (refl, tt)
get_random_string-is_alnum draws k (suc n) =
    let rest = get_random_string-is_alnum draws (suc k) n in
    (ap suc rest.0, (rand_char-is_alnum draws k, rest.1))
