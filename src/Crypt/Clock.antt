-- ===== src/Crypt/Clock.antt =====
-- The 8 bytes of a time on the wire: an int64_t copied with memcpy, then CryptUtils::ReverseBytes.
-- A time is its bit pattern, a number below 2 ^ 64; `little` is Utils::IsLittleEndian.
use mathlib.Core.List.{reverse}
use pcbu_natives_old.Prelude.{
  ℕ, zero, suc, ◌+◌, ◌-◌, ◌*◌, ◌/◌, ◌%◌, ◌^◌, ◌<◌, ◌≡◌, refl, Bool, true, false, [], ◌∷◌, ◌++◌,
  arith, if◌then◌else◌, length, get_or, set, take,
}
use pcbu_natives_old.Prelude.Texts.{Bytes}

-- The swap of `data[i]` and `data[n - 1 - i]`.
swap_bytes : Bytes → ℕ → ℕ → Bytes
swap_bytes bytes n i =
    let tmp = get_or bytes i 0 in set (set bytes i (get_or bytes (n - 1 - i) 0)) (n - 1 - i) tmp

-- `rounds` rounds of the loop from index i on.
reverse_loop : ℕ → Bytes → ℕ → ℕ → Bytes
unfolding swap_bytes
reverse_loop zero bytes n i = bytes
reverse_loop (suc rounds) bytes n i = reverse_loop rounds (swap_bytes bytes n i) n (i + 1)

unfoldable pub reverse_bytes : Bool → Bytes → ℕ → Bytes
unfolding reverse_loop
reverse_bytes little bytes n = if little then reverse_loop (n / 2) bytes n 0 else bytes

-- The bytes of a number, the lowest first.
abbrev pub le_bytes : ℕ → ℕ → Bytes
le_bytes zero v = []
le_bytes (suc n) v = (v % 256) ∷ le_bytes n (v / 256)

abbrev pub of_le_bytes : Bytes → ℕ
of_le_bytes [] = 0
of_le_bytes (b ∷ bs) = b + 256 * of_le_bytes bs

-- The int64_t in memory.
abbrev pub store64 : Bool → ℕ → Bytes
store64 true v = le_bytes 8 v
store64 false v = reverse (le_bytes 8 v)

abbrev pub load64 : Bool → Bytes → ℕ
load64 true bytes = of_le_bytes bytes
load64 false bytes = of_le_bytes (reverse bytes)

-- `sizeof(int64_t)`
abbrev pub time_size : ℕ
time_size = 8

-- Eight bytes are reversed in place, and what follows them is left alone.
pub reverse_bytes_eight :
    (a b c d e f g h : ℕ) (rest : Bytes)
    → reverse_bytes true (a ∷ b ∷ c ∷ d ∷ e ∷ f ∷ g ∷ h ∷ rest) time_size
      ≡ h ∷ g ∷ f ∷ e ∷ d ∷ c ∷ b ∷ a ∷ rest
unfolding reverse_bytes
reverse_bytes_eight a b c d e f g h rest = refl

-- On the wire the highest byte comes first, on hosts of either byte order.
pub big_endian :
    (little : Bool) (v : ℕ)
    → reverse_bytes little (store64 little v) time_size ≡ reverse (le_bytes 8 v)
unfolding reverse_bytes
big_endian true v = refl
big_endian false v = refl

of_le_bytes-le_bytes : (v : ℕ) → v < 2 ^ 64 → of_le_bytes (le_bytes 8 v) ≡ v
of_le_bytes-le_bytes v h = omega arith

pub load64-stamp :
    (little other : Bool) (v : ℕ) (rest : Bytes)
    → v < 2 ^ 64
    → load64 other (
        reverse_bytes other
          (take 8 (reverse_bytes little (store64 little v) time_size ++ rest))
          time_size)
      ≡ v
unfolding reverse_bytes
load64-stamp true true v rest h = of_le_bytes-le_bytes v h
load64-stamp true false v rest h = of_le_bytes-le_bytes v h
load64-stamp false true v rest h = of_le_bytes-le_bytes v h
load64-stamp false false v rest h = of_le_bytes-le_bytes v h

pub length-stamp :
    (little : Bool) (v : ℕ) → length (reverse_bytes little (store64 little v) time_size) ≡ 8
unfolding reverse_bytes
length-stamp true v = refl
length-stamp false v = refl
