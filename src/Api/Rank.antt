-- ===== src/Api/Rank.antt =====
-- rankIp and the order in which get_local_ip_and_mac of common-cpp/src/api/api.cpp sorts the network
-- interfaces.
use pcbu_natives_old.Prelude.{
  ℕ, ◌+◌, ◌-◌, ◌≡◌, refl, ◌⊎◌, inl, inr, Bool, true, false, [], ◌∷◌, arith, ltb, leb, ◌==◌, ◌&&◌,
  ◌||◌, if◌then◌else◌,
}
use pcbu_natives_old.Prelude.Signed.{ℤ, pos, negsuc}
use pcbu_natives_old.Prelude.Texts.{Bytes, codes}
use pcbu_natives_old.Utils.Affix.{starts_with, contains, to_lower_string}
use pcbu_natives_old.Api.Regex.{local_v4}

pub record NetworkInterface : Type 0 where
  pub if_name : Bytes
  pub ip_address : Bytes
  pub mac_address : Bytes

-- The names that take 100 off the rank on Linux, and on Windows.
unfoldable pub is_virtual_linux : Bytes → Bool
unfolding starts_with
is_virtual_linux name =
    starts_with name (codes "vir")
    || starts_with name (codes "docker")
    || starts_with name (codes "ham")

unfoldable pub is_virtual_windows : Bytes → Bool
unfolding contains
is_virtual_windows name =
    contains name (codes "Bluetooth")
    || contains name (codes "vEthernet")
    || contains name (codes "VMware")
    || contains name (codes "VirtualBox")
    || contains name (codes "Docker")

-- `rank -= 100`
abbrev pub minus_100 : ℕ → ℤ
minus_100 n = if leb 100 n then pos (n - 100) else negsuc (99 - n)

module _ (is_virtual : Bytes → Bool) where
  unfoldable pub rank_ip : NetworkInterface → ℤ
  rank_ip net_if =
      let local = if local_v4 net_if.ip_address then 1000 else 0 in
      let usual =
        if starts_with net_if.ip_address (codes "192.168.")
          || starts_with net_if.ip_address (codes "10.")
        then 50
        else 0 in
      if is_virtual net_if.if_name then minus_100 (local + usual) else pos (local + usual)

-- `==` and `>` of int.
abbrev pub int_eq : ℤ → ℤ → Bool
int_eq (pos m) (pos n) = m == n
int_eq (negsuc m) (negsuc n) = m == n
int_eq _ _ = false

abbrev pub int_gt : ℤ → ℤ → Bool
int_gt (pos m) (pos n) = ltb n m
int_gt (pos m) (negsuc n) = true
int_gt (negsuc m) (pos n) = false
int_gt (negsuc m) (negsuc n) = ltb m n

-- `operator<` of std::string.
unfoldable pub text_lt : Bytes → Bytes → Bool
text_lt s [] = false
text_lt [] (y ∷ ys) = true
text_lt (x ∷ xs) (y ∷ ys) = let rest = text_lt xs ys in ltb x y || (x == y && rest)

-- The lambda given to std::sort.
unfoldable pub comes_before : (Bytes → Bool) → NetworkInterface → NetworkInterface → Bool
comes_before is_virtual a b =
    let rank_a = rank_ip is_virtual a in
    let rank_b = rank_ip is_virtual b in
    let by_name = text_lt (to_lower_string a.if_name) (to_lower_string b.if_name) in
    if int_eq rank_a rank_b then by_name else int_gt rank_a rank_b

-- What std::sort asks of the comparison: nothing comes before itself, and what comes before another
-- comes before or after any third.
pub record StrictWeak {ℓ} {A : Type ℓ} (lt : A → A → Bool) : Type ℓ where
  pub irreflexive : (a : A) → lt a a ≡ false
  pub transitive : (a b c : A) → lt a b ≡ true → lt b c ≡ true → lt a c ≡ true
  pub splits : (a b c : A) → lt a c ≡ true → (lt a b ≡ true) ⊎ (lt b c ≡ true)

text_lt_irreflexive : (s : Bytes) → text_lt s s ≡ false
unfolding text_lt
text_lt_irreflexive [] = refl
text_lt_irreflexive (x ∷ s) = let rest = text_lt_irreflexive s in ground (arith, rest)

text_lt_transitive : (a b c : Bytes) → text_lt a b ≡ true → text_lt b c ≡ true → text_lt a c ≡ true
unfolding text_lt
text_lt_transitive a [] c h k = absurd cc
text_lt_transitive a (y ∷ b) [] h k = absurd cc
text_lt_transitive [] (y ∷ b) (z ∷ c) h k = refl
text_lt_transitive (x ∷ a) (y ∷ b) (z ∷ c) h k = ground (arith, h, k, text_lt_transitive a b c)

text_lt_splits : (a b c : Bytes) → text_lt a c ≡ true → (text_lt a b ≡ true) ⊎ (text_lt b c ≡ true)
unfolding text_lt
text_lt_splits a b [] h = absurd cc
text_lt_splits [] [] (z ∷ c) h = inr refl
text_lt_splits (x ∷ a) [] (z ∷ c) h = inr refl
text_lt_splits [] (y ∷ b) (z ∷ c) h = inl refl
text_lt_splits (x ∷ a) (y ∷ b) (z ∷ c) h = ground (arith, h, text_lt_splits a b c)

-- Rank first, then name.
abbrev ranked_lt : ℤ → Bytes → ℤ → Bytes → Bool
ranked_lt r s q t = let by_name = text_lt s t in if int_eq r q then by_name else int_gt r q

ranked_lt_irreflexive : (r : ℤ) (s : Bytes) → ranked_lt r s r s ≡ false
ranked_lt_irreflexive (pos r) s = ground (arith, text_lt_irreflexive s)
ranked_lt_irreflexive (negsuc r) s = ground (arith, text_lt_irreflexive s)

ranked_lt_transitive :
    (r q p : ℤ) (s t u : Bytes)
    → ranked_lt r s q t ≡ true
    → ranked_lt q t p u ≡ true
    → ranked_lt r s p u ≡ true
ranked_lt_transitive (pos r) (pos q) (pos p) s t u h k =
    ground (arith, h, k, text_lt_transitive s t u)
ranked_lt_transitive (pos r) (pos q) (negsuc p) s t u h k = refl
ranked_lt_transitive (pos r) (negsuc q) (pos p) s t u h k = absurd cc
ranked_lt_transitive (pos r) (negsuc q) (negsuc p) s t u h k = refl
ranked_lt_transitive (negsuc r) (pos q) p s t u h k = absurd cc
ranked_lt_transitive (negsuc r) (negsuc q) (pos p) s t u h k = absurd cc
ranked_lt_transitive (negsuc r) (negsuc q) (negsuc p) s t u h k =
    ground (arith, h, k, text_lt_transitive s t u)

ranked_lt_splits :
    (r q p : ℤ) (s t u : Bytes)
    → ranked_lt r s p u ≡ true
    → (ranked_lt r s q t ≡ true) ⊎ (ranked_lt q t p u ≡ true)
ranked_lt_splits (pos r) (pos q) (pos p) s t u h = ground (arith, h, text_lt_splits s t u)
ranked_lt_splits (pos r) (pos q) (negsuc p) s t u h = inr refl
ranked_lt_splits (pos r) (negsuc q) p s t u h = inl refl
ranked_lt_splits (negsuc r) q (pos p) s t u h = absurd cc
ranked_lt_splits (negsuc r) (pos q) (negsuc p) s t u h = inr refl
ranked_lt_splits (negsuc r) (negsuc q) (negsuc p) s t u h = ground (arith, h, text_lt_splits s t u)

-- The comparison given to std::sort is a strict weak order, which the sort needs to be defined: no
-- interface comes before itself, the order is transitive, and of two that are ordered each third one
-- comes after the first or before the second.
pub comes_before-StrictWeak : (is_virtual : Bytes → Bool) → StrictWeak (comes_before is_virtual)
unfolding comes_before
comes_before-StrictWeak v = record {
  irreflexive = λ a. ranked_lt_irreflexive (rank_ip v a) (to_lower_string a.if_name);
  transitive = λ a b c.
      ranked_lt_transitive (rank_ip v a) (rank_ip v b) (rank_ip v c) (to_lower_string a.if_name)
        (to_lower_string b.if_name) (to_lower_string c.if_name);
  splits = λ a b c.
      ranked_lt_splits (rank_ip v a) (rank_ip v b) (rank_ip v c) (to_lower_string a.if_name)
        (to_lower_string b.if_name) (to_lower_string c.if_name);
}
