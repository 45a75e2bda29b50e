-- ===== src/Utils/Split.antt =====
-- Utils::SplitString. `prev_pos` and `pos` are the loop's two positions; `find` from a position
-- and `substr` are those of std::string.
use pcbu_natives_old.Prelude.{
  ℕ, zero, suc, ◌+◌, ◌-◌, ◌≤◌, ◌<◌, ◌≡◌, refl, ap, sym, ◌∙◌, ◌≢◌, ◌⊎◌, inl, inr, subst, Bool-cases,
  ==_iff, Bool, true, false, Option, none, some, List, [], ◌∷◌, ◌++◌, append_assoc, arith, ◌==◌,
  if◌then◌else◌, length, take, drop, drop-nil, All,
}
use pcbu_natives_old.Prelude.Texts.{Bytes}
use mathlib.Core.Option

-- `s.find(c, pos)`; `none` is npos.
unfoldable pub find_char : Bytes → ℕ → ℕ → Option ℕ
find_char [] c pos = none
find_char (x ∷ xs) c zero = if x == c then some 0 else Option.map suc (find_char xs c zero)
find_char (x ∷ xs) c (suc pos) = Option.map suc (find_char xs c pos)

-- The `while` loop and the push after it; `none` means that the fuel ran out.
unfoldable pub split_loop : ℕ → Bytes → ℕ → ℕ → ℕ → List Bytes → Option (List Bytes)
split_loop zero s seperator prev_pos pos output = none
split_loop (suc fuel) s seperator prev_pos pos output = elim (find_char s seperator pos) [
  | none ↦ some (output ++ drop prev_pos s ∷ [])
  | some at ↦
      split_loop fuel s seperator (suc at) (suc at)
        (output ++ take (at - prev_pos) (drop prev_pos s) ∷ [])
]

unfoldable pub split_string : Bytes → ℕ → Option (List Bytes)
unfolding split_loop find_char
split_string s seperator = split_loop (suc (length s)) s seperator 0 0 []

-- The reference: one pass over the text, with no positions.
abbrev pub cons_head : ℕ → List Bytes → List Bytes
cons_head x [] = (x ∷ []) ∷ []
cons_head x (p ∷ ps) = (x ∷ p) ∷ ps

unfoldable pub pieces : ℕ → Bytes → List Bytes
pieces sep [] = [] ∷ []
pieces sep (x ∷ xs) = if x == sep then [] ∷ pieces sep xs else cons_head x (pieces sep xs)

abbrev FindSpec : ℕ → Bytes → ℕ → Option ℕ → Type 0
FindSpec sep s p none = pieces sep (drop p s) ≡ drop p s ∷ []
FindSpec sep s p (some q) =
    (p ≤ q)
    × (q < length s)
    × (pieces sep (drop p s) ≡ take (q - p) (drop p s) ∷ pieces sep (drop (suc q) s))

FindSpec-later :
    (sep x : ℕ) (xs : Bytes) (p : ℕ) (r : Option ℕ)
    → FindSpec sep xs p r
    → FindSpec sep (x ∷ xs) (suc p) (Option.map suc r)
FindSpec-later sep x xs p none h = h
FindSpec-later sep x xs p (some q) (a, b, e) =
    let same : suc q - suc p ≡ q - p = omega arith in (omega arith, omega arith, rw same e)

FindSpec-skip :
    (sep x : ℕ) (xs : Bytes) (r : Option ℕ)
    → (x == sep) ≡ false
    → FindSpec sep xs 0 r
    → FindSpec sep (x ∷ xs) 0 (Option.map suc r)
unfolding pieces
FindSpec-skip sep x xs none miss h = rw (miss, h) refl
FindSpec-skip sep x xs (some q) miss (a, b, e) =
    let same : q - 0 ≡ q = omega arith in
    let same' : suc q - 0 ≡ suc q = omega arith in
    (omega arith, omega arith, rw (miss, same', e, same) refl)

find_char-FindSpec : (sep : ℕ) (s : Bytes) (p : ℕ) → FindSpec sep s p (find_char s sep p)
unfolding find_char
find_char-FindSpec sep [] p = rw (drop-nil p) (unfold pieces in refl)
find_char-FindSpec sep (x ∷ xs) zero = go (x == sep) refl (find_char-FindSpec sep xs 0)
  where
    go :
        (b : Bool)
        → (x == sep) ≡ b
        → FindSpec sep xs 0 (find_char xs sep 0)
        → FindSpec sep (x ∷ xs) 0 (if b then some 0 else Option.map suc (find_char xs sep 0))
    go true e ih = (omega arith, omega arith, first e)
      where
        first : (x == sep) ≡ true → pieces sep (x ∷ xs) ≡ [] ∷ pieces sep xs
        first h = unfold pieces in rw h refl
    go false e ih = FindSpec-skip sep x xs (find_char xs sep 0) e ih
find_char-FindSpec sep (x ∷ xs) (suc p) =
    FindSpec-later sep x xs p (find_char xs sep p) (find_char-FindSpec sep xs p)

-- From a position inside the text, with fuel for the separators left, the loop pushes what is left.
split_loop-pieces :
    (fuel : ℕ) (s : Bytes) (sep p : ℕ) (out : List Bytes)
    → p ≤ length s
    → length s < p + fuel
    → split_loop fuel s sep p p out ≡ some (out ++ pieces sep (drop p s))
unfolding split_loop
split_loop-pieces zero s sep p out inside enough = absurd (omega arith)
split_loop-pieces (suc fuel) s sep p out inside enough = elim (found (find_char s sep p) refl) [
  | inl (miss, last) ↦ rw (miss, split_loop) (rw last refl)
  | inr (q, hit, le, lt, cut) ↦
      rw (hit, split_loop)
        (split_loop-pieces fuel s sep (suc q) (out ++ take (q - p) (drop p s) ∷ []) (omega arith)
            (omega arith)
          ∙ ap some (append_assoc out (take (q - p) (drop p s) ∷ []) _ ∙ ap (◌++◌ out) (sym cut)))
]
  where
    found :
        (r : Option ℕ)
        → find_char s sep p ≡ r
        → ((find_char s sep p ≡ none) × (pieces sep (drop p s) ≡ drop p s ∷ []))
          ⊎ ((q : ℕ) × (find_char s sep p ≡ some q)
              × (p ≤ q)
              × (q < length s)
              × (pieces sep (drop p s) ≡ take (q - p) (drop p s) ∷ pieces sep (drop (suc q) s)))
    found none e = inl (e, subst (FindSpec sep s p) e (find_char-FindSpec sep s p))
    found (some q) e =
        let spec = subst (FindSpec sep s p) e (find_char-FindSpec sep s p) in
        inr (q, e, spec.0, spec.1, spec.2)

split_string-pieces : (s : Bytes) (sep : ℕ) → split_string s sep ≡ some (pieces sep s)
unfolding split_string
split_string-pieces s sep =
    split_loop-pieces (suc (length s)) s sep 0 [] (omega arith) (omega arith)

abbrev pub Lacks : ℕ → Bytes → Type 0
Lacks sep = All (λ c. c ≢ sep)

-- The parts with one separator between each two.
unfoldable pub join_with : ℕ → List Bytes → Bytes
join_with sep [] = []
join_with sep (p ∷ []) = p
join_with sep (p ∷ q ∷ ps) = p ++ sep ∷ join_with sep (q ∷ ps)

abbrev pub IsSplit : ℕ → Bytes → List Bytes → Type 0
IsSplit sep s ps = (ps ≢ []) × (join_with sep ps ≡ s) × All (Lacks sep) ps

IsSplit-cut :
    (sep : ℕ) (s : Bytes) (ps : List Bytes) → IsSplit sep s ps → IsSplit sep (sep ∷ s) ([] ∷ ps)
unfolding join_with
IsSplit-cut sep s [] (h, e, a) = absurd (h refl)
IsSplit-cut sep s (p ∷ ps) (h, e, a) = ((λ e'. cc), ap (◌∷◌ sep) e, (tt, a))

IsSplit-cons_head :
    (sep x : ℕ) (s : Bytes) (ps : List Bytes)
    → x ≢ sep
    → IsSplit sep s ps
    → IsSplit sep (x ∷ s) (cons_head x ps)
unfolding join_with
IsSplit-cons_head sep x s [] ne (h, e, a) = absurd (h refl)
IsSplit-cons_head sep x s (p ∷ []) ne (h, e, a) = ((λ e'. cc), ap (◌∷◌ x) e, ((ne, a.0), tt))
IsSplit-cons_head sep x s (p ∷ q ∷ ps) ne (h, e, a) = ((λ e'. cc), ap (◌∷◌ x) e, ((ne, a.0), a.1))

pieces-IsSplit : (sep : ℕ) (s : Bytes) → IsSplit sep s (pieces sep s)
unfolding pieces
pieces-IsSplit sep [] = ((λ e. cc), unfold join_with in refl, (tt, tt))
pieces-IsSplit sep (x ∷ xs) = elim (Bool-cases (x == sep)) [
  | inl hit ↦
      let same : sep ≡ x = ground arith in
      rw hit (
        subst (λ y. IsSplit sep (y ∷ xs) ([] ∷ pieces sep xs)) same
          (IsSplit-cut sep xs (pieces sep xs) (pieces-IsSplit sep xs)))
  | inr miss ↦
      rw miss (IsSplit-cons_head sep x xs (pieces sep xs) (ground arith) (pieces-IsSplit sep xs))
]

-- SplitString ends, and its parts are a cut of the text: there is at least one, none holds the
-- separator, and joined by the separator they are the text.
pub split_string-IsSplit :
    (s : Bytes) (sep : ℕ) → (ps : List Bytes) × (split_string s sep ≡ some ps) × IsSplit sep s ps
split_string-IsSplit s sep = (pieces sep s, split_string-pieces s sep, pieces-IsSplit sep s)

pieces-append : (sep : ℕ) (p s : Bytes) → Lacks sep p → pieces sep (p ++ sep ∷ s) ≡ p ∷ pieces sep s
unfolding pieces
pieces-append sep [] s h = rw ((==_iff sep sep).1 refl)
pieces-append sep (x ∷ p) s h =
    let miss : (x == sep) ≡ false = ground arith in rw (miss, pieces-append sep p s h.1)

pieces_lone : (sep : ℕ) (p : Bytes) → Lacks sep p → pieces sep p ≡ p ∷ []
unfolding pieces
pieces_lone sep [] h = refl
pieces_lone sep (x ∷ p) h =
    let miss : (x == sep) ≡ false = ground arith in rw (miss, pieces_lone sep p h.1)

pieces-join_with :
    (sep : ℕ) (ps : List Bytes) → ps ≢ [] → All (Lacks sep) ps → pieces sep (join_with sep ps) ≡ ps
unfolding join_with
pieces-join_with sep [] h a = absurd (h refl)
pieces-join_with sep (p ∷ []) h a = pieces_lone sep p a.0
pieces-join_with sep (p ∷ q ∷ ps) h a =
    pieces-append sep p _ a.0 ∙ ap (◌∷◌ p) (pieces-join_with sep (q ∷ ps) (λ e. cc) a.1)

-- Parts of which none holds the separator come back from their join, if there is a part.
pub split_string-join_with :
    (ps : List Bytes) (sep : ℕ)
    → ps ≢ []
    → All (Lacks sep) ps
    → split_string (join_with sep ps) sep ≡ some ps
split_string-join_with ps sep h a =
    split_string-pieces (join_with sep ps) sep ∙ ap some (pieces-join_with sep ps h a)
