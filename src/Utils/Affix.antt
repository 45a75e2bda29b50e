-- ===== src/Utils/Affix.antt =====
-- Utils::StringStartsWith, StringEndsWith, StringContains and ToLowerString.
use mathlib.Core.List.{reverse, reverse-append, reverse-reverse}
use pcbu_natives_old.Prelude.{
  ℕ, ◌+◌, ◌≡◌, refl, ap, sym, ◌∙◌, ◌↔◌, inl, inr, subst, Bool-cases, Bool, true, false, ◌&&◌, ◌||◌,
  [], ◌∷◌, ◌++◌, map, arith, ltb, leb, if◌then◌else◌, length, length-append, take, drop,
  take-append, take-append-drop,
}
use pcbu_natives_old.Prelude.Texts.{Bytes, bytes_eq, bytes_eq-eq, bytes_eq_refl}

-- `value.rfind(beginning, 0) == 0`: the comparison at position 0.
unfoldable pub starts_with : Bytes → Bytes → Bool
unfolding bytes_eq
starts_with value beginning =
    if ltb (length value) (length beginning)
    then false
    else bytes_eq (take (length beginning) value) beginning

-- `std::equal` over the two reversed ranges.
unfoldable pub ends_with : Bytes → Bytes → Bool
unfolding bytes_eq
ends_with value ending =
    if ltb (length value) (length ending)
    then false
    else bytes_eq (take (length ending) (reverse value)) (reverse ending)

-- `str.find(val) != npos`: some position of `str` starts with `val`.
unfoldable pub contains : Bytes → Bytes → Bool
unfolding starts_with
contains [] val = starts_with [] val
contains (c ∷ str) val = starts_with (c ∷ str) val || contains str val

-- `std::tolower` in the C locale.
unfoldable pub to_lower : ℕ → ℕ
to_lower c = if leb b'A' c && leb c b'Z' then c + 32 else c

unfoldable pub to_lower_string : Bytes → Bytes
unfolding to_lower
to_lower_string str = map to_lower str

starts_with_sound :
    (value beginning : Bytes)
    → starts_with value beginning ≡ true
    → (rest : Bytes) × (value ≡ beginning ++ rest)
unfolding starts_with
starts_with_sound value beginning h = elim (Bool-cases (ltb (length value) (length beginning))) [
  | inl short ↦ absurd (ground arith)
  | inr long ↦
      let front : take (length beginning) value ≡ beginning = bytes_eq-eq _ _ (ground arith) in
      (
        drop (length beginning) value,
        sym (
            ap (λ t. t ++ drop (length beginning) value) (sym front)
            ∙ take-append-drop (length beginning) value),
      )
]

starts_with_complete :
    (value beginning rest : Bytes) → value ≡ beginning ++ rest → starts_with value beginning ≡ true
unfolding starts_with
starts_with_complete value beginning rest e =
    let long : ltb (length value) (length beginning) ≡ false =
      ground (arith, length-append beginning rest, ap length e) in
    rw (long, e, take-append beginning rest (length beginning) refl) (bytes_eq_refl beginning)

-- StringStartsWith holds exactly of the texts that continue `beginning`.
pub starts_with_iff :
    (value beginning : Bytes)
    → (starts_with value beginning ≡ true) ↔ ((rest : Bytes) × (value ≡ beginning ++ rest))
starts_with_iff value beginning =
    (starts_with_sound value beginning, λ r. starts_with_complete value beginning r.0 r.1)

length-reverse : (xs : Bytes) → length (reverse xs) ≡ length xs
length-reverse [] = refl
length-reverse (x ∷ xs) = omega (
  arith,
  ap length (reverse-append (x ∷ []) xs),
  length-append (reverse xs) (x ∷ []),
  length-reverse xs,
)

-- The test on the ends is the test on the fronts of the reversed texts.
ends_with-starts_with :
    (value ending : Bytes) → ends_with value ending ≡ starts_with (reverse value) (reverse ending)
unfolding ends_with starts_with
ends_with-starts_with value ending = rw (length-reverse value, length-reverse ending) refl

-- StringEndsWith holds exactly of the texts that end in `ending`.
pub ends_with_iff :
    (value ending : Bytes)
    → (ends_with value ending ≡ true) ↔ ((front : Bytes) × (value ≡ front ++ ending))
ends_with_iff value ending = (sound, complete)
  where
    sound : ends_with value ending ≡ true → (front : Bytes) × (value ≡ front ++ ending)
    sound h =
        let r =
          starts_with_sound (reverse value) (reverse ending)
            (sym (ends_with-starts_with value ending) ∙ h) in
        (
          reverse r.0,
          sym (reverse-reverse value)
              ∙ ap reverse r.1
              ∙ reverse-append (reverse ending) r.0
              ∙ ap (λ t. reverse r.0 ++ t) (reverse-reverse ending),
        )

    complete : (front : Bytes) × (value ≡ front ++ ending) → ends_with value ending ≡ true
    complete r =
        ends_with-starts_with value ending
        ∙ starts_with_complete (reverse value) (reverse ending) (reverse r.0)
            (ap reverse r.1 ∙ reverse-append r.0 ending)

abbrev Inside : Bytes → Bytes → Type 0
Inside val str = (front : Bytes) × (rest : Bytes) × (str ≡ front ++ (val ++ rest))

contains_sound : (str val : Bytes) → contains str val ≡ true → Inside val str
unfolding contains
contains_sound [] val h = let r = starts_with_sound [] val h in ([], r.0, r.1)
contains_sound (c ∷ str) val h = elim (Bool-cases (starts_with (c ∷ str) val)) [
  | inl here ↦ let r = starts_with_sound (c ∷ str) val here in ([], r.0, r.1)
  | inr later ↦ let r = contains_sound str val (ground arith) in (c ∷ r.0, r.1, ap (◌∷◌ c) r.2)
]

contains-append : (front val rest : Bytes) → contains (front ++ (val ++ rest)) val ≡ true
unfolding contains
contains-append [] [] [] = starts_with_complete [] [] [] refl
contains-append [] [] (c ∷ rest) = rw (starts_with_complete (c ∷ rest) [] (c ∷ rest) refl) refl
contains-append [] (c ∷ val) rest =
    rw (starts_with_complete (c ∷ (val ++ rest)) (c ∷ val) rest refl) refl
contains-append (c ∷ front) val rest = ground (arith, contains-append front val rest)

-- StringContains holds exactly of the texts with `val` somewhere inside.
pub contains_iff :
    (str val : Bytes)
    → (contains str val ≡ true)
      ↔ ((front : Bytes) × (rest : Bytes) × (str ≡ front ++ (val ++ rest)))
contains_iff str val = (
  contains_sound str val,
  λ r. subst (λ t. contains t val ≡ true) (sym r.2) (contains-append r.0 val r.1),
)

pub to_lower_idem : (c : ℕ) → to_lower (to_lower c) ≡ to_lower c
unfolding to_lower
to_lower_idem c = ground arith
