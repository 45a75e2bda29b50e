-- ===== src/Utils/Hex.antt =====
-- Utils::ToHexString. `malloc` is the allocator: `none` for a null pointer, else a buffer whose
-- contents are whatever the memory held.
use pcbu_natives_old.Prelude.{
  ℕ, zero, suc, ◌+◌, ◌-◌, ◌*◌, ◌/◌, ◌%◌, ◌<◌, ◌≡◌, refl, ◌≢◌, ap, sym, ◌∙◌, ◌⊎◌, inl, inr, ◌&&◌,
  append_assoc, length-append, take_all, lt→ltb, Option-cases, true, Option, none, some, [], ◌∷◌,
  ◌++◌, arith, ltb, leb, if◌then◌else◌, ◌>>=◌, length, take, set, All,
}
use pcbu_natives_old.Prelude.Texts.{Bytes}
use mathlib.Core.Path.{ap₂}

abbrev pub Malloc : Type 0
Malloc = ℕ → Option Bytes

-- What malloc promises of the buffer that it returns: its size.
abbrev pub IsMalloc : Malloc → Type 0
IsMalloc malloc = (n : ℕ) (buffer : Bytes) → malloc n ≡ some buffer → length buffer ≡ n

-- One digit of "%02X".
unfoldable pub hex_digit : ℕ → ℕ
hex_digit d = if ltb d 10 then b'0' + d else b'A' + (d - 10)

-- snprintf(buffer + at, room, "%02X", b): two digits and the NUL, as far as `room` allows.
snprintf_hex : Bytes → ℕ → ℕ → ℕ → Bytes
unfolding hex_digit
snprintf_hex buffer at room b =
    if ltb 2 room
    then set (set (set buffer at (hex_digit (b / 16))) (at + 1) (hex_digit (b % 16))) (at + 2) 0
    else if ltb 1 room
    then set (set buffer at (hex_digit (b / 16))) (at + 1) 0
    else if ltb 0 room
    then set buffer at 0
    else buffer

-- The `for` loop over the bytes; the result is the buffer and `bufIdx`.
hex_loop : Bytes → Bytes → ℕ → ℕ → Bytes × ℕ
unfolding snprintf_hex
hex_loop [] buffer buf_idx buffer_size = (buffer, buf_idx)
hex_loop (b ∷ data_rest) buffer buf_idx buffer_size =
    hex_loop data_rest (snprintf_hex buffer buf_idx (buffer_size - buf_idx) b) (buf_idx + 2)
      buffer_size

-- `data == nullptr` and `data_len <= 0` are the empty text.
unfoldable pub to_hex_string : Malloc → Bytes → Bytes
unfolding hex_loop
to_hex_string malloc [] = []
to_hex_string malloc (b ∷ bs) =
    let size = length (b ∷ bs) * 2 + 1 in
    elim (malloc size) [
      | none ↦ []
      | some buffer ↦
          let (filled, buf_idx) = hex_loop (b ∷ bs) buffer 0 size in
          take size (set filled buf_idx 0)
    ]

-- The two digits of each byte, in order.
unfoldable pub hex_text : Bytes → Bytes
hex_text [] = []
hex_text (b ∷ bs) = hex_digit (b / 16) ∷ hex_digit (b % 16) ∷ hex_text bs

set-append :
    (front rest : Bytes) (x v i : ℕ)
    → i ≡ length front
    → set (front ++ x ∷ rest) i v ≡ front ++ v ∷ rest
set-append [] rest x v zero h = refl
set-append [] rest x v (suc i) h = absurd (omega arith)
set-append (y ∷ front) rest x v zero h = absurd (omega arith)
set-append (y ∷ front) rest x v (suc i) h = ap (◌∷◌ y) (set-append front rest x v i (omega arith))

snprintf_hex-append :
    (front rest : Bytes) (x y z i room b : ℕ)
    → i ≡ length front
    → 2 < room
    → snprintf_hex (front ++ x ∷ y ∷ z ∷ rest) i room b
      ≡ (front ++ hex_digit (b / 16) ∷ hex_digit (b % 16) ∷ []) ++ 0 ∷ rest
unfolding snprintf_hex
snprintf_hex-append front rest x y z i room b at fits =
    let hi = hex_digit (b / 16) in
    let lo = hex_digit (b % 16) in
    let one = set-append front (y ∷ z ∷ rest) x hi i at in
    let grown = length-append front (hi ∷ []) in
    let two = set-append (front ++ hi ∷ []) (z ∷ rest) y lo (i + 1) (omega (arith, at, grown)) in
    let grown' = length-append front (hi ∷ lo ∷ []) in
    let three = set-append (front ++ hi ∷ lo ∷ []) rest z 0 (i + 2) (omega (arith, at, grown')) in
    let room_left : ltb 2 room ≡ true = lt→ltb 2 room fits in
    rw (room_left, one)
      (ap (λ t. set (set t (i + 1) lo) (i + 2) 0)
          (sym (append_assoc front (hi ∷ []) (y ∷ z ∷ rest)))
        ∙ ap (λ t. set t (i + 2) 0)
            (two
              ∙ append_assoc front (hi ∷ []) (lo ∷ z ∷ rest)
              ∙ sym (append_assoc front (hi ∷ lo ∷ []) (z ∷ rest)))
        ∙ three)

-- Behind the part that is filled the loop writes the digits; one byte is left for the NUL.
hex_loop-fills :
    (bs done tail : Bytes) (i size : ℕ)
    → i ≡ length done
    → length tail ≡ length bs * 2 + 1
    → size ≡ i + length tail
    → (z : ℕ) × (hex_loop bs (done ++ tail) i size
        ≡ (done ++ (hex_text bs ++ z ∷ []), i + length bs * 2))
unfolding hex_loop hex_text
hex_loop-fills [] done [] i size at h fits = absurd (omega arith)
hex_loop-fills [] done (z ∷ []) i size at h fits = (z, ground arith)
hex_loop-fills [] done (z ∷ y ∷ t) i size at h fits = absurd (omega arith)
hex_loop-fills (b ∷ bs) done [] i size at h fits = absurd (omega arith)
hex_loop-fills (b ∷ bs) done (x ∷ []) i size at h fits = absurd (omega arith)
hex_loop-fills (b ∷ bs) done (x ∷ y ∷ []) i size at h fits = absurd (omega arith)
hex_loop-fills (b ∷ bs) done (x ∷ y ∷ z ∷ t) i size at h fits =
    let hi = hex_digit (b / 16) in
    let lo = hex_digit (b % 16) in
    let grown = length-append done (hi ∷ lo ∷ []) in
    let rest =
      hex_loop-fills bs (done ++ hi ∷ lo ∷ []) (0 ∷ t) (i + 2) size (omega (arith, at, grown))
        (omega arith) (omega arith) in
    let step = snprintf_hex-append done t x y z i (size - i) b at (omega arith) in
    let shift : i + 2 + length bs * 2 ≡ i + suc (length bs) * 2 = omega arith in
    (
      rest.0,
      ap (λ buffer. hex_loop bs buffer (i + 2) size) step
          ∙ rest.1
          ∙ ap₂ (λ t n. (t, n)) (append_assoc done (hi ∷ lo ∷ []) (hex_text bs ++ rest.0 ∷ []))
              shift,
    )

length-hex_text : (bs : Bytes) → length (hex_text bs) ≡ length bs * 2
unfolding hex_text
length-hex_text [] = refl
length-hex_text (b ∷ bs) = omega (arith, length-hex_text bs)

-- The size of the buffer for the digits of some bytes and a NUL.
abbrev pub hex_size : Bytes → ℕ
hex_size bs = length bs * 2 + 1

to_hex_string-filled :
    (malloc : Malloc) (b : ℕ) (bs buffer : Bytes)
    → IsMalloc malloc
    → malloc (hex_size (b ∷ bs)) ≡ some buffer
    → to_hex_string malloc (b ∷ bs) ≡ hex_text (b ∷ bs) ++ 0 ∷ []
unfolding to_hex_string
to_hex_string-filled malloc b bs buffer sized got =
    let n = hex_size (b ∷ bs) in
    let full = sized n buffer got in
    let loop = hex_loop-fills (b ∷ bs) [] buffer 0 n refl full (omega (arith, full)) in
    let ends =
      set-append (hex_text (b ∷ bs)) [] loop.0 0 (0 + length (b ∷ bs) * 2)
        (omega (arith, length-hex_text (b ∷ bs))) in
    let whole = length-append (hex_text (b ∷ bs)) (0 ∷ []) in
    rw (got, to_hex_string)
      (rw loop.1 (
        ap (take n) ends
        ∙ take_all (hex_text (b ∷ bs) ++ 0 ∷ []) n
            (omega (arith, whole, length-hex_text (b ∷ bs)))))

-- ToHexString of no bytes is the empty text, and so is that of some bytes where malloc fails; where
-- malloc gives a buffer of the size asked for, it is the digits of the bytes and a NUL, which the
-- text holds as its last character.
pub to_hex_string-hex_text :
    (malloc : Malloc) (bytes : Bytes)
    → IsMalloc malloc
    → ((bytes ≡ []) × (to_hex_string malloc bytes ≡ []))
      ⊎ ((bytes ≢ []) × (malloc (hex_size bytes) ≡ none) × (to_hex_string malloc bytes ≡ []))
      ⊎ ((buffer : Bytes) × (bytes ≢ [])
          × (malloc (hex_size bytes) ≡ some buffer)
          × (to_hex_string malloc bytes ≡ hex_text bytes ++ 0 ∷ []))
unfolding to_hex_string
to_hex_string-hex_text malloc [] sized = inl (refl, refl)
to_hex_string-hex_text malloc (b ∷ bs) sized = elim (Option-cases (malloc (hex_size (b ∷ bs)))) [
  | inl null ↦ inr (inl ((λ e. cc), null, rw (null, to_hex_string) refl))
  | inr (buffer, got) ↦
      inr (inr (buffer, (λ e. cc), got, to_hex_string-filled malloc b bs buffer sized got))
]

-- The reader of such digits.
unfoldable pub hex_value : ℕ → Option ℕ
hex_value c =
    if leb b'0' c && leb c b'9'
    then some (c - b'0')
    else if leb b'A' c && leb c b'F'
    then some (c - b'A' + 10)
    else none

unfoldable pub from_hex : Bytes → Option Bytes
from_hex [] = some []
from_hex (c ∷ []) = none
from_hex (c ∷ d ∷ s) = do
  hi ← hex_value c
  lo ← hex_value d
  rest ← from_hex s
  some ((hi * 16 + lo) ∷ rest)

hex_value-hex_digit : (d : ℕ) → d < 16 → hex_value (hex_digit d) ≡ some d
unfolding hex_value hex_digit
hex_value-hex_digit d h = ground arith

-- The digits of bytes are read back as those bytes.
pub from_hex-hex_text : (bs : Bytes) → All (λ b. b < 256) bs → from_hex (hex_text bs) ≡ some bs
unfolding from_hex hex_text
from_hex-hex_text [] h = refl
from_hex-hex_text (b ∷ bs) (small, h) =
    rw
      (
        hex_value-hex_digit (b / 16) (omega arith),
        hex_value-hex_digit (b % 16) (omega arith),
        from_hex-hex_text bs h,
      )
      (ap (λ x. some (x ∷ bs)) (omega arith))
