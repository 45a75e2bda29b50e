-- ===== src/Crypt/Memory.antt =====
-- Buffers of a fixed size, and what a call that writes to one can come to.
use pcbu_natives_old.Prelude.{
  ℕ, ◌+◌, ◌≤◌, ◌<◌, true, drop-append-more, ◌≡◌, refl, ap, ◌++◌, arith, leb, if◌then◌else◌, length,
  length-append, take, drop, take-append, append_assoc, ◌∙◌, sym, le→leb, length-drop, length-take,
  Option, none, some,
}
use pcbu_natives_old.Prelude.Texts.{Bytes}
use mathlib.Core.Path.{ap₂}

-- `failed` is the error return of the code; `overflow` is a write behind the end of a buffer, after
-- which the program's behaviour is undefined.
pub data Outcome {ℓ} (A : Type ℓ) : Type ℓ where
  done : A → Outcome A
  failed : Outcome A
  overflow : Outcome A

infixl 5 ◌>>=◌
abbrev pub ◌>>=◌ {ℓ κ} : {A : Type ℓ} {B : Type κ} → Outcome A → (A → Outcome B) → Outcome B
done a >>= f = f a
failed >>= f = failed
overflow >>= f = overflow

abbrev pub or_fail {ℓ} : {A : Type ℓ} → Option A → Outcome A
or_fail none = failed
or_fail (some a) = done a

-- memcpy(buffer + at, bytes, length bytes)
unfoldable pub write_at : Bytes → ℕ → Bytes → Outcome Bytes
write_at buffer at bytes =
    if leb (at + length bytes) (length buffer)
    then done (take at buffer ++ (bytes ++ drop (at + length bytes) buffer))
    else overflow

-- A write right behind the first part of a buffer, where it fits.
pub write_at-append :
    (front tail bytes : Bytes) (at : ℕ)
    → at ≡ length front
    → length bytes ≤ length tail
    → write_at (front ++ tail) at bytes ≡ done ((front ++ bytes) ++ drop (length bytes) tail)
unfolding write_at
write_at-append front tail bytes at e fits =
    let inside : leb (at + length bytes) (length (front ++ tail)) ≡ true =
      le→leb _ _ (omega (arith, length-append front tail)) in
    rw inside (
      ap done (
        ap₂ (λ (a b : Bytes). a ++ (bytes ++ b)) (take-append front tail at e)
          (drop-append-more front tail at (length bytes) e)
        ∙ sym (append_assoc front bytes (drop (length bytes) tail))))

-- A write that fits keeps the size of the buffer, and one that does not fit is an overflow.
pub write_at_fits :
    (buffer bytes : Bytes) (at : ℕ)
    → at + length bytes ≤ length buffer
    → (after : Bytes) × (write_at buffer at bytes ≡ done after) × (length after ≡ length buffer)
unfolding write_at
write_at_fits buffer bytes at h = (
  take at buffer ++ (bytes ++ drop (at + length bytes) buffer),
  rw (le→leb _ _ h) refl,
  omega (
    arith,
    length-append (take at buffer) (bytes ++ drop (at + length bytes) buffer),
    length-append bytes (drop (at + length bytes) buffer),
    length-take at buffer,
    length-drop (at + length bytes) buffer,
  ),
)

pub write_at_overflow :
    (buffer bytes : Bytes) (at : ℕ)
    → length buffer < at + length bytes
    → write_at buffer at bytes ≡ overflow
unfolding write_at
write_at_overflow buffer bytes at h = ground arith

-- A chain of calls ends well only if each of them does.
pub >>=-eq-done {ℓ κ} :
    {A : Type ℓ} {B : Type κ} (m : Outcome A) (f : A → Outcome B) {b : B}
    → (m >>= f) ≡ done b
    → (a : A) × (m ≡ done a) × (f a ≡ done b)
>>=-eq-done (done a) f h = (a, refl, h)
>>=-eq-done failed f h = absurd (ground arith)
>>=-eq-done overflow f h = absurd (ground arith)

pub or_fail-eq-done {ℓ} : {A : Type ℓ} (o : Option A) {a : A} → or_fail o ≡ done a → o ≡ some a
or_fail-eq-done none h = absurd (ground arith)
or_fail-eq-done (some a) h = ground arith

pub done-injective {ℓ} : {A : Type ℓ} {a b : A} → done a ≡ done b → a ≡ b
done-injective h = cc

-- What a write right behind the first part left there.
pub write_at-contents :
    (front tail bytes after : Bytes) (at : ℕ)
    → at ≡ length front
    → length bytes ≤ length tail
    → write_at (front ++ tail) at bytes ≡ done after
    → after ≡ (front ++ bytes) ++ drop (length bytes) tail
write_at-contents front tail bytes after at e fits h =
    done-injective (sym h ∙ write_at-append front tail bytes at e fits)
