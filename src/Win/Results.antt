-- ===== src/Win/Results.antt =====
-- HRESULT and the results of the calls that win-pcbiounlock/src/helpers.cpp and its clients make.
-- An HRESULT is its 32-bit word: the ones below 2 ^ 31 are the successes.
use pcbu_natives_old.Prelude.{
  ℕ, ◌+◌, ◌/◌, ◌%◌, Bool, true, false, List, leb, ltb, ◌==◌, ◌||◌, if◌then◌else◌,
}

abbrev pub HResult : Type 0
HResult = ℕ

-- SUCCEEDED(hr)
abbrev pub succeeded : HResult → Bool
succeeded hr = ltb hr 2147483648

-- The words of winerror.h that the code names.
abbrev pub s_ok : HResult
s_ok = 0

abbrev pub e_not_impl : HResult
e_not_impl = 2147500033

abbrev pub e_abort : HResult
e_abort = 2147500036

abbrev pub e_fail : HResult
e_fail = 2147500037

abbrev pub e_unexpected : HResult
e_unexpected = 2147549183

abbrev pub e_out_of_memory : HResult
e_out_of_memory = 2147942414

abbrev pub e_invalid_arg : HResult
e_invalid_arg = 2147942487

abbrev pub e_arithmetic_overflow : HResult
e_arithmetic_overflow = 2147942934

abbrev pub error_insufficient_buffer : ℕ
error_insufficient_buffer = 122

-- HRESULT_FROM_WIN32: a word that is 0 or negative as an int stays.
abbrev pub hresult_from_win32 : ℕ → HResult
hresult_from_win32 error =
    if error == 0 || leb 2147483648 error then error else error % 65536 + 2147942400

-- HRESULT_FROM_NT sets bit 28.
abbrev pub hresult_from_nt : ℕ → HResult
hresult_from_nt status = if status / 268435456 % 2 == 1 then status else status + 268435456

-- What a helper gives back: its out-parameters with S_OK, or the HRESULT it failed with.
pub data Result {ℓ} (A : Type ℓ) : Type ℓ where
  ok : A → Result A
  error : HResult → Result A

infixl 5 ◌>>=◌
abbrev pub ◌>>=◌ {ℓ κ} : {A : Type ℓ} {B : Type κ} → Result A → (A → Result B) → Result B
ok a >>= k = k a
error hr >>= k = error hr

-- A call that fails for want of memory, and goes on otherwise.
abbrev pub allocated {ℓ} : {A : Type ℓ} → Bool → Result A → Result A
allocated true call = call
allocated false call = error e_out_of_memory

-- The HRESULT of a result.
abbrev pub hresult {ℓ} : {A : Type ℓ} → Result A → HResult
hresult (ok a) = s_ok
hresult (error hr) = hr

-- A PCWSTR to a text: its 16-bit units before the NUL.
abbrev pub Wide : Type 0
Wide = List ℕ

-- size_t has 64 bits.
abbrev pub size_t : ℕ → ℕ
size_t n = n % 18446744073709551616
