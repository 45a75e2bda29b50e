-- ===== src/Win/Protect.antt =====
-- _ProtectAndCopyString and ProtectIfNecessaryAndCopyPassword of win-pcbiounlock/src/helpers.cpp.
use pcbu_natives_old.Prelude.{
  ℕ, ◌+◌, ◌*◌, ◌%◌, ◌<◌, ◌≡◌, refl, ap, sym, subst, ◌∙◌, ◌≢◌, ◌⊎◌, inl, inr, Bool, true, false,
  Bool-cases, Option, none, some, [], ◌∷◌, arith, ltb, ◌==◌, ◌&&◌, ◌||◌, if◌then◌else◌, length,
}
use pcbu_natives_old.Win.Results.{
  Wide, Result, ok, error, ◌>>=◌, HResult, succeeded, allocated, e_unexpected, hresult_from_win32,
  error_insufficient_buffer, size_t,
}
use pcbu_natives_old.Win.Kerb.{UsageScenario}

-- CRED_PROTECTION_TYPE
pub data ProtectionType : Type 0 where
  cred_unprotected cred_user_protection cred_trusted_protection : ProtectionType

-- What CredProtectW says when it is given no buffer: it succeeds, or it fails with an error and
-- the size it needs.
pub data SizeCall : Type 0 where
  succeeds : SizeCall
  fails : ℕ → ℕ → SizeCall

-- The texts that SHStrDupW copies.
pub data Copied : Type 0 where
  to_protect password_copy plain_password empty_password : Copied

-- SHStrDupW, CoTaskMemAlloc, CredIsProtectedW (`none` where it returns FALSE), and CredProtectW
-- without a buffer and with one of a size: the text it writes, or the error.
pub record CredCalls : Type 0 where
  pub dup : Copied → Wide → Result Wide
  pub memory : ℕ → Bool
  pub is_protected : Wide → Option ProtectionType
  pub protect_size : Wide → ℕ → SizeCall
  pub protect_into : Wide → ℕ → ℕ → Wide ⊎ ℕ

-- An HRESULT in `hr` while the text is still null.
abbrev pub null_text : HResult → Result (Option Wide)
null_text hr = if succeeded hr then ok none else error hr

abbrev pub copied : Result Wide → Result (Option Wide)
copied (ok text) = ok (some text)
copied (error hr) = error hr

-- (DWORD)wcslen(text) + 1
abbrev pub with_nul : Wide → ℕ
with_nul text = (length text + 1) % 4294967296

abbrev protected_text : Wide ⊎ ℕ → Result (Option Wide)
protected_text (inl text) = ok (some text)
protected_text (inr e) = null_text (hresult_from_win32 e)

-- What follows the first call of CredProtectW.
unfoldable pub protect_sized : CredCalls → Wide → SizeCall → Result (Option Wide)
protect_sized calls copy succeeds = error e_unexpected
protect_sized calls copy (fails e size) =
    if e == error_insufficient_buffer && ltb 0 size
    then allocated (calls.memory (size_t (size * 2)))
        (protected_text (calls.protect_into copy (with_nul copy) size))
    else null_text (hresult_from_win32 e)

unfoldable pub protect_and_copy_string : CredCalls → Wide → Result (Option Wide)
protect_and_copy_string calls text = calls.dup to_protect text >>= λ copy.
    protect_sized calls copy (calls.protect_size copy (with_nul copy))

abbrev pub already_encrypted : Option ProtectionType → Bool
already_encrypted none = false
already_encrypted (some cred_unprotected) = false
already_encrypted (some _) = true

abbrev pub is_credui : UsageScenario → Bool
is_credui UsageScenario.credui = true
is_credui _ = false

unfoldable pub protect_if_necessary_and_copy_password :
    CredCalls → Wide → UsageScenario → Result (Option Wide)
protect_if_necessary_and_copy_password calls [] cpus = copied (calls.dup empty_password [])
protect_if_necessary_and_copy_password calls (x ∷ xs) cpus =
    calls.dup password_copy (x ∷ xs) >>= λ copy.
    if is_credui cpus || already_encrypted (calls.is_protected copy)
    then copied (calls.dup plain_password copy)
    else protect_and_copy_string calls copy

-- SHStrDupW copies the text, and CoTaskMemAlloc gives memory.
pub record KeepsTexts (calls : CredCalls) : Type 0 where
  pub dup_copies : (what : Copied) (text : Wide) → calls.dup what text ≡ ok text
  pub memory_given : (size : ℕ) → calls.memory size ≡ true

null_text-some : (hr : HResult) (text : Wide) → null_text hr ≢ ok (some text)
null_text-some hr text = elim (Bool-cases (succeeded hr)) [
  | inl good ↦ rw good (λ e. cc)
  | inr bad ↦ rw bad (λ e. cc)
]

protected_text-inl : (r : Wide ⊎ ℕ) (text : Wide) → protected_text r ≡ ok (some text) → r ≡ inl text
protected_text-inl (inl t) text e = cc
protected_text-inl (inr code) text e = absurd (null_text-some (hresult_from_win32 code) text e)

-- The branch that a test took.
if-cases :
    {A : Type 0} (b : Bool) {x y z : A}
    → (if b then x else y) ≡ z
    → ((b ≡ true) × (x ≡ z)) ⊎ ((b ≡ false) × (y ≡ z))
if-cases true e = inl (refl, e)
if-cases false e = inr (refl, e)

allocated-ok :
    {A : Type 0} (b : Bool) {call : Result A} {a : A}
    → allocated b call ≡ ok a
    → (b ≡ true) × (call ≡ ok a)
allocated-ok true e = (refl, e)
allocated-ok false e = absurd cc

module _ (calls : CredCalls) (keeps : KeepsTexts calls) where
  -- A password is copied as it is where it is empty, where the prompt is CredUI's, and where it is
  -- protected already. The condition is that texts can be copied.
  pub protect_plain :
      (password : Wide) (cpus : UsageScenario)
      → (password ≡ [])
        ⊎ (is_credui cpus ≡ true)
        ⊎ (already_encrypted (calls.is_protected password) ≡ true)
      → protect_if_necessary_and_copy_password calls password cpus ≡ ok (some password)
  unfolding protect_if_necessary_and_copy_password
  protect_plain [] cpus why = rw (keeps.dup_copies empty_password []) refl
  protect_plain (x ∷ xs) cpus why =
      let either : is_credui cpus || already_encrypted (calls.is_protected (x ∷ xs)) ≡ true =
        ground (arith, why) in
      rw (keeps.dup_copies password_copy (x ∷ xs), either, keeps.dup_copies plain_password (x ∷ xs))
        refl

-- What SHStrDupW promises: a copy that it makes is the text.
abbrev pub CopiesTrue : CredCalls → Type 0
CopiesTrue calls = (what : Copied) (text copy : Wide) → calls.dup what text ≡ ok copy → copy ≡ text

-- A password that is copied as it is.
abbrev pub IsCopied : CredCalls → Wide → UsageScenario → Type 0
IsCopied calls password cpus =
    (password ≡ [])
    ⊎ (is_credui cpus ≡ true)
    ⊎ (already_encrypted (calls.is_protected password) ≡ true)

-- What CredProtectW wrote of a password, with a buffer of the size that it has asked for.
abbrev pub WrittenFrom : CredCalls → Wide → Wide → Type 0
WrittenFrom calls password text =
    (size : ℕ) × (0 < size)
    × (calls.protect_size password (with_nul password) ≡ fails error_insufficient_buffer size)
    × (calls.memory (size_t (size * 2)) ≡ true)
    × (calls.protect_into password (with_nul password) size ≡ inl text)

protect_sized-WrittenFrom :
    (calls : CredCalls) (copy text : Wide) (r : SizeCall)
    → calls.protect_size copy (with_nul copy) ≡ r
    → protect_sized calls copy r ≡ ok (some text)
    → WrittenFrom calls copy text
unfolding protect_sized
protect_sized-WrittenFrom calls copy text succeeds asked e = absurd cc
protect_sized-WrittenFrom calls copy text (fails code size) asked e =
    elim (if-cases (code == error_insufficient_buffer && ltb 0 size) e) [
      | inr (other, plain) ↦ absurd (null_text-some (hresult_from_win32 code) text plain)
      | inl (sized, into) ↦
          let (given, written) = allocated-ok (calls.memory (size_t (size * 2))) into in
          let same : code ≡ error_insufficient_buffer = ground arith in
          (
            size,
            ground arith,
            asked ∙ ap (λ c. fails c size) same,
            given,
            protected_text-inl (calls.protect_into copy (with_nul copy) size) text written,
          )
    ]

copied-ok : (r : Result Wide) {text : Wide} → copied r ≡ ok (some text) → r ≡ ok text
copied-ok (ok t) e = cc
copied-ok (error hr) e = absurd cc

bind-ok :
    {A : Type 0} (r : Result Wide) (k : Wide → Result A) {a : A}
    → (r >>= k) ≡ ok a
    → (copy : Wide) × (r ≡ ok copy) × (k copy ≡ ok a)
bind-ok (ok copy) k e = (copy, refl, e)
bind-ok (error hr) k e = absurd cc

module _ (calls : CredCalls) (true_copy : CopiesTrue calls) where
  protect_and_copy_string-WrittenFrom :
      (password text : Wide)
      → protect_and_copy_string calls password ≡ ok (some text)
      → WrittenFrom calls password text
  unfolding protect_and_copy_string
  protect_and_copy_string-WrittenFrom password text e =
      let (copy, dup, rest) = bind-ok (calls.dup to_protect password) _ e in
      subst (λ c. WrittenFrom calls c text) (true_copy to_protect password copy dup)
        (protect_sized-WrittenFrom calls copy text _ refl rest)

  branches :
      (x : ℕ) (xs copy text : Wide) (cpus : UsageScenario) (b : Bool)
      → copy ≡ x ∷ xs
      → is_credui cpus || already_encrypted (calls.is_protected (x ∷ xs)) ≡ b
      → (if b then copied (calls.dup plain_password copy) else protect_and_copy_string calls copy)
        ≡ ok (some text)
      → (IsCopied calls (x ∷ xs) cpus × (text ≡ x ∷ xs))
        ⊎ ((¬ IsCopied calls (x ∷ xs) cpus) × WrittenFrom calls (x ∷ xs) text)
  branches x xs copy text cpus true same why e = inl (
    (ground arith),
    true_copy plain_password copy text (copied-ok (calls.dup plain_password copy) e) ∙ same,
  )
  branches x xs copy text cpus false same why e = inr (
    (λ h. absurd (ground arith)),
    subst (λ c. WrittenFrom calls c text) same (protect_and_copy_string-WrittenFrom copy text e),
  )

  -- Whatever the calls of Windows answer, when ProtectIfNecessaryAndCopyPassword gives a text back,
  -- it is the password itself only if the password is empty, the prompt is CredUI's or the password
  -- is protected already; else it is what CredProtectW wrote of the password, in memory of the size
  -- that CredProtectW asked for. The condition is that a copy by SHStrDupW is the text copied.
  pub protect_never_plain :
      (password text : Wide) (cpus : UsageScenario)
      → protect_if_necessary_and_copy_password calls password cpus ≡ ok (some text)
      → (IsCopied calls password cpus × (text ≡ password))
        ⊎ ((¬ IsCopied calls password cpus) × WrittenFrom calls password text)
  unfolding protect_if_necessary_and_copy_password
  protect_never_plain [] text cpus e =
      inl (inl refl, true_copy empty_password [] text (copied-ok (calls.dup empty_password []) e))
  protect_never_plain (x ∷ xs) text cpus e =
      let (copy, dup, rest) = bind-ok (calls.dup password_copy (x ∷ xs)) _ e in
      let same = true_copy password_copy (x ∷ xs) copy dup in
      branches x xs copy text cpus _ same
        (ap (λ c. is_credui cpus || already_encrypted (calls.is_protected c)) (sym same)) rest
