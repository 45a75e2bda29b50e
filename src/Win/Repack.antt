-- ===== src/Win/Repack.antt =====
-- KerbInteractiveUnlockLogonRepackNative of win-pcbiounlock/src/helpers.cpp.
use pcbu_natives_old.Prelude.{
  ℕ, ◌&&◌, ◌*◌, ◌≡◌, ◌<◌, refl, Bool, true, Option, none, some, arith, ◌==◌, if◌then◌else◌,
}
use pcbu_natives_old.Prelude.Texts.{Bytes}
use pcbu_natives_old.Win.Results.{
  Wide, HResult, succeeded, s_ok, e_out_of_memory, error_insufficient_buffer, size_t,
}

-- The memory that LocalAlloc is asked for.
pub data RepackMemory : Type 0 where
  domain_username_text repack_password_text native_buffer : RepackMemory

-- What an unpacking writes: the name and the password, or nothing with the value of GetLastError.
pub data Unpacked : Type 0 where
  unpacks : Wide → Wide → Unpacked
  fails_with : ℕ → Unpacked

-- CredUnPackAuthenticationBufferW without buffers (GetLastError and the two sizes in units) and with
-- them; CredPackAuthenticationBufferW without a buffer (GetLastError and the size) and with one. A
-- buffer that nothing was written to holds `garbage` of its size.
pub record RepackCalls : Type 0 where
  pub memory : RepackMemory → ℕ → Bool
  pub unpack_size : Bytes → ℕ × ℕ × ℕ
  pub unpack_into : Bytes → ℕ → ℕ → Unpacked
  pub garbage : RepackMemory → ℕ → Wide
  pub pack_size : Wide → Wide → ℕ × ℕ
  pub pack_into : Wide → Wide → ℕ → Option Bytes

module _ (calls : RepackCalls) where
  -- The second half, for what the two buffers hold.
  unfoldable pub repack : Wide → Wide → HResult × Option Bytes
  repack name password =
      let (e, size) = calls.pack_size name password in
      if e == error_insufficient_buffer && calls.memory native_buffer size
      then elim (calls.pack_into name password size) [
        | none ↦ (e_out_of_memory, none)
        | some native ↦ (s_ok, some native)
      ]
      else (e_out_of_memory, none)

  -- After the two buffers are there: `hr = GetLastError()` where the unpacking fails, which goes on
  -- if that number is one of the successes.
  unfoldable pub repack_unpacked : ℕ → ℕ → Unpacked → HResult × Option Bytes
  repack_unpacked name_size password_size (unpacks name password) = repack name password
  repack_unpacked name_size password_size (fails_with e) =
      let gone_on =
        repack (calls.garbage domain_username_text name_size)
          (calls.garbage repack_password_text password_size) in
      if succeeded e then gone_on else (e, none)

  unfoldable pub kerb_interactive_unlock_logon_repack_native : Bytes → HResult × Option Bytes
  kerb_interactive_unlock_logon_repack_native wow =
      let (e, name_size, password_size) = calls.unpack_size wow in
      if e == error_insufficient_buffer
        && (calls.memory domain_username_text (size_t (name_size * 2))
            && calls.memory repack_password_text (size_t (password_size * 2)))
      then repack_unpacked name_size password_size (calls.unpack_into wow name_size password_size)
      else (e_out_of_memory, none)

  -- Where the unpacking of the 32-bit logon fails with a Win32 error below 2 ^ 31, the call goes on
  -- with the two buffers as LocalAlloc gave them, and answers as if they were the name and the
  -- password. The conditions are that the sizes could be asked for and that there is memory.
  pub repack_native-garbage :
      (wow : Bytes) (name_size password_size e : ℕ)
      → calls.unpack_size wow ≡ (error_insufficient_buffer, name_size, password_size)
      → calls.memory domain_username_text (size_t (name_size * 2)) ≡ true
      → calls.memory repack_password_text (size_t (password_size * 2)) ≡ true
      → calls.unpack_into wow name_size password_size ≡ fails_with e
      → e < 2147483648
      → kerb_interactive_unlock_logon_repack_native wow
        ≡ repack
            (calls.garbage domain_username_text name_size)
            (calls.garbage repack_password_text password_size)
  unfolding kerb_interactive_unlock_logon_repack_native repack_unpacked
  repack_native-garbage wow name_size password_size e sizes first second failed small =
      let goes_on : succeeded e ≡ true = ground arith in
      rw (sizes, first, second, failed, goes_on) refl
