-- ===== src/Win/Credential/Serialization.antt =====
-- CUnlockCredential::GetSerialization of win-pcbiounlock/src/CUnlockCredential.cpp.
use pcbu_natives_old.Prelude.{ℕ, Bool, Option, none, some, [], ◌∷◌, ◌==◌, if◌then◌else◌}
use pcbu_natives_old.Prelude.Texts.{Bytes}
use pcbu_natives_old.UnlockState.{is_success}
use pcbu_natives_old.Crypt.Memory.{Outcome, done, failed, overflow}
use pcbu_natives_old.Win.Results.{
  Wide, HResult, succeeded, s_ok, e_abort, e_fail, e_unexpected, e_out_of_memory,
  hresult_from_win32, error_insufficient_buffer, Result, ok, error,
}
use pcbu_natives_old.Win.Names.{NameCalls, split_domain_and_username}
use pcbu_natives_old.Win.Kerb.{SafeSizes, UsageScenario, kerb_interactive_unlock_logon_init}
use pcbu_natives_old.Win.KerbPack.{Packed, kerb_interactive_unlock_logon_pack}
use pcbu_natives_old.Win.Protect.{CredCalls, protect_if_necessary_and_copy_password}
use pcbu_natives_old.Win.AuthPackage.{LsaCalls, retrieve_negotiate_auth_package}
use pcbu_natives_old.Win.Credential.State.{sfi_password, Credential}
use pcbu_natives_old.Win.Credential.Operations.{string_at}

-- CredPackAuthenticationBufferW without a buffer: it succeeds, or it fails with an error and the
-- size it needs.
pub data PackSize : Type 0 where
  pack_succeeds : PackSize
  pack_fails : ℕ → ℕ → PackSize

-- What Windows does in GetSerialization: the calls of the helpers, CoTaskMemAlloc for the packed
-- logon (a block of the size) and for the buffer (whether there is one), CredPackAuthenticationBufferW
-- with a buffer (the bytes it writes, or the error), and MultiByteToWideChar.
pub record LogonCalls : Type 0 where
  pub names : NameCalls
  pub sizes : SafeSizes
  pub creds : CredCalls
  pub lsa : LsaCalls
  pub header_size : ℕ
  pub memory : ℕ → Option Bytes
  pub buffer_memory : ℕ → Bool
  pub pack_size : Option Wide → Wide → PackSize
  pub pack_into : Option Wide → Wide → ℕ → Result Bytes
  pub to_wide : Bytes → Wide

-- What *pcpcs points to.
pub data Blob : Type 0 where
  packed_logon : Packed → Blob
  auth_buffer : Bytes → Blob

-- `finished` is CPGSR_RETURN_CREDENTIAL_FINISHED with the authentication package; every other answer
-- leaves CPGSR_NO_CREDENTIAL_NOT_FINISHED. `undefined_behavior` is a write out of a block.
pub data Answer : Type 0 where
  finished : HResult → ℕ → Blob → Answer
  not_finished : HResult → Answer
  undefined_behavior : Answer

-- The password to log on with: what was typed, or the one a phone sent.
unfoldable pub password_source : (Bytes → Wide) → Credential → Option Wide
password_source to_wide c = elim (string_at c sfi_password) [
  | some (u ∷ us) ↦ some (u ∷ us)
  | some [] ↦
      if is_success c.unlock_result.state then some (to_wide c.unlock_result.password) else none
  | none ↦
      if is_success c.unlock_result.state then some (to_wide c.unlock_result.password) else none
]

-- The end of both branches, by what RetrieveNegotiateAuthPackage gives.
abbrev pub with_package : Result ℕ → Blob → Answer
with_package (error hr) blob = not_finished hr
with_package (ok auth_package) blob = finished s_ok auth_package blob

abbrev pub package_found : LogonCalls → Result ℕ
package_found calls = (retrieve_negotiate_auth_package calls.sizes calls.lsa).0

module _ (calls : LogonCalls) where
  abbrev packed_answer : Outcome Packed → Answer
  packed_answer overflow = undefined_behavior
  packed_answer failed = not_finished e_out_of_memory
  packed_answer (done packed) = with_package (package_found calls) (packed_logon packed)

  -- The branch of a local user, from the name on and whole. `name` is _pszQualifiedUserName, of
  -- which wcschr must not be given a null pointer.
  unfoldable pub serialize_named : UsageScenario → Wide → Option Wide → Answer
  serialize_named cpus name protected = elim (split_domain_and_username calls.names name) [
    | error hr ↦ not_finished hr
    | ok (domain, username) ↦
        elim (kerb_interactive_unlock_logon_init calls.sizes (some domain) (some username) protected
          cpus) [
            | error hr ↦ not_finished hr
            | ok kiul ↦
                packed_answer
                  (kerb_interactive_unlock_logon_pack calls.header_size calls.memory kiul)
          ]
  ]

  unfoldable pub serialize_local : UsageScenario → Option Wide → Wide → Answer
  serialize_local cpus name pwd =
      elim (protect_if_necessary_and_copy_password calls.creds pwd cpus) [
        | error hr ↦ not_finished hr
        | ok protected ↦ elim name [
          | none ↦ undefined_behavior
          | some text ↦ serialize_named cpus text protected
        ]
      ]

  -- The branch of any other user.
  unfoldable pub serialize_other : Option Wide → Wide → Answer
  serialize_other name pwd = elim (calls.pack_size name pwd) [
    | pack_succeeds ↦ not_finished e_unexpected
    | pack_fails e size ↦
        if e == error_insufficient_buffer
        then (if calls.buffer_memory size
            then elim (calls.pack_into name pwd size) [
              | error code ↦
                  not_finished (
                    if succeeded (hresult_from_win32 code) then e_fail else hresult_from_win32 code)
              | ok bytes ↦ with_package (package_found calls) (auth_buffer bytes)
            ]
            else not_finished e_out_of_memory)
        else not_finished e_unexpected
  ]

  unfoldable pub get_serialization : Credential → Answer
  get_serialization c = elim (password_source calls.to_wide c) [
    | none ↦ not_finished e_abort
    | some pwd ↦
        if c.is_local_user
        then serialize_local c.cpus c.qualified_user_name pwd
        else serialize_other c.qualified_user_name pwd
  ]
