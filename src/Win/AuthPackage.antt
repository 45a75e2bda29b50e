-- ===== src/Win/AuthPackage.antt =====
-- _LsaInitString and RetrieveNegotiateAuthPackage of win-pcbiounlock/src/helpers.cpp.
use pcbu_natives_old.Prelude.{ℕ, ◌+◌, ◌%◌, List, [], ◌∷◌, if◌then◌else◌, length}
use pcbu_natives_old.Prelude.Texts.{Bytes}
use pcbu_natives_old.Win.Results.{Result, ok, error, ◌>>=◌, succeeded, hresult_from_nt}
use pcbu_natives_old.Win.Kerb.{SafeSizes}

-- LSA_STRING
pub record LsaString : Type 0 where
  pub length : ℕ
  pub maximum_length : ℕ
  pub buffer : Bytes

unfoldable pub lsa_init_string : SafeSizes → Bytes → Result LsaString
lsa_init_string sizes source = sizes.to_ushort (length source) >>= λ n.
    ok (record { length = n; maximum_length = (n + 1) % 65536; buffer = source })

-- LsaConnectUntrusted gives a status and a handle, LsaLookupAuthenticationPackage a status and a
-- package; `negotiate` is the text NEGOSSP_NAME_A. A name that could not be set up is passed all
-- the same: it is `error` then.
pub record LsaCalls : Type 0 where
  pub negotiate : Bytes
  pub connect : ℕ × ℕ
  pub lookup : ℕ → Result LsaString → ℕ × ℕ

-- The package or the failure, and the handles given to LsaDeregisterLogonProcess.
unfoldable pub retrieve_negotiate_auth_package : SafeSizes → LsaCalls → Result ℕ × List ℕ
retrieve_negotiate_auth_package sizes calls =
    let (status, handle) = calls.connect in
    if succeeded (hresult_from_nt status)
    then (let (found, auth_package) = calls.lookup handle (lsa_init_string sizes calls.negotiate) in
        (
          if succeeded (hresult_from_nt found)
              then ok auth_package
              else error (hresult_from_nt found),
          handle ∷ [],
        ))
    else (error (hresult_from_nt status), [])
