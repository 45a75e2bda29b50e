-- ===== src/Win/Credential/Logon.antt =====
-- GetSerialization of win-pcbiounlock/src/CUnlockCredential.cpp for a local user, from the password
-- to the packed logon, together with the helpers it calls.
use pcbu_natives_old.Prelude.{
  ℕ, ◌+◌, ◌<◌, ◌≡◌, refl, ap, true, some, ◌∷◌, ◌++◌, arith, length, length-append,
}
use pcbu_natives_old.Prelude.Texts.{Bytes}
use pcbu_natives_old.Utils.Split.{Lacks}
use pcbu_natives_old.Win.Results.{Wide, s_ok, ok}
use pcbu_natives_old.Win.Names.{KeepsNames, whack, split_whole}
use pcbu_natives_old.Win.Kerb.{
  ChecksSizes, SubmitType, submit_type, Short, init-Short, kerb_interactive_unlock_logon_init,
  whole_logon, UsageScenario,
}
use pcbu_natives_old.Win.KerbPack.{Packed, kerb_interactive_unlock_logon_unpack_in_place}
use pcbu_natives_old.Win.KerbRoundTrip.{bytes_of, Reads, unpack-pack}
use pcbu_natives_old.Win.Protect.{protect_if_necessary_and_copy_password}
use pcbu_natives_old.Win.Credential.State.{Credential}
use pcbu_natives_old.Win.Credential.Serialization.{
  LogonCalls, finished, packed_logon, with_package, package_found, password_source,
  get_serialization, serialize_local, serialize_named,
}

module _ (calls : LogonCalls) (names : KeepsNames calls.names)
    (sizes : ChecksSizes calls.sizes) where
  init_whole :
      (d u p : Wide) (cpus : UsageScenario) (type : SubmitType)
      → Short d
      → Short u
      → Short p
      → submit_type cpus ≡ ok type
      → kerb_interactive_unlock_logon_init calls.sizes (some d) (some u) (some p) cpus
        ≡ ok (whole_logon type d u p)
  unfolding kerb_interactive_unlock_logon_init
  init_whole d u p cpus type sd su sp known =
      rw
        (
          init-Short calls.sizes sizes d sd,
          init-Short calls.sizes sizes u su,
          init-Short calls.sizes sizes p sp,
          known,
        )
        refl

  -- Logging on a local user `domain\username` with a password there is: the tile answers that it is
  -- finished, with the package of the LSA and a packed logon that, unpacked at any address, holds the
  -- domain, the user name and the protected password, byte for byte, and whose message type is the
  -- one of the usage scenario. The conditions are that the domain has no backslash, that none of the
  -- three texts has more than 32767 units, that the scenario is a logon, an unlock or a CredUI
  -- prompt, and that protecting, the memory, the LSA and the calls of Windows succeed.
  pub get_serialization-Reads :
      (c : Credential) (pwd d u p : Wide) (type : SubmitType) (block : Bytes)
      (base auth_package : ℕ)
      → password_source calls.to_wide c ≡ some pwd
      → c.is_local_user ≡ true
      → c.qualified_user_name ≡ some (d ++ whack ∷ u)
      → Lacks whack d
      → Short d
      → Short u
      → Short p
      → protect_if_necessary_and_copy_password calls.creds pwd c.cpus ≡ ok (some p)
      → submit_type c.cpus ≡ ok type
      → 0 < calls.header_size
      → calls.header_size < 65536
      → calls.memory (bytes_of calls.header_size calls.memory d u p) ≡ some block
      → length block ≡ bytes_of calls.header_size calls.memory d u p
      → base + bytes_of calls.header_size calls.memory d u p < 18446744073709551616
      → package_found calls ≡ ok auth_package
      → (k : Packed) × (get_serialization calls c ≡ finished s_ok auth_package (packed_logon k))
        × (k.header.message_type ≡ type)
        × Reads base k.block
            (kerb_interactive_unlock_logon_unpack_in_place calls.header_size base
              (bytes_of calls.header_size calls.memory d u p)
              k.header)
            d
            u
            p
  unfolding get_serialization serialize_local serialize_named
  get_serialization-Reads c pwd d u p type block base auth_package source local named lacks sd su sp
        protected known above small given size fits got =
      let (k, packed, length_k, untouched, typed, reads) =
        unpack-pack calls.header_size calls.memory type d u p block base sd su sp above small given
          size fits in
      let split =
        split_whole calls.names names d u lacks (omega (arith, length-append d (whack ∷ u))) in
      let whole = init_whole d u p c.cpus type sd su sp known in
      let last : serialize_named calls c.cpus (d ++ whack ∷ u) (some p)
          ≡ finished s_ok auth_package (packed_logon k) =
        rw (split, whole, packed, serialize_named)
          (ap (λ r. with_package r (packed_logon k)) got) in
      let inner : serialize_local calls c.cpus (some (d ++ whack ∷ u)) pwd
          ≡ finished s_ok auth_package (packed_logon k) =
        rw (protected, serialize_local) last in
      (k, rw (source, local, named, get_serialization) inner, typed, reads)
