-- ===== src/Tests/Win.antt =====
-- The Windows credential provider at concrete inputs.
use pcbu_natives_old.Prelude.{
  ℕ, suc, ◌*◌, ◌≡◌, refl, ◌⊎◌, inl, true, Option, none, some, [], ◌∷◌, ◌++◌, arith, take, replicate,
  length,
}
use pcbu_natives_old.Prelude.Texts.{Bytes, codes}
use pcbu_natives_old.Handler.Result.{of_state}
use pcbu_natives_old.UnlockState.{UnlockState}
use pcbu_natives_old.Utils.Split.{split_string, split_loop, find_char}
use pcbu_natives_old.Win.Results.{ok, ◌>>=◌, s_ok}
use pcbu_natives_old.Win.Names.{
  NameCalls, KeepsNames, whack, domain_username_string_alloc, split_domain_and_username,
  split-DomainUsername, split_domain_and_username-split_string,
}
use pcbu_natives_old.Win.Kerb.{
  UnicodeString, UsageScenario, SafeSizes, ChecksSizes, checked_ushort, interactive_logon,
  workstation_unlock_logon, UnlockLogon,
}
use pcbu_natives_old.Win.KerbPack.{Packed, kerb_interactive_unlock_logon_unpack_in_place}
use pcbu_natives_old.Win.KerbRoundTrip.{Reads}
use pcbu_natives_old.Win.KerbInside.{unpack-Inside, Inside}
use pcbu_natives_old.Win.Protect.{
  CredCalls, fails, IsCopied, WrittenFrom, protect_sized, protect_and_copy_string,
  protect_if_necessary_and_copy_password, protect_never_plain,
}
use pcbu_natives_old.Win.AuthPackage.{LsaCalls, lsa_init_string, retrieve_negotiate_auth_package}
use pcbu_natives_old.Win.Credential.State.{Credential, new_credential}
use pcbu_natives_old.Win.Credential.Serialization.{
  LogonCalls, pack_fails, password_source, get_serialization, finished, packed_logon,
}
use pcbu_natives_old.Win.Credential.Logon.{get_serialization-Reads}

abbrev name_calls : NameCalls
name_calls = record {
  memory = λ use_of size. true;
  print_pair = λ size d u. ok (d ++ whack ∷ u);
  copy_units = λ size src n. ok (take n src);
}

keeps_names : KeepsNames name_calls
keeps_names = record {
  memory_given = λ use_of size. refl;
  print_pair_fits = λ size d u fits small. refl;
  copy_units_fits = λ size src n inside room small. refl;
}

split-DomainUsername_example :
    (domain_username_string_alloc name_calls (codes "PC") (codes "ann")
      >>= split_domain_and_username name_calls)
    ≡ ok (codes "PC", codes "ann")
split-DomainUsername_example =
    split-DomainUsername name_calls keeps_names (codes "PC") (codes "ann")
      ((λ e. absurd (omega arith)), ((λ e. absurd (omega arith)), tt)) (omega arith)

split_domain_and_username-split_string_example :
    (d : Bytes) × (u : Bytes) × (split_domain_and_username name_calls (codes "PC\\ann") ≡ ok (d, u))
    × (d ≡ codes "PC")
    × (u ≡ codes "ann")
unfolding split_string split_loop find_char
split_domain_and_username-split_string_example =
    split_domain_and_username-split_string name_calls keeps_names (λ text. text)
      (record { keeps = λ d u. refl; makes_none = λ w lacks. lacks }) (codes "PC\\ann") (codes "PC")
      (codes "ann") (omega arith) refl

abbrev sizes : SafeSizes
sizes = record { to_ushort = checked_ushort; ushort_mult = λ n k. checked_ushort (n * k) }

checks_sizes : ChecksSizes sizes
checks_sizes = record { to_ushort_checks = λ n. refl; ushort_mult_checks = λ n k. refl }

abbrev zero_block : ℕ → Option Bytes
zero_block n = some (replicate n 0)

abbrev empty_string : UnicodeString ℕ
empty_string = record { length = 0; maximum_length = 0; buffer = 0 }

-- A header whose password lies behind the block of 78 bytes.
abbrev odd_header : UnlockLogon ℕ
odd_header = record {
  message_type = interactive_logon;
  logon_domain_name = empty_string;
  user_name = empty_string;
  password = record { length = 8; maximum_length = 8; buffer = 72 };
  logon_id = 0;
}

unpack-Inside_example :
    (kerb_interactive_unlock_logon_unpack_in_place 64 4096 78 odd_header ≡ odd_header)
    ⊎ (let k = kerb_interactive_unlock_logon_unpack_in_place 64 4096 78 odd_header in
        Inside 4096 78 k.logon_domain_name × Inside 4096 78 k.user_name × Inside 4096 78 k.password)
unpack-Inside_example =
    unpack-Inside 64 4096 78 odd_header (omega arith) (omega arith) (omega arith) (omega arith)

-- CredProtectW puts an @ in front.
abbrev cred_calls : CredCalls
cred_calls = record {
  dup = λ what text. ok text;
  memory = λ size. true;
  is_protected = λ text. none;
  protect_size = λ text count. fails 122 (suc count);
  protect_into = λ text count size. inl (64 ∷ text);
}

protect_never_plain_example :
    (IsCopied cred_calls (codes "pw") UsageScenario.logon × (codes "@pw" ≡ codes "pw"))
    ⊎ ((¬ IsCopied cred_calls (codes "pw") UsageScenario.logon)
        × WrittenFrom cred_calls (codes "pw") (codes "@pw"))
unfolding protect_if_necessary_and_copy_password protect_and_copy_string protect_sized
protect_never_plain_example =
    protect_never_plain cred_calls (λ what text copy e. cc) (codes "pw") (codes "@pw")
      UsageScenario.logon refl

abbrev lsa_calls : LsaCalls
lsa_calls = record {
  negotiate = codes "Negotiate";
  connect = (0, 7);
  lookup = λ handle name. (0, 2);
}

abbrev logon_calls : LogonCalls
logon_calls = record {
  names = name_calls;
  sizes = sizes;
  creds = cred_calls;
  lsa = lsa_calls;
  header_size = 64;
  memory = zero_block;
  buffer_memory = λ size. true;
  pack_size = λ name pwd. pack_fails 122 10;
  pack_into = λ name pwd size. ok pwd;
  to_wide = λ text. text;
}

-- A tile of a local user with an unlock result of a phone.
abbrev unlocked_tile : Credential
unlocked_tile = record new_credential {
  cpus = UsageScenario.unlock_workstation;
  is_local_user = true;
  qualified_user_name = some (codes "PC\\ann");
  strings = none ∷ none ∷ some [] ∷ none ∷ [];
  unlock_result = record (of_state UnlockState.success) { password = codes "pw" };
}

get_serialization-Reads_example :
    (k : Packed) × (get_serialization logon_calls unlocked_tile ≡ finished s_ok 2 (packed_logon k))
    × (k.header.message_type ≡ workstation_unlock_logon)
    × Reads 4096 k.block
        (kerb_interactive_unlock_logon_unpack_in_place 64 4096 80 k.header)
        (codes "PC")
        (codes "ann")
        (codes "@pw")
unfolding password_source protect_if_necessary_and_copy_password protect_and_copy_string
    protect_sized retrieve_negotiate_auth_package lsa_init_string
get_serialization-Reads_example =
    get_serialization-Reads logon_calls keeps_names checks_sizes unlocked_tile (codes "pw")
      (codes "PC") (codes "ann") (codes "@pw") workstation_unlock_logon (replicate 80 0) 4096 2 refl
      refl refl ((λ e. absurd (omega arith)), ((λ e. absurd (omega arith)), tt)) (omega arith)
      (omega arith) (omega arith) refl refl (omega arith) (omega arith) refl refl (omega arith) refl
