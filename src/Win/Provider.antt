-- ===== src/Win/Provider.antt =====
-- CSampleProvider of win-pcbiounlock/src/CSampleProvider.cpp: it makes the tiles, one for each paired
-- device of a user, and tells LogonUI which of them logs on by itself.
pub mod Count
pub mod Enumeration
use Prim.Native.String.{String}
use pcbu_natives_old.Prelude.{
  ℕ, suc, Bool, true, false, Option, none, some, List, [], ◌∷◌, ◌++◌, ltb, if◌then◌else◌, length,
  get_elem?,
}
use pcbu_natives_old.Prelude.Texts.{Bytes}
use pcbu_natives_old.Storage.Json.{Json}
use pcbu_natives_old.Storage.PairedDevice.{PairedDevice, get_devices_for_user}
use pcbu_natives_old.UnlockState.{is_success}
use pcbu_natives_old.Win.Results.{
  Wide, HResult, succeeded, s_ok, e_invalid_arg, e_not_impl, e_out_of_memory, e_abort, Result, ok,
  error,
}
use pcbu_natives_old.Win.Kerb.{UsageScenario}
use pcbu_natives_old.Win.Credential.State.{
  Credential, FieldDescriptor, new_credential, field_descriptors, field_state_pairs, sfi_num_fields,
}
use pcbu_natives_old.Win.Credential.Operations.{TileCalls, User, initialize, field_descriptor_copy}

-- The members of the provider. A user is `error` where GetAt fails for it; a callback and a user
-- array go by their numbers.
pub record Provider : Type 0 where
  pub credentials : List Credential
  pub recreate : Bool
  pub cpus : UsageScenario
  pub user_array : Option (ℕ × List (Result User))
  pub events : Option ℕ
  pub advise_context : ℕ

-- What the provider has others do: it counts references to the callback and the user array, gives up
-- tiles, and asks LogonUI to ask for the tiles again.
pub data Effect : Type 0 where
  add_ref release : ℕ → Effect
  release_credential : Credential → Effect
  credentials_changed : ℕ → ℕ → Effect

abbrev pub new_provider : Provider
new_provider = record {
  credentials = [];
  recreate = true;
  cpus = UsageScenario.invalid;
  user_array = none;
  events = none;
  advise_context = 0;
}

unfoldable pub set_usage_scenario : UsageScenario → Provider → HResult × Provider
set_usage_scenario UsageScenario.logon p =
    (s_ok, record p { cpus = UsageScenario.logon; recreate = true })
set_usage_scenario UsageScenario.unlock_workstation p =
    (s_ok, record p { cpus = UsageScenario.unlock_workstation; recreate = true })
set_usage_scenario UsageScenario.credui p =
    (s_ok, record p { cpus = UsageScenario.credui; recreate = true })
set_usage_scenario UsageScenario.change_password p = (e_not_impl, p)
set_usage_scenario UsageScenario.invalid p = (e_invalid_arg, p)
set_usage_scenario UsageScenario.plap p = (e_invalid_arg, p)

abbrev pub set_serialization : HResult
set_serialization = e_not_impl

abbrev release_of : Option ℕ → List Effect
release_of none = []
release_of (some pointer) = release pointer ∷ []

unfoldable pub advise : ℕ → ℕ → Provider → Provider × List Effect
advise callback context p = (
  record p { events = some callback; advise_context = context },
  release_of p.events ++ add_ref callback ∷ [],
)

unfoldable pub un_advise : Provider → Provider × List Effect
un_advise p = (record p { events = none }, release_of p.events)

abbrev pub array_number : Provider → Option ℕ
array_number p = elim p.user_array [ none ↦ none | some (number, users) ↦ some number ]

unfoldable pub set_user_array : ℕ → List (Result User) → Provider → Provider × List Effect
set_user_array number users p = (
  record p { user_array = some (number, users) },
  release_of (array_number p) ++ add_ref number ∷ [],
)

abbrev pub get_field_descriptor_count : ℕ
get_field_descriptor_count = sfi_num_fields

-- `calls` and `memory` are those of FieldDescriptorCoAllocCopy, and `wanted` tells whether there is
-- a place for the result.
unfoldable pub field_descriptor_co_alloc_copy :
    TileCalls → Bool → ℕ → FieldDescriptor → Result FieldDescriptor
field_descriptor_co_alloc_copy calls true i d = field_descriptor_copy calls i d
field_descriptor_co_alloc_copy calls false i d = error e_out_of_memory

unfoldable pub get_field_descriptor_at : TileCalls → Bool → Wide → ℕ → Bool → Result FieldDescriptor
get_field_descriptor_at calls memory pwd index false = error e_invalid_arg
get_field_descriptor_at calls memory pwd index true =
    elim (get_elem? (field_descriptors pwd) index) [
      | none ↦ error e_invalid_arg
      | some d ↦ field_descriptor_co_alloc_copy calls memory index d
    ]

-- The cases of _CreateEnumeratedCredentials.
abbrev pub makes_tiles : UsageScenario → Bool
makes_tiles UsageScenario.logon = true
makes_tiles UsageScenario.unlock_workstation = true
makes_tiles UsageScenario.credui = true
makes_tiles _ = false

-- `tile i k` is what Windows does for the tile of the user's k-th device, and `none` where there is
-- no memory for the tile; `pwd` is the name of the password field, `to_narrow` is
-- Utils::WideStringToString, and `file` is what the file of the paired devices holds.
module _ (j : Json) (file : Bytes) (to_narrow : Wide → Bytes) (pwd : Wide)
    (tile : ℕ → ℕ → Option TileCalls) where
  -- The loop over the devices of user `i`, from device `k` on.
  unfoldable pub enumerate_devices :
      UsageScenario
      → ℕ
      → ℕ
      → List PairedDevice
      → User
      → HResult × List Credential
      → HResult × List Credential
  enumerate_devices cpus i k [] user state = state
  enumerate_devices cpus i k (device ∷ devices) user (hr, made) =
      enumerate_devices cpus i (suc k) devices user (elim (tile i k) [
        | none ↦ (e_out_of_memory, made)
        | some calls ↦
            let (result, c) =
              initialize calls cpus (field_descriptors pwd) field_state_pairs user new_credential in
            (result, if succeeded result then made ++ c ∷ [] else made)
      ])

  -- The loop over the users.
  unfoldable pub enumerate_users :
      UsageScenario → ℕ → List (Result User) → HResult × List Credential → HResult × List Credential
  enumerate_users cpus i [] state = state
  enumerate_users cpus i (error code ∷ users) (hr, made) =
      enumerate_users cpus (suc i) users (e_out_of_memory, made)
  enumerate_users cpus i (ok user ∷ users) (hr, made) =
      enumerate_users cpus (suc i) users (elim user.qualified_name [
        | error code ↦ (code, made)
        | ok name ↦
            enumerate_devices cpus i 0 (get_devices_for_user j file (to_narrow name)) user
              (s_ok, made)
      ])

  unfoldable pub enumerate_credentials : Provider → HResult × Provider
  enumerate_credentials p = elim p.user_array [
    | none ↦ (s_ok, p)
    | some (number, []) ↦ (s_ok, p)
    | some (number, user ∷ users) ↦
        let (hr, made) = enumerate_users p.cpus 0 (user ∷ users) (s_ok, p.credentials) in
        (elim made [ [] ↦ e_abort | c ∷ cs ↦ hr ], record p { credentials = made })
  ]

  unfoldable pub create_enumerated_credentials : Provider → Provider
  create_enumerated_credentials p = if makes_tiles p.cpus then (enumerate_credentials p).1 else p
