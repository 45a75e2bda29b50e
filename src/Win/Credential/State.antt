-- ===== src/Win/Credential/State.antt =====
-- The state of CUnlockCredential in win-pcbiounlock/src/CUnlockCredential.h, and the tables of
-- common.h. The members that nothing reads after the constructor (_fChecked, _dwComboIndex and
-- _fShowControls) and the reference count are left out.
use pcbu_natives_old.Prelude.{ℕ, Bool, true, false, Option, none, some, List, [], ◌∷◌}
use pcbu_natives_old.Prelude.Texts.{codes}
use pcbu_natives_old.Handler.Result.{UnlockResult, of_state}
use pcbu_natives_old.UnlockState.{UnlockState}
use pcbu_natives_old.Win.Results.{Wide}
use pcbu_natives_old.Win.Kerb.{UsageScenario}

-- SAMPLE_FIELD_ID
abbrev pub sfi_tile_image : ℕ
sfi_tile_image = 0

abbrev pub sfi_message : ℕ
sfi_message = 1

abbrev pub sfi_password : ℕ
sfi_password = 2

abbrev pub sfi_submit_button : ℕ
sfi_submit_button = 3

abbrev pub sfi_num_fields : ℕ
sfi_num_fields = 4

-- CREDENTIAL_PROVIDER_FIELD_STATE and CREDENTIAL_PROVIDER_FIELD_INTERACTIVE_STATE; the first
-- member is the zero of each.
pub data FieldState : Type 0 where
  hidden display_in_selected_tile display_in_deselected_tile display_in_both : FieldState

pub data InteractiveState : Type 0 where
  plain readonly disabled focused : InteractiveState

pub record FieldStatePair : Type 0 where
  pub cpfs : FieldState
  pub cpfis : InteractiveState

-- CREDENTIAL_PROVIDER_FIELD_TYPE
pub data FieldType : Type 0 where
  invalid_field large_text small_text command_link edit_text password_text tile_image check_box
        combo_box submit_button :
      FieldType

-- CREDENTIAL_PROVIDER_FIELD_DESCRIPTOR; the GUID of the field's type is given by whether it is
-- CPFG_CREDENTIAL_PROVIDER_LOGO.
pub record FieldDescriptor : Type 0 where
  pub field_id : ℕ
  pub cpft : FieldType
  pub label : Option Wide
  pub is_logo : Bool

abbrev pub field_state_pairs : List FieldStatePair
field_state_pairs =
    record { cpfs = display_in_both; cpfis = plain }
    ∷ record { cpfs = display_in_both; cpfis = plain }
    ∷ record { cpfs = display_in_selected_tile; cpfis = focused }
    ∷ record { cpfs = display_in_selected_tile; cpfis = plain }
    ∷ []

abbrev pub image_descriptor : FieldDescriptor
image_descriptor = record {
  field_id = 0;
  cpft = tile_image;
  label = some (codes "Image");
  is_logo = true;
}

abbrev pub message_descriptor : FieldDescriptor
message_descriptor = record {
  field_id = 1;
  cpft = small_text;
  label = some (codes "Tooltip");
  is_logo = false;
}

-- `pwd` is pwdStr, the translated name of the password field.
abbrev pub password_descriptor : Wide → FieldDescriptor
password_descriptor pwd = record {
  field_id = 2;
  cpft = password_text;
  label = some pwd;
  is_logo = false;
}

abbrev pub submit_descriptor : FieldDescriptor
submit_descriptor = record {
  field_id = 3;
  cpft = submit_button;
  label = some (codes "Submit");
  is_logo = false;
}

abbrev pub field_descriptors : Wide → List FieldDescriptor
field_descriptors pwd =
    image_descriptor ∷ message_descriptor ∷ password_descriptor pwd ∷ submit_descriptor ∷ []

-- A PWSTR is `none` where it is null. `events` is the callback of LogonUI, by its number, and
-- `has_listener` tells whether _pUnlockListener is there.
pub record Credential : Type 0 where
  pub cpus : UsageScenario
  pub descriptors : List FieldDescriptor
  pub states : List FieldStatePair
  pub strings : List (Option Wide)
  pub user_sid : Option Wide
  pub qualified_user_name : Option Wide
  pub events : Option ℕ
  pub is_local_user : Bool
  pub has_listener : Bool
  pub unlock_result : UnlockResult
  pub is_selected : Bool

-- What the credential has others do: the callbacks to LogonUI, the listener it starts and stops, and
-- the callback it gives up.
pub data Effect : Type 0 where
  set_field_string : ℕ → ℕ → Option Wide → Effect
  release_events : ℕ → Effect
  start_listener stop_listener : Effect

abbrev zero_state : FieldStatePair
zero_state = record { cpfs = hidden; cpfis = plain }

abbrev zero_descriptor : FieldDescriptor
zero_descriptor = record { field_id = 0; cpft = invalid_field; label = none; is_logo = false }

-- The constructor.
abbrev pub new_credential : Credential
new_credential = record {
  cpus = UsageScenario.invalid;
  descriptors = zero_descriptor ∷ zero_descriptor ∷ zero_descriptor ∷ zero_descriptor ∷ [];
  states = zero_state ∷ zero_state ∷ zero_state ∷ zero_state ∷ [];
  strings = none ∷ none ∷ none ∷ none ∷ [];
  user_sid = none;
  qualified_user_name = none;
  events = none;
  is_local_user = false;
  has_listener = false;
  unlock_result = of_state UnlockState.unknown;
  is_selected = false;
}
