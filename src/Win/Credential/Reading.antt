-- ===== src/Win/Credential/Reading.antt =====
-- The operations of CUnlockCredential in win-pcbiounlock/src/CUnlockCredential.cpp that only read
-- its state, and the ones it does not implement.
use pcbu_natives_old.Prelude.{ℕ, Option, none, some, ltb, ◌==◌, if◌then◌else◌, get_elem?}
use pcbu_natives_old.Win.Results.{
  Wide, HResult, s_ok, e_invalid_arg, e_unexpected, e_not_impl, hresult_from_win32, Result, ok,
  error,
}
use pcbu_natives_old.Win.Credential.State.{
  sfi_tile_image, sfi_password, sfi_submit_button, sfi_num_fields, FieldStatePair, Credential,
}
use pcbu_natives_old.Win.Credential.Operations.{TileCalls, shown_value, shown_sid, string_at}

unfoldable pub get_field_state : ℕ → Credential → Result FieldStatePair
get_field_state field_id c = elim (get_elem? c.states field_id) [
  | none ↦ error e_invalid_arg
  | some pair ↦ ok pair
]

-- The HRESULT, and the text that *ppwsz then points to.
unfoldable pub get_string_value : TileCalls → ℕ → Credential → HResult × Option Wide
get_string_value calls field_id c =
    let copied = calls.dup shown_value (string_at c field_id) in
    if ltb field_id sfi_num_fields then copied else (e_invalid_arg, none)

-- `resource` and `account_picture` are the bitmaps of LoadBitmapW and LoadImageW, `last_error` is
-- GetLastError after the first.
unfoldable pub get_bitmap_value : Option ℕ → Option ℕ → ℕ → ℕ → Credential → HResult × Option ℕ
get_bitmap_value resource account_picture last_error field_id c =
    if field_id == sfi_tile_image
    then (elim resource [
      | some bitmap ↦ (s_ok, some bitmap)
      | none ↦ elim account_picture [
        | some bitmap ↦ (s_ok, some bitmap)
        | none ↦ (hresult_from_win32 last_error, none)
      ]
    ])
    else (e_invalid_arg, none)

-- The field that the submit button stands next to.
unfoldable pub get_submit_button_value : ℕ → Result ℕ
get_submit_button_value field_id =
    if field_id == sfi_submit_button then ok sfi_password else error e_invalid_arg

-- GetCheckboxValue, SetCheckboxValue, GetComboBoxValueCount, GetComboBoxValueAt,
-- SetComboBoxSelectedValue and CommandLinkClicked.
pub data Unsupported : Type 0 where
  get_checkbox_value set_checkbox_value get_combo_box_value_count get_combo_box_value_at
        set_combo_box_selected_value command_link_clicked :
      Unsupported

unfoldable pub unsupported : Unsupported → ℕ → HResult
unsupported call field_id = e_not_impl

unfoldable pub get_user_sid : TileCalls → Credential → HResult × Option Wide
get_user_sid calls c = elim c.user_sid [
  | none ↦ (e_unexpected, none)
  | some sid ↦ calls.dup shown_sid (some sid)
]

-- CREDENTIAL_PROVIDER_CREDENTIAL_FIELD_OPTIONS
pub data FieldOptions : Type 0 where
  no_options enable_password_reveal enable_touch_keyboard_auto_invoke : FieldOptions

unfoldable pub get_field_options : ℕ → FieldOptions
get_field_options field_id =
    if field_id == sfi_password
    then enable_password_reveal
    else if field_id == sfi_tile_image
    then enable_touch_keyboard_auto_invoke
    else no_options
