-- ===== src/Win/Credential/Operations.antt =====
-- The operations of CUnlockCredential in win-pcbiounlock/src/CUnlockCredential.cpp that keep its
-- state, and FieldDescriptorCopy of helpers.cpp. Each gives the state after it and what it has
-- others do, in order.
use Prim.Native.String.{String}
use pcbu_natives_old.Prelude.{
  ℕ, suc, Bool, true, false, Option, none, some, List, [], ◌∷◌, ◌++◌, if◌then◌else◌, get_elem?,
  get_or, set,
}
use pcbu_natives_old.Prelude.Texts.{Bytes, codes}
use pcbu_natives_old.Handler.Result.{UnlockResult}
use pcbu_natives_old.UnlockState.{text_key, is_success}
use pcbu_natives_old.Win.Results.{
  Wide, HResult, succeeded, s_ok, e_invalid_arg, e_out_of_memory, Result, ok, error,
}
use pcbu_natives_old.Win.Kerb.{UsageScenario}
use pcbu_natives_old.Win.Credential.State.{
  sfi_message, sfi_password, sfi_submit_button, FieldStatePair, FieldType, edit_text, password_text,
  FieldDescriptor, Credential, Effect, set_field_string, release_events, start_listener,
  stop_listener,
}

-- What a copied text is for.
pub data Copy : Type 0 where
  label field : ℕ → Copy
  shown_value shown_sid status_text : Copy

-- SHStrDupW gives an HRESULT and the new text, which is null where it fails; `to_wide` is
-- Utils::StringToWideString, and `translate` is I18n::Get on a key.
pub record TileCalls : Type 0 where
  pub dup : Copy → Option Wide → HResult × Option Wide
  pub to_wide : Bytes → Wide
  pub translate : String → Bytes

-- The user a tile is made for: whether its provider is the one of local users, and what
-- GetStringValue and GetSid give. `listener` tells whether there is memory for the listener.
pub record User : Type 0 where
  pub is_local : Bool
  pub qualified_name : Result Wide
  pub sid : Result Wide
  pub listener : Bool

-- The string of a field, null behind the end.
abbrev pub string_at : Credential → ℕ → Option Wide
string_at c i = get_or c.strings i none

-- `if (_pCredProvCredentialEvents) ...->SetFieldString(this, i, text)`
abbrev pub tell_field : Credential → ℕ → Option Wide → List Effect
tell_field c i text = elim c.events [ none ↦ [] | some sink ↦ set_field_string sink i text ∷ [] ]

abbrev pub is_typed_field : FieldType → Bool
is_typed_field edit_text = true
is_typed_field password_text = true
is_typed_field _ = false

-- Initialize from the name of the user on.
unfoldable pub initialize_user : User → Credential → HResult × Credential
initialize_user user c = elim user.qualified_name [
  | error hr ↦ (hr, c)
  | ok name ↦
      let named = record c { qualified_user_name = some name } in
      elim user.sid [
        | error hr ↦ (hr, named)
        | ok sid ↦
            let known = record named { user_sid = some sid } in
            if user.listener
            then (s_ok, record known { has_listener = true })
            else (e_out_of_memory, known)
      ]
]

-- `given` is what QueryInterface of the new callback gives: its HRESULT and the callback it stores,
-- null where it fails.
unfoldable pub advise : HResult × Option ℕ → Credential → HResult × Credential × List Effect
advise (hr, given) c =
    let released : List Effect = elim c.events [
      | none ↦ []
      | some sink ↦ release_events sink ∷ []
    ] in
    let after = record c { events = given } in
    (hr, after, released ++ tell_field after sfi_message (string_at after sfi_message))

unfoldable pub un_advise : Credential → HResult × Credential × List Effect
un_advise c = (
  s_ok,
  record c { events = none },
  elim c.events [ none ↦ [] | some sink ↦ release_events sink ∷ [] ],
)

-- The Boolean is *pbAutoLogon.
unfoldable pub set_selected : Credential → Bool × Credential × List Effect
set_selected c = (
  is_success c.unlock_result.state,
  record c { is_selected = true },
  if c.has_listener then start_listener ∷ [] else [],
)

module _ (calls : TileCalls) where
  unfoldable pub field_descriptor_copy : ℕ → FieldDescriptor → Result FieldDescriptor
  field_descriptor_copy i descriptor = elim descriptor.label [
    | none ↦ ok descriptor
    | some text ↦
        let (hr, copied) = calls.dup (label i) (some text) in
        if succeeded hr then ok (record descriptor { label = copied }) else error hr
  ]

  -- The loop over the fields from `i`: the HRESULT, and the states and descriptors it has stored.
  unfoldable pub copy_fields :
      ℕ → List FieldDescriptor → List FieldStatePair → Credential → HResult × Credential
  copy_fields i [] pairs c = (s_ok, c)
  copy_fields i (d ∷ ds) [] c = (s_ok, c)
  copy_fields i (d ∷ ds) (pair ∷ pairs) c =
      let stored = record c { states = set c.states i pair } in
      elim (field_descriptor_copy i d) [
        | error hr ↦ (hr, stored)
        | ok copied ↦
            copy_fields (suc i) ds pairs
              (record stored { descriptors = set c.descriptors i copied })
      ]

  -- `hr = SHStrDupW(text, &_rgFieldStrings[i])`
  unfoldable pub store_string : ℕ → Option Wide → Credential → HResult × Credential
  store_string i text c =
      let (hr, copied) = calls.dup (field i) text in
      (hr, record c { strings = set c.strings i copied })

  unfoldable pub update_message : Bytes → Credential → Credential × List Effect
  update_message message c =
      let (hr, after) = store_string sfi_message (some (calls.to_wide message)) c in
      (after, tell_field after sfi_message (string_at after sfi_message))

  unfoldable pub set_unlock_data : UnlockResult → Credential → Credential × List Effect
  set_unlock_data result c =
      update_message (calls.translate (text_key result.state)) (record c { unlock_result = result })

  unfoldable pub set_deselected : Credential → HResult × Credential × List Effect
  set_deselected c =
      let after = record c { is_selected = false } in
      let stopped : List Effect = if c.has_listener then stop_listener ∷ [] else [] in
      elim (string_at c sfi_password) [
        | none ↦ (s_ok, after, stopped)
        | some old ↦
            let (hr, cleared) = store_string sfi_password (some []) after in
            (
              hr,
              cleared,
              stopped
                  ++ (if succeeded hr
                      then tell_field cleared sfi_password (string_at cleared sfi_password)
                      else []),
            )
      ]

  unfoldable pub set_string_value : ℕ → Option Wide → Credential → HResult × Credential
  set_string_value field_id text c = elim (get_elem? c.descriptors field_id) [
    | none ↦ (e_invalid_arg, c)
    | some d ↦
        let stored = store_string field_id text c in
        if is_typed_field d.cpft then stored else (e_invalid_arg, c)
  ]

  -- The rest of Initialize, once the fields are copied: each call is made while the ones before
  -- succeeded.
  unfoldable pub initialize_strings : User → Credential → HResult × Credential
  initialize_strings user c =
      let (message_hr, c1) =
        store_string sfi_message (some (calls.to_wide (calls.translate "initializing"))) c in
      if succeeded message_hr
      then (let (password_hr, c2) = store_string sfi_password (some []) c1 in
          if succeeded password_hr
          then (let (submit_hr, c3) = store_string sfi_submit_button (some (codes "Submit")) c2 in
              if succeeded submit_hr then initialize_user user c3 else (submit_hr, c3))
          else (password_hr, c2))
      else (message_hr, c1)

  unfoldable pub initialize :
      UsageScenario
      → List FieldDescriptor
      → List FieldStatePair
      → User
      → Credential
      → HResult × Credential
  initialize cpus ds pairs user c =
      let (hr, copied) =
        copy_fields 0 ds pairs (record c { cpus = cpus; is_local_user = user.is_local }) in
      if succeeded hr then initialize_strings user copied else (hr, copied)
