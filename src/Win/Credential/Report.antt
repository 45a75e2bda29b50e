-- ===== src/Win/Credential/Report.antt =====
-- CUnlockCredential::ReportResult and its table of win-pcbiounlock/src/CUnlockCredential.cpp.
use Prim.Native.String.{String}
use pcbu_natives_old.Prelude.{ℕ, Option, none, some, List, [], ◌∷◌, ◌==◌, ◌&&◌, if◌then◌else◌}
use pcbu_natives_old.Prelude.Texts.{codes}
use pcbu_natives_old.Handler.Result.{of_state}
use pcbu_natives_old.UnlockState.{UnlockState}
use pcbu_natives_old.Win.Results.{Wide, succeeded, hresult_from_nt}
use pcbu_natives_old.Win.Credential.State.{sfi_password, Credential, Effect}
use pcbu_natives_old.Win.Credential.Operations.{TileCalls, status_text, tell_field}

-- CREDENTIAL_PROVIDER_STATUS_ICON
pub data StatusIcon : Type 0 where
  no_icon error_icon warning_icon success_icon : StatusIcon

-- REPORT_RESULT_STATUS_INFO
pub record StatusInfo : Type 0 where
  pub status : ℕ
  pub substatus : ℕ
  pub message : String
  pub icon : StatusIcon

abbrev pub status_logon_failure : ℕ
status_logon_failure = 3221225581

abbrev pub status_account_restriction : ℕ
status_account_restriction = 3221225582

abbrev pub status_account_disabled : ℕ
status_account_disabled = 3221225586

abbrev pub logon_status_info : List StatusInfo
logon_status_info =
    record {
      status = status_logon_failure;
      substatus = 0;
      message = "Incorrect password or username.";
      icon = error_icon;
    }
    ∷ record {
      status = status_account_restriction;
      substatus = status_account_disabled;
      message = "The account is disabled.";
      icon = warning_icon;
    }
    ∷ []

-- The loop over the table: the first entry with this status and substatus.
unfoldable pub find_info : ℕ → ℕ → List StatusInfo → Option StatusInfo
find_info status substatus [] = none
find_info status substatus (info ∷ rest) =
    if info.status == status && info.substatus == substatus
    then some info
    else find_info status substatus rest

-- The optional text, the icon, the state afterwards, and the callback made. The call always
-- returns S_OK.
unfoldable pub report_result :
    TileCalls → ℕ → ℕ → Credential → (Option Wide × StatusIcon) × Credential × List Effect
report_result calls status substatus c =
    let after = record c { unlock_result = of_state UnlockState.unknown } in
    let shown : Option Wide × StatusIcon = elim (find_info status substatus logon_status_info) [
      | none ↦ (none, no_icon)
      | some info ↦
          let (hr, text) = calls.dup status_text (some (codes info.message)) in
          (text, if succeeded hr then info.icon else no_icon)
    ] in
    (
      shown,
      after,
      if succeeded (hresult_from_nt status) then [] else tell_field after sfi_password (some []),
    )
