-- ===== src/Win/Credential/Session.antt =====
-- CUnlockCredential of win-pcbiounlock/src/CUnlockCredential.cpp as LogonUI and the listener drive it:
-- any sequence of its operations, against an abstract session that keeps two things, the text typed
-- and the password a phone has sent.
use pcbu_natives_old.Prelude.{
  ℕ, Bool, true, false, Option, none, some, List, [], ◌∷◌, ◌==◌, if◌then◌else◌,
}
use pcbu_natives_old.Prelude.Texts.{Bytes}
use pcbu_natives_old.Handler.Result.{UnlockResult}
use pcbu_natives_old.UnlockState.{is_success}
use pcbu_natives_old.Win.Results.{Wide, HResult}
use pcbu_natives_old.Win.Credential.State.{sfi_password, Credential}
use pcbu_natives_old.Win.Credential.Operations.{
  TileCalls, update_message, set_unlock_data, advise, un_advise, set_selected, set_deselected,
  set_string_value,
}
use pcbu_natives_old.Win.Credential.Report.{report_result}

-- One call of the tile.
pub data Call : Type 0 where
  type_text : ℕ → Wide → Call
  unlocked : UnlockResult → Call
  message : Bytes → Call
  reported : ℕ → ℕ → Call
  advised : HResult → Option ℕ → Call
  un_advised selected deselected : Call

unfoldable pub step : TileCalls → Call → Credential → Credential
step calls (type_text field_id text) c = (set_string_value calls field_id (some text) c).1
step calls (unlocked result) c = (set_unlock_data calls result c).0
step calls (message text) c = (update_message calls text c).0
step calls (reported status substatus) c = (report_result calls status substatus c).1
step calls (advised hr given) c = (advise (hr, given) c).1
step calls un_advised c = (un_advise c).1
step calls selected c = (set_selected c).1
step calls deselected c = (set_deselected calls c).1

unfoldable pub run_calls : TileCalls → List Call → Credential → Credential
run_calls calls [] c = c
run_calls calls (x ∷ xs) c = run_calls calls xs (step calls x c)

-- The abstract session: the text typed, and the password a phone has sent since the last logon.
pub record Session : Type 0 where
  pub typed : Wide
  pub sent : Option Bytes

unfoldable pub next : Call → Session → Session
next (type_text field_id text) s = if field_id == sfi_password then record s { typed = text } else s
next (unlocked result) s = record s {
  sent = if is_success result.state then some result.password else none;
}
next (reported status substatus) s = record s { sent = none }
next deselected s = record s { typed = [] }
next (message text) s = s
next (advised hr given) s = s
next un_advised s = s
next selected s = s

unfoldable pub run_session : List Call → Session → Session
run_session [] s = s
run_session (x ∷ xs) s = run_session xs (next x s)

-- What is typed comes before what a phone has sent.
abbrev pub offered : (Bytes → Wide) → Session → Option Wide
offered to_wide s = elim s.typed [
  | [] ↦ elim s.sent [ none ↦ none | some password ↦ some (to_wide password) ]
  | u ∷ us ↦ some (u ∷ us)
]

abbrev pub has_sent : Session → Bool
has_sent s = elim s.sent [ none ↦ false | some password ↦ true ]
