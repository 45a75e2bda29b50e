-- ===== src/Pam/Module.antt =====
-- pam-pcbiounlock/src: the functions of the PAM module.
use pcbu_natives_old.Prelude.{
  ℕ, ◌≡◌, ◌≢◌, ◌*◌, ◌<◌, refl, Bool, true, false, ◌&&◌, List, [], ◌∷◌, ◌++◌, arith, ◌==◌,
  if◌then◌else◌,
}
use pcbu_natives_old.Prelude.Texts.{Bytes}
use pcbu_natives_old.Pam.Auth.{MainResult, zero_, one, minus_one, exit_status}

-- The results of PAM's functions.
pub data PamResult : Type 0 where
  pam_success pam_ignore pam_auth_err pam_authtok_err pam_conv_err : PamResult

-- One message of style PAM_TEXT_INFO goes to the conversation, if there is one.
unfoldable pub print_pam : Bool → Bytes → PamResult × List Bytes
print_pam false message = (pam_conv_err, [])
print_pam true message = (pam_success, message ∷ [])

unfoldable pub print_lines : Bool → List Bytes → List Bytes
unfolding print_pam
print_lines conv [] = []
print_lines conv (line ∷ lines) = (print_pam conv line).1 ++ print_lines conv lines

-- What the calls on the PAM handle return: whether each of the three items could be read.
pub record Items : Type 0 where
  pub service_ok : Bool
  pub user_ok : Bool
  pub conv_ok : Bool
  pub has_conv : Bool

-- `close` is what pstream's close returns for the exit status of the process.
unfoldable pub pam_sm_authenticate : (ℕ → ℕ) → Items → List Bytes → ℕ → PamResult × List Bytes
unfolding print_lines
pam_sm_authenticate close items lines status =
    if items.service_ok && (items.user_ok && items.conv_ok)
    then (
      if close status == 0
          then pam_success
          else if close status == 1
          then pam_auth_err
          else pam_ignore,
      print_lines items.has_conv lines,
    )
    else (pam_ignore, [])

unfoldable pub pam_sm_setcred : PamResult
pam_sm_setcred = pam_success

unfoldable pub pam_sm_acct_mgmt : PamResult
pam_sm_acct_mgmt = pam_auth_err

unfoldable pub pam_sm_chauthtok : PamResult
pam_sm_chauthtok = pam_authtok_err

unfoldable pub pam_sm_open_session : PamResult
pam_sm_open_session = pam_ignore

unfoldable pub pam_sm_close_session : PamResult
pam_sm_close_session = pam_ignore

-- The status of wait(2) for a process that has exited, which is what pclose returns.
abbrev pub IsWaitStatus : (ℕ → ℕ) → Type 0
IsWaitStatus close = (status : ℕ) → status < 256 → close status ≡ status * 256

-- Where close returns the status of wait, the module succeeds if and only if it could read its items
-- and pcbu_auth exited with 0; every other exit of pcbu_auth, also that with 1, is PAM_IGNORE, and
-- PAM_AUTH_ERR is never returned.
pub pam_sm_authenticate-wait :
    (close : ℕ → ℕ) (items : Items) (lines : List Bytes) (r : MainResult)
    → IsWaitStatus close
    → ((pam_sm_authenticate close items lines (exit_status r)).0 ≡ pam_success
        → (r ≡ zero_) × (items.service_ok && (items.user_ok && items.conv_ok) ≡ true))
      × (items.service_ok && (items.user_ok && items.conv_ok) ≡ true
          → (pam_sm_authenticate close items lines (exit_status zero_)).0 ≡ pam_success)
      × (r ≢ zero_ → (pam_sm_authenticate close items lines (exit_status r)).0 ≡ pam_ignore)
      × ((pam_sm_authenticate close items lines (exit_status r)).0 ≢ pam_auth_err)
unfolding pam_sm_authenticate exit_status
pam_sm_authenticate-wait close items lines zero_ w =
    let c = w 0 (omega arith) in
    (λ e. ground arith, λ e. rw (e, c) refl, λ n. absurd (n refl), ground arith)
pam_sm_authenticate-wait close items lines one w =
    let c = w 1 (omega arith) in
    (λ e. ground arith, λ e. rw (e, w 0 (omega arith)) refl, λ n. ground arith, ground arith)
pam_sm_authenticate-wait close items lines minus_one w =
    let c = w 255 (omega arith) in
    (λ e. ground arith, λ e. rw (e, w 0 (omega arith)) refl, λ n. ground arith, ground arith)
