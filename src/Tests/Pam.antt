-- ===== src/Tests/Pam.antt =====
-- The PAM module and its program at concrete inputs.
use pcbu_natives_old.Prelude.{◌≡◌, ◌≢◌, ◌*◌, refl, true, none, some, [], ◌∷◌}
use pcbu_natives_old.Prelude.Texts.{Bytes, bytes_eq}
use pcbu_natives_old.UnlockState.{UnlockState}
use pcbu_natives_old.Handler.Result.{UnlockResult}
use pcbu_natives_old.Pam.Auth.{
  Accounts, zero_, one, HasPassword, check_password, judge, main_result, exit_status,
  main_result-zero,
}
use pcbu_natives_old.Pam.Module.{
  Items, pam_success, pam_ignore, pam_auth_err, pam_sm_authenticate, pam_sm_authenticate-wait,
}
use pcbu_natives_old.Tests.Samples.{sample_device}

abbrev accounts : Accounts
accounts = record {
  passwd_of = λ user. some (9 ∷ []);
  shadow_of = λ user. none;
  crypt = λ password hash. 9 ∷ [];
}

abbrev result : UnlockResult
result = record { state = UnlockState.success; device = sample_device; password = 8 ∷ [] }

main_result-zero_example :
    (true ≡ true)
    × (user : Bytes) × (service : Bytes) × ((3 ∷ []) ∷ (1 ∷ []) ∷ [] ≡ user ∷ service ∷ [])
    × (result.state ≡ UnlockState.success)
    × (user ≡ result.device.user_name)
    × HasPassword accounts user result.password
unfolding main_result judge check_password bytes_eq exit_status
main_result-zero_example =
    main_result-zero accounts true ((3 ∷ []) ∷ (1 ∷ []) ∷ []) (λ user service. result) refl

abbrev items : Items
items = record { service_ok = true; user_ok = true; conv_ok = true; has_conv = true }

pam_sm_authenticate-wait_example :
    ((pam_sm_authenticate (λ s. s * 256) items [] (exit_status one)).0 ≡ pam_success
      → (one ≡ zero_) × (true ≡ true))
    × (true ≡ true
        → (pam_sm_authenticate (λ s. s * 256) items [] (exit_status zero_)).0 ≡ pam_success)
    × (one ≢ zero_ → (pam_sm_authenticate (λ s. s * 256) items [] (exit_status one)).0 ≡ pam_ignore)
    × ((pam_sm_authenticate (λ s. s * 256) items [] (exit_status one)).0 ≢ pam_auth_err)
pam_sm_authenticate-wait_example =
    pam_sm_authenticate-wait (λ s. s * 256) items [] one (λ status h. refl)
