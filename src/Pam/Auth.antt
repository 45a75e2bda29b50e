-- ===== src/Pam/Auth.antt =====
-- pam-pcbiounlock/pcbu-auth/src/main.cpp in the Linux build: what pcbu_auth exits with.
use pcbu_natives_old.Prelude.{
  ℕ, ◌≡◌, refl, ap, ◌∙◌, ◌⊎◌, inl, inr, Bool, true, false, not, ◌&&◌, Option, none, some, List, [],
  ◌∷◌, arith, if◌then◌else◌, Bool-cases, Option-cases,
}
use pcbu_natives_old.Prelude.Texts.{Bytes, codes, bytes_eq, bytes_eq-eq}
use pcbu_natives_old.UnlockState.{UnlockState}
use pcbu_natives_old.Handler.Result.{UnlockResult}

-- The system's password database: pw_passwd of getpwnam, sp_pwdp of getspnam, and crypt.
pub record Accounts : Type 0 where
  pub passwd_of : Bytes → Option Bytes
  pub shadow_of : Bytes → Option Bytes
  pub crypt : Bytes → Bytes → Bytes

check_hash : Accounts → Bytes → Bytes → Bool
check_hash a password hash = bytes_eq hash (a.crypt password hash)

unfoldable pub check_password : Accounts → Bytes → Bytes → Bool
unfolding check_hash
check_password a user password = elim (a.passwd_of user) [
  | none ↦ false
  | some hash ↦
      if not (bytes_eq hash (codes "x"))
      then check_hash a password hash
      else elim (a.shadow_of user) [ none ↦ false | some shadow ↦ check_hash a password shadow ]
]

-- What `main` returns.
pub data MainResult : Type 0 where
  zero_ one minus_one : MainResult

-- The branches on the result of GetResult.
unfoldable pub judge : Accounts → Bytes → UnlockResult → MainResult
judge a user result = elim result.state [
  | UnlockState.success ↦
      if bytes_eq user result.device.user_name && check_password a user result.password
      then zero_
      else one
  | UnlockState.canceled ↦ one
  | UnlockState.timeout ↦ minus_one
  | UnlockState.connect_error ↦ minus_one
  | _ ↦ one
]

-- `set_root` is whether setuid(0) succeeds, `args` the arguments behind the program's name, and
-- `get_result` what UnlockHandler::GetResult returns for the user and the program.
unfoldable pub main_result :
    Accounts → Bool → List Bytes → (Bytes → Bytes → UnlockResult) → MainResult
main_result a false args get_result = minus_one
main_result a true (user ∷ service ∷ []) get_result = judge a user (get_result user service)
main_result a true _ get_result = minus_one

-- The exit status of the process: the low eight bits of the result.
unfoldable pub exit_status : MainResult → ℕ
exit_status zero_ = 0
exit_status one = 1
exit_status minus_one = 255

-- The hash that decides is the one in passwd, or the shadow one where passwd has "x", and it is the
-- hash of the password under itself.
abbrev pub HasPassword : Accounts → Bytes → Bytes → Type 0
HasPassword a user password =
    ((hash : Bytes) × (a.passwd_of user ≡ some hash)
      × (bytes_eq hash (codes "x") ≡ false)
      × (hash ≡ a.crypt password hash))
    ⊎ ((shadow : Bytes) × (a.passwd_of user ≡ some (codes "x"))
        × (a.shadow_of user ≡ some shadow)
        × (shadow ≡ a.crypt password shadow))

check_password-HasPassword :
    (a : Accounts) (user password : Bytes)
    → check_password a user password ≡ true
    → HasPassword a user password
unfolding check_password check_hash
check_password-HasPassword a user password e = elim (Option-cases (a.passwd_of user)) [
  | inl n ↦ absurd (cc (rw (n, check_password) at e))
  | inr (hash, f) ↦ elim (Bool-cases (bytes_eq hash (codes "x"))) [
    | inr x ↦ inl (hash, f, x, bytes_eq-eq _ _ (rw (f, x, check_password) at e))
    | inl x ↦ elim (Option-cases (a.shadow_of user)) [
      | inl n ↦ absurd (cc (rw (f, x, n, check_password) at e))
      | inr (shadow, g) ↦ inr (
        shadow,
        f ∙ ap some (bytes_eq-eq _ _ x),
        g,
        bytes_eq-eq _ _ (rw (f, x, g, check_password) at e),
      )
    ]
  ]
]

judge-zero :
    (a : Accounts) (user : Bytes) (result : UnlockResult)
    → judge a user result ≡ zero_
    → (result.state ≡ UnlockState.success)
      × (bytes_eq user result.device.user_name ≡ true)
      × (check_password a user result.password ≡ true)
unfolding judge
judge-zero a user result e = ground arith

exit_status-zero : (r : MainResult) → exit_status r ≡ 0 → r ≡ zero_
unfolding exit_status
exit_status-zero r e = ground arith

-- pcbu_auth exits with 0 only as root, with a user and a service as its arguments, when GetResult is a
-- SUCCESS of a device of that very user, whose answer has the user's own password.
pub main_result-zero :
    (a : Accounts) (set_root : Bool) (args : List Bytes) (get_result : Bytes → Bytes → UnlockResult)
    → exit_status (main_result a set_root args get_result) ≡ 0
    → (set_root ≡ true)
      × (user : Bytes) × (service : Bytes) × (args ≡ user ∷ service ∷ [])
      × ((get_result user service).state ≡ UnlockState.success)
      × (user ≡ (get_result user service).device.user_name)
      × HasPassword a user (get_result user service).password
unfolding main_result exit_status
main_result-zero a false args get_result e = absurd (ground arith)
main_result-zero a true [] get_result e = absurd (ground arith)
main_result-zero a true (x ∷ []) get_result e = absurd (ground arith)
main_result-zero a true (x ∷ y ∷ z ∷ args) get_result e = absurd (ground arith)
main_result-zero a true (user ∷ service ∷ []) get_result e =
    let (s, n, c) = judge-zero a user (get_result user service) (exit_status-zero _ e) in
    (refl, user, service, refl, s, bytes_eq-eq _ _ n, check_password-HasPassword a user _ c)
