-- ===== src/Win/Provider/Count.antt =====
-- GetCredentialCount, GetCredentialAt, _ReleaseEnumeratedCredentials, UpdateCredsStatus and the
-- destructor of win-pcbiounlock/src/CSampleProvider.cpp, and the tile that LogonUI is told of.
use pcbu_natives_old.Prelude.{
  ℕ, suc, ◌+◌, ◌≡◌, refl, ap, sym, ◌⊎◌, inl, inr, Bool, true, false, Bool-cases, Option, none, some,
  List, [], ◌∷◌, ◌++◌, map, arith, if◌then◌else◌, length, get_elem?,
}
use pcbu_natives_old.Prelude.Texts.{Bytes}
use pcbu_natives_old.Storage.Json.{Json}
use pcbu_natives_old.UnlockState.{is_success}
use pcbu_natives_old.Win.Results.{Wide, e_invalid_arg, Result, error}
use pcbu_natives_old.Win.Credential.State.{Credential}
use pcbu_natives_old.Win.Credential.Operations.{TileCalls}
use pcbu_natives_old.Win.Provider.{
  Provider, Effect, release, release_credential, credentials_changed, array_number,
  create_enumerated_credentials,
}

unfoldable pub release_enumerated_credentials : Provider → Provider × List Effect
release_enumerated_credentials p =
    (record p { credentials = [] }, map release_credential p.credentials)

-- The destructor: the tiles and the user array.
unfoldable pub destroy : Provider → List Effect
destroy p =
    map release_credential p.credentials
    ++ elim (array_number p) [ none ↦ [] | some number ↦ release number ∷ [] ]

abbrev pub succeeds : Credential → Bool
succeeds c = is_success c.unlock_result.state

-- The loop over the tiles from index `idx`: *pdwDefault, `none` while nothing has been stored, and
-- *pbAutoLogonWithDefault.
unfoldable pub count_loop : ℕ → List Credential → Option ℕ × Bool → Option ℕ × Bool
count_loop idx [] state = state
count_loop idx (c ∷ cs) state =
    count_loop (suc idx) cs (if succeeds c then (some idx, true) else state)

-- What GetCredentialCount stores.
pub record Counted : Type 0 where
  pub count : ℕ
  pub default : Option ℕ
  pub auto_logon : Bool

unfoldable pub count_of : List Credential → Counted
count_of cs =
    let (chosen, logs_on) = count_loop 0 cs (none, false) in
    record { count = length cs; default = chosen; auto_logon = logs_on }

module _ (j : Json) (file : Bytes) (to_narrow : Wide → Bytes) (pwd : Wide)
    (tile : ℕ → ℕ → Option TileCalls) where
  -- The branch for _fRecreateEnumeratedCredentials.
  unfoldable pub recreate_credentials : Provider → Provider × List Effect
  recreate_credentials p =
      let (released, effects) = release_enumerated_credentials (record p { recreate = false }) in
      (create_enumerated_credentials j file to_narrow pwd tile released, effects)

  unfoldable pub get_credential_count : Provider → Counted × Provider × List Effect
  get_credential_count p =
      let (after, effects) = if p.recreate then recreate_credentials p else (p, []) in
      (count_of after.credentials, after, effects)

-- `wanted` tells whether there is a place for the result, and `query` is QueryInterface of the tile.
unfoldable pub get_credential_at :
    (Credential → Result Credential) → ℕ → Bool → Provider → Result Credential
get_credential_at query index false p = error e_invalid_arg
get_credential_at query index true p = elim (get_elem? p.credentials index) [
  | none ↦ error e_invalid_arg
  | some c ↦ query c
]

unfoldable pub update_creds_status : Provider → List Effect
update_creds_status p = elim p.events [
  | none ↦ []
  | some callback ↦ credentials_changed callback p.advise_context ∷ []
]

-- No tile of a list has a phone's success, as the tile after index `i` of the list.
abbrev pub NoSuccess : List Credential → Type 0
NoSuccess [] = Unit
NoSuccess (c ∷ cs) = (succeeds c ≡ false) × NoSuccess cs

-- The last success of a list, cut out of it.
abbrev LastSuccess : List Credential → Type 0
LastSuccess cs =
    (front : List Credential) × (c : Credential) × (back : List Credential) × (cs
      ≡ front ++ c ∷ back)
    × (succeeds c ≡ true)
    × NoSuccess back

last_success : (cs : List Credential) → NoSuccess cs ⊎ LastSuccess cs
last_success [] = inl tt
last_success (c ∷ cs) = elim (last_success cs) [
  | inr (front, d, back, e, yes', quiet) ↦ inr (c ∷ front, d, back, ap (◌∷◌ c) e, yes', quiet)
  | inl quiet ↦ elim (Bool-cases (succeeds c)) [
    | inl hit ↦ inr ([], c, cs, refl, hit, quiet)
    | inr miss ↦ inl (miss, quiet)
  ]
]

count_loop_quiet :
    (idx : ℕ) (cs : List Credential) (state : Option ℕ × Bool)
    → NoSuccess cs
    → count_loop idx cs state ≡ state
unfolding count_loop
count_loop_quiet idx [] state h = refl
count_loop_quiet idx (c ∷ cs) state h = rw (h.0) (count_loop_quiet (suc idx) cs state h.1)

count_loop_last :
    (idx : ℕ) (front back : List Credential) (c : Credential) (state : Option ℕ × Bool)
    → succeeds c ≡ true
    → NoSuccess back
    → count_loop idx (front ++ c ∷ back) state ≡ (some (idx + length front), true)
unfolding count_loop
count_loop_last idx [] back c state hit quiet =
    let same : idx + 0 ≡ idx = omega arith in
    rw (same, hit, count_loop) (count_loop_quiet (suc idx) back (some idx, true) quiet)
count_loop_last idx (d ∷ front) back c state hit quiet =
    let same : idx + suc (length front) ≡ suc idx + length front = omega arith in
    rw same (count_loop_last (suc idx) front back c _ hit quiet)

pub count_of_quiet :
    (cs : List Credential)
    → NoSuccess cs
    → count_of cs ≡ record { count = length cs; default = none; auto_logon = false }
unfolding count_of
count_of_quiet cs quiet = rw (count_loop_quiet 0 cs (none, false) quiet) refl

-- GetCredentialCount counts the tiles. If no tile has a phone's success, LogonUI is told to log
-- nobody on and the default is not stored; otherwise it is told to log on, and the default is the
-- index of the last tile that has one.
pub count_of-LastSuccess :
    (cs : List Credential)
    → ((count_of cs).count ≡ length cs)
      × (((NoSuccess cs) × ((count_of cs).auto_logon ≡ false) × ((count_of cs).default ≡ none))
          ⊎ ((front : List Credential) × (c : Credential) × (back : List Credential) × (cs
                ≡ front ++ c ∷ back)
              × (succeeds c ≡ true)
              × NoSuccess back
              × ((count_of cs).auto_logon ≡ true)
              × ((count_of cs).default ≡ some (length front))))
unfolding count_of
count_of-LastSuccess cs = (
  refl,
  elim (last_success cs) [
    | inl quiet ↦ inl (
      quiet,
      ap (λ r. r.1) (count_loop_quiet 0 cs (none, false) quiet),
      ap (λ r. r.0) (count_loop_quiet 0 cs (none, false) quiet),
    )
    | inr (front, c, back, e, hit, quiet) ↦
        let found : count_loop 0 cs (none, false) ≡ (some (length front), true) =
          let zero_on : 0 + length front ≡ length front = omega arith in
          rw (e, sym zero_on) (count_loop_last 0 front back c (none, false) hit quiet) in
        inr (front, c, back, e, hit, quiet, ap (λ r. r.1) found, ap (λ r. r.0) found)
  ],
)
