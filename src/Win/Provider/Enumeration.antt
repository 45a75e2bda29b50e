-- ===== src/Win/Provider/Enumeration.antt =====
-- _EnumerateCredentials and GetCredentialCount of win-pcbiounlock/src/CSampleProvider.cpp where
-- Windows gives what it is asked for: the tiles that LogonUI then finds.
use pcbu_natives_old.Prelude.{
  ℕ, suc, ◌≡◌, refl, ap, sym, ◌∙◌, Bool, true, false, Option, none, some, List, [], ◌∷◌, ◌++◌,
  append_assoc, append-nil, map, length,
}
use pcbu_natives_old.Prelude.Texts.{Bytes}
use pcbu_natives_old.Storage.Json.{Json}
use pcbu_natives_old.Storage.PairedDevice.{PairedDevice, get_devices_for_user}
use pcbu_natives_old.Win.Results.{Wide, s_ok, ok}
use pcbu_natives_old.Win.Kerb.{UsageScenario}
use pcbu_natives_old.Win.Credential.State.{Credential}
use pcbu_natives_old.Win.Credential.Operations.{TileCalls, User}
use pcbu_natives_old.Win.Credential.Follows.{Copies}
use pcbu_natives_old.Win.Credential.Start.{known_tile, initialize-known_tile}
use pcbu_natives_old.Win.Provider.{
  Provider, release_credential, enumerate_devices, enumerate_users, enumerate_credentials,
  create_enumerated_credentials, makes_tiles, set_usage_scenario, set_user_array,
}
use pcbu_natives_old.Win.Provider.Count.{
  get_credential_count, NoSuccess, count_of_quiet, release_enumerated_credentials,
  recreate_credentials,
}

-- A user of whom Windows gives all that is asked.
pub record KnownUser : Type 0 where
  pub is_local : Bool
  pub name : Wide
  pub sid : Wide

abbrev pub user_of : KnownUser → User
user_of u = record {
  is_local = u.is_local;
  qualified_name = ok u.name;
  sid = ok u.sid;
  listener = true;
}

module _ (j : Json) (file : Bytes) (to_narrow : Wide → Bytes) (pwd : Wide) (calls : TileCalls)
    (copies : Copies calls) where
  abbrev devices_of : KnownUser → List PairedDevice
  devices_of u = get_devices_for_user j file (to_narrow u.name)

  abbrev tile_of : UsageScenario → KnownUser → Credential
  tile_of cpus u = known_tile calls copies pwd cpus u.is_local u.name u.sid

  -- One tile for each device paired for a user.
  abbrev pub tiles_of : UsageScenario → List KnownUser → List Credential
  tiles_of cpus [] = []
  tiles_of cpus (u ∷ us) = map (λ device. tile_of cpus u) (devices_of u) ++ tiles_of cpus us

  abbrev tile : ℕ → ℕ → Option TileCalls
  tile i k = some calls

  enumerate_devices-map :
      (cpus : UsageScenario) (i k : ℕ) (devices : List PairedDevice) (u : KnownUser)
      (made : List Credential)
      → enumerate_devices j file to_narrow pwd tile cpus i k devices (user_of u) (s_ok, made)
        ≡ (s_ok, made ++ map (λ device. tile_of cpus u) devices)
  unfolding enumerate_devices
  enumerate_devices-map cpus i k [] u made = ap (λ cs. (s_ok, cs)) (sym (append-nil made))
  enumerate_devices-map cpus i k (device ∷ devices) u made =
      let c = tile_of cpus u in
      let one =
        initialize-known_tile calls copies pwd cpus (user_of u) u.name u.sid refl refl refl in
      rw (one, enumerate_devices)
        (enumerate_devices-map cpus i (suc k) devices u (made ++ c ∷ [])
          ∙ ap (λ cs. (s_ok, cs)) (append_assoc made (c ∷ []) (map (λ d. c) devices)))

  enumerate_users-tiles :
      (cpus : UsageScenario) (i : ℕ) (us : List KnownUser) (made : List Credential)
      → enumerate_users j file to_narrow pwd tile cpus i (map (λ u. ok (user_of u)) us) (s_ok, made)
        ≡ (s_ok, made ++ tiles_of cpus us)
  unfolding enumerate_users
  enumerate_users-tiles cpus i [] made = ap (λ cs. (s_ok, cs)) (sym (append-nil made))
  enumerate_users-tiles cpus i (u ∷ us) made =
      let own = map (λ device. tile_of cpus u) (devices_of u) in
      rw (enumerate_devices-map cpus i 0 (devices_of u) u made, enumerate_users)
        (enumerate_users-tiles cpus (suc i) us (made ++ own)
          ∙ ap (λ cs. (s_ok, cs)) (append_assoc made own (tiles_of cpus us)))

  created :
      (p : Provider) (number : ℕ) (us : List KnownUser)
      → p.credentials ≡ []
      → makes_tiles p.cpus ≡ true
      → p.user_array ≡ some (number, map (λ u. ok (user_of u)) us)
      → create_enumerated_credentials j file to_narrow pwd tile p
        ≡ record p { credentials = tiles_of p.cpus us }
  unfolding create_enumerated_credentials enumerate_credentials
  created p number [] none_yet makes given =
      rw (makes, given)
        (ap (λ cs. record p { credentials = cs; user_array = some (number, []) }) none_yet)
  created p number (u ∷ us) none_yet makes given =
      let made = enumerate_users-tiles p.cpus 0 (u ∷ us) [] in
      rw (makes, given, none_yet, made) refl

  NoSuccess-map :
      (cpus : UsageScenario) (u : KnownUser) (devices : List PairedDevice) (cs : List Credential)
      → NoSuccess cs
      → NoSuccess (map (λ device. tile_of cpus u) devices ++ cs)
  NoSuccess-map cpus u [] cs h = h
  NoSuccess-map cpus u (d ∷ ds) cs h = (refl, NoSuccess-map cpus u ds cs h)

  tiles_of-NoSuccess : (cpus : UsageScenario) (us : List KnownUser) → NoSuccess (tiles_of cpus us)
  tiles_of-NoSuccess cpus [] = tt
  tiles_of-NoSuccess cpus (u ∷ us) =
      NoSuccess-map cpus u (devices_of u) (tiles_of cpus us) (tiles_of-NoSuccess cpus us)

  recreated :
      (p : Provider) (number : ℕ) (us : List KnownUser)
      → makes_tiles p.cpus ≡ true
      → p.user_array ≡ some (number, map (λ u. ok (user_of u)) us)
      → recreate_credentials j file to_narrow pwd tile p ≡ (
        record p { recreate = false; credentials = tiles_of p.cpus us },
        map release_credential p.credentials,
      )
  unfolding recreate_credentials release_enumerated_credentials
  recreated p number us makes given =
      ap (λ q. (q, map release_credential p.credentials))
        (created (record p { recreate = false; credentials = [] }) number us refl makes given)

  counted_anew :
      (p : Provider) (number : ℕ) (us : List KnownUser)
      → p.recreate ≡ true
      → makes_tiles p.cpus ≡ true
      → p.user_array ≡ some (number, map (λ u. ok (user_of u)) us)
      → get_credential_count j file to_narrow pwd tile p ≡ (
        record { count = length (tiles_of p.cpus us); default = none; auto_logon = false },
        record p { recreate = false; credentials = tiles_of p.cpus us },
        map release_credential p.credentials,
      )
  unfolding get_credential_count
  counted_anew p number us again makes given =
      let counted = count_of_quiet (tiles_of p.cpus us) (tiles_of-NoSuccess p.cpus us) in
      rw (recreated p number us makes given, again, counted, get_credential_count) refl

  scenario_set :
      (cpus : UsageScenario) (p : Provider)
      → makes_tiles cpus ≡ true
      → let q = (set_usage_scenario cpus p).1 in
        (q.recreate ≡ true) × (q.cpus ≡ cpus) × (q.credentials ≡ p.credentials)
  unfolding set_usage_scenario
  scenario_set UsageScenario.logon p makes = (refl, refl, refl)
  scenario_set UsageScenario.unlock_workstation p makes = (refl, refl, refl)
  scenario_set UsageScenario.credui p makes = (refl, refl, refl)
  scenario_set UsageScenario.change_password p makes = absurd cc
  scenario_set UsageScenario.invalid p makes = absurd cc
  scenario_set UsageScenario.plap p makes = absurd cc

  -- LogonUI's calls before it counts the tiles: SetUsageScenario, then SetUserArray.
  abbrev pub prepared : UsageScenario → ℕ → List KnownUser → Provider → Provider
  prepared cpus number us p =
      (set_user_array number (map (λ u. ok (user_of u)) us) (set_usage_scenario cpus p).1).0

  -- After SetUsageScenario for a logon, an unlock or a CredUI prompt, and SetUserArray with users of
  -- whom Windows gives the names and SIDs, GetCredentialCount finds exactly one tile for each device
  -- paired for a user, in the order of the users, whatever the provider held before; the tiles it
  -- held are given up, and none of the new ones logs on by itself. The conditions are that there is
  -- memory for the tiles and that texts can be copied.
  pub get_credential_count-tiles :
      (p : Provider) (cpus : UsageScenario) (number : ℕ) (us : List KnownUser)
      → makes_tiles cpus ≡ true
      → let (counted, after, effects) =
          get_credential_count j file to_narrow pwd tile (prepared cpus number us p) in
        (after.credentials ≡ tiles_of cpus us)
        × (after.recreate ≡ false)
        × (effects ≡ map release_credential p.credentials)
        × (counted.count ≡ length (tiles_of cpus us))
        × (counted.auto_logon ≡ false)
        × (counted.default ≡ none)
  unfolding set_user_array
  get_credential_count-tiles p cpus number us makes =
      let (again, scenario, held) = scenario_set cpus p makes in
      let counted =
        counted_anew (prepared cpus number us p) number us again (ap makes_tiles scenario ∙ makes)
          refl in
      rw counted (
        ap (λ c. tiles_of c us) scenario,
        refl,
        ap (map release_credential) held,
        ap (λ c. length (tiles_of c us)) scenario,
        refl,
        refl,
      )
