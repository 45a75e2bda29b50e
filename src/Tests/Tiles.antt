-- ===== src/Tests/Tiles.antt =====
-- The tiles, the provider and the listener of the Windows credential provider at concrete inputs.
use pcbu_natives_old.Prelude.{
  ◌+◌, ◌≤◌, ◌≡◌, refl, ◌⊎◌, true, false, none, some, List, [], ◌∷◌, ◌++◌, length,
}
use pcbu_natives_old.Prelude.Texts.{codes}
use pcbu_natives_old.Storage.AppStorage.{default_settings}
use pcbu_natives_old.Handler.Result.{UnlockResult, of_state}
use pcbu_natives_old.UnlockState.{UnlockState}
use pcbu_natives_old.Win.Results.{ok, s_ok}
use pcbu_natives_old.Win.Kerb.{UsageScenario}
use pcbu_natives_old.Win.Credential.State.{
  Credential, new_credential, field_descriptors, field_state_pairs,
}
use pcbu_natives_old.Win.Credential.Operations.{TileCalls, User, initialize, set_selected}
use pcbu_natives_old.Win.Credential.Serialization.{password_source}
use pcbu_natives_old.Win.Credential.Follows.{Copies}
use pcbu_natives_old.Win.Credential.Session.{
  Call, type_text, unlocked, selected, deselected, run_calls, next, run_session,
}
use pcbu_natives_old.Win.Credential.Start.{initialize-Session}
use pcbu_natives_old.Win.Provider.{Provider, new_provider, release_credential}
use pcbu_natives_old.Win.Provider.Count.{
  count_of, succeeds, NoSuccess, count_of-LastSuccess, get_credential_count,
}
use pcbu_natives_old.Win.Provider.Enumeration.{
  KnownUser, tiles_of, prepared, get_credential_count-tiles,
}
use pcbu_natives_old.Win.Listener.{Surroundings}
use pcbu_natives_old.Win.Listener.Lifecycle.{
  Event, started, stopped, thread_ended, Listener, history, new_listener, goes_on, stops, one_if,
  history_safe,
}
use pcbu_natives_old.Tests.Samples.{sample_device, sample_json}

abbrev tile_calls : TileCalls
tile_calls = record {
  dup = λ what text. (s_ok, text);
  to_wide = λ text. text;
  translate = λ key. [];
}

copies : Copies tile_calls
copies = λ what text. refl

abbrev ann : User
ann = record {
  is_local = true;
  qualified_name = ok (codes "PC\\ann");
  sid = ok (codes "S-1");
  listener = true;
}

abbrev phone_result : UnlockResult
phone_result = record (of_state UnlockState.success) { password = codes "pw" }

-- Typed, left, and unlocked by a phone.
abbrev some_calls : List Call
some_calls = selected ∷ type_text 2 (codes "x") ∷ deselected ∷ selected ∷ unlocked phone_result ∷ []

initialize-Session_example :
    (c : Credential) × (initialize tile_calls UsageScenario.logon
        (field_descriptors (codes "Password"))
        field_state_pairs
        ann
        new_credential
      ≡ (s_ok, c))
    × (c.qualified_user_name ≡ some (codes "PC\\ann"))
    × (password_source (λ text. text) (run_calls tile_calls some_calls c) ≡ some (codes "pw"))
    × ((set_selected (run_calls tile_calls some_calls c)).0 ≡ true)
unfolding run_session next
initialize-Session_example =
    initialize-Session tile_calls copies (codes "Password") UsageScenario.logon ann
      (codes "PC\\ann") (codes "S-1") some_calls refl refl refl

abbrev tiles : List Credential
tiles = record new_credential { unlock_result = phone_result } ∷ new_credential ∷ []

count_of-LastSuccess_example :
    ((count_of tiles).count ≡ 2)
    × (((NoSuccess tiles)
          × ((count_of tiles).auto_logon ≡ false)
          × ((count_of tiles).default ≡ none))
        ⊎ ((front : List Credential) × (c : Credential) × (back : List Credential) × (tiles
              ≡ front ++ c ∷ back)
            × (succeeds c ≡ true)
            × NoSuccess back
            × ((count_of tiles).auto_logon ≡ true)
            × ((count_of tiles).default ≡ some (length front))))
count_of-LastSuccess_example = count_of-LastSuccess tiles

abbrev known : KnownUser
known = record { is_local = true; name = 3 ∷ []; sid = codes "S-1" }

-- A provider with a tile of an earlier logon, which has counted its tiles.
abbrev provider : Provider
provider = record new_provider {
  cpus = UsageScenario.logon;
  recreate = false;
  credentials = new_credential ∷ [];
}

abbrev sample_tiles : List Credential
sample_tiles =
    tiles_of sample_json [] (λ text. text) [] tile_calls copies UsageScenario.credui (known ∷ [])

get_credential_count-tiles_example :
    let (counted, after, effects) =
      get_credential_count sample_json []
        (λ text. text)
        []
        (λ i k. some tile_calls)
        (prepared sample_json []
          (λ text. text)
          []
          tile_calls
          copies
          UsageScenario.credui
          1
          (known ∷ [])
          provider) in
    (after.credentials ≡ sample_tiles)
    × (after.recreate ≡ false)
    × (effects ≡ release_credential new_credential ∷ [])
    × (counted.count ≡ length sample_tiles)
    × (counted.auto_logon ≡ false)
    × (counted.default ≡ none)
get_credential_count-tiles_example =
    get_credential_count-tiles sample_json [] (λ text. text) [] tile_calls copies provider
      UsageScenario.credui 1 (known ∷ []) refl

-- The thread ends by itself, and Start is called again.
abbrev events : List Event
events = started ∷ thread_ended ∷ started ∷ stopped ∷ started ∷ []

history_safe_example :
    (l : Listener) × (history events new_listener ≡ goes_on l)
    × (l.joinable ≡ l.is_running)
    × (l.is_running ≡ false → l.in_thread ≡ false)
    × (l.started ≤ stops events + one_if l.is_running)
history_safe_example = history_safe events

abbrev surroundings : Surroundings
surroundings = record {
  usage = UsageScenario.logon;
  user_domain = codes "PC\\ann";
  settings = record default_settings { wait_for_key_press = true };
  devices = sample_device ∷ [];
  network =
      record {
        running = false;
        alive = false;
        last_error = 0;
        control_down = false;
        menu_down = false;
      }
      ∷ [];
  keys_down = λ key. false;
  keys = record { running = false; down = λ key. false } ∷ [];
  result = phone_result;
}
