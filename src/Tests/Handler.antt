-- ===== src/Tests/Handler.antt =====
-- The handler's loop, threads and servers at concrete inputs.
use pcbu_natives_old.Prelude.{
  ℕ, length, ◌≡◌, ◌≢◌, refl, ◌⊎◌, inl, inr, Bool, true, false, Option, none, some, List, [], ◌∷◌,
  arith, All,
}
use Prim.Native.String.{String}
use pcbu_natives_old.UnlockState.{UnlockState, text_key}
use pcbu_natives_old.Crypt.Memory.{overflow, done}
use pcbu_natives_old.Connection.Server.{UnlockServer, get_device, get_response_data}
use pcbu_natives_old.Handler.Result.{UnlockResult, of_state}
use pcbu_natives_old.Handler.RunServer.{
  Round, look, tells, then_rest, wait_loop, finish, run_server,
}
use pcbu_natives_old.Handler.Outcome.{Succeeds, run_server-Succeeds, run_server_returns}
use pcbu_natives_old.Handler.Threads.{
  Phase, Threads, Reach, IsOutcome, returns, counts, thread, loads, next, here, fresh,
  start_threads, count, loaded-IsOutcome,
}
use pcbu_natives_old.Handler.Progress.{HasCounted, loaded-HasCounted}
use pcbu_natives_old.Handler.Waiting.{
  Main, System, Run, has_mutex, notified, moves, locks, passes, loads_result, joins, notifies_one,
  IsOver,
}
use pcbu_natives_old.Handler.Deadlock.{Deadlock, IsStuck}
use pcbu_natives_old.Handler.Returning.{finished-IsOutcome}
use pcbu_natives_old.Handler.Stuck.{Run-IsStuck}
use pcbu_natives_old.Handler.Loads.{success_shared, notifying-Run}
use pcbu_natives_old.Handler.Interleaving.{loaded-default, loaded-failure}
use pcbu_natives_old.Handler.KeyScanner.{
  KeyScanner, scan_thread, start_scanner, new_scanner, get_key_state, scan_thread-new_scanner,
}
use pcbu_natives_old.Tests.Samples.{sample_device}

abbrev server : UnlockServer
server = record {
  is_running = true;
  has_connection = true;
  unlock_state = UnlockState.success;
  paired_device = sample_device;
  response_data = record { unlock_token = 1 ∷ []; password = 8 ∷ [] };
  auth_user = 3 ∷ [];
  auth_program = 2 ∷ [];
  unlock_token = 1 ∷ [];
}

-- A round that sees nothing, with the client and at a time.
abbrev quiet : Bool → ℕ → Round
quiet client time = record {
  other_success = false;
  stopped = false;
  had_client = client;
  polled = UnlockState.unknown;
  has_client = client;
  now = time;
  left_ctrl = false;
  left_alt = false;
}

abbrev good : Round
good = record (quiet true 200) { polled = UnlockState.success }

abbrev rounds : List Round
rounds = quiet false 50 ∷ quiet true 100 ∷ good ∷ []

abbrev unlocked : UnlockResult
unlocked = record { state = UnlockState.success; device = sample_device; password = 8 ∷ [] }

run_server-Succeeds_example :
    Succeeds 0 30000 rounds
    × (unlocked.device ≡ get_device server)
    × (unlocked.password ≡ (get_response_data server).password)
unfolding run_server finish get_device get_response_data wait_loop then_rest look tells text_key
run_server-Succeeds_example =
    run_server-Succeeds 0 30000 rounds server unlocked
      ("wait_phone_connect" ∷ "wait_phone_unlock" ∷ "unlock_success" ∷ []) refl refl

run_server_returns_example :
    (result : UnlockResult) × (messages : List String) × (run_server true 0 30000
        (quiet false 50 ∷ quiet false 30001 ∷ good ∷ [])
        server
      ≡ some (result, messages))
    × (run_server true 0 30000 (quiet false 50 ∷ quiet false 30001 ∷ []) server
        ≡ some (result, messages))
    × (result.state ≢ UnlockState.unknown)
run_server_returns_example =
    run_server_returns 0 30000 (quiet false 50 ∷ []) (quiet false 30001) (good ∷ []) server refl
      (omega arith)

-- The only result that a server returns here.
abbrev Returns : UnlockResult → Type 0
Returns r = r ≡ unlocked

abbrev loaded_early : Threads
loaded_early = record {
  shared = record fresh { completed = 1 };
  phases = Phase.counted unlocked ∷ [];
  loaded = some (of_state UnlockState.unknown);
}

early : Reach Returns 1 (start_threads 1) loaded_early
early =
    next
      (next
        (next here (
          thread [] [] fresh fresh Phase.running (Phase.returned unlocked) none
            (returns fresh unlocked refl)))
        (thread [] [] fresh _ (Phase.returned unlocked) (Phase.counted unlocked) none
          (counts fresh unlocked)))
      (loads (record fresh { completed = 1 }) (Phase.counted unlocked ∷ []) refl)

loaded-IsOutcome_example :
    IsOutcome Returns (of_state UnlockState.unknown)
    × (loaded_early.shared.completed ≡ count Returns loaded_early.phases)
loaded-IsOutcome_example =
    loaded-IsOutcome Returns 1 loaded_early (of_state UnlockState.unknown) early refl

loaded-default_example :
    (t : Threads) × Reach Returns 1 (start_threads 1) t
    × (t.loaded ≡ some (of_state UnlockState.unknown))
loaded-default_example = loaded-default Returns unlocked refl

-- Here a server may also time out.
abbrev MayFail : UnlockResult → Type 0
MayFail r = (r ≡ unlocked) ⊎ (r ≡ of_state UnlockState.timeout)

loaded-failure_example :
    (t : Threads) × Reach MayFail 2 (start_threads 2) t
    × (t.shared.current ≡ of_state UnlockState.timeout)
    × (t.phases ≡ Phase.over ∷ Phase.over ∷ [])
loaded-failure_example =
    loaded-failure MayFail unlocked (of_state UnlockState.timeout) (inl refl) (inr refl) refl refl

abbrev key_events : List (List (Option (ℕ × ℕ)))
key_events = (none ∷ []) ∷ (some (29, 1) ∷ []) ∷ []

scan_thread-new_scanner_example :
    (false ≡ false → scan_thread (some 5 ∷ []) key_events (start_scanner new_scanner) ≡ overflow)
    × (false ≡ true
        → (k : KeyScanner) × (fds : List ℕ) × (scan_thread
              (some 5 ∷ [])
              key_events
              (start_scanner new_scanner)
            ≡ done (k, fds))
          × ((key : ℕ) → get_key_state k key ≡ false))
scan_thread-new_scanner_example = scan_thread-new_scanner 5 [] key_events

loaded-HasCounted_example :
    (length loaded_early.phases ≡ 1) × HasCounted Returns loaded_early.phases
loaded-HasCounted_example =
    loaded-HasCounted Returns 1 loaded_early (of_state UnlockState.unknown) early refl

abbrev waiting : System
waiting = record {
  shared = success_shared unlocked;
  phases = Phase.notifying ∷ [];
  main = Main.starting;
}

-- The thread has stored the only server's success, and is about to notify the main thread.
waiting-Run : Run Returns 1 waiting
waiting-Run = notifying-Run Returns unlocked refl refl

Run-IsStuck_example : (s : System) × Run Returns 1 s × Deadlock s × IsStuck Returns 1 s
Run-IsStuck_example = Run-IsStuck Returns unlocked refl

abbrev ended : System
ended = record {
  shared = success_shared unlocked;
  phases = Phase.over ∷ [];
  main = Main.finished unlocked;
}

-- The thread notifies first, and the main thread then finds all counted.
ended-Run : Run Returns 1 ended
unfolding has_mutex notified
ended-Run =
    let s = success_shared unlocked in
    let ps = Phase.over ∷ [] in
    let told = moves waiting-Run (notifies_one [] [] s Main.starting refl) in
    let loaded = moves (moves (moves told (locks s ps)) (passes s ps refl)) (loads_result s ps) in
    moves loaded (joins s ps unlocked (refl, tt))

finished-IsOutcome_example :
    IsOutcome Returns unlocked
    × (length ended.phases ≡ 1)
    × All IsOver ended.phases
    × (ended.shared.completed ≡ 1)
finished-IsOutcome_example = finished-IsOutcome Returns 1 ended unlocked ended-Run refl
