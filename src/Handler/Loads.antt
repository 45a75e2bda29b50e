-- ===== src/Handler/Loads.antt =====
-- UnlockHandler::GetResult of one server that succeeds, where the main thread loads the result after
-- the server's thread has stored it.
use Prim.Native.String.{String}
use pcbu_natives_old.Prelude.{ℕ, ◌≡◌, refl, ap, sym, ◌∙◌, true, Option, none, some, List, [], ◌∷◌}
use pcbu_natives_old.UnlockState.{UnlockState, is_success}
use pcbu_natives_old.Connection.Server.{UnlockServer, get_device, get_response_data}
use pcbu_natives_old.Handler.Result.{UnlockResult, of_state}
use pcbu_natives_old.Handler.RunServer.{Round, run_server}
use pcbu_natives_old.Handler.Outcome.{Succeeds, run_server_success}
use pcbu_natives_old.Handler.Threads.{Phase, Shared, fresh, returns, counts, stores, closes, finds}
use pcbu_natives_old.Handler.Waiting.{
  Main, System, has_mutex, Move, works, notifies_one, locks, sleeps, relocks, passes, loads_result,
  joins, Run, begin, moves, forget,
}
use pcbu_natives_old.Handler.Stuck.{one_move}
use pcbu_natives_old.Handler.Returning.{Run-Reach}
use pcbu_natives_old.Handler.Stored.{has_stored, current-success}

-- RunServer of a server that started returns the result.
abbrev pub ServerReturns : ℕ → ℕ → List Round → UnlockServer → UnlockResult → Type 0
ServerReturns start_time timeout_ms rounds server r =
    (messages : List String) × (run_server true start_time timeout_ms rounds server
      ≡ some (r, messages))

-- The result of a success.
abbrev pub success_of : UnlockServer → UnlockResult
success_of server = record {
  state = UnlockState.success;
  device = get_device server;
  password = (get_response_data server).password;
}

some_first : {x y : UnlockResult × List String} → some x ≡ some y → x.0 ≡ y.0
some_first e = ap first e
  where
    first : Option (UnlockResult × List String) → UnlockResult
    first none = of_state UnlockState.unknown
    first (some x) = x.0

-- The result of the load of the main thread.
joining_result : Main → UnlockResult
joining_result (Main.joining r) = r
joining_result _ = of_state UnlockState.unknown

Move-load :
    (Returns : UnlockResult → Type 0) (n : ℕ) (r : UnlockResult) {s t : System}
    → Move Returns n s t
    → s.main ≡ Main.past
    → t.main ≡ Main.joining r
    → s.shared.current ≡ r
unfolding joining_result has_mutex
Move-load Returns n r (works front back s t p q m ne st) e f = absurd cc
Move-load Returns n r (notifies_one front back s m free) e f =
    let held : has_mutex m ≡ true = ap has_mutex e in absurd cc
Move-load Returns n r (locks s ps) e f = absurd cc
Move-load Returns n r (sleeps s ps x) e f = absurd cc
Move-load Returns n r (relocks s ps) e f = absurd cc
Move-load Returns n r (passes s ps x) e f = absurd cc
Move-load Returns n r (loads_result s ps) e f = ap joining_result f
Move-load Returns n r (joins s ps x all) e f = absurd cc

-- A run of GetResult with one server, up to the load of the main thread from a state in which the
-- thread has stored its success; `r` is the result that it loads and then returns.
pub record LoadsStored (Returns : UnlockResult → Type 0) (r : UnlockResult) : Type 0 where
  pub before : System
  pub after : System
  pub run : Run Returns 1 before
  pub past_wait : before.main ≡ Main.past
  pub phase : Phase
  pub one : before.phases ≡ phase ∷ []
  pub stored : has_stored phase ≡ true
  pub move : Move Returns 1 before after
  pub loaded : after.main ≡ Main.joining r

pub loaded-success :
    (start_time timeout_ms : ℕ) (rounds : List Round) (server : UnlockServer) (r : UnlockResult)
    → Succeeds start_time timeout_ms rounds
    → LoadsStored (ServerReturns start_time timeout_ms rounds server) r
    → r ≡ success_of server
loaded-success start_time timeout_ms rounds server r polled l =
    let Returns = ServerReturns start_time timeout_ms rounds server in
    let (messages, ran) = run_server_success start_time timeout_ms rounds server polled in
    let only : (x : UnlockResult) → Returns x → x ≡ success_of server =
      λ x returned. some_first (sym returned.1 ∙ ran) in
    sym (Move-load Returns 1 r l.move l.past_wait l.loaded)
    ∙ current-success Returns (success_of server) only refl 1 (forget l.before) l.phase []
        (Run-Reach Returns 1 l.run) l.one l.stored

-- currentResult and completed once the only thread has stored its success.
abbrev pub success_shared : UnlockResult → Shared
success_shared r = record { current = r; completed = 1 }

-- The thread of the only server, from its start to the notification, before the main thread waits.
pub notifying-Run :
    (Returns : UnlockResult → Type 0) (r : UnlockResult)
    → Returns r
    → is_success r.state ≡ true
    → Run Returns 1
        (record { shared = success_shared r; phases = Phase.notifying ∷ []; main = Main.starting })
notifying-Run Returns r h good =
    let one = record fresh { completed = 1 } in
    let stored = success_shared r in
    let step = one_move Returns in
    let a = step fresh fresh _ (Phase.returned r) _ begin (λ e. cc) (returns fresh r h) in
    let b = step fresh one _ (Phase.counted r) _ a (λ e. cc) (counts fresh r) in
    let c = step one stored _ (Phase.checking r) _ b (λ e. cc) (stores one r good) in
    let d = step stored stored _ (Phase.closing r) _ c (λ e. cc) (closes stored r refl) in
    step stored stored _ _ _ d (λ x. cc) (finds stored r good)

-- There is such a run for every success that RunServer returns.
pub loads_stored_lem :
    (Returns : UnlockResult → Type 0) (r : UnlockResult)
    → Returns r
    → is_success r.state ≡ true
    → LoadsStored Returns r
unfolding has_stored
loads_stored_lem Returns r h good =
    let stored = success_shared r in
    let waits = Phase.notifying ∷ [] in
    record {
      before = record { shared = stored; phases = waits; main = Main.past };
      after = record { shared = stored; phases = waits; main = Main.joining r };
      run =
          moves (moves (notifying-Run Returns r h good) (locks stored waits))
            (passes stored waits refl);
      past_wait = refl;
      phase = Phase.notifying;
      one = refl;
      stored = refl;
      move = loads_result stored waits;
      loaded = refl;
    }
