-- ===== src/Handler/Outcome.antt =====
-- What UnlockHandler::RunServer returns.
use Prim.Native.String.{String}
use pcbu_natives_old.Prelude.{
  ℕ, ◌+◌, ◌<◌, ◌≡◌, ◌≢◌, refl, ap, sym, ◌∙◌, true, false, Option, none, some, List, [], ◌∷◌, ◌++◌,
  arith, All,
}
use pcbu_natives_old.UnlockState.{UnlockState}
use pcbu_natives_old.Connection.Server.{UnlockServer, get_device, get_response_data}
use pcbu_natives_old.Handler.Result.{UnlockResult}
use pcbu_natives_old.Handler.RunServer.{LoopEnd, Round, finish, run_server, wait_loop}
use pcbu_natives_old.Handler.Rounds.{
  Quiet, look_late, look_success, look_success_ends, wait_loop-late, wait_loop-split,
  wait_loop-stops,
}

-- The rounds have one that polled SUCCESS while nothing cancelled it, after rounds that end nothing.
pub record Succeeds (start_time timeout_ms : ℕ) (rounds : List Round) : Type 0 where
  pub front : List Round
  pub r : Round
  pub back : List Round
  pub split : rounds ≡ front ++ r ∷ back
  pub quiet : All (Quiet start_time timeout_ms) front
  pub polled : r.polled ≡ UnlockState.success
  pub other_success : r.other_success ≡ false
  pub stopped : r.stopped ≡ false

finished : UnlockServer → Option (LoopEnd × List String) → Option (UnlockResult × List String)
finished server none = none
finished server (some end) = some (finish server end)

finished-cases :
    (server : UnlockServer) (o : Option (LoopEnd × List String)) {x : UnlockResult × List String}
    → finished server o ≡ some x
    → (end : LoopEnd × List String) × (o ≡ some end) × (finish server end ≡ x)
unfolding finished
finished-cases server none e = absurd (ground arith)
finished-cases server (some end) {x} e = (end, refl, ap (value_or x) e)
  where
    value_or :
        UnlockResult × List String
        → Option (UnlockResult × List String)
        → UnlockResult × List String
    value_or d none = d
    value_or d (some y) = y

run_server-loop :
    (start_time timeout_ms : ℕ) (rounds : List Round) (server : UnlockServer)
    → run_server true start_time timeout_ms rounds server
      ≡ finished server (wait_loop start_time timeout_ms true rounds)
unfolding run_server finished
run_server-loop start_time timeout_ms rounds server =
    elim (wait_loop start_time timeout_ms true rounds) [ none ↦ refl | some end ↦ refl ]

-- When RunServer of a server that started returns SUCCESS, a round polled SUCCESS from that server
-- while neither another server had succeeded nor the caller had stopped the unlock, no round before it
-- ended the loop, and the result is of the server's device and of the password in its answer.
pub run_server-Succeeds :
    (start_time timeout_ms : ℕ) (rounds : List Round) (server : UnlockServer)
    (result : UnlockResult) (messages : List String)
    → run_server true start_time timeout_ms rounds server ≡ some (result, messages)
    → result.state ≡ UnlockState.success
    → Succeeds start_time timeout_ms rounds
      × (result.device ≡ get_device server)
      × (result.password ≡ (get_response_data server).password)
unfolding finish
run_server-Succeeds start_time timeout_ms rounds server result messages e s =
    let ((end, m), ran, done) =
      finished-cases server _ (sym (run_server-loop start_time timeout_ms rounds server) ∙ e) in
    let (front, r, back, split, quiet, ends) =
      wait_loop-split start_time timeout_ms true rounds ran in
    let (p, o, t) = look_success start_time timeout_ms r end ends (ap (λ x. x.0.state) done ∙ s) in
    (
      record {
        front = front;
        r = r;
        back = back;
        split = split;
        quiet = quiet;
        polled = p;
        other_success = o;
        stopped = t;
      },
      sym (ap (λ x. x.0.device) done),
      sym (ap (λ x. x.0.password) done),
    )

-- Such rounds are also enough: RunServer returns SUCCESS with the server's device and password,
-- whatever rounds would follow.
pub run_server_success :
    (start_time timeout_ms : ℕ) (rounds : List Round) (server : UnlockServer)
    → Succeeds start_time timeout_ms rounds
    → (messages : List String) × (run_server true start_time timeout_ms rounds server
        ≡ some (
          record {
            state = UnlockState.success;
            device = get_device server;
            password = (get_response_data server).password;
          },
          messages,
        ))
unfolding finish finished
run_server_success start_time timeout_ms rounds server h =
    let ends = look_success_ends start_time timeout_ms h.r h.polled h.other_success h.stopped in
    let (m, ran) = wait_loop-stops start_time timeout_ms true h.front h.r h.back h.quiet ends in
    (
      _,
      run_server-loop start_time timeout_ms rounds server
          ∙ ap (finished server) (ap (wait_loop start_time timeout_ms true) h.split ∙ ran),
    )

-- RunServer of a server that started returns, at the latest in a round that finds no client after the
-- timeout: it has a result, which no later round can change, and whose state is decided.
pub run_server_returns :
    (start_time timeout_ms : ℕ) (front : List Round) (r : Round) (back : List Round)
    (server : UnlockServer)
    → r.has_client ≡ false
    → start_time + timeout_ms < r.now
    → (result : UnlockResult) × (messages : List String) × (run_server true start_time timeout_ms
          (front ++ r ∷ back)
          server
        ≡ some (result, messages))
      × (run_server true start_time timeout_ms (front ++ r ∷ []) server ≡ some (result, messages))
      × (result.state ≢ UnlockState.unknown)
unfolding finish finished
run_server_returns start_time timeout_ms front r back server c late =
    let (end, m, decided, ends) =
      wait_loop-late start_time timeout_ms true front r
        (look_late start_time timeout_ms r c late) in
    (
      _,
      _,
      run_server-loop start_time timeout_ms (front ++ r ∷ back) server
          ∙ ap (finished server) (ends back),
      run_server-loop start_time timeout_ms (front ++ r ∷ []) server
          ∙ ap (finished server) (ends []),
      decided,
    )
