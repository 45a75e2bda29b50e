-- ===== src/Handler/RunServer.antt =====
-- UnlockHandler::RunServer: the loop that waits for one device. What a round sees is a parameter.
use Prim.Native.String.{String}
use pcbu_natives_old.Prelude.{
  ℕ, ◌+◌, Bool, true, false, not, ◌&&◌, ◌||◌, Option, none, some, List, [], ◌∷◌, ◌++◌, ltb,
  if◌then◌else◌,
}
use pcbu_natives_old.UnlockState.{UnlockState, is_unknown, text_key}
use pcbu_natives_old.Connection.Server.{UnlockServer, get_device, get_response_data}
use pcbu_natives_old.Handler.Result.{UnlockResult, of_state}

-- One round of the loop: whether another server has succeeded, whether the caller has stopped the
-- unlock, the two calls of HasClient with PollResult between them, the time, and the two keys.
pub record Round : Type 0 where
  pub other_success : Bool
  pub stopped : Bool
  pub had_client : Bool
  pub polled : UnlockState
  pub has_client : Bool
  pub now : ℕ
  pub left_ctrl : Bool
  pub left_alt : Bool

-- How the loop ends: `state` and `isFutureCancel`.
pub record LoopEnd : Type 0 where
  pub state : UnlockState
  pub is_future_cancel : Bool

-- A round ends the loop, or it goes on.
unfoldable pub look : ℕ → ℕ → Round → Option LoopEnd
look start_time timeout_ms r =
    if r.other_success || r.stopped
    then some (record { state = UnlockState.canceled; is_future_cancel = true })
    else if not (is_unknown r.polled)
    then some (record { state = r.polled; is_future_cancel = false })
    else if not r.has_client && ltb (start_time + timeout_ms) r.now
    then some (record { state = UnlockState.timeout; is_future_cancel = false })
    else if r.left_ctrl && r.left_alt
    then some (record { state = UnlockState.canceled; is_future_cancel = false })
    else none

-- Whether the round tells the user to use the phone; `waiting` is `isWaitingForConnection`.
unfoldable pub tells : Bool → Round → Bool
tells waiting r = not (r.other_success || r.stopped) && (r.had_client && waiting)

abbrev pub tell : Bool → List String
tell true = "wait_phone_unlock" ∷ []
tell false = []

-- The rounds after one that did not end the loop, put after the messages of that one.
unfoldable pub then_rest :
    Option LoopEnd → List String → Option (LoopEnd × List String) → Option (LoopEnd × List String)
then_rest (some end) first rest = some (end, first)
then_rest none first none = none
then_rest none first (some (end, messages)) = some (end, first ++ messages)

-- The loop over the rounds that come; `none` while it is still waiting. The messages are the keys
-- whose texts are printed.
unfoldable pub wait_loop : ℕ → ℕ → Bool → List Round → Option (LoopEnd × List String)
wait_loop start_time timeout_ms waiting [] = none
wait_loop start_time timeout_ms waiting (r ∷ rounds) =
    let rest = wait_loop start_time timeout_ms (waiting && not (tells waiting r)) rounds in
    then_rest (look start_time timeout_ms r) (tell (tells waiting r)) rest

-- The message at the end, unless the unlock was cancelled from outside.
abbrev pub last_message : LoopEnd → List String
last_message end = if not end.is_future_cancel then text_key end.state ∷ [] else []

unfoldable pub finish : UnlockServer → LoopEnd × List String → UnlockResult × List String
unfolding get_device get_response_data
finish server (end, messages) = (
  record {
    state = end.state;
    device = get_device server;
    password = (get_response_data server).password;
  },
  "wait_phone_connect" ∷ (messages ++ last_message end),
)

-- `server` is the server as it is after its Stop.
unfoldable pub run_server :
    Bool → ℕ → ℕ → List Round → UnlockServer → Option (UnlockResult × List String)
run_server false start_time timeout_ms rounds server =
    some (of_state UnlockState.start_error, "error_start_handler" ∷ [])
run_server true start_time timeout_ms rounds server =
    elim (wait_loop start_time timeout_ms true rounds) [
      | none ↦ none
      | some end ↦ some (finish server end)
    ]
