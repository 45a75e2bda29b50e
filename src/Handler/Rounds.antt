-- ===== src/Handler/Rounds.antt =====
-- The rounds of UnlockHandler::RunServer up to the one that ends its loop.
use Prim.Native.String.{String}
use pcbu_natives_old.Prelude.{
  ℕ, ◌+◌, ◌<◌, ◌≡◌, ◌≢◌, refl, ap, ◌∙◌, inl, inr, Bool, false, not, ◌&&◌, Option, none, some,
  Option-cases, List, [], ◌∷◌, ◌++◌, arith, All,
}
use pcbu_natives_old.UnlockState.{UnlockState}
use pcbu_natives_old.Handler.RunServer.{LoopEnd, Round, look, tell, tells, then_rest, wait_loop}

-- A round in which nothing ends the loop.
abbrev pub Quiet : ℕ → ℕ → Round → Type 0
Quiet start_time timeout_ms r = look start_time timeout_ms r ≡ none

then_rest-none :
    (first : List String) (o : Option (LoopEnd × List String)) {end : LoopEnd} {m : List String}
    → then_rest none first o ≡ some (end, m)
    → (rest : List String) × (o ≡ some (end, rest))
unfolding then_rest
then_rest-none first none e = absurd (ground arith)
then_rest-none first (some (end', messages)) e = (messages, ap (replace_messages messages) e)
  where
    replace_messages : List String → Option (LoopEnd × List String) → Option (LoopEnd × List String)
    replace_messages messages none = none
    replace_messages messages (some (end, m)) = some (end, messages)

end_of : Option (LoopEnd × List String) → Option LoopEnd
end_of none = none
end_of (some (end, m)) = some end

-- The rounds up to the one that ends the loop.
pub wait_loop-split :
    (start_time timeout_ms : ℕ) (waiting : Bool) (rounds : List Round) {end : LoopEnd}
    {m : List String}
    → wait_loop start_time timeout_ms waiting rounds ≡ some (end, m)
    → (front : List Round) × (r : Round) × (back : List Round) × (rounds ≡ front ++ r ∷ back)
      × All (Quiet start_time timeout_ms) front
      × (look start_time timeout_ms r ≡ some end)
unfolding wait_loop end_of then_rest
wait_loop-split start_time timeout_ms waiting [] e = absurd (ground arith)
wait_loop-split start_time timeout_ms waiting (r ∷ rounds) {end} {m} e =
    elim (Option-cases (look start_time timeout_ms r)) [
      | inl n ↦
          let (rest, run) = then_rest-none _ _ (rw n at e) in
          let (front, last, back, split, quiet, ends) =
            wait_loop-split start_time timeout_ms (waiting && not (tells waiting r)) rounds run in
          (r ∷ front, last, back, ap (◌∷◌ r) split, (n, quiet), ends)
      | inr (x, s) ↦ ([], r, rounds, refl, tt, s ∙ ap end_of (rw s at e))
    ]

-- A round that ends the loop is reached.
pub wait_loop-stops :
    (start_time timeout_ms : ℕ) (waiting : Bool) (front : List Round) (r : Round)
    (back : List Round) {end : LoopEnd}
    → All (Quiet start_time timeout_ms) front
    → look start_time timeout_ms r ≡ some end
    → (m : List String) × (wait_loop start_time timeout_ms waiting (front ++ r ∷ back)
        ≡ some (end, m))
unfolding wait_loop then_rest
wait_loop-stops start_time timeout_ms waiting [] r back quiet ends =
    (tell (tells waiting r), rw (ends, then_rest) refl)
wait_loop-stops start_time timeout_ms waiting (q ∷ front) r back {end} quiet ends =
    let (m, run) =
      wait_loop-stops start_time timeout_ms (waiting && not (tells waiting q)) front r back quiet.1
        ends in
    (tell (tells waiting q) ++ m, rw (quiet.0, run) refl)

-- The conditions under which one round makes the loop end with SUCCESS.
pub look_success :
    (start_time timeout_ms : ℕ) (r : Round) (end : LoopEnd)
    → look start_time timeout_ms r ≡ some end
    → end.state ≡ UnlockState.success
    → (r.polled ≡ UnlockState.success) × (r.other_success ≡ false) × (r.stopped ≡ false)
unfolding look
look_success start_time timeout_ms r end e s = ground arith

pub look_success_ends :
    (start_time timeout_ms : ℕ) (r : Round)
    → r.polled ≡ UnlockState.success
    → r.other_success ≡ false
    → r.stopped ≡ false
    → look start_time timeout_ms r
      ≡ some (record { state = UnlockState.success; is_future_cancel = false })
unfolding look
look_success_ends start_time timeout_ms r p o t = rw (p, o, t) refl

-- A round that ends the loop, with a state that is decided.
abbrev pub Ends : ℕ → ℕ → Round → Type 0
Ends start_time timeout_ms r =
    (end : LoopEnd) × (look start_time timeout_ms r ≡ some end) × (end.state ≢ UnlockState.unknown)

-- Whatever ends the loop decides the state.
look_decided :
    (start_time timeout_ms : ℕ) (r : Round) (end : LoopEnd)
    → look start_time timeout_ms r ≡ some end
    → end.state ≢ UnlockState.unknown
unfolding look
look_decided start_time timeout_ms r end e s = ground arith

late_not_quiet :
    (start_time timeout_ms : ℕ) (r : Round)
    → r.has_client ≡ false
    → start_time + timeout_ms < r.now
    → look start_time timeout_ms r ≢ none
unfolding look
late_not_quiet start_time timeout_ms r c late e = ground arith

-- Without a client, a round after the timeout ends the loop.
pub look_late :
    (start_time timeout_ms : ℕ) (r : Round)
    → r.has_client ≡ false
    → start_time + timeout_ms < r.now
    → Ends start_time timeout_ms r
look_late start_time timeout_ms r c late = elim (Option-cases (look start_time timeout_ms r)) [
  | inl n ↦ absurd (late_not_quiet start_time timeout_ms r c late n)
  | inr (end, e) ↦ (end, e, look_decided start_time timeout_ms r end e)
]

-- With such a round the loop ends, whatever rounds would follow.
pub wait_loop-late :
    (start_time timeout_ms : ℕ) (waiting : Bool) (front : List Round) (r : Round)
    → Ends start_time timeout_ms r
    → (end : LoopEnd) × (m : List String) × (end.state ≢ UnlockState.unknown)
      × ((back : List Round)
          → wait_loop start_time timeout_ms waiting (front ++ r ∷ back) ≡ some (end, m))
unfolding wait_loop then_rest
wait_loop-late start_time timeout_ms waiting [] r (end, e, decided) =
    (end, tell (tells waiting r), decided, λ back. rw (e, then_rest) refl)
wait_loop-late start_time timeout_ms waiting (q ∷ front) r late =
    elim (Option-cases (look start_time timeout_ms q)) [
      | inr (end, e) ↦ (
        end,
        tell (tells waiting q),
        look_decided start_time timeout_ms q end e,
        λ back. rw (e, then_rest) refl,
      )
      | inl n ↦
          let (end, m, decided, ends) =
            wait_loop-late start_time timeout_ms (waiting && not (tells waiting q)) front r late in
          (end, tell (tells waiting q) ++ m, decided, λ back. rw (n, ends back, then_rest) refl)
    ]
