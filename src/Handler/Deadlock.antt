-- ===== src/Handler/Deadlock.antt =====
-- The states of UnlockHandler::GetResult in which something moves, and the deadlock of its wait.
use pcbu_natives_old.Prelude.{
  ℕ, ◌≡◌, ◌≢◌, refl, ap, subst, ◌⊎◌, inl, inr, true, List, ◌∷◌, ◌++◌, All,
}
use pcbu_natives_old.Handler.Result.{UnlockResult}
use pcbu_natives_old.Handler.Threads.{
  Phase, Shared, start_threads, ThreadStep, Reach, returns, counts, stores, keeps, leaves, closes,
  finds, misses, overwrites, notifies,
}
use pcbu_natives_old.Handler.Waiting.{
  Main, System, has_mutex, notified, IsOver, Move, works, notifies_one, locks, sleeps, relocks,
  passes, loads_result, joins, Run, begin, moves, wakes, forget, at_middle,
}
use pcbu_natives_old.Handler.Returning.{Run-Reach, over-completed, ThreadStep-alive}

-- A thread that is at its end, or waits for the mutex to notify the main thread.
abbrev pub IsSettled : Phase → Type 0
IsSettled p = (p ≡ Phase.over) ⊎ (p ≡ Phase.notifying)

-- The main thread holds the mutex and joins a thread that waits for the mutex.
pub record Deadlock (s : System) : Type 0 where
  pub result : UnlockResult
  pub joining_threads : s.main ≡ Main.joining result
  pub front : List Phase
  pub back : List Phase
  pub blocked : s.phases ≡ front ++ Phase.notifying ∷ back
  pub settled : All IsSettled s.phases

-- GetResult has returned, and its threads are at their end.
pub record Ended (s : System) : Type 0 where
  pub result : UnlockResult
  pub returned : s.main ≡ Main.finished result
  pub over : All IsOver s.phases

module _ (Returns : UnlockResult → Type 0) where
  -- No move leaves the state.
  abbrev pub IsStuck : ℕ → System → Type 0
  IsStuck n s = (t : System) → ¬ Move Returns n s t

  -- In a deadlock nothing can move.
  pub Deadlock-IsStuck : (n : ℕ) (s : System) → Deadlock s → IsStuck n s
  unfolding has_mutex
  Deadlock-IsStuck n s d t mv = stuck mv d
    where
      stuck : {s t : System} → Move Returns n s t → ¬ Deadlock s
      stuck (works front back s t p q m ne st) d =
          elim (at_middle IsSettled front back p d.settled) [
            | inl over ↦ ThreadStep-alive Returns n st over
            | inr waits ↦ ne waits
          ]
      stuck (notifies_one front back s m free) d =
          let held : has_mutex m ≡ true = ap has_mutex d.joining_threads in absurd cc
      stuck (locks s ps) d = let wrong = d.joining_threads in absurd cc
      stuck (sleeps s ps x) d = let wrong = d.joining_threads in absurd cc
      stuck (relocks s ps) d = let wrong = d.joining_threads in absurd cc
      stuck (passes s ps x) d = let wrong = d.joining_threads in absurd cc
      stuck (loads_result s ps) d = let wrong = d.joining_threads in absurd cc
      stuck (joins s ps r all) d =
          let wrong : Phase.notifying ≡ Phase.over =
            at_middle IsOver d.front d.back Phase.notifying (subst (All IsOver) d.blocked all) in
          absurd cc

  -- A thread that sleeps in cv.wait is still to be woken: not all threads are at their end.
  ThreadStep-over :
      (n : ℕ) {s t : Shared} {p q : Phase}
      → ThreadStep Returns n s p t q
      → p ≢ Phase.notifying
      → q ≡ Phase.over
      → t.completed ≢ n
  ThreadStep-over n (returns s r x) ne e = absurd cc
  ThreadStep-over n (counts s r) ne e = absurd cc
  ThreadStep-over n (stores s r x) ne e = absurd cc
  ThreadStep-over n (keeps s r x) ne e = absurd cc
  ThreadStep-over n (leaves s r x) ne e = x
  ThreadStep-over n (closes s r x) ne e = absurd cc
  ThreadStep-over n (finds s r x) ne e = absurd cc
  ThreadStep-over n (misses s r x) ne e = absurd cc
  ThreadStep-over n (overwrites s r) ne e = absurd cc
  ThreadStep-over n (notifies s) ne e = absurd (ne refl)

  notified_awake : (m : Main) → notified m ≢ Main.asleep
  unfolding notified
  notified_awake Main.starting e = absurd cc
  notified_awake Main.testing e = absurd cc
  notified_awake Main.asleep e = absurd cc
  notified_awake Main.woken e = absurd cc
  notified_awake Main.past e = absurd cc
  notified_awake (Main.joining r) e = absurd cc
  notified_awake (Main.finished r) e = absurd cc

  Move-asleep :
      (n : ℕ) {s t : System}
      → Move Returns n s t
      → Reach Returns n (start_threads n) (forget t)
      → t.main ≡ Main.asleep
      → ¬ All IsOver t.phases
  Move-asleep n (works front back s t p q m ne st) reach e all =
      ThreadStep-over n st ne (at_middle IsOver front back q all)
        (over-completed Returns n reach all)
  Move-asleep n (notifies_one front back s m free) reach e all = notified_awake m e
  Move-asleep n (locks s ps) reach e all = absurd cc
  Move-asleep n (sleeps s ps x) reach e all = x (over-completed Returns n reach all)
  Move-asleep n (relocks s ps) reach e all = absurd cc
  Move-asleep n (passes s ps x) reach e all = absurd cc
  Move-asleep n (loads_result s ps) reach e all = absurd cc
  Move-asleep n (joins s ps r x) reach e all = absurd cc

  -- No notification is lost: while the main thread sleeps, some thread is not at its end.
  pub Run-asleep :
      (n : ℕ) {s : System} → Run Returns n s → s.main ≡ Main.asleep → ¬ All IsOver s.phases
  Run-asleep n begin e all = absurd cc
  Run-asleep n (moves run mv) e all = Move-asleep n mv (Run-Reach Returns n (moves run mv)) e all
  Run-asleep n (wakes s ps run) e all = absurd cc

  -- A thread that does not wait for the mutex is at its end, or can work.
  abbrev Works : ℕ → Shared → Phase → Type 0
  Works n s p = (t : Shared) × (q : Phase) × (p ≢ Phase.notifying) × ThreadStep Returns n s p t q

  abbrev GoesOn : ℕ → System → Type 0
  GoesOn n s = Ended s ⊎ Deadlock s ⊎ ((t : System) × Move Returns n s t)
