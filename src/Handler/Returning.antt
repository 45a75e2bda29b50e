-- ===== src/Handler/Returning.antt =====
-- The runs of UnlockHandler::GetResult with the mutex and the wait, as interleavings of its threads,
-- and what they return.
use pcbu_natives_old.Prelude.{ℕ, ◌≤◌, ◌≡◌, ◌≢◌, refl, ap, subst, ◌∙◌, ◌∷◌, ◌++◌, arith, All, length}
use pcbu_natives_old.Handler.Result.{UnlockResult}
use pcbu_natives_old.Handler.Threads.{
  Phase, Shared, Threads, start_threads, ThreadStep, Reach, returns, counts, stores, keeps, leaves,
  closes, finds, misses, overwrites, notifies, thread, loads, here, next, IsOutcome, start-Sound,
  Reach-Sound, loaded-IsOutcome,
}
use pcbu_natives_old.Handler.Progress.{count-le-length, count_over, Reach-Counted}
use pcbu_natives_old.Handler.Waiting.{
  Main, System, notified, loaded_of, forget, IsOver, at_middle, Move, works, notifies_one, locks,
  sleeps, relocks, passes, loads_result, joins, Run, begin, moves, wakes,
}

module _ (Returns : UnlockResult → Type 0) where
  -- Past the wait all threads have counted themselves.
  abbrev Passed : ℕ → System → Type 0
  Passed n s = s.main ≡ Main.past → s.shared.completed ≡ n

  completed-le :
      (n : ℕ) {t : Threads} → Reach Returns n (start_threads n) t → t.shared.completed ≤ n
  completed-le n {t} reach =
      let h = Reach-Sound Returns n (start-Sound Returns n) reach in
      let c = Reach-Counted Returns n reach in
      omega (arith, h.counted, c.size, count-le-length Returns t.phases)

  -- A state whose threads are all at their end has them all counted.
  pub over-completed :
      (n : ℕ) {t : Threads}
      → Reach Returns n (start_threads n) t
      → All IsOver t.phases
      → t.shared.completed ≡ n
  over-completed n {t} reach all =
      let h = Reach-Sound Returns n (start-Sound Returns n) reach in
      let c = Reach-Counted Returns n reach in h.counted ∙ count_over Returns t.phases all ∙ c.size

  ThreadStep-completed :
      (n : ℕ) {s t : Shared} {p q : Phase}
      → ThreadStep Returns n s p t q
      → s.completed ≤ t.completed
  ThreadStep-completed n (returns s r x) = omega arith
  ThreadStep-completed n (counts s r) = omega arith
  ThreadStep-completed n (stores s r x) = omega arith
  ThreadStep-completed n (keeps s r x) = omega arith
  ThreadStep-completed n (leaves s r x) = omega arith
  ThreadStep-completed n (closes s r x) = omega arith
  ThreadStep-completed n (finds s r x) = omega arith
  ThreadStep-completed n (misses s r x) = omega arith
  ThreadStep-completed n (overwrites s r) = omega arith
  ThreadStep-completed n (notifies s) = omega arith

  loaded-notified : (m : Main) → loaded_of m ≡ loaded_of (notified m)
  unfolding loaded_of notified
  loaded-notified Main.starting = refl
  loaded-notified Main.testing = refl
  loaded-notified Main.asleep = refl
  loaded-notified Main.woken = refl
  loaded-notified Main.past = refl
  loaded-notified (Main.joining r) = refl
  loaded-notified (Main.finished r) = refl

  notified_past : (m : Main) → notified m ≡ Main.past → m ≡ Main.past
  unfolding notified
  notified_past Main.starting e = absurd cc
  notified_past Main.testing e = absurd cc
  notified_past Main.asleep e = absurd cc
  notified_past Main.woken e = absurd cc
  notified_past Main.past e = refl
  notified_past (Main.joining r) e = absurd cc
  notified_past (Main.finished r) e = absurd cc

  -- A move is a step of the threads and the load, or changes neither.
  Move-Reach :
      (n : ℕ) {s t : System}
      → Move Returns n s t
      → Passed n s
      → Reach Returns n (start_threads n) (forget s)
      → Reach Returns n (start_threads n) (forget t) × Passed n t
  unfolding loaded_of
  Move-Reach n (works front back s t p q m ne st) passed reach =
      let after = next reach (thread front back s t p q (loaded_of m) st) in
      (after, λ e. omega (arith, passed e, ThreadStep-completed n st, completed-le n after))
  Move-Reach n (notifies_one front back s m free) passed reach = (
    subst
        (λ o.
          Reach Returns n (start_threads n)
            (record { shared = s; phases = front ++ Phase.over ∷ back; loaded = o }))
        (loaded-notified m)
        (next reach (thread front back s s Phase.notifying Phase.over (loaded_of m) (notifies s))),
    λ e. passed (notified_past m e),
  )
  Move-Reach n (locks s ps) passed reach = (reach, λ e. absurd cc)
  Move-Reach n (sleeps s ps x) passed reach = (reach, λ e. absurd cc)
  Move-Reach n (relocks s ps) passed reach = (reach, λ e. absurd cc)
  Move-Reach n (passes s ps x) passed reach = (reach, λ e. x)
  Move-Reach n (loads_result s ps) passed reach =
      (next reach (loads s ps (passed refl)), λ e. absurd cc)
  Move-Reach n (joins s ps r all) passed reach = (reach, λ e. absurd cc)

  Run-Passed :
      (n : ℕ) {s : System}
      → Run Returns n s
      → Reach Returns n (start_threads n) (forget s) × Passed n s
  unfolding loaded_of
  Run-Passed n begin = (here, λ e. absurd cc)
  Run-Passed n (moves run mv) =
      let (reach, passed) = Run-Passed n run in Move-Reach n mv passed reach
  Run-Passed n (wakes s ps run) = ((Run-Passed n run).0, λ e. absurd cc)

  -- Every run with the mutex and the wait is an interleaving of the threads with the load.
  pub Run-Reach :
      (n : ℕ) {s : System} → Run Returns n s → Reach Returns n (start_threads n) (forget s)
  Run-Reach n run = (Run-Passed n run).0

  -- A thread at its end takes no step.
  pub ThreadStep-alive :
      (n : ℕ) {s t : Shared} {p q : Phase} → ThreadStep Returns n s p t q → p ≢ Phase.over
  ThreadStep-alive n (returns s r x) e = absurd cc
  ThreadStep-alive n (counts s r) e = absurd cc
  ThreadStep-alive n (stores s r x) e = absurd cc
  ThreadStep-alive n (keeps s r x) e = absurd cc
  ThreadStep-alive n (leaves s r x) e = absurd cc
  ThreadStep-alive n (closes s r x) e = absurd cc
  ThreadStep-alive n (finds s r x) e = absurd cc
  ThreadStep-alive n (misses s r x) e = absurd cc
  ThreadStep-alive n (overwrites s r) e = absurd cc
  ThreadStep-alive n (notifies s) e = absurd cc

  notified-finished :
      (m : Main) (r : UnlockResult) → notified m ≡ Main.finished r → m ≡ Main.finished r
  unfolding notified
  notified-finished Main.starting r e = absurd cc
  notified-finished Main.testing r e = absurd cc
  notified-finished Main.asleep r e = absurd cc
  notified-finished Main.woken r e = absurd cc
  notified-finished Main.past r e = absurd cc
  notified-finished (Main.joining x) r e = absurd cc
  notified-finished (Main.finished x) r e = e

  Move-finished :
      (n : ℕ) (r : UnlockResult) {s t : System}
      → Move Returns n s t
      → (s.main ≡ Main.finished r → All IsOver s.phases)
      → t.main ≡ Main.finished r
      → All IsOver t.phases
  Move-finished n r (works front back s t p q m ne st) h e =
      absurd (ThreadStep-alive n st (at_middle IsOver front back p (h e)))
  Move-finished n r (notifies_one front back s m free) h e =
      let wrong : Phase.notifying ≡ Phase.over =
        at_middle IsOver front back Phase.notifying (h (notified-finished m r e)) in
      absurd cc
  Move-finished n r (locks s ps) h e = absurd cc
  Move-finished n r (sleeps s ps x) h e = absurd cc
  Move-finished n r (relocks s ps) h e = absurd cc
  Move-finished n r (passes s ps x) h e = absurd cc
  Move-finished n r (loads_result s ps) h e = absurd cc
  Move-finished n r (joins s ps x all) h e = all

  Run-finished :
      (n : ℕ) (r : UnlockResult) {s : System}
      → Run Returns n s
      → s.main ≡ Main.finished r
      → All IsOver s.phases
  Run-finished n r begin e = absurd cc
  Run-finished n r (moves run mv) e = Move-finished n r mv (Run-finished n r run) e
  Run-finished n r (wakes s ps run) e = absurd cc

  -- When GetResult returns, its result is the default one or one that RunServer returned for a
  -- server; there are as many threads as servers, and each is at its end, so that it has returned from
  -- RunServer and was counted in completed.
  pub finished-IsOutcome :
      (n : ℕ) (s : System) (r : UnlockResult)
      → Run Returns n s
      → s.main ≡ Main.finished r
      → IsOutcome Returns r × (length s.phases ≡ n) × All IsOver s.phases × (s.shared.completed ≡ n)
  unfolding loaded_of
  finished-IsOutcome n s r run e =
      let reach = Run-Reach n run in
      let all = Run-finished n r run e in
      (
        (loaded-IsOutcome Returns n (forget s) r reach (ap loaded_of e)).0,
        (Reach-Counted Returns n reach).size,
        all,
        over-completed n reach all,
      )
