-- ===== src/Handler/Stuck.antt =====
-- A run of UnlockHandler::GetResult with one server up to the deadlock of its wait.
use pcbu_natives_old.Prelude.{◌≡◌, ◌≢◌, refl, inl, inr, [], ◌∷◌, Bool-cases}
use pcbu_natives_old.UnlockState.{is_success}
use pcbu_natives_old.Handler.Result.{UnlockResult}
use pcbu_natives_old.Handler.Threads.{
  Phase, Shared, fresh, ThreadStep, returns, counts, stores, keeps, closes, finds, misses,
  overwrites,
}
use pcbu_natives_old.Handler.Waiting.{
  Main, System, works, locks, passes, loads_result, Run, begin, moves,
}
use pcbu_natives_old.Handler.Deadlock.{Deadlock, IsStuck, Deadlock-IsStuck}

module _ (Returns : UnlockResult → Type 0) where
  abbrev pub one_thread : Shared → Phase → Main → System
  one_thread s p m = record { shared = s; phases = p ∷ []; main = m }

  pub one_move :
      (s t : Shared) (p q : Phase) (m : Main)
      → Run Returns 1 (one_thread s p m)
      → p ≢ Phase.notifying
      → ThreadStep Returns 1 s p t q
      → Run Returns 1 (one_thread t q m)
  one_move s t p q m run ne st = moves run (works [] [] s t p q m ne st)

  -- The run of one thread up to its lock of the mutex.
  pub to_notifying :
      (r : UnlockResult)
      → Returns r
      → (s : Shared) × (s.completed ≡ 1)
        × Run Returns 1 (one_thread s Phase.notifying Main.starting)
  to_notifying r h =
      let one = record fresh { completed = 1 } in
      let a = one_move fresh fresh _ (Phase.returned r) _ begin (λ e. cc) (returns fresh r h) in
      let b = one_move fresh one _ (Phase.counted r) _ a (λ e. cc) (counts fresh r) in
      let stored = record one { current = r } in
      elim (Bool-cases (is_success r.state)) [
        | inl y ↦
            let c = one_move one stored _ (Phase.checking r) _ b (λ e. cc) (stores one r y) in
            let d =
              one_move stored stored _ (Phase.closing r) _ c (λ e. cc) (closes stored r refl) in
            (stored, refl, one_move stored stored _ _ _ d (λ e. cc) (finds stored r y))
        | inr y ↦
            let c = one_move one one _ (Phase.checking r) _ b (λ e. cc) (keeps one r y) in
            let d = one_move one one _ (Phase.closing r) _ c (λ e. cc) (closes one r refl) in
            let f = one_move one one _ (Phase.overwriting r) _ d (λ e. cc) (misses one r refl) in
            (stored, refl, one_move one stored _ _ _ f (λ e. cc) (overwrites one r))
      ]

  -- GetResult may never return: with one server, whatever RunServer returns, a run ends where nothing
  -- can move. The main thread saw completed and passed its wait with the mutex before the thread
  -- locked it to notify, and joins the thread while the thread waits for the mutex.
  pub Run-IsStuck :
      (r : UnlockResult)
      → Returns r
      → (s : System) × Run Returns 1 s × Deadlock s × IsStuck Returns 1 s
  Run-IsStuck r h =
      let (s, full, run) = to_notifying r h in
      let ps = Phase.notifying ∷ [] in
      let locked = moves run (locks s ps) in
      let gone = moves locked (passes s ps full) in
      let d : Deadlock (one_thread s Phase.notifying (Main.joining (s.current))) = record {
        result = s.current;
        joining_threads = refl;
        front = [];
        back = [];
        blocked = refl;
        settled = (inr refl, tt);
      } in
      (_, moves gone (loads_result s ps), d, Deadlock-IsStuck Returns 1 _ d)
