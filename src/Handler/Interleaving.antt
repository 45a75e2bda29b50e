-- ===== src/Handler/Interleaving.antt =====
-- The threads of UnlockHandler::GetResult, uninterrupted and interleaved.
use pcbu_natives_old.Prelude.{
  ℕ, suc, ◌≡◌, refl, inl, inr, true, false, not, none, some, List, [], ◌∷◌, ◌++◌, arith, ◌==◌,
  ==_iff, if◌then◌else◌, Bool-cases,
}
use pcbu_natives_old.UnlockState.{UnlockState, is_success}
use pcbu_natives_old.Handler.Result.{UnlockResult, of_state}
use pcbu_natives_old.Handler.Threads.{
  Phase, Shared, Threads, fresh, start_threads, ThreadStep, Reach, returns, counts, stores, keeps,
  leaves, closes, finds, misses, overwrites, notifies, thread, loads, here, next,
}
use pcbu_natives_old.Handler.Epilogue.{epilogue}

module _ (Returns : UnlockResult → Type 0) where
  abbrev at_phase : List Phase → Phase → List Phase → Shared → Threads
  at_phase front p back s = record { shared = s; phases = front ++ p ∷ back; loaded = none }

  one_step :
      (n : ℕ) (start : Threads) (front back : List Phase) (p q : Phase) (s t : Shared)
      → Reach Returns n start (at_phase front p back s)
      → ThreadStep Returns n s p t q
      → Reach Returns n start (at_phase front q back t)
  one_step n start front back p q s t reach st = next reach (thread front back s t p q none st)

  checking-over :
      (n : ℕ) (start : Threads) (front back : List Phase) (r : UnlockResult) (s : Shared)
      → Reach Returns n start (at_phase front (Phase.checking r) back s)
      → Reach Returns n start (
          at_phase front Phase.over back (record s {
            current =
                if s.completed == n
                then if not (is_success s.current.state) then r else s.current
                else s.current;
          }))
  checking-over n start front back r s reach = elim (Bool-cases (s.completed == n)) [
    | inr e ↦
        rw e (one_step n start front back _ _ s s reach (leaves s r (λ f. absurd (ground arith))))
    | inl e ↦
        let closed =
          one_step n start front back _ (Phase.closing r) s s reach
            (closes s r ((==_iff _ _).0 e)) in
        elim (Bool-cases (is_success s.current.state)) [
          | inl z ↦ rw e (
              rw z (
                one_step n start front back _ _ s s
                  (one_step n start front back _ Phase.notifying s s closed (finds s r z))
                  (notifies s)))
          | inr z ↦ rw e (
              rw z (
                one_step n start front back _ _ _ _
                  (one_step n start front back _ Phase.notifying _ (record s { current = r })
                    (one_step n start front back _ (Phase.overwriting r) s s closed (misses s r z))
                    (overwrites s r))
                  (notifies _)))
        ]
  ]

  -- The body of one thread, run without an interruption, is a run of its steps from the return of
  -- RunServer to the thread's end.
  pub epilogue-Reach :
      (n : ℕ) (start : Threads) (front back : List Phase) (r : UnlockResult) (s : Shared)
      → Reach Returns n start (at_phase front (Phase.returned r) back s)
      → Reach Returns n start (at_phase front Phase.over back (epilogue n r s))
  unfolding epilogue
  epilogue-Reach n start front back r s reach =
      let counting =
        one_step n start front back _ (Phase.counted r) s
          (record s { completed = suc (s.completed) }) reach (counts s r) in
      elim (Bool-cases (is_success r.state)) [
        | inl y ↦ rw y (
            checking-over n start front back r _
              (one_step n start front back _ _ _ _ counting (stores _ r y)))
        | inr y ↦ rw y (
            checking-over n start front back r _
              (one_step n start front back _ _ _ _ counting (keeps _ r y)))
      ]

  -- With one server, whatever it returns, the main thread may load the default result: completed is
  -- counted before currentResult is stored, and the wait is over by then.
  pub loaded-default :
      (r : UnlockResult)
      → Returns r
      → (t : Threads) × Reach Returns 1 (start_threads 1) t
        × (t.loaded ≡ some (of_state UnlockState.unknown))
  loaded-default r h = (
    _,
    next
        (next
          (next here
            (thread [] [] fresh fresh Phase.running (Phase.returned r) none (returns fresh r h)))
          (thread [] [] fresh _ (Phase.returned r) (Phase.counted r) none (counts fresh r)))
        (loads (record fresh { completed = 1 }) (Phase.counted r ∷ []) refl),
    refl,
  )

  -- With two servers, of which one returns a failure and the other a success, the success may be lost:
  -- both have counted themselves, and the failure is stored after the success.
  pub loaded-failure :
      (r f : UnlockResult)
      → Returns r
      → Returns f
      → is_success r.state ≡ true
      → is_success f.state ≡ false
      → (t : Threads) × Reach Returns 2 (start_threads 2) t
        × (t.shared.current ≡ f)
        × (t.phases ≡ Phase.over ∷ Phase.over ∷ [])
  loaded-failure r f hr hf y z =
      let two = record fresh { completed = 2 } in
      let a1 =
        one_step 2 (start_threads 2) [] (Phase.running ∷ []) Phase.running (Phase.returned r) fresh
          fresh here (returns fresh r hr) in
      let a2 =
        one_step 2 _ [] (Phase.running ∷ []) _ (Phase.counted r) fresh
          (record fresh { completed = 1 }) a1 (counts fresh r) in
      let b1 =
        one_step 2 _ (Phase.counted r ∷ []) [] Phase.running (Phase.returned f) _ _ a2
          (returns (record fresh { completed = 1 }) f hf) in
      let b2 =
        one_step 2 _ (Phase.counted r ∷ []) [] _ (Phase.counted f) _ two b1
          (counts (record fresh { completed = 1 }) f) in
      let b3 =
        one_step 2 _ (Phase.counted r ∷ []) [] _ (Phase.checking f) two two b2 (keeps two f z) in
      let b4 =
        one_step 2 _ (Phase.counted r ∷ []) [] _ (Phase.closing f) two two b3 (closes two f refl) in
      let b5 =
        one_step 2 _ (Phase.counted r ∷ []) [] _ (Phase.overwriting f) two two b4
          (misses two f refl) in
      let a3 =
        one_step 2 _ [] (Phase.overwriting f ∷ []) _ (Phase.checking r) two
          (record two { current = r }) b5 (stores two r y) in
      let stored = record two { current = r } in
      let a4 =
        one_step 2 _ [] (Phase.overwriting f ∷ []) _ (Phase.closing r) stored stored a3
          (closes stored r refl) in
      let a5 =
        one_step 2 _ [] (Phase.overwriting f ∷ []) _ Phase.notifying stored stored a4
          (finds stored r y) in
      let a6 =
        one_step 2 _ [] (Phase.overwriting f ∷ []) _ Phase.over stored stored a5
          (notifies stored) in
      let failed = record stored { current = f } in
      let b6 =
        one_step 2 _ (Phase.over ∷ []) [] _ Phase.notifying stored failed a6
          (overwrites stored f) in
      (
        _,
        one_step 2 _ (Phase.over ∷ []) [] _ Phase.over failed failed b6 (notifies failed),
        refl,
        refl,
      )
