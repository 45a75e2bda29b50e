-- ===== src/Handler/Threads.antt =====
-- The threads of UnlockHandler::GetResult: what each does once RunServer has returned, on the shared
-- currentResult and completed, and the main thread that waits for them.
use pcbu_natives_old.Prelude.{
  ℕ, zero, suc, ◌+◌, ◌≡◌, ◌≢◌, refl, subst, ◌⊎◌, inl, inr, true, false, Option, none, some, List,
  [], ◌∷◌, ◌++◌, arith, All,
}
use pcbu_natives_old.UnlockState.{UnlockState, is_success}
use pcbu_natives_old.Handler.Result.{UnlockResult, of_state}

-- Where a thread stands: in RunServer; before completed.fetch_add; before the store of a success;
-- before the load of completed; before the load of currentResult; before the last store; before the
-- notification; and at its end.
pub data Phase : Type 0 where
  running over notifying : Phase
  returned counted checking closing overwriting : UnlockResult → Phase

-- currentResult and completed.
pub record Shared : Type 0 where
  pub current : UnlockResult
  pub completed : ℕ

abbrev pub fresh : Shared
fresh = record { current = of_state UnlockState.unknown; completed = 0 }

-- The threads, and what the main thread loaded once it was past its wait.
pub record Threads : Type 0 where
  pub shared : Shared
  pub phases : List Phase
  pub loaded : Option UnlockResult

abbrev pub all_running : ℕ → List Phase
all_running zero = []
all_running (suc n) = Phase.running ∷ all_running n

abbrev pub start_threads : ℕ → Threads
start_threads n = record { shared = fresh; phases = all_running n; loaded = none }

-- `Returns r`: RunServer may return r for one of the servers.
module _ (Returns : UnlockResult → Type 0) where
  -- One atomic step of one of n threads.
  pub data ThreadStep (n : ℕ) : Shared → Phase → Shared → Phase → Type 0 where
    returns :
        (s : Shared) (r : UnlockResult)
        → Returns r
        → ThreadStep n s Phase.running s (Phase.returned r)
    counts :
        (s : Shared) (r : UnlockResult)
        → ThreadStep n s
            (Phase.returned r)
            (record s { completed = suc (s.completed) })
            (Phase.counted r)
    stores :
        (s : Shared) (r : UnlockResult)
        → is_success r.state ≡ true
        → ThreadStep n s (Phase.counted r) (record s { current = r }) (Phase.checking r)
    keeps :
        (s : Shared) (r : UnlockResult)
        → is_success r.state ≡ false
        → ThreadStep n s (Phase.counted r) s (Phase.checking r)
    leaves :
        (s : Shared) (r : UnlockResult)
        → s.completed ≢ n
        → ThreadStep n s (Phase.checking r) s Phase.over
    closes :
        (s : Shared) (r : UnlockResult)
        → s.completed ≡ n
        → ThreadStep n s (Phase.checking r) s (Phase.closing r)
    finds :
        (s : Shared) (r : UnlockResult)
        → is_success s.current.state ≡ true
        → ThreadStep n s (Phase.closing r) s Phase.notifying
    misses :
        (s : Shared) (r : UnlockResult)
        → is_success s.current.state ≡ false
        → ThreadStep n s (Phase.closing r) s (Phase.overwriting r)
    overwrites :
        (s : Shared) (r : UnlockResult)
        → ThreadStep n s (Phase.overwriting r) (record s { current = r }) Phase.notifying
    notifies : (s : Shared) → ThreadStep n s Phase.notifying s Phase.over

  -- A step of one of the threads, or the main thread's load behind `completed.load() == numServers`.
  -- Waiting adds the mutex and the condition variable.
  pub data Step (n : ℕ) : Threads → Threads → Type 0 where
    thread :
        (front back : List Phase) (s t : Shared) (p q : Phase) (loaded : Option UnlockResult)
        → ThreadStep n s p t q
        → Step n
            (record { shared = s; phases = front ++ p ∷ back; loaded = loaded })
            (record { shared = t; phases = front ++ q ∷ back; loaded = loaded })
    loads :
        (s : Shared) (phases : List Phase)
        → s.completed ≡ n
        → Step n
            (record { shared = s; phases = phases; loaded = none })
            (record { shared = s; phases = phases; loaded = some (s.current) })

  pub data Reach (n : ℕ) (s : Threads) : Threads → Type 0 where
    here : Reach n s s
    next : {t u : Threads} → Reach n s t → Step n t u → Reach n s u

  -- The default result or one that a server returned.
  abbrev pub IsOutcome : UnlockResult → Type 0
  IsOutcome r = (r ≡ of_state UnlockState.unknown) ⊎ Returns r

  -- The result that a thread carries was returned.
  abbrev pub Carries : Phase → Type 0
  Carries (Phase.returned r) = Returns r
  Carries (Phase.counted r) = Returns r
  Carries (Phase.checking r) = Returns r
  Carries (Phase.closing r) = Returns r
  Carries (Phase.overwriting r) = Returns r
  Carries _ = Unit

  abbrev pub Loaded : Option UnlockResult → Type 0
  Loaded none = Unit
  Loaded (some r) = IsOutcome r

  -- How many of the threads have passed completed.fetch_add.
  abbrev pub counted_one : Phase → ℕ
  counted_one Phase.running = 0
  counted_one (Phase.returned r) = 0
  counted_one _ = 1

  abbrev pub count : List Phase → ℕ
  count [] = 0
  count (p ∷ ps) = counted_one p + count ps

  pub record Sound (s : Threads) : Type 0 where
    pub current : IsOutcome (s.shared.current)
    pub carried : All Carries (s.phases)
    pub loaded : Loaded (s.loaded)
    pub counted : s.shared.completed ≡ count (s.phases)

  All-replace :
      (front back : List Phase) (p q : Phase)
      → All Carries (front ++ p ∷ back)
      → (Carries p → Carries q)
      → All Carries (front ++ q ∷ back)
  All-replace [] back p q h f = (f h.0, h.1)
  All-replace (x ∷ front) back p q h f = (h.0, All-replace front back p q h.1 f)

  pub All-at : (front back : List Phase) (p : Phase) → All Carries (front ++ p ∷ back) → Carries p
  All-at [] back p h = h.0
  All-at (x ∷ front) back p h = All-at front back p h.1

  pub count-append : (front back : List Phase) → count (front ++ back) ≡ count front + count back
  count-append [] back = omega arith
  count-append (x ∷ front) back = omega (arith, count-append front back)

  ThreadStep-sound :
      (n : ℕ) {s t : Shared} {p q : Phase}
      → ThreadStep n s p t q
      → IsOutcome (s.current)
      → Carries p
      → IsOutcome (t.current)
        × Carries q
        × (s.completed + counted_one q ≡ t.completed + counted_one p)
  ThreadStep-sound n (returns s r x) o c = (o, x, omega arith)
  ThreadStep-sound n (counts s r) o c = (o, c, omega arith)
  ThreadStep-sound n (stores s r x) o c = (inr c, c, omega arith)
  ThreadStep-sound n (keeps s r x) o c = (o, c, omega arith)
  ThreadStep-sound n (leaves s r x) o c = (o, tt, omega arith)
  ThreadStep-sound n (closes s r x) o c = (o, c, omega arith)
  ThreadStep-sound n (finds s r x) o c = (o, tt, omega arith)
  ThreadStep-sound n (misses s r x) o c = (o, c, omega arith)
  ThreadStep-sound n (overwrites s r) o c = (inr c, tt, omega arith)
  ThreadStep-sound n (notifies s) o c = (o, tt, omega arith)

  pub Step-Sound : (n : ℕ) {s t : Threads} → Step n s t → Sound s → Sound t
  Step-Sound n (thread front back s t p q loaded st) h =
      let (o, c, k) = ThreadStep-sound n st h.current (All-at front back p h.carried) in
      record {
        current = o;
        carried = All-replace front back p q h.carried (λ x. c);
        loaded = h.loaded;
        counted =
            omega
              (arith, h.counted, k, count-append front (p ∷ back), count-append front (q ∷ back));
      }
  Step-Sound n (loads s phases e) h = record {
    current = h.current;
    carried = h.carried;
    loaded = h.current;
    counted = h.counted;
  }

  pub start-Sound : (n : ℕ) → Sound (start_threads n)
  start-Sound n = record {
    current = inl refl;
    carried = running n;
    loaded = tt;
    counted = none_counted n;
  }
    where
      running : (n : ℕ) → All Carries (all_running n)
      running zero = tt
      running (suc n) = (tt, running n)

      none_counted : (n : ℕ) → 0 ≡ count (all_running n)
      none_counted zero = refl
      none_counted (suc n) = omega (arith, none_counted n)

  pub Reach-Sound : (n : ℕ) {s t : Threads} → Sound s → Reach n s t → Sound t
  Reach-Sound n h here = h
  Reach-Sound n h (next r st) = Step-Sound n st (Reach-Sound n h r)

  -- In every interleaving, what the main thread loads is the default result or one that RunServer
  -- returned for a server, so it is a success only if a server's was; and completed is the number of
  -- threads that have counted themselves.
  pub loaded-IsOutcome :
      (n : ℕ) (t : Threads) (r : UnlockResult)
      → Reach n (start_threads n) t
      → t.loaded ≡ some r
      → IsOutcome r × (t.shared.completed ≡ count (t.phases))
  loaded-IsOutcome n t r reach e =
      let h = Reach-Sound n (start-Sound n) reach in (subst Loaded e (h.loaded), h.counted)
