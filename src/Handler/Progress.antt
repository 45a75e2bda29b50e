-- ===== src/Handler/Progress.antt =====
-- The threads of UnlockHandler::GetResult on their way: when the main thread may load the result, and
-- what each thread can do next.
use pcbu_natives_old.Prelude.{
  ℕ, zero, suc, ◌≤◌, ◌≡◌, refl, ap, sym, ◌∙◌, ◌⊎◌, inl, inr, some, List, [], ◌∷◌, ◌++◌, arith, All,
  ◌==◌, ==_iff, length, length-append, Bool-cases,
}
use pcbu_natives_old.UnlockState.{is_success}
use pcbu_natives_old.Handler.Result.{UnlockResult}
use pcbu_natives_old.Handler.Threads.{
  Phase, Shared, Threads, all_running, start_threads, ThreadStep, Step, Reach, returns, counts,
  stores, keeps, leaves, closes, finds, misses, overwrites, notifies, thread, loads, here, next,
  counted_one, count, count-append, Sound, start-Sound, Reach-Sound,
}

length-start : (n : ℕ) → length (all_running n) ≡ n
length-start zero = refl
length-start (suc n) = ap suc (length-start n)

-- Every thread has returned from RunServer and counted itself.
abbrev pub HasCounted : (Returns : UnlockResult → Type 0) → List Phase → Type 0
HasCounted Returns ps = All (λ p. counted_one Returns p ≡ 1) ps

module _ (Returns : UnlockResult → Type 0) where
  -- The number of threads stays, and once the main thread has loaded, all have counted themselves.
  pub record Counted (n : ℕ) (s : Threads) : Type 0 where
    pub size : length s.phases ≡ n
    pub full : (r : UnlockResult) → s.loaded ≡ some r → count Returns s.phases ≡ n

  pub count-le-length : (ps : List Phase) → count Returns ps ≤ length ps
  count-le-length [] = omega arith
  count-le-length (Phase.running ∷ ps) = omega (arith, count-le-length ps)
  count-le-length (Phase.over ∷ ps) = omega (arith, count-le-length ps)
  count-le-length (Phase.notifying ∷ ps) = omega (arith, count-le-length ps)
  count-le-length (Phase.returned r ∷ ps) = omega (arith, count-le-length ps)
  count-le-length (Phase.counted r ∷ ps) = omega (arith, count-le-length ps)
  count-le-length (Phase.checking r ∷ ps) = omega (arith, count-le-length ps)
  count-le-length (Phase.closing r ∷ ps) = omega (arith, count-le-length ps)
  count-le-length (Phase.overwriting r ∷ ps) = omega (arith, count-le-length ps)

  counted_one-cases : (p : Phase) → (counted_one Returns p ≡ 0) ⊎ (counted_one Returns p ≡ 1)
  counted_one-cases Phase.running = inl refl
  counted_one-cases (Phase.returned r) = inl refl
  counted_one-cases (Phase.counted r) = inr refl
  counted_one-cases (Phase.checking r) = inr refl
  counted_one-cases (Phase.closing r) = inr refl
  counted_one-cases (Phase.overwriting r) = inr refl
  counted_one-cases Phase.notifying = inr refl
  counted_one-cases Phase.over = inr refl

  count-HasCounted : (ps : List Phase) → count Returns ps ≡ length ps → HasCounted Returns ps
  count-HasCounted [] e = tt
  count-HasCounted (p ∷ ps) e = elim (counted_one-cases p) [
    | inl z ↦ absurd (omega (arith, z, e, count-le-length ps))
    | inr o ↦ (o, count-HasCounted ps (omega (arith, o, e)))
  ]

  ThreadStep-counted_one :
      (n : ℕ) {s t : Shared} {p q : Phase}
      → ThreadStep Returns n s p t q
      → counted_one Returns p ≤ counted_one Returns q
  ThreadStep-counted_one n (returns s r x) = omega arith
  ThreadStep-counted_one n (counts s r) = omega arith
  ThreadStep-counted_one n (stores s r x) = omega arith
  ThreadStep-counted_one n (keeps s r x) = omega arith
  ThreadStep-counted_one n (leaves s r x) = omega arith
  ThreadStep-counted_one n (closes s r x) = omega arith
  ThreadStep-counted_one n (finds s r x) = omega arith
  ThreadStep-counted_one n (misses s r x) = omega arith
  ThreadStep-counted_one n (overwrites s r) = omega arith
  ThreadStep-counted_one n (notifies s) = omega arith

  Step-Counted :
      (n : ℕ) {s t : Threads} → Step Returns n s t → Sound Returns s → Counted n s → Counted n t
  Step-Counted n (thread front back s t p q loaded st) h c = record {
    size = omega (arith, c.size, length-append front (p ∷ back), length-append front (q ∷ back));
    full = λ r e. omega (
      arith,
      c.full r e,
      ThreadStep-counted_one n st,
      count-append Returns front (p ∷ back),
      count-append Returns front (q ∷ back),
      count-le-length (front ++ q ∷ back),
      c.size,
      length-append front (p ∷ back),
      length-append front (q ∷ back),
    );
  }
  Step-Counted n (loads s phases e) h c = record {
    size = c.size;
    full = λ r x. omega (arith, h.counted, e);
  }

  start-Counted : (n : ℕ) → Counted n (start_threads n)
  start-Counted n = record { size = length-start n; full = λ r e. cc }

  pub Reach-Counted : (n : ℕ) {t : Threads} → Reach Returns n (start_threads n) t → Counted n t
  Reach-Counted n here = start-Counted n
  Reach-Counted n (next r st) =
      Step-Counted n st (Reach-Sound Returns n (start-Sound Returns n) r) (Reach-Counted n r)

  -- The main thread gets past its wait only when every thread has returned from RunServer and has
  -- counted itself; the number of threads never changes.
  pub loaded-HasCounted :
      (n : ℕ) (t : Threads) (r : UnlockResult)
      → Reach Returns n (start_threads n) t
      → t.loaded ≡ some r
      → (length t.phases ≡ n) × HasCounted Returns t.phases
  loaded-HasCounted n t r reach e =
      let c = Reach-Counted n reach in (c.size, count-HasCounted t.phases (c.full r e ∙ sym c.size))

  -- A phase from which a thread cannot move is its end.
  pub Phase-step :
      (n : ℕ)
      → ((r : UnlockResult) × Returns r)
      → (s : Shared) (p : Phase)
      → (p ≡ Phase.over) ⊎ ((t : Shared) × (q : Phase) × ThreadStep Returns n s p t q)
  Phase-step n some_result s Phase.running =
      inr (s, Phase.returned some_result.0, returns s some_result.0 some_result.1)
  Phase-step n some_result s (Phase.returned r) = inr (_, _, counts s r)
  Phase-step n some_result s (Phase.counted r) = elim (Bool-cases (is_success r.state)) [
    | inl y ↦ inr (_, _, stores s r y)
    | inr y ↦ inr (_, _, keeps s r y)
  ]
  Phase-step n some_result s (Phase.checking r) = elim (Bool-cases (s.completed == n)) [
    | inl y ↦ inr (_, _, closes s r ((==_iff _ _).0 y))
    | inr y ↦ inr (_, _, leaves s r (λ f. absurd (ground arith)))
  ]
  Phase-step n some_result s (Phase.closing r) = elim (Bool-cases (is_success s.current.state)) [
    | inl y ↦ inr (_, _, finds s r y)
    | inr y ↦ inr (_, _, misses s r y)
  ]
  Phase-step n some_result s (Phase.overwriting r) = inr (_, _, overwrites s r)
  Phase-step n some_result s Phase.notifying = inr (_, _, notifies s)
  Phase-step n some_result s Phase.over = inl refl

  pub count_over : (ps : List Phase) → All (λ p. p ≡ Phase.over) ps → count Returns ps ≡ length ps
  count_over [] h = refl
  count_over (p ∷ ps) h = rw h.0 (omega (arith, count_over ps h.1))
