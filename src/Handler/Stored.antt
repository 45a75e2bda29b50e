-- ===== src/Handler/Stored.antt =====
-- The result of UnlockHandler::GetResult where all servers that return return the same success.
use pcbu_natives_old.Prelude.{
  ℕ, ◌≡◌, refl, subst, ap, ◌∙◌, ◌⊎◌, inl, inr, Bool, true, false, List, [], ◌∷◌, ◌++◌, All, zero,
  suc,
}
use pcbu_natives_old.UnlockState.{is_success}
use pcbu_natives_old.Handler.Result.{UnlockResult}
use pcbu_natives_old.Handler.Threads.{
  Phase, Shared, Threads, fresh, all_running, start_threads, ThreadStep, Step, Reach, returns,
  counts, stores, keeps, leaves, closes, finds, misses, overwrites, notifies, thread, loads, here,
  next, Carries, All-at, Sound, start-Sound, Reach-Sound,
}

-- Whether a thread is past `currentResult.store(serverResult)` for its success.
unfoldable pub has_stored : Phase → Bool
has_stored Phase.running = false
has_stored (Phase.returned r) = false
has_stored (Phase.counted r) = false
has_stored _ = true

module _ (Returns : UnlockResult → Type 0) (result : UnlockResult)
    (only : (r : UnlockResult) → Returns r → r ≡ result)
    (good : is_success result.state ≡ true) where
  -- Once a thread has stored its success, currentResult is that success.
  abbrev Stored : Shared → Phase → Type 0
  Stored s p = has_stored p ≡ true → s.current ≡ result

  -- A step leaves currentResult, or makes it the success.
  ThreadStep-current :
      (n : ℕ) {s t : Shared} {p q : Phase}
      → ThreadStep Returns n s p t q
      → Carries Returns p
      → (t.current ≡ s.current) ⊎ (t.current ≡ result)
  ThreadStep-current n (returns s r x) c = inl refl
  ThreadStep-current n (counts s r) c = inl refl
  ThreadStep-current n (stores s r x) c = inr (only r c)
  ThreadStep-current n (keeps s r x) c = inl refl
  ThreadStep-current n (leaves s r x) c = inl refl
  ThreadStep-current n (closes s r x) c = inl refl
  ThreadStep-current n (finds s r x) c = inl refl
  ThreadStep-current n (misses s r x) c = inl refl
  ThreadStep-current n (overwrites s r) c = inr (only r c)
  ThreadStep-current n (notifies s) c = inl refl

  ThreadStep-Stored :
      (n : ℕ) {s t : Shared} {p q : Phase}
      → ThreadStep Returns n s p t q
      → Carries Returns p
      → Stored s p
      → Stored t q
  unfolding has_stored
  ThreadStep-Stored n (returns s r x) c h e = absurd cc
  ThreadStep-Stored n (counts s r) c h e = absurd cc
  ThreadStep-Stored n (stores s r x) c h e = only r c
  ThreadStep-Stored n (keeps s r x) c h e =
      let same : is_success r.state ≡ true = ap (λ u. is_success (u.state)) (only r c) ∙ good in
      absurd cc
  ThreadStep-Stored n (leaves s r x) c h e = h refl
  ThreadStep-Stored n (closes s r x) c h e = h refl
  ThreadStep-Stored n (finds s r x) c h e = h refl
  ThreadStep-Stored n (misses s r x) c h e = h refl
  ThreadStep-Stored n (overwrites s r) c h e = only r c
  ThreadStep-Stored n (notifies s) c h e = h refl

  later-Stored :
      (s t : Shared) (p : Phase)
      → (t.current ≡ s.current) ⊎ (t.current ≡ result)
      → Stored s p
      → Stored t p
  later-Stored s t p (inl same) h e = same ∙ h e
  later-Stored s t p (inr now) h e = now

  later-All :
      (s t : Shared) (ps : List Phase)
      → (t.current ≡ s.current) ⊎ (t.current ≡ result)
      → All (Stored s) ps
      → All (Stored t) ps
  later-All s t [] why h = tt
  later-All s t (p ∷ ps) why h = (later-Stored s t p why h.0, later-All s t ps why h.1)

  replaced-All :
      (s t : Shared) (front back : List Phase) (p q : Phase)
      → (t.current ≡ s.current) ⊎ (t.current ≡ result)
      → (Stored s p → Stored t q)
      → All (Stored s) (front ++ p ∷ back)
      → All (Stored t) (front ++ q ∷ back)
  replaced-All s t [] back p q why f h = (f h.0, later-All s t back why h.1)
  replaced-All s t (x ∷ front) back p q why f h =
      (later-Stored s t x why h.0, replaced-All s t front back p q why f h.1)

  Step-Stored :
      (n : ℕ) {s t : Threads}
      → Step Returns n s t
      → Sound Returns s
      → All (Stored s.shared) s.phases
      → All (Stored t.shared) t.phases
  Step-Stored n (thread front back s t p q loaded st) sound h =
      let c = All-at Returns front back p sound.carried in
      replaced-All s t front back p q (ThreadStep-current n st c) (ThreadStep-Stored n st c) h
  Step-Stored n (loads s phases e) sound h = h

  start-Stored : (s : Shared) (n : ℕ) → All (Stored s) (all_running n)
  unfolding has_stored
  start-Stored s zero = tt
  start-Stored s (suc n) = ((λ e. absurd cc), start-Stored s n)

  Reach-Stored :
      (n : ℕ) {t : Threads} → Reach Returns n (start_threads n) t → All (Stored t.shared) t.phases
  Reach-Stored n here = start-Stored fresh n
  Reach-Stored n (next r st) =
      Step-Stored n st (Reach-Sound Returns n (start-Sound Returns n) r) (Reach-Stored n r)

  -- When every server that returns returns the same success, currentResult is that success once a
  -- thread is past its store.
  pub current-success :
      (n : ℕ) (t : Threads) (p : Phase) (back : List Phase)
      → Reach Returns n (start_threads n) t
      → t.phases ≡ p ∷ back
      → has_stored p ≡ true
      → t.shared.current ≡ result
  current-success n t p back reach e stored =
      let all = subst (All (Stored t.shared)) e (Reach-Stored n reach) in all.0 stored
