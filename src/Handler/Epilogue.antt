-- ===== src/Handler/Epilogue.antt =====
-- The threads of UnlockHandler::GetResult when each one runs its steps after RunServer uninterrupted.
use pcbu_natives_old.Prelude.{
  ℕ, suc, ◌+◌, ◌≡◌, ◌≢◌, refl, ap, sym, ◌∙◌, inl, inr, Bool, true, false, ◌||◌, not, List, [], ◌∷◌,
  arith, ◌==◌, ==_iff, length, if◌then◌else◌, Bool-cases,
}
use pcbu_natives_old.UnlockState.{is_success}
use pcbu_natives_old.Handler.Result.{UnlockResult}
use pcbu_natives_old.Handler.Threads.{Shared, fresh}

-- The body of a thread after RunServer.
unfoldable pub epilogue : ℕ → UnlockResult → Shared → Shared
epilogue num_servers r s =
    let stored = if is_success r.state then r else s.current in
    record {
      current =
          if suc (s.completed) == num_servers
          then if not (is_success stored.state) then r else stored
          else stored;
      completed = suc (s.completed);
    }

-- The bodies one after another.
unfoldable pub epilogues : ℕ → List UnlockResult → Shared → Shared
epilogues num_servers [] s = s
epilogues num_servers (r ∷ rs) s = epilogues num_servers rs (epilogue num_servers r s)

abbrev pub any_success : List UnlockResult → Bool
any_success [] = false
any_success (r ∷ rs) = is_success r.state || any_success rs

abbrev pub last_of : UnlockResult → List UnlockResult → UnlockResult
last_of r [] = r
last_of r (x ∷ xs) = last_of x xs

or_true : (b : Bool) → b || true ≡ true
or_true true = refl
or_true false = refl

or_false : (b : Bool) → b || false ≡ b
or_false true = refl
or_false false = refl

or_assoc : (a b c : Bool) → (a || b) || c ≡ a || (b || c)
or_assoc true b c = refl
or_assoc false b c = refl

completed_epilogue :
    (num_servers : ℕ) (r : UnlockResult) (s : Shared)
    → (epilogue num_servers r s).completed ≡ suc (s.completed)
unfolding epilogue
completed_epilogue num_servers r s = refl

epilogue_last :
    (num_servers : ℕ) (r : UnlockResult) (s : Shared)
    → suc (s.completed) ≡ num_servers
    → (is_success (epilogue num_servers r s).current.state
        ≡ is_success s.current.state || is_success r.state)
      × (is_success s.current.state || is_success r.state ≡ false
          → (epilogue num_servers r s).current ≡ r)
unfolding epilogue
epilogue_last num_servers r s e =
    let last : (suc (s.completed) == num_servers) ≡ true = (==_iff _ _).1 e in
    elim (Bool-cases (is_success r.state)) [
      | inl y ↦ rw (last, y) (rw y (y ∙ sym (or_true _), λ f. refl))
      | inr y ↦ elim (Bool-cases (is_success s.current.state)) [
        | inl z ↦ rw (last, y) (rw z (rw z (refl, λ f. absurd (ground arith))))
        | inr z ↦ rw (last, y) (rw z (rw y (refl, λ f. refl)))
      ]
    ]

epilogue_early :
    (num_servers : ℕ) (r : UnlockResult) (s : Shared)
    → suc (s.completed) ≢ num_servers
    → is_success (epilogue num_servers r s).current.state
      ≡ is_success s.current.state || is_success r.state
unfolding epilogue
epilogue_early num_servers r s e =
    let more : (suc (s.completed) == num_servers) ≡ false = ground arith in
    elim (Bool-cases (is_success r.state)) [
      | inl y ↦ rw (more, y) (y ∙ sym (or_true _))
      | inr y ↦ rw (more, y) (sym (or_false _))
    ]

epilogues_lem :
    (num_servers : ℕ) (r : UnlockResult) (rs : List UnlockResult) (s : Shared)
    → s.completed + length (r ∷ rs) ≡ num_servers
    → (is_success (epilogues num_servers (r ∷ rs) s).current.state
        ≡ is_success s.current.state || any_success (r ∷ rs))
      × (is_success s.current.state || any_success (r ∷ rs) ≡ false
          → (epilogues num_servers (r ∷ rs) s).current ≡ last_of r rs)
      × ((epilogues num_servers (r ∷ rs) s).completed ≡ num_servers)
unfolding epilogues
epilogues_lem num_servers r [] s e =
    let (a, b) = epilogue_last num_servers r s (omega arith) in
    rw (or_false (is_success r.state)) (a, b, rw (completed_epilogue num_servers r s) (omega arith))
epilogues_lem num_servers r (x ∷ rs) s e =
    let (a, b, c) =
      epilogues_lem num_servers x rs (epilogue num_servers r s)
        (rw (completed_epilogue num_servers r s) (omega arith)) in
    let k =
      ap (λ t. t || any_success (x ∷ rs))
        (epilogue_early num_servers r s (λ f. absurd (omega arith)))
      ∙ or_assoc (is_success s.current.state) (is_success r.state) (any_success (x ∷ rs)) in
    (a ∙ k, λ f. b (k ∙ f), c)

-- When the threads' bodies run one after another, in the order of the list, the main thread finds them
-- all counted, a success if and only if one of the results is one, and else the last result.
pub epilogues-any_success :
    (r : UnlockResult) (rs : List UnlockResult)
    → (is_success (epilogues (length (r ∷ rs)) (r ∷ rs) fresh).current.state ≡ any_success (r ∷ rs))
      × (any_success (r ∷ rs) ≡ false
          → (epilogues (length (r ∷ rs)) (r ∷ rs) fresh).current ≡ last_of r rs)
      × ((epilogues (length (r ∷ rs)) (r ∷ rs) fresh).completed ≡ length (r ∷ rs))
epilogues-any_success r rs = epilogues_lem (length (r ∷ rs)) r rs fresh (omega arith)
