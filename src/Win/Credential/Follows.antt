-- ===== src/Win/Credential/Follows.antt =====
-- The tile of win-pcbiounlock/src/CUnlockCredential.cpp follows the abstract session.
use pcbu_natives_old.Prelude.{
  ℕ, zero, suc, ◌<◌, ◌≡◌, ◌≢◌, refl, ap, ◌∙◌, inl, inr, false, Bool-cases, none, some, List, [],
  ◌∷◌, arith, ◌==◌, if◌then◌else◌, length, get_elem?, get_or, set, length-set,
}
use pcbu_natives_old.Prelude.Texts.{Bytes}
use pcbu_natives_old.UnlockState.{text_key, is_success}
use pcbu_natives_old.Win.Results.{Wide, s_ok}
use pcbu_natives_old.Win.Credential.State.{sfi_password, sfi_message, Credential, field_descriptors}
use pcbu_natives_old.Win.Credential.Operations.{
  TileCalls, Copy, field, string_at, store_string, update_message, set_unlock_data, advise,
  un_advise, set_selected, set_deselected, set_string_value,
}
use pcbu_natives_old.Win.Credential.Report.{report_result}
use pcbu_natives_old.Win.Credential.Serialization.{password_source}
use pcbu_natives_old.Win.Credential.Session.{
  Call, step, run_calls, Session, next, run_session, offered, has_sent, type_text, unlocked,
  message, reported, advised, un_advised, selected, deselected,
}

-- SHStrDupW copies each text it is given.
abbrev pub Copies : TileCalls → Type 0
Copies calls = (what : Copy) (text : Wide) → calls.dup what (some text) ≡ (s_ok, some text)

-- The tile has its four fields, and agrees with the session.
pub record Follows (pwd : Wide) (c : Credential) (s : Session) : Type 0 where
  pub fields : c.descriptors ≡ field_descriptors pwd
  pub four : length c.strings ≡ 4
  pub same_typed : string_at c sfi_password ≡ some s.typed
  pub same_sent :
      s.sent ≡ (if is_success c.unlock_result.state then some c.unlock_result.password else none)

get_or-set :
    {A : Type 0} (xs : List A) (i : ℕ) (d v : A) → i < length xs → get_or (set xs i v) i d ≡ v
get_or-set [] i d v h = absurd (omega arith)
get_or-set (x ∷ xs) zero d v h = refl
get_or-set (x ∷ xs) (suc i) d v h = get_or-set xs i d v (omega arith)

get_or-set-other :
    {A : Type 0} (xs : List A) (i j : ℕ) (d v : A) → i ≢ j → get_or (set xs i v) j d ≡ get_or xs j d
get_or-set-other [] i j d v h = refl
get_or-set-other (x ∷ xs) zero zero d v h = absurd (h refl)
get_or-set-other (x ∷ xs) zero (suc j) d v h = refl
get_or-set-other (x ∷ xs) (suc i) zero d v h = refl
get_or-set-other (x ∷ xs) (suc i) (suc j) d v h = get_or-set-other xs i j d v (λ e. h (ap suc e))

module _ (calls : TileCalls) (copies : Copies calls) where
  pub stored :
      (i : ℕ) (text : Wide) (c : Credential)
      → store_string calls i (some text) c
        ≡ (s_ok, record c { strings = set c.strings i (some text) })
  unfolding store_string
  stored i text c = rw (copies (field i) text) refl

module _ (calls : TileCalls) (copies : Copies calls) (pwd : Wide) where
  Follows-message :
      (text : Bytes) (c : Credential) (s : Session)
      → Follows pwd c s
      → Follows pwd (update_message calls text c).0 s
  unfolding update_message
  Follows-message text c s f = rw (stored calls copies sfi_message (calls.to_wide text) c) (record {
    fields = f.fields;
    four = length-set c.strings sfi_message _ ∙ f.four;
    same_typed = get_or-set-other c.strings 1 2 none _ (λ e. cc) ∙ f.same_typed;
    same_sent = f.same_sent;
  })

  Follows-stored :
      (text : Wide) (c : Credential) (s : Session)
      → Follows pwd c s
      → Follows pwd (record c { strings = set c.strings 2 (some text) }) (record s { typed = text })
  Follows-stored text c s f = record {
    fields = f.fields;
    four = length-set c.strings 2 (some text) ∙ f.four;
    same_typed = get_or-set c.strings 2 none (some text) (omega (arith, f.four));
    same_sent = f.same_sent;
  }

  Follows-password :
      (text : Wide) (c : Credential) (s : Session)
      → Follows pwd c s
      → Follows pwd (set_string_value calls 2 (some text) c).1 (record s { typed = text })
  unfolding set_string_value
  Follows-password text c s f =
      let found = ap (λ ds. get_elem? ds 2) f.fields in
      rw (found, stored calls copies 2 text c, set_string_value) (Follows-stored text c s f)

  Follows-other :
      (field_id : ℕ) (text : Wide) (c : Credential)
      → c.descriptors ≡ field_descriptors pwd
      → field_id ≢ 2
      → (set_string_value calls field_id (some text) c).1 ≡ c
  unfolding set_string_value
  Follows-other zero text c e ne = rw e refl
  Follows-other (suc zero) text c e ne = rw e refl
  Follows-other (suc (suc zero)) text c e ne = absurd (ne refl)
  Follows-other (suc (suc (suc zero))) text c e ne = rw e refl
  Follows-other (suc (suc (suc (suc n)))) text c e ne = rw e refl

  Follows-deselected :
      (c : Credential) (s : Session)
      → Follows pwd c s
      → Follows pwd (set_deselected calls c).1 (record s { typed = [] })
  unfolding set_deselected
  Follows-deselected c s f =
      rw (f.same_typed, stored calls copies 2 [] (record c { is_selected = false }), set_deselected)
        (Follows-stored [] (record c { is_selected = false }) s
          (record {
            fields = f.fields;
            four = f.four;
            same_typed = f.same_typed;
            same_sent = f.same_sent;
          }))

  Follows-step :
      (x : Call) (c : Credential) (s : Session)
      → Follows pwd c s
      → Follows pwd (step calls x c) (next x s)
  unfolding step next
  Follows-step (type_text field_id text) c s f = elim (Bool-cases (field_id == sfi_password)) [
    | inl hit ↦ let two : field_id ≡ 2 = ground arith in rw (hit, two) (Follows-password text c s f)
    | inr miss ↦ rw (miss, Follows-other field_id text c f.fields (ground arith)) f
  ]
  Follows-step (unlocked result) c s f =
      unfold set_unlock_data in
      Follows-message (calls.translate (text_key result.state))
        (record c { unlock_result = result })
        (record s { sent = if is_success result.state then some result.password else none })
        (record { fields = f.fields; four = f.four; same_typed = f.same_typed; same_sent = refl })
  Follows-step (message text) c s f = Follows-message text c s f
  Follows-step (reported status substatus) c s f =
      unfold report_result in
      record { fields = f.fields; four = f.four; same_typed = f.same_typed; same_sent = refl }
  Follows-step (advised hr given) c s f =
      unfold advise in
      record {
        fields = f.fields;
        four = f.four;
        same_typed = f.same_typed;
        same_sent = f.same_sent;
      }
  Follows-step un_advised c s f =
      unfold un_advise in
      record {
        fields = f.fields;
        four = f.four;
        same_typed = f.same_typed;
        same_sent = f.same_sent;
      }
  Follows-step selected c s f =
      unfold set_selected in
      record {
        fields = f.fields;
        four = f.four;
        same_typed = f.same_typed;
        same_sent = f.same_sent;
      }
  Follows-step deselected c s f = Follows-deselected c s f

  pub Follows-run_calls :
      (xs : List Call) (c : Credential) (s : Session)
      → Follows pwd c s
      → Follows pwd (run_calls calls xs c) (run_session xs s)
  unfolding run_calls run_session
  Follows-run_calls [] c s f = f
  Follows-run_calls (x ∷ xs) c s f =
      Follows-run_calls xs (step calls x c) (next x s) (Follows-step x c s f)

  Follows-offered :
      (c : Credential) (s : Session)
      → Follows pwd c s
      → password_source calls.to_wide c ≡ offered calls.to_wide s
  unfolding password_source
  Follows-offered c s f = go s.typed refl
    where
      go : (t : Wide) → s.typed ≡ t → password_source calls.to_wide c ≡ offered calls.to_wide s
      go (u ∷ us) e =
          let string : string_at c sfi_password ≡ some (u ∷ us) = f.same_typed ∙ ap some e in
          rw (string, e, password_source) refl
      go [] e =
          let string : string_at c sfi_password ≡ some [] = f.same_typed ∙ ap some e in
          elim (Bool-cases (is_success c.unlock_result.state)) [
            | inl success ↦
                let sent : s.sent ≡ some c.unlock_result.password = rw success at (f.same_sent) in
                rw (string, success, e, sent, password_source) refl
            | inr other ↦
                let sent : s.sent ≡ none = rw other at (f.same_sent) in
                rw (string, other, e, sent, password_source) refl
          ]

  Follows-has_sent :
      (c : Credential) (s : Session) → Follows pwd c s → (set_selected c).0 ≡ has_sent s
  unfolding set_selected
  Follows-has_sent c s f = elim (Bool-cases (is_success c.unlock_result.state)) [
    | inl success ↦
        let sent : s.sent ≡ some c.unlock_result.password = rw success at (f.same_sent) in
        rw (success, sent) refl
    | inr other ↦ let sent : s.sent ≡ none = rw other at (f.same_sent) in rw (other, sent) refl
  ]

  -- Whatever LogonUI and the listener call, in any order, the tile keeps its four fields; the
  -- password GetSerialization takes is the one of the abstract session, what was typed since the
  -- tile was last left, or else what a phone has sent since the last logon was reported; and
  -- SetSelected asks for an automatic logon exactly if a phone has sent one. The conditions are that
  -- the tile starts in agreement with the session and that texts can be copied.
  pub run_calls-Session :
      (xs : List Call) (c : Credential) (s : Session)
      → Follows pwd c s
      → let after = run_calls calls xs c in
        (length after.strings ≡ 4)
        × (password_source calls.to_wide after ≡ offered calls.to_wide (run_session xs s))
        × ((set_selected after).0 ≡ has_sent (run_session xs s))
  run_calls-Session xs c s f =
      let g = Follows-run_calls xs c s f in
      (
        g.four,
        Follows-offered (run_calls calls xs c) (run_session xs s) g,
        Follows-has_sent (run_calls calls xs c) (run_session xs s) g,
      )
