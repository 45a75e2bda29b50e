-- ===== src/Win/Credential/Start.antt =====
-- CUnlockCredential::Initialize of win-pcbiounlock/src/CUnlockCredential.cpp on a new tile, with the
-- tables of common.h, and the whole life of a tile.
use pcbu_natives_old.Prelude.{
  ℕ, suc, ◌≡◌, refl, ◌∙◌, arith, inl, inr, Bool, true, Option, none, some, Option-cases, List, [],
  ◌∷◌, length, set,
}
use pcbu_natives_old.Prelude.Texts.{codes}
use pcbu_natives_old.Win.Results.{Wide, s_ok, ok}
use pcbu_natives_old.Win.Kerb.{UsageScenario}
use pcbu_natives_old.Win.Credential.State.{
  FieldStatePair, FieldDescriptor, Credential, new_credential, field_descriptors, field_state_pairs,
}
use pcbu_natives_old.Win.Credential.Operations.{
  TileCalls, label, field_descriptor_copy, copy_fields, initialize_user, initialize_strings,
  initialize, User, set_selected,
}
use pcbu_natives_old.Win.Credential.Serialization.{password_source}
use pcbu_natives_old.Win.Credential.Follows.{Copies, stored, Follows, run_calls-Session}
use pcbu_natives_old.Win.Credential.Session.{
  Session, Call, run_calls, run_session, offered, has_sent,
}

abbrev pub empty_session : Session
empty_session = record { typed = []; sent = none }

-- Stores from an index on, one after the other.
abbrev set_all : {A : Type 0} → List A → ℕ → List A → List A
set_all xs i [] = xs
set_all xs i (v ∷ vs) = set_all (set xs i v) (suc i) vs

module _ (calls : TileCalls) (copies : Copies calls) (pwd : Wide) where
  -- The tile before the user is asked for.
  abbrev with_strings : UsageScenario → User → Credential
  with_strings cpus user = record new_credential {
    cpus = cpus;
    is_local_user = user.is_local;
    descriptors = field_descriptors pwd;
    states = field_state_pairs;
    strings =
        none
        ∷ some (calls.to_wide (calls.translate "initializing"))
        ∷ some []
        ∷ some (codes "Submit")
        ∷ [];
  }

  copied : (i : ℕ) (d : FieldDescriptor) → field_descriptor_copy calls i d ≡ ok d
  unfolding field_descriptor_copy
  copied i d = elim (Option-cases d.label) [
    | inl e ↦ rw e refl
    | inr (text, e) ↦ rw (e, copies (label i) text) refl
  ]

  fields_copied :
      (i : ℕ) (ds : List FieldDescriptor) (pairs : List FieldStatePair) (c : Credential)
      → length ds ≡ length pairs
      → copy_fields calls i ds pairs c ≡ (
        s_ok,
        record c { states = set_all c.states i pairs; descriptors = set_all c.descriptors i ds },
      )
  unfolding copy_fields
  fields_copied i [] [] c same = refl
  fields_copied i [] (pair ∷ pairs) c same = absurd (omega arith)
  fields_copied i (d ∷ ds) [] c same = absurd (omega arith)
  fields_copied i (d ∷ ds) (pair ∷ pairs) c same =
      rw (copied i d, copy_fields)
        (fields_copied (suc i) ds pairs
          (record c { states = set c.states i pair; descriptors = set c.descriptors i d })
          (omega arith))

  strings_stored :
      (user : User) (c : Credential)
      → initialize_strings calls user c
        ≡ initialize_user user (record c {
          strings =
              set
                (set
                  (set c.strings 1 (some (calls.to_wide (calls.translate "initializing"))))
                  2
                  (some []))
                3
                (some (codes "Submit"));
        })
  unfolding initialize_strings
  strings_stored user c =
      let message = calls.to_wide (calls.translate "initializing") in
      let c1 = record c { strings = set c.strings 1 (some message) } in
      let c2 = record c1 { strings = set c1.strings 2 (some []) } in
      rw
        (
          stored calls copies 1 message c,
          stored calls copies 2 [] c1,
          stored calls copies 3 (codes "Submit") c2,
        )
        refl

  initialize-user :
      (cpus : UsageScenario) (user : User)
      → initialize calls cpus (field_descriptors pwd) field_state_pairs user new_credential
        ≡ initialize_user user (with_strings cpus user)
  unfolding initialize
  initialize-user cpus user =
      rw
        (fields_copied 0 (field_descriptors pwd) field_state_pairs
          (record new_credential { cpus = cpus; is_local_user = user.is_local }) refl)
        (strings_stored user (record new_credential {
          cpus = cpus;
          is_local_user = user.is_local;
          states = field_state_pairs;
          descriptors = field_descriptors pwd;
        }))

  with_strings-Follows :
      (cpus : UsageScenario) (user : User) (name sid : Option Wide) (listener : Bool)
      → Follows pwd
          (record (with_strings cpus user) {
            qualified_user_name = name;
            user_sid = sid;
            has_listener = listener;
          })
          empty_session
  with_strings-Follows cpus user name sid listener = record {
    fields = refl;
    four = refl;
    same_typed = refl;
    same_sent = refl;
  }

  -- The tile of a user with a name and a SID.
  abbrev pub known_tile : UsageScenario → Bool → Wide → Wide → Credential
  known_tile cpus is_local name sid =
      record (with_strings cpus
        (record { is_local = is_local; qualified_name = ok name; sid = ok sid; listener = true })) {
          qualified_user_name = some name;
          user_sid = some sid;
          has_listener = true;
        }

  pub initialize-known_tile :
      (cpus : UsageScenario) (user : User) (name sid : Wide)
      → user.qualified_name ≡ ok name
      → user.sid ≡ ok sid
      → user.listener ≡ true
      → initialize calls cpus (field_descriptors pwd) field_state_pairs user new_credential
        ≡ (s_ok, known_tile cpus user.is_local name sid)
  unfolding initialize_user
  initialize-known_tile cpus user name sid named known listening =
      initialize-user cpus user ∙ rw (named, known, listening) refl

  -- The life of a tile: a new tile that Initialize sets up for a user with a name and a SID takes the
  -- user's name, and after any sequence of calls it logs on with what the abstract session, empty at
  -- the start, offers, and asks for an automatic logon exactly if a phone has sent a password. The
  -- conditions are that Windows gives the user's name and SID, that there is memory for the listener,
  -- and that texts can be copied.
  pub initialize-Session :
      (cpus : UsageScenario) (user : User) (name sid : Wide) (xs : List Call)
      → user.qualified_name ≡ ok name
      → user.sid ≡ ok sid
      → user.listener ≡ true
      → (c : Credential) × (initialize calls cpus
            (field_descriptors pwd)
            field_state_pairs
            user
            new_credential
          ≡ (s_ok, c))
        × (c.qualified_user_name ≡ some name)
        × (password_source calls.to_wide (run_calls calls xs c)
            ≡ offered calls.to_wide (run_session xs empty_session))
        × ((set_selected (run_calls calls xs c)).0 ≡ has_sent (run_session xs empty_session))
  initialize-Session cpus user name sid xs named known listening =
      let c = known_tile cpus user.is_local name sid in
      let life =
        run_calls-Session calls copies pwd xs c empty_session
          (with_strings-Follows cpus user (some name) (some sid) true) in
      (c, initialize-known_tile cpus user name sid named known listening, refl, life.1, life.2)
