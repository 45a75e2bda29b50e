-- ===== src/Handler/KeyScanner.antt =====
-- common-cpp/src/handler/KeyScanner.cpp and KeyScanner.h, in the Linux build.
use pcbu_natives_old.Prelude.{
  ℕ, suc, ◌≡◌, refl, inl, inr, Bool, true, false, not, ◌&&◌, Option, none, some, List, [], ◌∷◌,
  ◌==◌, if◌then◌else◌, get_elem?, set, Bool-cases,
}
use pcbu_natives_old.Prelude.Texts.{Bytes, codes}
use pcbu_natives_old.Utils.Affix.{ends_with}
use pcbu_natives_old.Crypt.Memory.{Outcome, done, overflow, ◌>>=◌}

-- std::map<int, bool>, the newest entry of a key first.
abbrev pub KeyMap : Type 0
KeyMap = List (ℕ × Bool)

pub record KeyScanner : Type 0 where
  pub is_running : Bool
  pub has_thread : Bool
  pub key_maps : List KeyMap

unfoldable pub new_scanner : KeyScanner
new_scanner = record { is_running = false; has_thread = false; key_maps = [] }

-- `keyMap.count(key) && keyMap[key]`
unfoldable pub is_down : KeyMap → ℕ → Bool
is_down [] key = false
is_down ((k, v) ∷ entries) key = if k == key then v else is_down entries key

unfoldable pub any_down : List KeyMap → ℕ → Bool
any_down [] key = false
any_down (m ∷ maps) key = if is_down m key then true else any_down maps key

unfoldable pub get_key_state : KeyScanner → ℕ → Bool
get_key_state k key = any_down k.key_maps key

-- `m_KeyMaps[0]`, outside the vector when it is empty.
unfoldable pub get_all_keys : KeyScanner → Outcome KeyMap
get_all_keys k = elim (get_elem? k.key_maps 0) [ none ↦ overflow | some m ↦ done m ]

unfoldable pub start_scanner : KeyScanner → KeyScanner
start_scanner k = if k.is_running then k else record k { is_running = true; has_thread = true }

-- The thread is joined.
unfoldable pub stop_scanner : KeyScanner → KeyScanner
stop_scanner k = if not k.is_running then k else record k { is_running = false; has_thread = false }

-- `m_KeyMaps[idx][code] = value`
unfoldable pub store_key : ℕ → ℕ → Bool → KeyScanner → Outcome KeyScanner
store_key idx code value k = elim (get_elem? k.key_maps idx) [
  | none ↦ overflow
  | some m ↦ done (record k { key_maps = set k.key_maps idx ((code, value) ∷ m) })
]

-- The loop over the keyboards: what `read` gives for each, `none` when there is no whole event.
unfoldable pub scan_keyboards : ℕ → List (Option (ℕ × ℕ)) → KeyScanner → Outcome KeyScanner
scan_keyboards idx [] k = done k
scan_keyboards idx (none ∷ reads) k = scan_keyboards (suc idx) reads k
scan_keyboards idx (some (code, value) ∷ reads) k =
    store_key idx code (not (value == 0)) k >>= λ t. scan_keyboards (suc idx) reads t

-- The rounds until m_IsRunning is found false.
unfoldable pub scan_rounds : List (List (Option (ℕ × ℕ))) → KeyScanner → Outcome KeyScanner
scan_rounds [] k = done k
scan_rounds (reads ∷ rounds) k = scan_keyboards 0 reads k >>= λ t. scan_rounds rounds t

-- The descriptors of the keyboards that could be opened.
unfoldable pub opened_keyboards : List (Option ℕ) → List ℕ
opened_keyboards [] = []
opened_keyboards (none ∷ keyboards) = opened_keyboards keyboards
opened_keyboards (some fd ∷ keyboards) = fd ∷ opened_keyboards keyboards

-- `keyboards` is what `open` gives for each keyboard; the second result are the descriptors closed.
unfoldable pub scan_thread :
    List (Option ℕ) → List (List (Option (ℕ × ℕ))) → KeyScanner → Outcome (KeyScanner × List ℕ)
scan_thread keyboards rounds k = elim (opened_keyboards keyboards) [
  | [] ↦ done (k, [])
  | fd ∷ fds ↦ scan_rounds rounds k >>= λ t. done (t, fd ∷ fds)
]

-- The entries of /dev/input/by-path/, each a file name and a path.
unfoldable pub get_keyboards : List (Bytes × Bytes) → List Bytes
get_keyboards [] = []
get_keyboards ((filename, path) ∷ entries) =
    if ends_with filename (codes "0-event-kbd")
    then path ∷ get_keyboards entries
    else get_keyboards entries

-- No keyboard has an event in a round, or in any.
abbrev pub is_silent : List (Option (ℕ × ℕ)) → Bool
is_silent [] = true
is_silent (none ∷ reads) = is_silent reads
is_silent (some e ∷ reads) = false

abbrev pub all_silent : List (List (Option (ℕ × ℕ))) → Bool
all_silent [] = true
all_silent (reads ∷ rounds) = is_silent reads && all_silent rounds

get_elem?-nil : (idx : ℕ) → get_elem? {A = KeyMap} [] idx ≡ none
get_elem?-nil idx = refl

scan_keyboards-empty :
    (idx : ℕ) (reads : List (Option (ℕ × ℕ))) (k : KeyScanner)
    → k.key_maps ≡ []
    → scan_keyboards idx reads k ≡ (if is_silent reads then done k else overflow)
unfolding scan_keyboards store_key
scan_keyboards-empty idx [] k e = refl
scan_keyboards-empty idx (none ∷ reads) k e = scan_keyboards-empty (suc idx) reads k e
scan_keyboards-empty idx (some (code, value) ∷ reads) k e = rw e refl

scan_rounds-empty :
    (rounds : List (List (Option (ℕ × ℕ)))) (k : KeyScanner)
    → k.key_maps ≡ []
    → scan_rounds rounds k ≡ (if all_silent rounds then done k else overflow)
unfolding scan_rounds
scan_rounds-empty [] k e = refl
scan_rounds-empty (reads ∷ rounds) k e = elim (Bool-cases (is_silent reads)) [
  | inl s ↦ rw (scan_keyboards-empty 0 reads k e, s) (scan_rounds-empty rounds k e)
  | inr s ↦ rw (scan_keyboards-empty 0 reads k e, s) refl
]

-- m_KeyMaps is never filled. From the scanner's start on, a thread that has a keyboard writes outside
-- it at the first event; and one that sees no event leaves every key up.
pub scan_thread-new_scanner :
    (fd : ℕ) (keyboards : List (Option ℕ)) (rounds : List (List (Option (ℕ × ℕ))))
    → (all_silent rounds ≡ false
        → scan_thread (some fd ∷ keyboards) rounds (start_scanner new_scanner) ≡ overflow)
      × (all_silent rounds ≡ true
          → (k : KeyScanner) × (fds : List ℕ) × (scan_thread
                (some fd ∷ keyboards)
                rounds
                (start_scanner new_scanner)
              ≡ done (k, fds))
            × ((key : ℕ) → get_key_state k key ≡ false))
unfolding scan_thread opened_keyboards start_scanner new_scanner get_key_state any_down
scan_thread-new_scanner fd keyboards rounds = (
  λ s. rw (scan_rounds-empty rounds running refl, s) refl,
  λ s. (
    running,
    fd ∷ opened_keyboards keyboards,
    rw (scan_rounds-empty rounds running refl, s) refl,
    λ key. refl,
  ),
)
  where
    running : KeyScanner
    running = start_scanner new_scanner
