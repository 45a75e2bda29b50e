-- ===== src/I18n/Get.antt =====
-- I18n::Get. The static member `m_Locale` is the state: `none` is -1.
use Prim.Native.String.{String}
use text.Mathlib.Text.{◌==◌ as str_eq}
use pcbu_natives_old.Prelude.{
  ℕ, ◌≡◌, refl, ap, sym, ◌∙◌, inl, inr, ◌↔◌, ◌≤◌, Bool, true, false, Option, none, some, List, [],
  ◌∷◌, map, arith, ◌==◌, Bool-cases, if◌then◌else◌,
}
use pcbu_natives_old.I18n.Texts.{LangMap, en_lang_map, de_lang_map}
use pcbu_natives_old.I18n.Locale.{Environment, find_locale, find_locale-le}
use pcbu_natives_old.UnlockState.{UnlockState, text_key}

unfoldable pub lookup : String → LangMap → Option String
lookup key [] = none
lookup key ((k, text) ∷ rest) = if str_eq k key then some text else lookup key rest

unfoldable pub map_of : ℕ → LangMap
unfolding en_lang_map de_lang_map
map_of locale = if locale == 1 then de_lang_map else en_lang_map

-- `fmt::format` is the formatting library's.
module _ (format : String → List String → String) where
  unfoldable pub get : Environment → Option ℕ → String → List String → Option ℕ × String
  get env m_locale key args =
      let locale : ℕ = elim m_locale [ none ↦ find_locale env | some l ↦ l ] in
      (some locale, elim (lookup key (map_of locale)) [ none ↦ key | some text ↦ format text args ])

  -- UnlockStateUtils::ToString
  unfoldable pub to_string : Environment → Option ℕ → UnlockState → Option ℕ × String
  unfolding get
  to_string env m_locale state = get env m_locale (text_key state) []

-- The keys of a language map, in order.
abbrev keys : LangMap → List String
keys = map (λ entry. entry.0)

has_key : String → List String → Bool
has_key key [] = false
has_key key (k ∷ ks) = if str_eq k key then true else has_key key ks

-- Whether a key is there depends on the keys alone.
lookup-has_key :
    (key : String) (m : LangMap) → (lookup key m ≡ none) ↔ (has_key key (keys m) ≡ false)
unfolding lookup has_key
lookup-has_key key [] = ((λ e. refl), (λ e. refl))
lookup-has_key key ((k, t) ∷ m) = elim (Bool-cases (str_eq k key)) [
  | inl hit ↦ rw hit ((λ e. cc), (λ e. cc))
  | inr miss ↦ rw miss (lookup-has_key key m)
]

same_keys : keys en_lang_map ≡ keys de_lang_map
unfolding en_lang_map de_lang_map
same_keys = refl

-- The two languages have texts for the same keys, so a key is missing in one exactly if it is missing
-- in the other.
pub lang_maps-agree :
    (key : String) → (lookup key en_lang_map ≡ none) ↔ (lookup key de_lang_map ≡ none)
lang_maps-agree key = (
  (λ e.
      (lookup-has_key key de_lang_map).1
        (ap (has_key key) (sym same_keys) ∙ (lookup-has_key key en_lang_map).0 e)),
  (λ e.
      (lookup-has_key key en_lang_map).1
        (ap (has_key key) same_keys ∙ (lookup-has_key key de_lang_map).0 e)),
)

-- A call of Get leaves a locale behind, which stays through later calls whatever the environment has
-- become. If there was none before, it is 0 or 1.
pub get_locale :
    (format : String → List String → String) (before later : Environment) (m : Option ℕ)
    (key key' : String) (args args' : List String)
    → (l : ℕ) × ((get format before m key args).0 ≡ some l)
      × ((get format later (some l) key' args').0 ≡ some l)
      × ((m ≡ none) → l ≤ 1)
unfolding get
get_locale format before later none key key' args args' =
    (find_locale before, refl, refl, λ e. find_locale-le before)
get_locale format before later (some l) key key' args args' =
    (l, refl, refl, λ e. absurd (ground arith))

-- The locale that a call uses.
abbrev pub locale_of : Environment → Option ℕ → ℕ
locale_of env none = find_locale env
locale_of env (some l) = l

in_german :
    (state : UnlockState) → (text : String) × (lookup (text_key state) de_lang_map ≡ some text)
unfolding de_lang_map lookup text_key
in_german UnlockState.unknown = (_, refl)
in_german UnlockState.success = (_, refl)
in_german UnlockState.canceled = (_, refl)
in_german UnlockState.timeout = (_, refl)
in_german UnlockState.connect_error = (_, refl)
in_german UnlockState.time_error = (_, refl)
in_german UnlockState.data_error = (_, refl)
in_german UnlockState.not_paired_error = (_, refl)
in_german UnlockState.app_error = (_, refl)
in_german UnlockState.start_error = (_, refl)
in_german UnlockState.unk_error = (_, refl)

in_english :
    (state : UnlockState) → (text : String) × (lookup (text_key state) en_lang_map ≡ some text)
unfolding en_lang_map lookup text_key
in_english UnlockState.unknown = (_, refl)
in_english UnlockState.success = (_, refl)
in_english UnlockState.canceled = (_, refl)
in_english UnlockState.timeout = (_, refl)
in_english UnlockState.connect_error = (_, refl)
in_english UnlockState.time_error = (_, refl)
in_english UnlockState.data_error = (_, refl)
in_english UnlockState.not_paired_error = (_, refl)
in_english UnlockState.app_error = (_, refl)
in_english UnlockState.start_error = (_, refl)
in_english UnlockState.unk_error = (_, refl)

text_key-lookup :
    (l : ℕ) (state : UnlockState)
    → (text : String) × (lookup (text_key state) (map_of l) ≡ some text)
unfolding map_of
text_key-lookup l state = elim (Bool-cases (l == 1)) [
  | inl german ↦ rw german (in_german state)
  | inr english ↦ rw english (in_english state)
]

-- ToString never falls back to a bare key: whatever the locale and the state, it is the formatted
-- text that the language has for the state's key.
pub to_string_translated :
    (format : String → List String → String) (env : Environment) (m : Option ℕ)
    (state : UnlockState)
    → (text : String) × (lookup (text_key state) (map_of (locale_of env m)) ≡ some text)
      × ((to_string format env m state).1 ≡ format text [])
unfolding to_string get
to_string_translated format env none state =
    let (text, e) = text_key-lookup (find_locale env) state in
    (text, e, rw (e, to_string, get) refl)
to_string_translated format env (some l) state =
    let (text, e) = text_key-lookup l state in (text, e, rw (e, to_string, get) refl)
