-- ===== src/I18n/Locale.antt =====
-- I18n::FindLocale. What the system is asked is a parameter: the language setting, the name that
-- Windows gives the thread's locale, /etc/locale.conf, and the answer of setlocale.
use pcbu_natives_old.Prelude.{
  ℕ, ◌≤◌, arith, Bool, not, Option, none, some, List, [], ◌∷◌, ◌==◌, if◌then◌else◌,
}
use pcbu_natives_old.Prelude.Texts.{Bytes, codes, bytes_eq}
use pcbu_natives_old.Utils.Affix.{starts_with}
use pcbu_natives_old.Utils.Split.{pieces}

pub record Environment : Type 0 where
  pub language : Bytes
  pub windows : Bool
  -- `none` if LCIDToLocaleName fails.
  pub locale_name : Option Bytes
  -- `none` if the file does not exist.
  pub locale_conf : Option Bytes
  pub c_locale : Bytes

-- `std::getline` with a delimiter, and then the rest of the line: what stands before the delimiter,
-- and what behind it, if there is one.
unfoldable pub key_value : ℕ → Bytes → Bytes × Option Bytes
key_value sep [] = ([], none)
key_value sep (c ∷ line) =
    let (key, value) = key_value sep line in if c == sep then ([], some line) else (c ∷ key, value)

-- Both reads of a line succeed only if they extract something: a line with a delimiter and a value.
lang_of_line : Bytes → Option Bytes
unfolding key_value bytes_eq
lang_of_line [] = none
lang_of_line (c ∷ line) = elim ((key_value b'=' (c ∷ line)).1) [
  | none ↦ none
  | some [] ↦ none
  | some (v ∷ value) ↦
      if bytes_eq (key_value b'=' (c ∷ line)).0 (codes "LANG") then some (v ∷ value) else none
]

-- The loop over the lines, up to the first LANG.
lang_of_lines : List Bytes → Bytes
unfolding lang_of_line
lang_of_lines [] = []
lang_of_lines (line ∷ lines) = elim (lang_of_line line) [
  | none ↦ lang_of_lines lines
  | some value ↦ value
]

unfoldable pub unix_locale : Environment → Bytes
unfolding lang_of_lines pieces
unix_locale env = elim env.locale_conf [
  | none ↦ env.c_locale
  | some file ↦ lang_of_lines (pieces b'\n' file)
]

german_or_english : Bytes → ℕ
unfolding starts_with
german_or_english locale = if starts_with locale (codes "de") then 1 else 0

unfoldable pub find_locale : Environment → ℕ
unfolding bytes_eq unix_locale german_or_english
find_locale env =
    if not (bytes_eq env.language (codes "auto"))
    then if bytes_eq env.language (codes "de_DE") then 1 else 0
    else if env.windows
    then elim env.locale_name [ none ↦ 0 | some name ↦ german_or_english name ]
    else german_or_english (unix_locale env)

german_or_english-le : (locale : Bytes) → german_or_english locale ≤ 1
unfolding german_or_english
german_or_english-le locale = ground arith

pub find_locale-le : (env : Environment) → find_locale env ≤ 1
unfolding find_locale
find_locale-le env = ground (arith, german_or_english-le (unix_locale env))
