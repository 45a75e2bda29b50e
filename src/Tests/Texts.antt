-- ===== src/Tests/Texts.antt =====
-- Text helpers and translations at concrete inputs.
use pcbu_natives_old.Prelude.{
  ℕ, ◌≡◌, ◌≢◌, ◌↔◌, ◌⊎◌, refl, ap, sym, ◌∙◌, true, false, Option, none, some, List, [], ◌∷◌, ◌++◌,
  arith, length, replicate, length-replicate,
}
use pcbu_natives_old.Prelude.Texts.{Bytes, codes}
use pcbu_natives_old.Utils.Split.{split_string, IsSplit, split_string-IsSplit}
use pcbu_natives_old.Utils.Affix.{starts_with, starts_with_iff}
use pcbu_natives_old.Utils.Hex.{IsMalloc, to_hex_string, hex_size, hex_text, to_hex_string-hex_text}
use pcbu_natives_old.Utils.Bluetooth.{Scanned, str2ba, ba2str, ba2str-str2ba}
use pcbu_natives_old.I18n.Locale.{Environment}
use pcbu_natives_old.Tests.Samples.{sample_malloc}

split_string-IsSplit_example :
    (ps : List Bytes) × (split_string (codes "a,b") 44 ≡ some ps) × IsSplit 44 (codes "a,b") ps
split_string-IsSplit_example = split_string-IsSplit (codes "a,b") 44

starts_with_iff_example :
    (starts_with (codes "de_DE") (codes "de") ≡ true)
    ↔ ((rest : Bytes) × (codes "de_DE" ≡ codes "de" ++ rest))
starts_with_iff_example = starts_with_iff (codes "de_DE") (codes "de")

sample_malloc-IsMalloc : IsMalloc sample_malloc
sample_malloc-IsMalloc n buffer e = ap size (sym e) ∙ length-replicate {A = ℕ} n 0
  where
    size : Option Bytes → ℕ
    size none = 0
    size (some b) = length b

abbrev two_bytes : Bytes
two_bytes = 171 ∷ 5 ∷ []

to_hex_string-hex_text_example :
    ((two_bytes ≡ []) × (to_hex_string sample_malloc two_bytes ≡ []))
    ⊎ ((two_bytes ≢ [])
        × (sample_malloc (hex_size two_bytes) ≡ none)
        × (to_hex_string sample_malloc two_bytes ≡ []))
    ⊎ ((buffer : Bytes) × (two_bytes ≢ [])
        × (sample_malloc (hex_size two_bytes) ≡ some buffer)
        × (to_hex_string sample_malloc two_bytes ≡ hex_text two_bytes ++ 0 ∷ []))
to_hex_string-hex_text_example =
    to_hex_string-hex_text sample_malloc two_bytes sample_malloc-IsMalloc

abbrev scanned : Scanned
scanned = record { a0 = 1; a1 = 2; a2 = 3; a3 = 4; a4 = 5; a5 = 6 }

abbrev format : Bytes → Bytes
format bytes = replicate 17 58

ba2str-str2ba_example :
    (btaddr : ℕ) × (str2ba (some scanned) ≡ some btaddr)
    × (ba2str format btaddr ≡ (1, format (1 ∷ 2 ∷ 3 ∷ 4 ∷ 5 ∷ 6 ∷ [])))
ba2str-str2ba_example =
    ba2str-str2ba format scanned (omega arith) (omega arith) (omega arith) (omega arith)
      (omega arith) (omega arith) (λ bytes h. refl)

abbrev environment : Environment
environment = record {
  language = codes "auto";
  windows = false;
  locale_name = none;
  locale_conf = none;
  c_locale = codes "de_DE.UTF-8";
}
