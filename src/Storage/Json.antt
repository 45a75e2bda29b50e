-- ===== src/Storage/Json.antt =====
-- What the program uses of nlohmann::json, a library that it only calls: a value is parsed from a
-- text, taken apart by member, iterated, and an object of text members, in UTF-8, is printed. `none` is an
-- exception: a text that is no JSON, a member that is missing or of another type.
use pcbu_natives_old.Prelude.{ℕ, Bool, List, Option}
use pcbu_natives_old.Prelude.Texts.{Bytes}

pub record Json : Type 1 where
  pub Value : Type 0
  pub parse : Bytes → Option Value
  pub string_at : Value → Bytes → Option Bytes
  -- An int is its bit pattern.
  pub int_at : Value → Bytes → Option ℕ
  pub bool_at : Value → Bytes → Option Bool
  pub entries : Value → List Value
  pub dump : List (Bytes × Bytes) → Bytes
