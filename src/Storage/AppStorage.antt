-- ===== src/Storage/AppStorage.antt =====
-- common-cpp/src/storage/AppStorage.cpp and AppStorage.h.
use pcbu_natives_old.Prelude.{
  ℕ, ◌≡◌, refl, ◌⊎◌, inl, inr, Bool, false, Option, none, some, ◌>>=◌, Option-cases,
}
use pcbu_natives_old.Prelude.Texts.{Bytes, codes}
use pcbu_natives_old.Storage.Json.{Json}

pub record PcbuAppSettings : Type 0 where
  pub language : Bytes
  pub server_ip : Bytes
  pub unlock_server_port : ℕ
  pub wait_for_key_press : Bool

unfoldable pub default_settings : PcbuAppSettings
default_settings = record {
  language = codes "auto";
  server_ip = codes "auto";
  unlock_server_port = 43296;
  wait_for_key_press = false;
}

-- The `try` block.
unfoldable pub read_settings : (j : Json) → Bytes → Option PcbuAppSettings
read_settings j file = do
  json ← j.parse file
  language ← j.string_at json (codes "language")
  server_ip ← j.string_at json (codes "serverIP")
  port ← j.int_at json (codes "unlockServerPort")
  wait ← j.bool_at json (codes "waitForKeyPress")
  some (record {
    language = language;
    server_ip = server_ip;
    unlock_server_port = port;
    wait_for_key_press = wait;
  })

-- `file` is what the file holds, and empty if it cannot be opened.
unfoldable pub get_settings : (j : Json) → Bytes → PcbuAppSettings
unfolding read_settings
get_settings j file = elim (read_settings j file) [ none ↦ default_settings | some s ↦ s ]

-- Some member that the settings need cannot be read.
abbrev pub Unreadable : (j : Json) → j.Value → Type 0
Unreadable j json =
    (j.string_at json (codes "language") ≡ none)
    ⊎ (j.string_at json (codes "serverIP") ≡ none)
    ⊎ (j.int_at json (codes "unlockServerPort") ≡ none)
    ⊎ (j.bool_at json (codes "waitForKeyPress") ≡ none)

-- Each setting is the member of that name.
abbrev pub ReadFrom : (j : Json) → j.Value → PcbuAppSettings → Type 0
ReadFrom j json s =
    (j.string_at json (codes "language") ≡ some s.language)
    × (j.string_at json (codes "serverIP") ≡ some s.server_ip)
    × (j.int_at json (codes "unlockServerPort") ≡ some s.unlock_server_port)
    × (j.bool_at json (codes "waitForKeyPress") ≡ some s.wait_for_key_press)

-- Where the file is no JSON, or one member cannot be read, all settings are the defaults; else all
-- are read from the file.
pub get_settings_cases :
    (j : Json) (file : Bytes)
    → ((j.parse file ≡ none) × (get_settings j file ≡ default_settings))
      ⊎ ((json : j.Value) × (j.parse file ≡ some json)
          × ((Unreadable j json × (get_settings j file ≡ default_settings))
              ⊎ ReadFrom j json (get_settings j file)))
unfolding get_settings
get_settings_cases j file = elim (Option-cases (j.parse file)) [
  | inl bad ↦ inl (bad, rw (bad, get_settings) refl)
  | inr (json, good) ↦ inr (json, good, members json good)
]
  where
    members :
        (json : j.Value)
        → j.parse file ≡ some json
        → (Unreadable j json × (get_settings j file ≡ default_settings))
          ⊎ ReadFrom j json (get_settings j file)
    members json good = elim (Option-cases (j.string_at json (codes "language"))) [
      | inl e ↦ inl (inl e, rw (good, get_settings) (rw e refl))
      | inr (l, e1) ↦ elim (Option-cases (j.string_at json (codes "serverIP"))) [
        | inl e ↦ inl (inr (inl e), rw (good, get_settings) (rw (e1, e) refl))
        | inr (ip, e2) ↦ elim (Option-cases (j.int_at json (codes "unlockServerPort"))) [
          | inl e ↦ inl (inr (inr (inl e)), rw (good, get_settings) (rw (e1, e2, e) refl))
          | inr (p, e3) ↦ elim (Option-cases (j.bool_at json (codes "waitForKeyPress"))) [
            | inl e ↦ inl (inr (inr (inr e)), rw (good, get_settings) (rw (e1, e2, e3, e) refl))
            | inr (w, e4) ↦
                inr (rw (good, get_settings) (rw (e1, e2, e3, e4) (refl, refl, refl, refl)))
          ]
        ]
      ]
    ]
