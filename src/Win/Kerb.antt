-- ===== src/Win/Kerb.antt =====
-- UnicodeStringInitWithString and KerbInteractiveUnlockLogonInit of
-- win-pcbiounlock/src/helpers.cpp.
use pcbu_natives_old.Prelude.{
  ℕ, ◌&&◌, ◌*◌, ◌<◌, ◌≤◌, ◌≡◌, refl, ◌⊎◌, inl, inr, Bool, true, false, Bool-cases, Option, none,
  some, arith, leb, if◌then◌else◌, length,
}
use pcbu_natives_old.Win.Results.{
  Wide, Result, ok, error, ◌>>=◌, e_invalid_arg, e_fail, e_arithmetic_overflow,
}

-- CREDENTIAL_PROVIDER_USAGE_SCENARIO
pub data UsageScenario : Type 0 where
  invalid logon unlock_workstation change_password credui plap : UsageScenario

-- UNICODE_STRING: its length and size in bytes, and what the pointer leads to.
pub record UnicodeString (B : Type 0) : Type 0 where
  pub length : ℕ
  pub maximum_length : ℕ
  pub buffer : B

-- KERB_LOGON_SUBMIT_TYPE, with the 0 that stands for none.
pub data SubmitType : Type 0 where
  no_type interactive_logon workstation_unlock_logon : SubmitType

-- KERB_INTERACTIVE_UNLOCK_LOGON, with the members of its Logon.
pub record UnlockLogon (B : Type 0) : Type 0 where
  pub message_type : SubmitType
  pub logon_domain_name : UnicodeString B
  pub user_name : UnicodeString B
  pub password : UnicodeString B
  pub logon_id : ℕ

-- SizeTToUShort and UShortMult of intsafe.h: a value of 16 bits, or the failure.
pub record SafeSizes : Type 0 where
  pub to_ushort : ℕ → Result ℕ
  pub ushort_mult : ℕ → ℕ → Result ℕ

abbrev pub checked_ushort : ℕ → Result ℕ
checked_ushort n = if leb n 65535 then ok n else error e_arithmetic_overflow

pub record ChecksSizes (sizes : SafeSizes) : Type 0 where
  pub to_ushort_checks : (n : ℕ) → sizes.to_ushort n ≡ checked_ushort n
  pub ushort_mult_checks : (n k : ℕ) → sizes.ushort_mult n k ≡ checked_ushort (n * k)

abbrev or_overflow : {B : Type 0} → Result B → Result B
or_overflow (ok n) = ok n
or_overflow (error hr) = error e_arithmetic_overflow

-- sizeof(wchar_t) is 2.
unfoldable pub unicode_string_init_with_string :
    SafeSizes → Option Wide → Result (UnicodeString Wide)
unicode_string_init_with_string sizes none = error e_invalid_arg
unicode_string_init_with_string sizes (some text) = sizes.to_ushort (length text) >>= λ count.
    sizes.to_ushort 2 >>= λ size. or_overflow (sizes.ushort_mult count size) >>= λ bytes.
    ok (record { length = bytes; maximum_length = bytes; buffer = text })

-- The `switch` on the usage scenario.
abbrev pub submit_type : UsageScenario → Result SubmitType
submit_type unlock_workstation = ok workstation_unlock_logon
submit_type logon = ok interactive_logon
submit_type credui = ok no_type
submit_type _ = error e_fail

unfoldable pub kerb_interactive_unlock_logon_init :
    SafeSizes → Option Wide → Option Wide → Option Wide → UsageScenario → Result (UnlockLogon Wide)
kerb_interactive_unlock_logon_init sizes domain username password cpus =
    unicode_string_init_with_string sizes domain >>= λ d.
    unicode_string_init_with_string sizes username >>= λ u.
    unicode_string_init_with_string sizes password >>= λ p. submit_type cpus >>= λ type.
    ok (record {
      message_type = type;
      logon_domain_name = d;
      user_name = u;
      password = p;
      logon_id = 0;
    })

-- A text as a UNICODE_STRING, and three texts as a logon.
abbrev pub whole_string : Wide → UnicodeString Wide
whole_string text = record {
  length = 2 * length text;
  maximum_length = 2 * length text;
  buffer = text;
}

abbrev pub whole_logon : SubmitType → Wide → Wide → Wide → UnlockLogon Wide
whole_logon type d u p = record {
  message_type = type;
  logon_domain_name = whole_string d;
  user_name = whole_string u;
  password = whole_string p;
  logon_id = 0;
}

-- A UNICODE_STRING holds at most 32767 units.
abbrev pub Short : Wide → Type 0
Short text = length text ≤ 32767

abbrev pub is_short : Wide → Bool
is_short text = leb (length text) 32767

submit_type-cases :
    (cpus : UsageScenario)
    → ((type : SubmitType) × (submit_type cpus ≡ ok type)) ⊎ (submit_type cpus ≡ error e_fail)
submit_type-cases logon = inl (interactive_logon, refl)
submit_type-cases unlock_workstation = inl (workstation_unlock_logon, refl)
submit_type-cases credui = inl (no_type, refl)
submit_type-cases invalid = inr refl
submit_type-cases change_password = inr refl
submit_type-cases plap = inr refl

module _ (sizes : SafeSizes) (checks : ChecksSizes sizes) where
  pub init-Short :
      (text : Wide)
      → Short text
      → unicode_string_init_with_string sizes (some text) ≡ ok (whole_string text)
  unfolding unicode_string_init_with_string
  init-Short text short =
      let twice : length text * 2 ≡ 2 * length text = omega arith in
      let fits : leb (length text) 65535 ≡ true = ground arith in
      let fits_twice : leb (2 * length text) 65535 ≡ true = ground arith in
      rw (
        checks.to_ushort_checks (length text),
        fits,
        checks.to_ushort_checks 2,
        checks.ushort_mult_checks (length text) 2,
        twice,
        fits_twice,
      )

  init_long :
      (text : Wide)
      → 32767 < length text
      → unicode_string_init_with_string sizes (some text) ≡ error e_arithmetic_overflow
  unfolding unicode_string_init_with_string
  init_long text long = elim (Bool-cases (leb (length text) 65535)) [
    | inr big ↦ rw (checks.to_ushort_checks (length text), big)
    | inl fits ↦
        let over : leb (length text * 2) 65535 ≡ false = ground arith in
        rw (
          checks.to_ushort_checks (length text),
          fits,
          checks.to_ushort_checks 2,
          checks.ushort_mult_checks (length text) 2,
          over,
        )
  ]

  -- KerbInteractiveUnlockLogonInit gives a logon of exactly the texts it is given where there are
  -- three, none has more than 32767 units, and the usage scenario is a logon, an unlock or a
  -- CredUI prompt; the message type is the scenario's. Otherwise it fails: on a scenario it does
  -- not serve, and on texts of which one is longer. The condition is that intsafe.h keeps to its
  -- documentation.
  pub init-whole_logon :
      (domain username password : Wide) (cpus : UsageScenario)
      → ((type : SubmitType) × (submit_type cpus ≡ ok type)
          × Short domain
          × Short username
          × Short password
          × (kerb_interactive_unlock_logon_init sizes
                (some domain)
                (some username)
                (some password)
                cpus
              ≡ ok (whole_logon type domain username password)))
        ⊎ ((is_short domain && is_short username && is_short password ≡ true)
            × (submit_type cpus ≡ error e_fail)
            × (kerb_interactive_unlock_logon_init sizes
                  (some domain)
                  (some username)
                  (some password)
                  cpus
                ≡ error e_fail))
        ⊎ ((is_short domain && is_short username && is_short password ≡ false)
            × (kerb_interactive_unlock_logon_init sizes
                  (some domain)
                  (some username)
                  (some password)
                  cpus
                ≡ error e_arithmetic_overflow))
  unfolding kerb_interactive_unlock_logon_init
  init-whole_logon d u p cpus = elim (Bool-cases (is_short d)) [
    | inr long_d ↦ inr (inr (rw long_d refl, rw (init_long d (ground arith)) refl))
    | inl short_d ↦ elim (Bool-cases (is_short u)) [
      | inr long_u ↦ inr (
          inr (
            rw (short_d, long_u) refl,
            rw (init-Short d (ground arith), init_long u (ground arith)) refl,
          ))
      | inl short_u ↦ elim (Bool-cases (is_short p)) [
        | inr long_p ↦ inr (
            inr (
              rw (short_d, short_u, long_p) refl,
              rw
                  (
                    init-Short d (ground arith),
                    init-Short u (ground arith),
                    init_long p (ground arith),
                  )
                  refl,
            ))
        | inl short_p ↦ elim (submit_type-cases cpus) [
          | inl (type, known) ↦ inl (
            type,
            known,
            ground arith,
            ground arith,
            ground arith,
            rw
                (
                  init-Short d (ground arith),
                  init-Short u (ground arith),
                  init-Short p (ground arith),
                  known,
                )
                refl,
          )
          | inr unknown ↦ inr (
              inl (
                rw (short_d, short_u, short_p) refl,
                unknown,
                rw
                    (
                      init-Short d (ground arith),
                      init-Short u (ground arith),
                      init-Short p (ground arith),
                      unknown,
                    )
                    refl,
              ))
        ]
      ]
    ]
  ]
