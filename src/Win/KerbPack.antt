-- ===== src/Win/KerbPack.antt =====
-- KerbInteractiveUnlockLogonPack and KerbInteractiveUnlockLogonUnpackInPlace of
-- win-pcbiounlock/src/helpers.cpp. A packed logon is its header, whose buffers are offsets, and the
-- block of memory it lies in: the header takes the first `header_size` bytes of the block,
-- sizeof(KERB_INTERACTIVE_UNLOCK_LOGON), and the texts lie behind it.
use pcbu_natives_old.Prelude.{
  ℕ, ◌+◌, ◌-◌, ◌/◌, ◌%◌, Bool, Option, none, some, [], ◌∷◌, leb, ◌==◌, ◌&&◌, if◌then◌else◌, take,
  drop,
}
use pcbu_natives_old.Prelude.Texts.{Bytes}
use pcbu_natives_old.Crypt.Memory.{Outcome, done, failed, ◌>>=◌, write_at}
use pcbu_natives_old.Win.Results.{Wide, size_t}
use pcbu_natives_old.Win.Kerb.{UnicodeString, UnlockLogon}

-- The bytes of a text in memory, the low byte of a unit first.
unfoldable pub wide_bytes : Wide → Bytes
wide_bytes [] = []
wide_bytes (u ∷ us) = u % 256 ∷ u / 256 ∷ wide_bytes us

pub record Packed : Type 0 where
  pub header : UnlockLogon ℕ
  pub block : Bytes

-- _UnicodeStringPackedUnicodeStringCopy to `at` of the block, and the offset the caller then
-- stores.
unfoldable pub packed_unicode_string_copy :
    UnicodeString Wide → ℕ → Bytes → Outcome (UnicodeString ℕ × Bytes)
packed_unicode_string_copy rus at block =
    write_at block at (take rus.length (wide_bytes rus.buffer)) >>= λ copied.
    done (record { length = rus.length; maximum_length = rus.length; buffer = at }, copied)

-- `cb`, a DWORD
abbrev pub packed_size : ℕ → UnlockLogon Wide → ℕ
packed_size header_size kiul =
    (header_size + kiul.logon_domain_name.length + kiul.user_name.length + kiul.password.length)
    % 4294967296

-- `memory` is CoTaskMemAlloc: a block of the size asked for, whatever it holds, or none.
unfoldable pub kerb_interactive_unlock_logon_pack :
    ℕ → (ℕ → Option Bytes) → UnlockLogon Wide → Outcome Packed
kerb_interactive_unlock_logon_pack header_size memory kiul =
    elim (memory (packed_size header_size kiul)) [
      | none ↦ failed
      | some block ↦
          packed_unicode_string_copy kiul.logon_domain_name header_size block >>= λ (d, after_d).
          packed_unicode_string_copy kiul.user_name (header_size + d.length) after_d
          >>= λ (u, after_u).
              packed_unicode_string_copy kiul.password (header_size + d.length + u.length) after_u
              >>= λ (p, after_p). done (record {
                header = record {
                  message_type = kiul.message_type;
                  logon_domain_name = d;
                  user_name = u;
                  password = p;
                  logon_id = 0;
                };
                block = after_p;
              })
    ]

-- The sanity check of one buffer, and the pointer it becomes in a block at address `base`.
abbrev pub in_block : ℕ → UnicodeString ℕ → Bool
in_block cb us = leb (size_t (us.buffer + us.maximum_length)) cb

abbrev pub relocated : ℕ → UnicodeString ℕ → UnicodeString ℕ
relocated base us = record {
  length = us.length;
  maximum_length = us.maximum_length;
  buffer = if us.buffer == 0 then 0 else size_t (base + us.buffer);
}

unfoldable pub kerb_interactive_unlock_logon_unpack_in_place :
    ℕ → ℕ → ℕ → UnlockLogon ℕ → UnlockLogon ℕ
kerb_interactive_unlock_logon_unpack_in_place header_size base cb kiul =
    if leb header_size cb
      && (in_block cb kiul.logon_domain_name
          && (in_block cb kiul.user_name && in_block cb kiul.password))
    then record {
      message_type = kiul.message_type;
      logon_domain_name = relocated base kiul.logon_domain_name;
      user_name = relocated base kiul.user_name;
      password = relocated base kiul.password;
      logon_id = kiul.logon_id;
    }
    else kiul

-- What a UNICODE_STRING with a pointer into the block at `base` holds.
abbrev pub held : ℕ → Bytes → UnicodeString ℕ → Bytes
held base block us = take us.length (drop (us.buffer - base) block)
