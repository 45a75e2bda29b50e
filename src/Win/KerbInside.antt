-- ===== src/Win/KerbInside.antt =====
-- KerbInteractiveUnlockLogonUnpackInPlace of win-pcbiounlock/src/helpers.cpp on any bytes.
use pcbu_natives_old.Prelude.{
  ℕ, ◌+◌, ◌<◌, ◌≤◌, ◌≡◌, refl, ◌⊎◌, inl, inr, true, Bool-cases, arith, leb, ◌==◌, ◌&&◌,
}
use pcbu_natives_old.Win.Results.{size_t}
use pcbu_natives_old.Win.Kerb.{UnicodeString, UnlockLogon}
use pcbu_natives_old.Win.KerbPack.{
  in_block, relocated, kerb_interactive_unlock_logon_unpack_in_place,
}

-- The sum of an offset and a size does not wrap around.
abbrev pub Adds : UnicodeString ℕ → Type 0
Adds us = us.buffer + us.maximum_length < 18446744073709551616

-- A null pointer, or one to a range of the block.
abbrev pub Inside : ℕ → ℕ → UnicodeString ℕ → Type 0
Inside base cb us =
    (us.buffer ≡ 0) ⊎ ((base ≤ us.buffer) × (us.buffer + us.maximum_length ≤ base + cb))

relocated-Inside :
    (base cb : ℕ) (us : UnicodeString ℕ)
    → Adds us
    → base + cb < 18446744073709551616
    → in_block cb us ≡ true
    → Inside base cb (relocated base us)
relocated-Inside base cb us adds fits inside = elim (Bool-cases (us.buffer == 0)) [
  | inl null ↦ inl (rw null refl)
  | inr offset ↦
      let sum : size_t (us.buffer + us.maximum_length) ≡ us.buffer + us.maximum_length =
        omega arith in
      let below : us.buffer + us.maximum_length ≤ cb = ground (arith, sum) in
      let moved : size_t (base + us.buffer) ≡ base + us.buffer = omega arith in
      inr (rw (offset, moved) (omega arith, omega arith))
]

-- On any header, unpacking in place either changes nothing or leaves three pointers that are null or
-- lead, over their whole size, into the block. The conditions are that the block lies below 2 ^ 64
-- and that no offset and size of the header add up to 2 ^ 64 or more.
pub unpack-Inside :
    (header_size base cb : ℕ) (kiul : UnlockLogon ℕ)
    → Adds kiul.logon_domain_name
    → Adds kiul.user_name
    → Adds kiul.password
    → base + cb < 18446744073709551616
    → (kerb_interactive_unlock_logon_unpack_in_place header_size base cb kiul ≡ kiul)
      ⊎ (let k = kerb_interactive_unlock_logon_unpack_in_place header_size base cb kiul in
          Inside base cb k.logon_domain_name
          × Inside base cb k.user_name
          × Inside base cb k.password)
unfolding kerb_interactive_unlock_logon_unpack_in_place
unpack-Inside header_size base cb kiul adds_d adds_u adds_p fits =
    let ok_d = in_block cb kiul.logon_domain_name in
    let ok_u = in_block cb kiul.user_name in
    let ok_p = in_block cb kiul.password in
    elim (Bool-cases (leb header_size cb && (ok_d && (ok_u && ok_p)))) [
      | inr bad ↦ inl (rw bad refl)
      | inl good ↦
          let in_d : ok_d ≡ true = ground arith in
          let in_u : ok_u ≡ true = ground arith in
          let in_p : ok_p ≡ true = ground arith in
          inr (
            rw good (
              relocated-Inside base cb kiul.logon_domain_name adds_d fits in_d,
              relocated-Inside base cb kiul.user_name adds_u fits in_u,
              relocated-Inside base cb kiul.password adds_p fits in_p,
            ))
    ]
