-- ===== src/Win/KerbRoundTrip.antt =====
-- Packing of a logon, and its unpacking: what a packed logon holds, that a packed logon unpacks to
-- the texts it was made of, and that unpacking makes no pointer out of the block.
use pcbu_natives_old.Prelude.{
  ℕ, ◌+◌, ◌-◌, ◌*◌, ◌<◌, ◌≤◌, ◌≡◌, refl, ap, sym, ◌∙◌, subst, true, false, Option, some, [], ◌∷◌,
  ◌++◌, append_assoc, append-nil, arith, leb, ◌==◌, length, length-append, length-take, length-drop,
  take, drop, take_all, take-append, drop-append, take-append-drop, drop-nil, zero, suc,
}
use pcbu_natives_old.Prelude.Texts.{Bytes}
use pcbu_natives_old.Crypt.Memory.{done, write_at-append}
use pcbu_natives_old.Win.Results.{Wide, size_t}
use pcbu_natives_old.Win.Kerb.{
  UnicodeString, UnlockLogon, SubmitType, whole_string, whole_logon, Short,
}
use pcbu_natives_old.Win.KerbPack.{
  wide_bytes, Packed, packed_unicode_string_copy, packed_size, kerb_interactive_unlock_logon_pack,
  in_block, relocated, kerb_interactive_unlock_logon_unpack_in_place, held,
}

length-wide_bytes : (w : Wide) → length (wide_bytes w) ≡ 2 * length w
unfolding wide_bytes
length-wide_bytes [] = refl
length-wide_bytes (u ∷ us) = omega (arith, length-wide_bytes us)

-- The string that a copied text becomes.
abbrev packed_at : ℕ → Wide → UnicodeString ℕ
packed_at at text = record {
  length = 2 * length text;
  maximum_length = 2 * length text;
  buffer = at;
}

copy_behind :
    (front tail : Bytes) (text : Wide) (at : ℕ)
    → at ≡ length front
    → 2 * length text ≤ length tail
    → packed_unicode_string_copy (whole_string text) at (front ++ tail)
      ≡ done (packed_at at text, (front ++ wide_bytes text) ++ drop (2 * length text) tail)
unfolding packed_unicode_string_copy
copy_behind front tail text at e room =
    let len : length (wide_bytes text) ≡ 2 * length text = length-wide_bytes text in
    let whole : take (2 * length text) (wide_bytes text) ≡ wide_bytes text =
      take_all (wide_bytes text) (2 * length text) (omega (arith, len)) in
    let written = write_at-append front tail (wide_bytes text) at e (omega (arith, len)) in
    rw (whole, written, len)

drop_all : (xs : Bytes) (n : ℕ) → length xs ≤ n → drop n xs ≡ []
drop_all [] n h = drop-nil n
drop_all (x ∷ xs) zero h = absurd (omega arith)
drop_all (x ∷ xs) (suc n) h = drop_all xs n (omega arith)

-- The three strings of an unpacked logon hold the bytes of three texts.
abbrev pub Reads : ℕ → Bytes → UnlockLogon ℕ → Wide → Wide → Wide → Type 0
Reads base block kiul d u p =
    (held base block kiul.logon_domain_name ≡ wide_bytes d)
    × (held base block kiul.user_name ≡ wide_bytes u)
    × (held base block kiul.password ≡ wide_bytes p)

module _ (header_size : ℕ) (memory : ℕ → Option Bytes) where
  abbrev pub bytes_of : Wide → Wide → Wide → ℕ
  bytes_of d u p = header_size + 2 * length d + 2 * length u + 2 * length p

  -- The packed logon of three texts.
  abbrev packed : SubmitType → Wide → Wide → Wide → Bytes → Packed
  packed type d u p block = record {
    header = record {
      message_type = type;
      logon_domain_name = packed_at header_size d;
      user_name = packed_at (header_size + 2 * length d) u;
      password = packed_at (header_size + 2 * length d + 2 * length u) p;
      logon_id = 0;
    };
    block = take header_size block ++ wide_bytes d ++ wide_bytes u ++ wide_bytes p;
  }

  -- Packing a logon of three texts of at most 32767 units each into the memory it gets writes
  -- nothing out of the block, and leaves behind the header exactly the bytes of the three texts,
  -- one after the other, with their offsets in the header. The conditions are that the memory has
  -- the size asked for and that the header has less than 65536 bytes.
  pub pack-whole_logon :
      (type : SubmitType) (d u p : Wide) (block : Bytes)
      → Short d
      → Short u
      → Short p
      → header_size < 65536
      → memory (bytes_of d u p) ≡ some block
      → length block ≡ bytes_of d u p
      → kerb_interactive_unlock_logon_pack header_size memory (whole_logon type d u p)
        ≡ done (packed type d u p block)
  unfolding kerb_interactive_unlock_logon_pack
  pack-whole_logon type d u p block short_d short_u short_p small given size =
      let cb : packed_size header_size (whole_logon type d u p) ≡ bytes_of d u p = omega arith in
      let front = take header_size block in
      let tail = drop header_size block in
      let whole : front ++ tail ≡ block = take-append-drop header_size block in
      let front_length : length front ≡ header_size =
        omega (arith, length-take header_size block) in
      let tail_length : length tail ≡ 2 * length d + 2 * length u + 2 * length p =
        omega (arith, length-drop header_size block) in
      let tail_u = drop (2 * length d) tail in
      let tail_u_length : length tail_u ≡ 2 * length u + 2 * length p =
        omega (arith, length-drop (2 * length d) tail) in
      let tail_p = drop (2 * length u) tail_u in
      let tail_p_length : length tail_p ≡ 2 * length p =
        omega (arith, length-drop (2 * length u) tail_u) in
      let after_d = front ++ wide_bytes d in
      let after_d_length : length after_d ≡ header_size + 2 * length d =
        omega (arith, length-append front (wide_bytes d), length-wide_bytes d) in
      let after_u = after_d ++ wide_bytes u in
      let after_u_length : length after_u ≡ header_size + 2 * length d + 2 * length u =
        omega (arith, length-append after_d (wide_bytes u), length-wide_bytes u) in
      let copy_d = copy_behind front tail d header_size (sym front_length) (omega arith) in
      let copy_u =
        copy_behind after_d tail_u u (header_size + 2 * length d) (sym after_d_length)
          (omega arith) in
      let copy_p =
        copy_behind after_u tail_p p (header_size + 2 * length d + 2 * length u)
          (sym after_u_length) (omega arith) in
      let empty : drop (2 * length p) tail_p ≡ [] = drop_all tail_p (2 * length p) (omega arith) in
      let copy_whole =
        subst
          (λ b.
            packed_unicode_string_copy (whole_string d) header_size b
            ≡ done (packed_at header_size d, after_d ++ tail_u))
          whole copy_d in
      rw (cb, given, copy_whole, copy_u, copy_p, empty, kerb_interactive_unlock_logon_pack)
        (ap (λ b. done (record { header = (packed type d u p block).header; block = b }))
          (append-nil (after_u ++ wide_bytes p)))

  -- What a relocated string reads, where the bytes of its text lie behind `front` in the block.
  held_behind :
      (base at : ℕ) (front behind : Bytes) (text : Wide)
      → at ≡ length front
      → 0 < at
      → base + at < 18446744073709551616
      → held base (front ++ wide_bytes text ++ behind) (relocated base (packed_at at text))
        ≡ wide_bytes text
  held_behind base at front behind text e above fits =
      let nonzero : (at == 0) ≡ false = ground arith in
      let offset : size_t (base + at) - base ≡ at = omega arith in
      rw
        (
          nonzero,
          offset,
          append_assoc front (wide_bytes text) behind,
          drop-append front (wide_bytes text ++ behind) at e,
        )
        (take-append (wide_bytes text) behind (2 * length text) (sym (length-wide_bytes text)))

  pub unpack-pack :
      (type : SubmitType) (d u p : Wide) (block : Bytes) (base : ℕ)
      → Short d
      → Short u
      → Short p
      → 0 < header_size
      → header_size < 65536
      → memory (bytes_of d u p) ≡ some block
      → length block ≡ bytes_of d u p
      → base + bytes_of d u p < 18446744073709551616
      → (k : Packed) × (kerb_interactive_unlock_logon_pack header_size memory
            (whole_logon type d u p)
          ≡ done k)
        × (length k.block ≡ bytes_of d u p)
        × (take header_size k.block ≡ take header_size block)
        × (k.header.message_type ≡ type)
        × Reads base k.block
            (kerb_interactive_unlock_logon_unpack_in_place header_size base
              (bytes_of d u p)
              k.header)
            d
            u
            p
  unfolding kerb_interactive_unlock_logon_unpack_in_place
  unpack-pack type d u p block base short_d short_u short_p above small given size fits =
      let front = take header_size block in
      let front_length : length front ≡ header_size =
        omega (arith, length-take header_size block) in
      let after_d = front ++ wide_bytes d in
      let after_d_length : length after_d ≡ header_size + 2 * length d =
        omega (arith, length-append front (wide_bytes d), length-wide_bytes d) in
      let after_u = after_d ++ wide_bytes u in
      let after_u_length : length after_u ≡ header_size + 2 * length d + 2 * length u =
        omega (arith, length-append after_d (wide_bytes u), length-wide_bytes u) in
      let cb = bytes_of d u p in
      let whole : leb header_size cb ≡ true = ground arith in
      let in_d : in_block cb (packed_at header_size d) ≡ true = ground arith in
      let in_u : in_block cb (packed_at (header_size + 2 * length d) u) ≡ true = ground arith in
      let in_p : in_block cb (packed_at (header_size + 2 * length d + 2 * length u) p) ≡ true =
        ground arith in
      let all_d : after_d ++ (wide_bytes u ++ wide_bytes p) ≡ after_u ++ wide_bytes p =
        sym (append_assoc after_d (wide_bytes u) (wide_bytes p)) in
      let all_p : after_u ++ wide_bytes p ++ [] ≡ after_u ++ wide_bytes p =
        append-nil (after_u ++ wide_bytes p) in
      let read_d =
        subst (λ b. held base b (relocated base (packed_at header_size d)) ≡ wide_bytes d) all_d
          (held_behind base header_size front (wide_bytes u ++ wide_bytes p) d (sym front_length)
            above (omega arith)) in
      let read_u =
        held_behind base (header_size + 2 * length d) after_d (wide_bytes p) u (sym after_d_length)
          (omega arith) (omega arith) in
      let read_p =
        subst
          (λ b.
            held base b (relocated base (packed_at (header_size + 2 * length d + 2 * length u) p))
            ≡ wide_bytes p)
          all_p
          (held_behind base (header_size + 2 * length d + 2 * length u) after_u [] p
            (sym after_u_length) (omega arith) (omega arith)) in
      let untouched : take header_size (after_u ++ wide_bytes p) ≡ front =
        ap (take header_size)
          (sym all_d ∙ append_assoc front (wide_bytes d) (wide_bytes u ++ wide_bytes p))
        ∙ take-append front (wide_bytes d ++ (wide_bytes u ++ wide_bytes p)) header_size
            (sym front_length) in
      (
        packed type d u p block,
        pack-whole_logon type d u p block short_d short_u short_p small given size,
        omega (arith, length-append after_u (wide_bytes p), length-wide_bytes p),
        untouched,
        refl,
        rw (whole, in_d, in_u, in_p) (read_d, read_u, read_p),
      )
