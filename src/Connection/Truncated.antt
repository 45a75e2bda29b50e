-- ===== src/Connection/Truncated.antt =====
-- ReadPacket of TCPUnlockClient where the connection ends too early.
use mathlib.Core.Path.{ap₂}
use pcbu_natives_old.Prelude.{
  ℕ, zero, suc, ◌+◌, ◌-◌, ◌^◌, ◌≤◌, ◌<◌, ◌≡◌, refl, ap, sym, ◌∙◌, inl, inr, some, List, [], ◌∷◌,
  ◌++◌, append_assoc, arith, length, length-append, length-take, take, drop, take-append-drop,
  Option-cases,
}
use pcbu_natives_old.Prelude.Texts.{Bytes}
use pcbu_natives_old.Connection.Socket.{
  put_back, read_some, broken, word16, read_loop, packet_size, read_body, read_sized, read_packet,
}
use pcbu_natives_old.Connection.Framing.{
  Delivers, flatten, flatten-put_back, read_loop-complete, read_loop_broken, read_loop_step,
  read_sized_lem,
}

-- A read gives some of the bytes that arrive, and not more than was asked for.
read_some-flatten :
    (n : ℕ) (pieces : List Bytes) {got : Bytes} {rest : List Bytes}
    → read_some n pieces ≡ some (got, rest)
    → 0 < n
    → (flatten pieces ≡ got ++ flatten rest) × (0 < length got) × (length got ≤ n)
unfolding read_some
read_some-flatten n [] e pos = absurd (ground arith)
read_some-flatten n ([] ∷ ps) e pos = absurd (ground arith)
read_some-flatten n ((b ∷ bs) ∷ ps) {got} {rest} e pos =
    let front : take n (b ∷ bs) ≡ got = cc in
    let back : put_back (drop n (b ∷ bs)) ps ≡ rest = cc in
    let size = length-take n (b ∷ bs) in
    let size' = ap length front in
    (
      ap (λ t. t ++ flatten ps) (sym (take-append-drop n (b ∷ bs)))
          ∙ append_assoc (take n (b ∷ bs)) (drop n (b ∷ bs)) (flatten ps)
          ∙ ap₂ (◌++◌) front (sym (flatten-put_back (drop n (b ∷ bs)) ps) ∙ ap flatten back),
      omega (arith, size, size'),
      omega (arith, size, size'),
    )

-- Where too few bytes arrive, a read loop ends with a failed read.
read_loop-broken :
    (fuel size k : ℕ) (buffer : Bytes) (pieces : List Bytes)
    → k + length (flatten pieces) < size
    → size < word16
    → size < k + fuel
    → (rest : List Bytes) × (read_loop fuel size k buffer pieces ≡ broken rest)
read_loop-broken zero size k buffer pieces few small enough = absurd (omega arith)
read_loop-broken (suc fuel) size k buffer pieces few small enough =
    elim (Option-cases (read_some (size - k) pieces)) [
      | inl end ↦ (pieces, read_loop_broken fuel size k buffer pieces (omega arith) end)
      | inr ((got, rest), e) ↦
          let (flat, some_bytes, most) = read_some-flatten (size - k) pieces e (omega arith) in
          let sizes = ap length flat in
          let sum = length-append got (flatten rest) in
          let (rest', done) =
            read_loop-broken fuel size (k + length got) (buffer ++ got) rest
              (omega (arith, sizes, sum)) small (omega (arith, some_bytes)) in
          (
            rest',
            read_loop_step fuel size k buffer got pieces rest (omega arith) e
                  (omega (arith, sizes, sum))
                ∙ done,
          )
    ]

-- ReadPacket returns the empty packet if the connection ends before the two length bytes, and if it
-- ends before all of the bytes that these announce.
pub read_packet_short :
    (pieces : List Bytes)
    → (length (flatten pieces) < 2 → read_packet pieces ≡ [])
      × ((head part : Bytes)
          → Delivers pieces
          → length head ≡ 2
          → flatten pieces ≡ head ++ part
          → length part < packet_size head
          → packet_size head < 2 ^ 16
          → read_packet pieces ≡ [])
unfolding read_packet
read_packet_short pieces = (no_head, no_body)
  where
    no_head : length (flatten pieces) < 2 → read_packet pieces ≡ []
    no_head few =
        let (rest, e) =
          read_loop-broken 3 2 0 [] pieces (omega arith) (omega arith) (omega arith) in
        ap read_sized e ∙ unfold read_sized in refl

    no_body :
        (head part : Bytes)
        → Delivers pieces
        → length head ≡ 2
        → flatten pieces ≡ head ++ part
        → length part < packet_size head
        → packet_size head < 2 ^ 16
        → read_packet pieces ≡ []
    no_body head part d two e few small =
        let (rest, done, flat, d') =
          read_loop-complete 3 2 0 [] head part pieces d e (omega (arith, two)) (omega arith)
            (omega (arith, two)) in
        let size = packet_size head in
        let (rest', done') =
          read_loop-broken (suc size) size 0 [] rest (omega (arith, ap length flat)) small
            (omega arith) in
        ap read_sized done
        ∙ read_sized_lem head rest size refl (omega arith)
        ∙ ap read_body done'
        ∙ unfold read_body in refl

-- ReadPacket returns the empty packet if the connection ends after the two length bytes and before all
-- of the bytes that these announce, in whatever pieces they arrive.
pub read_packet_truncated :
    (pieces : List Bytes) (head part : Bytes)
    → Delivers pieces
    → length head ≡ 2
    → flatten pieces ≡ head ++ part
    → length part < packet_size head
    → packet_size head < 2 ^ 16
    → read_packet pieces ≡ []
read_packet_truncated pieces head part = (read_packet_short pieces).1 head part
