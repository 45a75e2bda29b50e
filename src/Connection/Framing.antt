-- ===== src/Connection/Framing.antt =====
-- A packet survives the way in which a socket cuts it up.
use mathlib.Core.Path.{ap₂}
use pcbu_natives_old.Prelude.{
  ℕ, zero, suc, ◌+◌, ◌-◌, ◌%◌, ◌^◌, ◌≤◌, ◌<◌, ◌≡◌, ◌≢◌, refl, ap, sym, ◌∙◌, true, false, none, some,
  List, [], ◌∷◌, ◌++◌, append_assoc, append-nil, arith, ltb, ◌==◌, length, length-append, take,
  drop, All, lt→ltb,
}
use pcbu_natives_old.Prelude.Texts.{Bytes}
use pcbu_natives_old.Connection.Socket.{
  put_back, read_some, complete, broken, word16, read_loop, packet_size, read_body, read_sized,
  read_packet, length_bytes,
}

-- The bytes of all pieces.
abbrev pub flatten : List Bytes → Bytes
flatten [] = []
flatten (p ∷ ps) = p ++ flatten ps

-- The socket delivers some bytes with each piece.
abbrev pub Delivers : List Bytes → Type 0
Delivers = All (λ p. p ≢ [])

pub flatten-put_back :
    (bytes : Bytes) (ps : List Bytes) → flatten (put_back bytes ps) ≡ bytes ++ flatten ps
flatten-put_back [] ps = refl
flatten-put_back (b ∷ bs) ps = refl

Delivers-put_back : (bytes : Bytes) (ps : List Bytes) → Delivers ps → Delivers (put_back bytes ps)
Delivers-put_back [] ps h = h
Delivers-put_back (b ∷ bs) ps h = ((λ e. cc), h)

-- A read for the length of what is wanted takes a part of it off the front.
split_read :
    (piece next want more : Bytes)
    → piece ++ next ≡ want ++ more
    → (later : Bytes) × (want ≡ take (length want) piece ++ later)
      × (drop (length want) piece ++ next ≡ later ++ more)
split_read [] next [] more e = ([], refl, e)
split_read [] next (w ∷ want) more e = (w ∷ want, refl, e)
split_read (p ∷ piece) next [] more e = ([], refl, e)
split_read (p ∷ piece) next (w ∷ want) more e =
    let (later, a, b) = split_read piece next want more (cc) in (later, ap₂ (◌∷◌) (cc) a, b)

-- One round of the loop, by what the test and the read come to.
read_loop_stop :
    (fuel size k : ℕ) (buffer : Bytes) (pieces : List Bytes)
    → size ≤ k
    → read_loop (suc fuel) size k buffer pieces ≡ complete buffer pieces
unfolding read_loop
read_loop_stop fuel size k buffer pieces h =
    let stop : ltb k size ≡ false = ground arith in rw (stop, read_loop) refl

pub read_loop_step :
    (fuel size k : ℕ) (buffer got : Bytes) (pieces rest : List Bytes)
    → k < size
    → read_some (size - k) pieces ≡ some (got, rest)
    → k + length got < word16
    → read_loop (suc fuel) size k buffer pieces
      ≡ read_loop fuel size (k + length got) (buffer ++ got) rest
unfolding read_loop
read_loop_step fuel size k buffer got pieces rest h e small =
    let go : ltb k size ≡ true = lt→ltb k size h in
    let same : (k + length got) % word16 ≡ k + length got = omega arith in
    rw (go, read_loop) (rw e (ap (λ n. read_loop fuel size n (buffer ++ got) rest) same))

pub read_loop_broken :
    (fuel size k : ℕ) (buffer : Bytes) (pieces : List Bytes)
    → k < size
    → read_some (size - k) pieces ≡ none
    → read_loop (suc fuel) size k buffer pieces ≡ broken pieces
unfolding read_loop
read_loop_broken fuel size k buffer pieces h e =
    let go : ltb k size ≡ true = lt→ltb k size h in rw (go, read_loop) (rw e refl)

pub read_loop-complete :
    (fuel size k : ℕ) (buffer want more : Bytes) (pieces : List Bytes)
    → Delivers pieces
    → flatten pieces ≡ want ++ more
    → k + length want ≡ size
    → size < word16
    → length want < fuel
    → (rest : List Bytes) × (read_loop fuel size k buffer pieces ≡ complete (buffer ++ want) rest)
      × (flatten rest ≡ more)
      × Delivers rest
unfolding read_some
read_loop-complete zero size k buffer want more pieces d e at small enough = absurd (omega arith)
read_loop-complete (suc fuel) size k buffer [] more pieces d e at small enough = (
  pieces,
  read_loop_stop fuel size k buffer pieces (omega arith)
      ∙ ap (λ t. complete t pieces) (sym (append-nil buffer)),
  e,
  d,
)
read_loop-complete (suc fuel) size k buffer (w ∷ want) more [] d e at small enough =
    absurd (ground arith)
read_loop-complete (suc fuel) size k buffer (w ∷ want) more ([] ∷ ps) d e at small enough =
    absurd (d.0 refl)
read_loop-complete (suc fuel) size k buffer (w ∷ want) more ((b ∷ bs) ∷ ps) d e at small enough =
    let n = length (w ∷ want) in
    let room : size - k ≡ n = omega arith in
    let (later, cut, left) = split_read (b ∷ bs) (flatten ps) (w ∷ want) more e in
    let got = take n (b ∷ bs) in
    let rest = put_back (drop n (b ∷ bs)) ps in
    let sizes = ap length cut in
    let sum = length-append got later in
    let took : read_some (size - k) ((b ∷ bs) ∷ ps) ≡ some (got, rest) =
      ap (λ m. some (take m (b ∷ bs), put_back (drop m (b ∷ bs)) ps)) room in
    let some_read : 0 < length got = omega arith in
    let (rest', done, flat, d') =
      read_loop-complete fuel size (k + length got) (buffer ++ got) later more rest
        (Delivers-put_back (drop n (b ∷ bs)) ps d.1) (flatten-put_back (drop n (b ∷ bs)) ps ∙ left)
        (omega (arith, sizes, sum)) small (omega (arith, sizes, sum, some_read)) in
    (
      rest',
      read_loop_step fuel size k buffer got ((b ∷ bs) ∷ ps) rest (omega arith) took
            (omega (arith, sizes, sum))
          ∙ done
          ∙ ap (λ t. complete t rest') (append_assoc buffer got later ∙ ap (◌++◌ buffer) (sym cut)),
      flat,
      d',
    )

packet_size-length_bytes : (n : ℕ) → packet_size (length_bytes n) ≡ n % word16
unfolding packet_size length_bytes
packet_size-length_bytes n = omega arith

-- The read of a packet whose size is not zero.
pub read_sized_lem :
    (head : Bytes) (rest : List Bytes) (size : ℕ)
    → packet_size head ≡ size
    → 0 < size
    → read_sized (complete head rest) ≡ read_body (read_loop (suc size) size 0 [] rest)
unfolding read_sized
read_sized_lem head rest size e pos =
    let full : (size == 0) ≡ false = ground arith in rw e (rw full refl)

-- Behind the length bytes the packet is read to its size.
read_packet-sized :
    (head payload more : Bytes) (pieces : List Bytes)
    → Delivers pieces
    → flatten pieces ≡ head ++ (payload ++ more)
    → length head ≡ 2
    → packet_size head ≡ length payload
    → 0 < length payload
    → length payload < word16
    → read_packet pieces ≡ payload
unfolding read_packet
read_packet-sized head payload more pieces d e two says some_bytes small =
    let (rest, done, flat, d') =
      read_loop-complete 3 2 0 [] head (payload ++ more) pieces d e (omega (arith, two))
        (omega arith) (omega (arith, two)) in
    let (rest', done', flat', d'') =
      read_loop-complete (suc (length payload)) (length payload) 0 [] payload more rest d' flat
        (omega arith) small (omega arith) in
    ap read_sized done
    ∙ read_sized_lem head rest (length payload) says some_bytes
    ∙ ap read_body done'
    ∙ unfold read_body in refl

-- ReadPacket finds the packet that WritePacket's two length bytes announce, however the socket cuts
-- the bytes into pieces, and whatever follows it.
pub read_packet-frame :
    (payload more : Bytes) (pieces : List Bytes)
    → 0 < length payload
    → length payload < 2 ^ 16
    → Delivers pieces
    → flatten pieces ≡ length_bytes (length payload) ++ (payload ++ more)
    → read_packet pieces ≡ payload
read_packet-frame payload more pieces some_bytes small d e =
    let says = packet_size-length_bytes (length payload) in
    read_packet-sized (length_bytes (length payload)) payload more pieces d e
      (unfold length_bytes in refl) (omega (arith, says)) some_bytes small
