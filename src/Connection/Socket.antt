-- ===== src/Connection/Socket.antt =====
-- The packets on a socket: ReadPacket and WritePacket of
-- common-cpp/src/connection/clients/TCPUnlockClient.cpp. What a socket delivers is the list of the
-- pieces in which the bytes arrive; its end, and a piece of no bytes, is a read that returns 0 or -1.
-- What it accepts is the list of the results of `write`, where 0 stands for a result of 0 or -1.
use pcbu_natives_old.Prelude.{
  ℕ, zero, suc, ◌+◌, ◌-◌, ◌*◌, ◌/◌, ◌%◌, ◌^◌, Bool, true, false, Option, none, some, List, [], ◌∷◌,
  ◌++◌, ltb, ◌==◌, if◌then◌else◌, length, take, drop, get_or,
}
use pcbu_natives_old.Prelude.Texts.{Bytes}

-- What is left of a piece goes before the next.
abbrev pub put_back : Bytes → List Bytes → List Bytes
put_back [] pieces = pieces
put_back (b ∷ bs) pieces = (b ∷ bs) ∷ pieces

-- read(socket, buffer, n)
unfoldable pub read_some : ℕ → List Bytes → Option (Bytes × List Bytes)
read_some n [] = none
read_some n ([] ∷ pieces) = none
read_some n ((b ∷ bs) ∷ pieces) = some (take n (b ∷ bs), put_back (drop n (b ∷ bs)) pieces)

-- A read loop ends with all its bytes or with a failed read; `spinning` is fuel that ran out.
pub data ReadResult : Type 0 where
  complete : Bytes → List Bytes → ReadResult
  broken : List Bytes → ReadResult
  spinning : ReadResult

abbrev pub word16 : ℕ
word16 = 2 ^ 16

-- `while (bytesRead < packetSize)`, with the uint16_t counter and the bytes stored so far.
unfoldable pub read_loop : ℕ → ℕ → ℕ → Bytes → List Bytes → ReadResult
read_loop zero size bytes_read buffer pieces = spinning
read_loop (suc fuel) size bytes_read buffer pieces = elim (ltb bytes_read size) [
  | false ↦ complete buffer pieces
  | true ↦ elim (read_some (size - bytes_read) pieces) [
    | none ↦ broken pieces
    | some (got, rest) ↦
        read_loop fuel size ((bytes_read + length got) % word16) (buffer ++ got) rest
  ]
]

-- `ntohs` of the two bytes.
unfoldable pub packet_size : Bytes → ℕ
packet_size buffer = get_or buffer 0 0 * 256 + get_or buffer 1 0

-- The second half of ReadPacket, once the length bytes are read.
unfoldable pub read_body : ReadResult → Bytes
read_body (complete buffer rest) = buffer
read_body (broken rest) = []
read_body spinning = []

unfoldable pub read_sized : ReadResult → Bytes
read_sized (broken rest) = []
read_sized spinning = []
read_sized (complete len_buffer rest) =
    let size = packet_size len_buffer in
    if size == 0 then [] else read_body (read_loop (suc size) size 0 [] rest)

-- An empty result is every failure.
unfoldable pub read_packet : List Bytes → Bytes
read_packet pieces = read_sized (read_loop 3 2 0 [] pieces)

-- A write loop: the results left, the bytes that went out, and whether all did.
pub record Written : Type 0 where
  pub results : List ℕ
  pub sent : Bytes
  pub all_sent : Bool

-- `while (bytesWritten < size)` over the results of `write`.
unfoldable pub write_loop : List ℕ → Bytes → Bytes → Written
write_loop results [] sent = record { results = results; sent = sent; all_sent = true }
write_loop [] (b ∷ bs) sent = record { results = []; sent = sent; all_sent = false }
write_loop (zero ∷ results) (b ∷ bs) sent = record {
  results = results;
  sent = sent;
  all_sent = false;
}
write_loop (suc r ∷ results) (b ∷ bs) sent =
    write_loop results (drop (suc r) (b ∷ bs)) (sent ++ take (suc r) (b ∷ bs))

-- `htons((uint16_t)size)`, as the two bytes in memory.
unfoldable pub length_bytes : ℕ → Bytes
length_bytes size = (size % word16) / 256 ∷ (size % word16) % 256 ∷ []

-- What goes out.
unfoldable pub write_packet : List ℕ → Bytes → Written
write_packet results payload =
    let head = write_loop results (length_bytes (length payload)) [] in
    if head.all_sent then write_loop head.results payload head.sent else head
