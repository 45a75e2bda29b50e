-- ===== src/Utils/Bluetooth.antt =====
-- common-cpp/src/utils/BTUtils.cpp: the addresses of the Windows build, and the look-up of a channel of
-- the Linux build.
use pcbu_natives_old.Prelude.{
  ℕ, ◌+◌, ◌*◌, ◌/◌, ◌%◌, ◌^◌, ◌≤◌, ◌<◌, ◌≡◌, refl, ap, ◌∙◌, Bool, true, false, ◌||◌, Option, none,
  some, List, [], ◌∷◌, ◌++◌, arith, ◌==◌, ltb, length, if◌then◌else◌, Option-cases, inl, inr,
}
use pcbu_natives_old.Prelude.Texts.{Bytes}

-- The six numbers that sscanf_s reads, %02x each.
pub record Scanned : Type 0 where
  pub a0 : ℕ
  pub a1 : ℕ
  pub a2 : ℕ
  pub a3 : ℕ
  pub a4 : ℕ
  pub a5 : ℕ

-- One round of the loop, in 64 bits.
unfoldable pub push_byte : ℕ → ℕ → ℕ
push_byte btaddr i = (btaddr * 2 ^ 8 + i % 256) % 2 ^ 64

-- `scanned` is `none` when sscanf_s does not read all six; the result is then 1.
unfoldable pub str2ba : Option Scanned → Option ℕ
unfolding push_byte
str2ba none = none
str2ba (some s) = some (
    push_byte (push_byte (push_byte (push_byte (push_byte (push_byte 0 s.a0) s.a1) s.a2) s.a3) s.a4)
      s.a5)

-- bytes[0] to bytes[5]
unfoldable pub address_bytes : ℕ → Bytes
address_bytes btaddr =
    btaddr / 2 ^ 40 % 256
    ∷ btaddr / 2 ^ 32 % 256
    ∷ btaddr / 2 ^ 24 % 256
    ∷ btaddr / 2 ^ 16 % 256
    ∷ btaddr / 2 ^ 8 % 256
    ∷ btaddr % 256
    ∷ []

-- `format` is the text that sprintf_s makes of the six bytes; it returns the text's length.
unfoldable pub ba2str : (Bytes → Bytes) → ℕ → ℕ × Bytes
ba2str format btaddr =
    let text = format (address_bytes btaddr) in (if length text == 6 then 0 else 1, text)

abbrev pub IsByte : ℕ → Type 0
IsByte n = n < 256

push_byte_small : (n i : ℕ) → n < 2 ^ 40 → IsByte i → push_byte n i ≡ n * 256 + i
unfolding push_byte
push_byte_small n i h b = omega arith

-- The number of six bytes.
number : ℕ → ℕ → ℕ → ℕ → ℕ → ℕ → ℕ
number a b c d e f = ((((a * 256 + b) * 256 + c) * 256 + d) * 256 + e) * 256 + f

str2ba-number :
    (s : Scanned)
    → IsByte s.a0
    → IsByte s.a1
    → IsByte s.a2
    → IsByte s.a3
    → IsByte s.a4
    → IsByte s.a5
    → str2ba (some s) ≡ some (number s.a0 s.a1 s.a2 s.a3 s.a4 s.a5)
unfolding str2ba number
str2ba-number s h0 h1 h2 h3 h4 h5 =
    let e0 : push_byte 0 s.a0 ≡ s.a0 = push_byte_small 0 s.a0 (omega arith) h0 ∙ omega arith in
    let e1 = push_byte_small s.a0 s.a1 (omega arith) h1 in
    let e2 = push_byte_small (s.a0 * 256 + s.a1) s.a2 (omega arith) h2 in
    let e3 = push_byte_small ((s.a0 * 256 + s.a1) * 256 + s.a2) s.a3 (omega arith) h3 in
    let e4 =
      push_byte_small (((s.a0 * 256 + s.a1) * 256 + s.a2) * 256 + s.a3) s.a4 (omega arith) h4 in
    let e5 =
      push_byte_small ((((s.a0 * 256 + s.a1) * 256 + s.a2) * 256 + s.a3) * 256 + s.a4) s.a5
        (omega arith) h5 in
    rw (e0, e1, e2, e3, e4, e5) refl

div_256 : (n i : ℕ) → IsByte i → (n * 256 + i) / 256 ≡ n
div_256 n i h = omega arith

address_bytes-number :
    (a b c d e f : ℕ)
    → IsByte a
    → IsByte b
    → IsByte c
    → IsByte d
    → IsByte e
    → IsByte f
    → address_bytes (number a b c d e f) ≡ a ∷ b ∷ c ∷ d ∷ e ∷ f ∷ []
unfolding address_bytes number
address_bytes-number a b c d e f ha hb hc hd he hf =
    let n = number a b c d e f in
    let ea : n / 2 ^ 40 % 256 ≡ a = omega arith in
    let eb : n / 2 ^ 32 % 256 ≡ b = omega arith in
    let ec : n / 2 ^ 24 % 256 ≡ c = omega arith in
    let ed : n / 2 ^ 16 % 256 ≡ d = omega arith in
    let ee : n / 2 ^ 8 % 256 ≡ e = omega arith in
    let ef : n % 256 ≡ f = omega arith in rw (ea, eb, ec, ed, ee, ef) refl

-- An address that was read from six bytes is printed from the same six, and str2ba leaves nothing out;
-- ba2str says 1, which stands for a failure, although the text was made, when it has its 17 characters.
pub ba2str-str2ba :
    (format : Bytes → Bytes) (s : Scanned)
    → IsByte s.a0
    → IsByte s.a1
    → IsByte s.a2
    → IsByte s.a3
    → IsByte s.a4
    → IsByte s.a5
    → ((bytes : Bytes) → length bytes ≡ 6 → length (format bytes) ≡ 17)
    → (btaddr : ℕ) × (str2ba (some s) ≡ some btaddr)
      × (ba2str format btaddr ≡ (1, format (s.a0 ∷ s.a1 ∷ s.a2 ∷ s.a3 ∷ s.a4 ∷ s.a5 ∷ [])))
unfolding ba2str
ba2str-str2ba format s h0 h1 h2 h3 h4 h5 len =
    let bytes = s.a0 ∷ s.a1 ∷ s.a2 ∷ s.a3 ∷ s.a4 ∷ s.a5 ∷ [] in
    (
      number s.a0 s.a1 s.a2 s.a3 s.a4 s.a5,
      str2ba-number s h0 h1 h2 h3 h4 h5,
      rw (address_bytes-number s.a0 s.a1 s.a2 s.a3 s.a4 s.a5 h0 h1 h2 h3 h4 h5, len bytes refl)
          refl,
    )

-- What one element of a protocol descriptor holds: a UUID, with the protocol of it; a byte; or
-- something else.
pub data SdpData : Type 0 where
  uuid : (protocol : ℕ) → SdpData
  uint8 : (val : ℕ) → SdpData
  other : SdpData

abbrev pub rfcomm_uuid : ℕ
rfcomm_uuid = 3

-- The innermost loop: the channel and `protocolCount`.
unfoldable pub read_data : List SdpData → ℕ → ℕ → ℕ × ℕ
read_data [] channel count = (channel, count)
read_data (uuid protocol ∷ ds) channel count = read_data ds channel protocol
read_data (uint8 val ∷ ds) channel count =
    let found = if count == rfcomm_uuid then val else channel in read_data ds found count
read_data (other ∷ ds) channel count = read_data ds channel count

-- One protocol: its descriptors, from a `protocolCount` of 0 on.
unfoldable pub read_descriptors : List (List SdpData) → ℕ → ℕ → ℕ
unfolding read_data
read_descriptors [] channel count = channel
read_descriptors (d ∷ pds) channel count =
    let next = read_data d channel count in read_descriptors pds next.0 next.1

unfoldable pub read_protocols : List (List (List SdpData)) → ℕ → ℕ
unfolding read_descriptors
read_protocols [] channel = channel
read_protocols (p ∷ protocols) channel = read_protocols protocols (read_descriptors p channel 0)

-- The responses; `none` for one whose protocols cannot be had.
unfoldable pub read_responses : List (Option (List (List (List SdpData)))) → ℕ → Option ℕ
unfolding read_protocols
read_responses [] channel = some channel
read_responses (none ∷ responses) channel = none
read_responses (some protocols ∷ responses) channel =
    read_responses responses (read_protocols protocols channel)

-- `none` for -1. `session` is whether sdp_connect succeeds, `found` what the search responds.
unfoldable pub find_channel_sdp :
    Bool → Option (List (Option (List (List (List SdpData))))) → Option ℕ
unfolding read_responses
find_channel_sdp false found = none
find_channel_sdp true none = none
find_channel_sdp true (some []) = none
find_channel_sdp true (some (r ∷ responses)) = elim (read_responses (r ∷ responses) 0) [
  | none ↦ none
  | some channel ↦ if channel == 0 || ltb 30 channel then none else some channel
]

in_range :
    (channel c : ℕ)
    → (if channel == 0 || ltb 30 channel then none else some channel) ≡ some c
    → (0 < c) × (c ≤ 30) × (channel ≡ c)
in_range channel c e = ground arith

found_in_range :
    (responses : List (Option (List (List (List SdpData))))) (c : ℕ)
    → find_channel_sdp true (some responses) ≡ some c
    → (0 < c) × (c ≤ 30) × (read_responses responses 0 ≡ some c)
unfolding find_channel_sdp
found_in_range [] c e = absurd (ground arith)
found_in_range (r ∷ responses) c e = elim (Option-cases (read_responses (r ∷ responses) 0)) [
  | inl n ↦ absurd (cc (rw (n, find_channel_sdp) at e))
  | inr (channel, f) ↦
      let (lo, hi, same) = in_range channel c (rw (f, find_channel_sdp) at e) in
      (lo, hi, f ∙ ap some same)
]

read_responses-none :
    (front back : List (Option (List (List (List SdpData))))) (channel : ℕ)
    → read_responses (front ++ none ∷ back) channel ≡ none
unfolding read_responses
read_responses-none [] back channel = refl
read_responses-none (none ∷ front) back channel = refl
read_responses-none (some p ∷ front) back channel = read_responses-none front back _

find_channel_sdp-none :
    (front back : List (Option (List (List (List SdpData)))))
    → find_channel_sdp true (some (front ++ none ∷ back)) ≡ none
unfolding find_channel_sdp
find_channel_sdp-none [] back = rw (read_responses-none [] back 0) refl
find_channel_sdp-none (r ∷ front) back =
    rw (read_responses-none (r ∷ front) back 0, find_channel_sdp) refl

-- FindChannelSDP finds nothing, or the channel that its loops end with, which is then from 1 to 30; and
-- it finds nothing when the protocols of one response cannot be had, whatever the others declare.
pub find_channel_sdp-bounds :
    ((responses : List (Option (List (List (List SdpData))))) (c : ℕ)
      → find_channel_sdp true (some responses) ≡ some c
      → (0 < c) × (c ≤ 30) × (read_responses responses 0 ≡ some c))
    × ((front back : List (Option (List (List (List SdpData)))))
        → find_channel_sdp true (some (front ++ none ∷ back)) ≡ none)
find_channel_sdp-bounds = (found_in_range, find_channel_sdp-none)
