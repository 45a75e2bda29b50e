-- ===== src/Connection/Writing.antt =====
-- WritePacket of TCPUnlockClient, and what ReadPacket makes of it.
use pcbu_natives_old.Prelude.{
  ℕ, zero, suc, ◌+◌, ◌^◌, ◌≤◌, ◌<◌, ◌≡◌, refl, ap, sym, subst, ◌∙◌, inl, inr, true, false, List, [],
  ◌∷◌, ◌++◌, append_assoc, append-nil, arith, length, length-drop, take, drop, take-append-drop,
  All, Bool-cases,
}
use pcbu_natives_old.Prelude.Texts.{Bytes}
use pcbu_natives_old.Connection.Socket.{
  read_packet, Written, write_loop, length_bytes, write_packet,
}
use pcbu_natives_old.Connection.Framing.{Delivers, flatten, read_packet-frame}
use pcbu_natives_old.Connection.Truncated.{}

-- The bytes out of a write loop are the front of its input, and all of it if all writes succeed.
write_loop-prefix :
    (results : List ℕ) (payload sent : Bytes)
    → (unsent : Bytes) × ((write_loop results payload sent).sent ++ unsent ≡ sent ++ payload)
      × ((write_loop results payload sent).all_sent ≡ true → unsent ≡ [])
unfolding write_loop
write_loop-prefix results [] sent = ([], refl, λ h. refl)
write_loop-prefix [] (b ∷ bs) sent = (b ∷ bs, refl, λ h. cc)
write_loop-prefix (zero ∷ results) (b ∷ bs) sent = (b ∷ bs, refl, λ h. cc)
write_loop-prefix (suc r ∷ results) (b ∷ bs) sent =
    let (unsent, e, f) =
      write_loop-prefix results (drop (suc r) (b ∷ bs)) (sent ++ take (suc r) (b ∷ bs)) in
    (
      unsent,
      e
          ∙ append_assoc sent (take (suc r) (b ∷ bs)) (drop (suc r) (b ∷ bs))
          ∙ ap (◌++◌ sent) (take-append-drop (suc r) (b ∷ bs)),
      f,
    )

write_packet_on :
    (results : List ℕ) (payload : Bytes)
    → (write_loop results (length_bytes (length payload)) []).all_sent ≡ true
    → write_packet results payload
      ≡ write_loop
          (write_loop results (length_bytes (length payload)) []).results
          payload
          (write_loop results (length_bytes (length payload)) []).sent
unfolding write_packet
write_packet_on results payload h = rw h refl

write_packet_off :
    (results : List ℕ) (payload : Bytes)
    → (write_loop results (length_bytes (length payload)) []).all_sent ≡ false
    → write_packet results payload ≡ write_loop results (length_bytes (length payload)) []
unfolding write_packet
write_packet_off results payload h = rw h refl

-- Every write that the socket accepts in part or in whole goes on where the last one ended: the bytes
-- that WritePacket sends are the front of the two length bytes and the payload, and are all of them
-- unless a write fails.
pub write_packet-prefix :
    (results : List ℕ) (payload : Bytes)
    → (unsent : Bytes) × ((write_packet results payload).sent ++ unsent
        ≡ length_bytes (length payload) ++ payload)
      × ((write_packet results payload).all_sent ≡ true → unsent ≡ [])
write_packet-prefix results payload =
    let lead = length_bytes (length payload) in
    let (kept, whole, all) = write_loop-prefix results lead [] in
    elim (Bool-cases (write_loop results lead []).all_sent) [
      | inl ok ↦
          let first = write_loop results lead [] in
          let (unsent, e, f) = write_loop-prefix first.results payload first.sent in
          let lead_sent : first.sent ≡ lead =
            sym (append-nil first.sent) ∙ ap (◌++◌ first.sent) (sym (all ok)) ∙ whole in
          subst
            (λ (w : Written).
              (u : Bytes) × (w.sent ++ u ≡ lead ++ payload) × (w.all_sent ≡ true → u ≡ []))
            (sym (write_packet_on results payload ok))
            (unsent, e ∙ ap (λ t. t ++ payload) lead_sent, f)
      | inr bad ↦
          subst
            (λ (w : Written).
              (u : Bytes) × (w.sent ++ u ≡ lead ++ payload) × (w.all_sent ≡ true → u ≡ []))
            (sym (write_packet_off results payload bad))
            (
              kept ++ payload,
              sym (append_assoc (write_loop results lead []).sent kept payload)
                  ∙ ap (λ t. t ++ payload) whole,
              λ h. cc,
            )
    ]

-- With as many positive results as there are bytes, no write fails.
write_loop_total :
    (results : List ℕ) (payload sent : Bytes)
    → All (λ r. 0 < r) results
    → length payload ≤ length results
    → ((write_loop results payload sent).all_sent ≡ true)
      × All (λ r. 0 < r) (write_loop results payload sent).results
      × (length results ≤ length payload + length (write_loop results payload sent).results)
unfolding write_loop
write_loop_total results [] sent h enough = (refl, h, omega arith)
write_loop_total [] (b ∷ bs) sent h enough = absurd (omega arith)
write_loop_total (zero ∷ results) (b ∷ bs) sent h enough = absurd (omega arith)
write_loop_total (suc r ∷ results) (b ∷ bs) sent h enough =
    let left = length-drop r bs in
    let (a, b', c) =
      write_loop_total results (drop r bs) (sent ++ take (suc r) (b ∷ bs)) h.1
        (omega (arith, left)) in
    (a, b', omega (arith, left, c))

-- With a positive result for each byte, all of the packet goes out: the length bytes and the payload.
pub write_packet_total :
    (results : List ℕ) (payload : Bytes)
    → All (λ r. 0 < r) results
    → length payload + 2 ≤ length results
    → ((write_packet results payload).all_sent ≡ true)
      × ((write_packet results payload).sent ≡ length_bytes (length payload) ++ payload)
write_packet_total results payload h enough =
    let lead = length_bytes (length payload) in
    let two : length lead ≡ 2 = unfold length_bytes in refl in
    let (ok, more, left) = write_loop_total results lead [] h (omega (arith, two)) in
    let first = write_loop results lead [] in
    let last = write_loop_total first.results payload first.sent more (omega (arith, two, left)) in
    let all : (write_packet results payload).all_sent ≡ true =
      ap (λ (w : Written). w.all_sent) (write_packet_on results payload ok) ∙ last.0 in
    let (unsent, e, f) = write_packet-prefix results payload in
    (all, sym (append-nil _) ∙ ap (◌++◌ (write_packet results payload).sent) (sym (f all)) ∙ e)

-- What WritePacket sent in full, ReadPacket reads back, however the bytes were cut up on the way and
-- whatever was sent after them: for every packet of 1 to 65535 bytes.
pub read_packet-write_packet :
    (results : List ℕ) (payload more : Bytes) (pieces : List Bytes)
    → (write_packet results payload).all_sent ≡ true
    → 0 < length payload
    → length payload < 2 ^ 16
    → Delivers pieces
    → flatten pieces ≡ (write_packet results payload).sent ++ more
    → read_packet pieces ≡ payload
read_packet-write_packet results payload more pieces all some_bytes small d e =
    let (unsent, whole, none_left) = write_packet-prefix results payload in
    let sent : (write_packet results payload).sent ≡ length_bytes (length payload) ++ payload =
      sym (append-nil _)
      ∙ ap (◌++◌ (write_packet results payload).sent) (sym (none_left all))
      ∙ whole in
    read_packet-frame payload more pieces some_bytes small d
      (e ∙ ap (λ t. t ++ more) sent ∙ append_assoc (length_bytes (length payload)) payload more)
