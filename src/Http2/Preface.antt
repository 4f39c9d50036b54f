-- ===== src/Http2/Preface.antt =====
-- The client's connection preface is dropped however it arrives.
use odd_box.Base.{
  [], inr, take-append-drop, ◌∷◌, drop-append, take-append, tests, drop-append_le, ltb→lt,
  take-append_le, inl, sym, Bool-cases, ◌≤◌, ◌⊎◌, refl, append_assoc, bytes_eq_iff, drop,
  length-append, ap, take, ◌<◌, ◌∙◌, append-nil, arith, ltb, ◌+◌, length, ◌++◌, false, true, Bytes,
  List, ◌≡◌,
}
use odd_box.Http2.Buffer.{new_buffer, H2Buffer, preface, consume_preface, write}

-- Writing piece by piece.
abbrev pub write_all : H2Buffer → List Bytes → H2Buffer
write_all b [] = b
write_all b (piece ∷ pieces) = write_all (write b piece) pieces

abbrev pub concat : List Bytes → Bytes
concat [] = []
concat (piece ∷ pieces) = piece ++ concat pieces

write-consumed :
    (b : H2Buffer) (bytes : Bytes)
    → b.preface_consumed ≡ true
    → write b bytes ≡ record b { buffer = b.buffer ++ bytes }
unfolding write
write-consumed b bytes h = ground arith

write_all-consumed :
    (pieces : List Bytes) (b : H2Buffer)
    → b.preface_consumed ≡ true
    → write_all b pieces ≡ record b { buffer = b.buffer ++ concat pieces }
write_all-consumed [] b h = rw append-nil
write_all-consumed (piece ∷ pieces) b h =
    rw (write-consumed b piece h)
      (write_all-consumed pieces (record b { buffer = b.buffer ++ piece }) h ∙ rw append_assoc)

-- While fewer than 24 bytes are there, they are kept.
write_early :
    (b : H2Buffer) (bytes : Bytes)
    → b.preface_consumed ≡ false
    → b.needs_preface ≡ true
    → length b.buffer + length bytes < 24
    → write b bytes ≡ record b { buffer = b.buffer ++ bytes }
unfolding write consume_preface
write_early b bytes c n h = ground (arith, length-append b.buffer bytes)

write_complete :
    (b : H2Buffer) (bytes rest : Bytes)
    → b.preface_consumed ≡ false
    → b.needs_preface ≡ true
    → b.buffer ++ bytes ≡ preface ++ rest
    → write b bytes ≡ record b { buffer = rest; preface_consumed = true }
unfolding write consume_preface
write_complete b bytes rest c n e =
    ground (arith, e, ap length e, (bytes_eq_iff preface preface).1 refl)

-- Two ways to cut a list: the longer front begins with the shorter.
module _ (xs ys zs ws : Bytes) (same : xs ++ ys ≡ zs ++ ws) (longer : length zs ≤ length xs) where
  cut_front : xs ≡ zs ++ drop (length zs) xs
  cut_front =
      let front : take (length zs) xs ≡ zs =
        sym (take-append_le (length zs) xs ys longer)
        ∙ ap (take (length zs)) same
        ∙ take-append zs ws in
      sym (take-append-drop (length zs) xs) ∙ ap (λ f. f ++ drop (length zs) xs) front

  cut_rest : drop (length zs) xs ++ ys ≡ ws
  cut_rest =
      sym (drop-append_le (length zs) xs ys longer) ∙ ap (drop (length zs)) same ∙ drop-append zs ws

write_all-preface :
    (pieces : List Bytes) (b : H2Buffer) (rest : Bytes)
    → b.preface_consumed ≡ false
    → b.needs_preface ≡ true
    → length b.buffer < 24
    → b.buffer ++ concat pieces ≡ preface ++ rest
    → write_all b pieces ≡ record { buffer = rest; needs_preface = true; preface_consumed = true }
write_all-preface [] b rest c n short e =
    absurd (omega (arith, ap length e, length-append b.buffer [], length-append preface rest))
write_all-preface (piece ∷ pieces) b rest c n short e =
    let seen = b.buffer ++ piece in
    let whole : seen ++ concat pieces ≡ preface ++ rest =
      append_assoc b.buffer piece (concat pieces) ∙ e in
    elim (Bool-cases (ltb (length b.buffer + length piece) 24)) [
      | inl early ↦ rw (write_early b piece c n (ltb→lt _ _ early)) (
          write_all-preface pieces (record b { buffer = seen }) rest c n
            (omega (tests, length-append b.buffer piece)) whole)
      | inr late ↦
          let enough : length preface ≤ length seen = omega (tests, length-append b.buffer piece) in
          let r = drop (length preface) seen in
          let front = cut_front seen (concat pieces) preface rest whole enough in
          let back = cut_rest seen (concat pieces) preface rest whole enough in
          rw (write_complete b piece r c n front) (
            write_all-consumed pieces (record b { buffer = r; preface_consumed = true }) refl
            ∙ rw (back, n))
    ]

-- A client's stream that begins with the preface, written in any pieces, leaves in the buffer just what
-- comes behind the preface.
pub write_all-new_buffer :
    (pieces : List Bytes) (rest : Bytes)
    → concat pieces ≡ preface ++ rest
    → write_all (new_buffer true) pieces
      ≡ record { buffer = rest; needs_preface = true; preface_consumed = true }
write_all-new_buffer pieces rest e =
    write_all-preface pieces (new_buffer true) rest refl refl (omega arith) e

-- The outgoing direction, and a buffer whose preface is gone, keep every byte that is written.
pub write_all-outgoing :
    (pieces : List Bytes) (b : H2Buffer)
    → (b.needs_preface ≡ false) ⊎ (b.preface_consumed ≡ true)
    → write_all b pieces ≡ record b { buffer = b.buffer ++ concat pieces }
write_all-outgoing [] b h = rw append-nil
write_all-outgoing (piece ∷ pieces) b h =
    let plain : write b piece ≡ record b { buffer = b.buffer ++ piece } =
      unfold write in ground arith in
    rw plain
      (write_all-outgoing pieces (record b { buffer = b.buffer ++ piece }) h ∙ rw append_assoc)
