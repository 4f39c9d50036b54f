-- ===== src/Http2/Observer/Blocks.antt =====
-- A header block that comes in a HEADERS frame and CONTINUATION frames is put together.
use odd_box.Base.{
  ok, ap, append_assoc, ◌∙◌, append-nil, ==_refl, ◌++◌, ◌^◌, false, length, none, some, zero, ◌<◌,
  ◌≡◌, [], suc, ◌∷◌, Bytes, has_flag, List, ℕ,
}
use odd_box.Http2.Payload.{parse_headers_payload}
use odd_box.Http2.Observer.{
  bytes_of, handle_regular_frame, poll_all, handle_complete_headers, PartialHeadersState, set_bytes,
  Observer, continue_headers, poll_one_frame, Hpack,
}
use odd_box.Http2.Frame.{parse_next_frame, FrameHeader}
use odd_box.Http2.Preface.{concat}
use odd_box.Http2.Event.{outgoing, incoming, H2FrameDirection}
use odd_box.Http2.Wire.{parse_next_frame-encode, encode_frame}

module _ (hp : Hpack) where
  -- An observer that collects a block in one direction, with bytes to be polled.
  abbrev pub collecting : H2FrameDirection → Observer hp → PartialHeadersState → Bytes → Observer hp
  collecting d o p bytes =
      set_bytes hp d bytes (record o { partial_headers = some p; partial_direction = some d })

  -- The same, when the block is complete.
  abbrev pub released : H2FrameDirection → Observer hp → Bytes → Observer hp
  released d o bytes =
      set_bytes hp d bytes (record o { partial_headers = none; partial_direction = none })

  abbrev pub continuation : ℕ → ℕ → Bytes → FrameHeader
  continuation id flags piece = record {
    frame_type = 0x9;
    flags = flags;
    stream_id = id;
    payload = piece;
  }

  -- CONTINUATION frames: the last one ends the headers.
  unfoldable pub continuations : ℕ → List Bytes → Bytes → Bytes → Bytes
  continuations id [] last rest = encode_frame false (continuation id 0x4 last) ++ rest
  continuations id (piece ∷ pieces) last rest =
      encode_frame false (continuation id 0x0 piece) ++ continuations id pieces last rest

  -- The observer after so many polls of a direction.
  unfoldable pub poll_times : ℕ → H2FrameDirection → Observer hp → Observer hp
  poll_times zero d o = o
  poll_times (suc n) d o = poll_times n d (poll_one_frame hp d o).0

  abbrev pub AllShort : List Bytes → Type 0
  AllShort [] = Unit
  AllShort (piece ∷ pieces) = (length piece < 2 ^ 24) × AllShort pieces

  poll_continuation :
      (d : H2FrameDirection) (o : Observer hp) (p : PartialHeadersState) (flags : ℕ)
      (piece rest : Bytes)
      → p.stream_id < 2 ^ 31
      → length piece < 2 ^ 24
      → poll_one_frame hp d
          (collecting d o p (encode_frame false (continuation p.stream_id flags piece) ++ rest))
        ≡ continue_headers hp d p (continuation p.stream_id flags piece) (collecting d o p rest)
  unfolding poll_one_frame
  poll_continuation incoming o p flags piece rest h k =
      rw (parse_next_frame-encode false (continuation p.stream_id flags piece) rest h k)
  poll_continuation outgoing o p flags piece rest h k =
      rw (parse_next_frame-encode false (continuation p.stream_id flags piece) rest h k)

  continue_unfinished :
      (d : H2FrameDirection) (o : Observer hp) (p : PartialHeadersState) (piece rest : Bytes)
      → continue_headers hp d p (continuation p.stream_id 0x0 piece) (collecting d o p rest)
        ≡ (collecting d o (record p { header_block = p.header_block ++ piece }) rest, none)
  unfolding continue_headers has_flag
  continue_unfinished incoming o p piece rest = rw (==_refl p.stream_id)
  continue_unfinished outgoing o p piece rest = rw (==_refl p.stream_id)

  continue_finished :
      (d : H2FrameDirection) (o : Observer hp) (p : PartialHeadersState) (piece rest : Bytes)
      → continue_headers hp d p (continuation p.stream_id 0x4 piece) (collecting d o p rest)
        ≡ handle_complete_headers hp d p.stream_id p.flags
            (p.header_block ++ piece)
            (released d o rest)
  unfolding continue_headers has_flag
  continue_finished incoming o p piece rest = rw (==_refl p.stream_id)
  continue_finished outgoing o p piece rest = rw (==_refl p.stream_id)

  -- A header block that follows in any number of CONTINUATION frames, one poll for each of them, is decoded as
  -- the block with all the pieces in their order, with the flags of the HEADERS frame; what comes behind is
  -- left in the buffer. The stream is below 2 ^ 31, and every piece is shorter than 2 ^ 24 bytes.
  pub poll_one_frame-continuations :
      (d : H2FrameDirection) (o : Observer hp) (p : PartialHeadersState) (pieces : List Bytes)
      (last rest : Bytes)
      → p.stream_id < 2 ^ 31
      → AllShort pieces
      → length last < 2 ^ 24
      → poll_one_frame hp d (
          poll_times
            (length pieces)
            d
            (collecting d o p (continuations p.stream_id pieces last rest)))
        ≡ handle_complete_headers hp d p.stream_id p.flags
            (p.header_block ++ concat pieces ++ last)
            (released d o rest)
  unfolding continuations poll_times
  poll_one_frame-continuations d o p [] last rest h short k =
      rw append-nil (poll_continuation d o p 0x4 last rest h k ∙ continue_finished d o p last rest)
  poll_one_frame-continuations d o p (piece ∷ pieces) last rest h (s, short) k =
      let more = continuations p.stream_id pieces last rest in
      let step =
        poll_continuation d o p 0x0 piece more h s ∙ continue_unfinished d o p piece more in
      let p' : PartialHeadersState = record p { header_block = p.header_block ++ piece } in
      let joined : p.header_block ++ piece ++ concat pieces
          ≡ p.header_block ++ (piece ++ concat pieces) =
        rw append_assoc in
      ap (λ r. poll_one_frame hp d (poll_times (length pieces) d r.0)) step
      ∙ poll_one_frame-continuations d o p' pieces last rest h short k
      ∙ ap (λ b. handle_complete_headers hp d p.stream_id p.flags (b ++ last) (released d o rest))
          joined

  -- A HEADERS frame that does not end its block ends the collecting of events of its direction: no event is
  -- returned, and all that is buffered behind the frame is left there, complete frames included.
  pub poll_all_unfinished :
      (fuel : ℕ) (d : H2FrameDirection) (o : Observer hp) (f : FrameHeader) (block rest : Bytes)
      → o.partial_headers ≡ none
      → parse_next_frame (bytes_of hp d o) ≡ some (f, rest)
      → f.frame_type ≡ 0x1
      → parse_headers_payload f.flags f.payload ≡ some (block, false)
      → poll_all hp (suc fuel) d o
        ≡ ok (
          [],
          collecting d o
              (record { stream_id = f.stream_id; flags = f.flags; header_block = block })
              rest,
        )
  unfolding poll_all poll_one_frame handle_regular_frame
  poll_all_unfinished fuel incoming o f block rest n e t b = rw (e, n, t, b)
  poll_all_unfinished fuel outgoing o f block rest n e t b = rw (e, n, t, b)
