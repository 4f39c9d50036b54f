-- ===== src/Tests/Http2.antt =====
-- HTTP/2 frames, settings and prefaces, and an observer with a decoder that keeps blocks as one header.
use odd_box.Http2.Observer.Blocks.{
  poll_one_frame-continuations, released, continuations, collecting, poll_times,
}
use odd_box.Base.{
  stalled, arith, drop, ◌≢◌, refl, take, [], true, some, ◌++◌, ◌∷◌, ◌≡◌, Bytes, List,
}
use odd_box.Http2.Observer.{
  set_bytes, Observer, handle_complete_headers, PartialHeadersState, poll_one_frame, new, write_to,
  Hpack, get_all_events,
}
use odd_box.Http2.Event.{incoming, initial_window_size, max_frame_size, outgoing, DecodedSettings}
use odd_box.Http2.Observer.Progress.{get_all_events-ne-stalled}
use odd_box.Http2.Preface.{write_all-new_buffer, write_all}
use odd_box.Http2.Wire.{parse_next_frame-append, parse_next_frame-encode, encode_frame}
use odd_box.Http2.Buffer.{preface, new_buffer}
use odd_box.Http1.Message.{codes}
use odd_box.Http2.Frame.{FrameHeader, parse_next_frame}

abbrev ping_frame : FrameHeader
ping_frame = record {
  frame_type = 6;
  flags = 0;
  stream_id = 0;
  payload = 1 ∷ 2 ∷ 3 ∷ 4 ∷ 5 ∷ 6 ∷ 7 ∷ 8 ∷ [];
}

abbrev ping_bytes : Bytes
ping_bytes = 0 ∷ 0 ∷ 8 ∷ 6 ∷ 0 ∷ 0 ∷ 0 ∷ 0 ∷ 0 ∷ 1 ∷ 2 ∷ 3 ∷ 4 ∷ 5 ∷ 6 ∷ 7 ∷ 8 ∷ 99 ∷ []

ping_parsed : parse_next_frame ping_bytes ≡ some (ping_frame, 99 ∷ [])
unfolding parse_next_frame
ping_parsed = refl

abbrev settings_sent : List DecodedSettings
settings_sent =
    record { identifier = max_frame_size; value = 16384 }
    ∷ record { identifier = initial_window_size; value = 65536 }
    ∷ []

-- A block is decoded to one header with the method of a request.
abbrev one_header : Hpack
one_header = record {
  Decoder = Unit;
  fresh = tt;
  decode = λ d block. (d, some ((codes ":method", block) ∷ []));
}

parse_next_frame-encode_example :
    parse_next_frame (encode_frame true ping_frame ++ 99 ∷ []) ≡ some (ping_frame, 99 ∷ [])
parse_next_frame-encode_example =
    parse_next_frame-encode true ping_frame (99 ∷ []) (omega arith) (omega arith)

parse_next_frame-append_example :
    parse_next_frame (ping_bytes ++ 98 ∷ []) ≡ some (ping_frame, 99 ∷ 98 ∷ [])
parse_next_frame-append_example =
    parse_next_frame-append ping_bytes (98 ∷ []) ping_frame (99 ∷ []) ping_parsed

write_all-new_buffer_example :
    write_all (new_buffer true) (take 10 preface ∷ (drop 10 preface ++ 7 ∷ []) ∷ (8 ∷ []) ∷ [])
    ≡ record { buffer = 7 ∷ 8 ∷ []; needs_preface = true; preface_consumed = true }
write_all-new_buffer_example =
    write_all-new_buffer (take 10 preface ∷ (drop 10 preface ++ 7 ∷ []) ∷ (8 ∷ []) ∷ [])
      (7 ∷ 8 ∷ []) refl

get_all_events-ne-stalled_example :
    get_all_events one_header (write_to one_header outgoing ping_bytes (new one_header)) ≢ stalled
get_all_events-ne-stalled_example =
    get_all_events-ne-stalled one_header (write_to one_header outgoing ping_bytes (new one_header))

abbrev partial : PartialHeadersState
partial = record { stream_id = 1; flags = 0x1; header_block = codes "GE" }

poll_one_frame-continuations_example :
    poll_one_frame one_header incoming (
      poll_times one_header 1 incoming (
        collecting one_header incoming
          (new one_header)
          partial
          (continuations one_header 1 (codes "T" ∷ []) [] (7 ∷ []))))
    ≡ handle_complete_headers one_header incoming 1 0x1
        (codes "GET")
        (released one_header incoming (new one_header) (7 ∷ []))
poll_one_frame-continuations_example =
    poll_one_frame-continuations one_header incoming (new one_header) partial (codes "T" ∷ []) []
      (7 ∷ []) (omega arith) (omega arith, tt) (omega arith)

-- HEADERS on stream 1 without END_HEADERS.
abbrev unfinished : FrameHeader
unfinished = record { frame_type = 0x1; flags = 0x1; stream_id = 1; payload = codes "GET" }

abbrev behind_unfinished : Observer one_header
behind_unfinished =
    set_bytes one_header incoming (0 ∷ 0 ∷ 3 ∷ 1 ∷ 1 ∷ 0 ∷ 0 ∷ 0 ∷ 1 ∷ (codes "GET" ++ ping_bytes))
      (new one_header)
