-- ===== src/Http2/Observer/Progress.antt =====
-- Every event takes its frame off a buffer, so collecting all events ends.
use odd_box.Http2.Handlers.{
  unknown_of, handle_goaway, handle_ping, handle_push_promise, handle_settings_frame,
  handle_rst_stream, handle_priority_frame,
}
use odd_box.Http2.Observer.{
  collect, returning, same_direction, data_event, window_update_of, Hpack, PartialHeadersState,
  Observer, Polled, bytes_of, set_bytes, decode_block, headers_event, with_headers,
  handle_complete_headers, handle_headers, handle_window_update, end_of_stream, with_data,
  handle_data_frame, handle_regular_frame, continue_headers, handle_frame, poll_with,
  poll_one_frame, poll_all, get_all_events,
}
use odd_box.Base.{
  Exec, [], ◌∷◌, map-ne-stalled, bind-ne-stalled, ap, ◌≢◌, zero, suc, has_flag, stalled, ◌<◌, ◌||◌,
  if◌then◌else◌, length, not, ◌==◌, false, true, refl, none, some, Bool, Option, arith, ℕ, Bytes,
  List, ◌≡◌,
}
use odd_box.Http2.Event.{outgoing, incoming, H2FrameDirection, H2Event, HeaderMap}
use odd_box.Http2.Frame.{FrameHeader, parse_next_frame}
use odd_box.Http2.Wire.{parse_next_frame_consumes}
use odd_box.Http2.Stream.{StreamState}
use odd_box.Http2.Payload.{parse_headers_payload, parse_data_payload}

module _ (hp : Hpack) where
  -- Both buffers are as they were.
  abbrev Keeps : Observer hp → Observer hp → Type 0
  Keeps o o' = (o'.incoming_buffer ≡ o.incoming_buffer) × (o'.outgoing_buffer ≡ o.outgoing_buffer)

  -- A handler's result keeps the buffers.
  unfoldable KeepsAfter : Observer hp → Polled hp → Type 0
  KeepsAfter o p = Keeps o p.0

  kept : (o : Observer hp) (p : Polled hp) → Keeps o p.0 → KeepsAfter o p
  unfolding KeepsAfter
  kept o p k = k

  keeps : (o : Observer hp) (p : Polled hp) → KeepsAfter o p → Keeps o p.0
  unfolding KeepsAfter
  keeps o p k = k

  -- A test whose two branches keep the buffers keeps them.
  if-KeepsAfter :
      (b : Bool) (o : Observer hp) (x y : Polled hp)
      → KeepsAfter o x
      → KeepsAfter o y
      → KeepsAfter o (if b then x else y)
  if-KeepsAfter true o x y kx ky = kx
  if-KeepsAfter false o x y kx ky = ky

  headers_event-Keeps :
      (d : H2FrameDirection) (id : ℕ) (e : Bool) (m : HeaderMap) (st : StreamState)
      (o : Observer hp)
      → Keeps o (headers_event hp d id e m st o).0
  unfolding headers_event
  headers_event-Keeps incoming id e m st o = ground arith
  headers_event-Keeps outgoing id e m st o = ground arith

  with_headers-Keeps :
      (d : H2FrameDirection) (id flags : ℕ) (o : Observer hp) (r : Option (List (Bytes × Bytes)))
      → Keeps o (with_headers hp d id flags (o, r)).0
  with_headers-Keeps d id flags o none = (refl, refl)
  with_headers-Keeps d id flags o (some list) = headers_event-Keeps d id _ _ _ _

  handle_complete_headers-Keeps :
      (d : H2FrameDirection) (id flags : ℕ) (block : Bytes) (o : Observer hp)
      → Keeps o (handle_complete_headers hp d id flags block o).0
  unfolding handle_complete_headers decode_block
  handle_complete_headers-Keeps incoming id flags block o = with_headers-Keeps incoming id flags _ _
  handle_complete_headers-Keeps outgoing id flags block o = with_headers-Keeps outgoing id flags _ _

  handle_headers-Keeps :
      (d : H2FrameDirection) (f : FrameHeader) (r : Option (Bytes × Bool)) (o : Observer hp)
      → Keeps o (handle_headers hp d f r o).0
  handle_headers-Keeps d f none o = (refl, refl)
  handle_headers-Keeps d f (some (block, true)) o =
      handle_complete_headers-Keeps d f.stream_id f.flags block o
  handle_headers-Keeps d f (some (block, false)) o = (refl, refl)

  end_of_stream-Keeps :
      (d : H2FrameDirection) (id : ℕ) (m : HeaderMap) (st : StreamState) (e : H2Event)
      (o : Observer hp)
      → Keeps o (end_of_stream hp d id m st e o).0
  unfolding end_of_stream
  end_of_stream-Keeps incoming id m st e o = ground arith
  end_of_stream-Keeps outgoing id m st e o = ground arith

  data_event-Keeps :
      (d : H2FrameDirection) (id : ℕ) (b : Bool) (m : Option HeaderMap) (st : StreamState)
      (e : H2Event) (o : Observer hp)
      → Keeps o (data_event hp d id b m st e o).0
  data_event-Keeps d id b none st e o = (refl, refl)
  data_event-Keeps d id true (some m) st e o = end_of_stream-Keeps d id m st e o
  data_event-Keeps d id false (some m) st e o = (refl, refl)

  handle_data_frame-Keeps :
      (d : H2FrameDirection) (f : FrameHeader) (o : Observer hp)
      → Keeps o (handle_data_frame hp d f o).0
  unfolding handle_data_frame
  handle_data_frame-Keeps d f o =
      elim (parse_data_payload f.flags f.payload) as (λ r. Keeps o (with_data hp d f r o).0) [
        | none ↦ (refl, refl)
        | some r ↦ data_event-Keeps d f.stream_id r.1 _ _ _ _
      ]

  window_update_of-Keeps :
      (d : H2FrameDirection) (f : FrameHeader) (payload : Bytes) (o : Observer hp)
      → Keeps o (window_update_of hp d f payload o).0
  window_update_of-Keeps d f [] o = (refl, refl)
  window_update_of-Keeps d f (a ∷ []) o = (refl, refl)
  window_update_of-Keeps d f (a ∷ b ∷ []) o = (refl, refl)
  window_update_of-Keeps d f (a ∷ b ∷ c ∷ []) o = (refl, refl)
  window_update_of-Keeps d f (a ∷ b ∷ c ∷ e ∷ []) o = ground arith
  window_update_of-Keeps d f (a ∷ b ∷ c ∷ e ∷ g ∷ rest) o = (refl, refl)

  handle_window_update-Keeps :
      (d : H2FrameDirection) (f : FrameHeader) (o : Observer hp)
      → Keeps o (handle_window_update hp d f o).0
  unfolding handle_window_update
  handle_window_update-Keeps d f o = window_update_of-Keeps d f f.payload o

  -- The branches on a frame's type, where all but three return the observer as it is.
  by_type-Keeps :
      (type : ℕ) (o : Observer hp) (x0 x1 x8 : Polled hp) (e2 e3 e4 e5 e6 e7 e9 : Option H2Event)
      → KeepsAfter o x0
      → KeepsAfter o x1
      → KeepsAfter o x8
      → KeepsAfter o (
          if type == 0
          then x0
          else if type == 1
          then x1
          else if type == 2
          then (o, e2)
          else if type == 3
          then (o, e3)
          else if type == 4
          then (o, e4)
          else if type == 5
          then (o, e5)
          else if type == 6
          then (o, e6)
          else if type == 7
          then (o, e7)
          else if type == 8
          then x8
          else (o, e9))
  unfolding KeepsAfter
  by_type-Keeps type o x0 x1 x8 e2 e3 e4 e5 e6 e7 e9 k0 k1 k8 = ground arith

  handle_regular_frame-Keeps :
      (d : H2FrameDirection) (f : FrameHeader) (o : Observer hp)
      → KeepsAfter o (handle_regular_frame hp d f o)
  unfolding handle_regular_frame
  handle_regular_frame-Keeps d f o =
      by_type-Keeps f.frame_type o (handle_data_frame hp d f o)
        (handle_headers hp d f (parse_headers_payload f.flags f.payload) o)
        (returning hp (handle_window_update hp d f o)) (some (handle_priority_frame f))
        (some (handle_rst_stream f)) (some (handle_settings_frame d f))
        (some (handle_push_promise f)) (some (handle_ping d f)) (some (handle_goaway f))
        (some (unknown_of f)) (kept o _ (handle_data_frame-Keeps d f o))
        (kept o _ (handle_headers-Keeps d f (parse_headers_payload f.flags f.payload) o))
        (kept o _ (handle_window_update-Keeps d f o))

  continue_headers-Keeps :
      (d : H2FrameDirection) (p : PartialHeadersState) (f : FrameHeader) (o : Observer hp)
      → KeepsAfter o (continue_headers hp d p f o)
  unfolding continue_headers
  continue_headers-Keeps d p f o =
      if-KeepsAfter (not (f.frame_type == 0x9) || not (f.stream_id == p.stream_id)) o _ _
        (handle_regular_frame-Keeps d f o)
        (if-KeepsAfter (has_flag 0x4 f.flags) o _ _
          (kept o _ (handle_complete_headers-Keeps d p.stream_id p.flags _ _))
          (kept o _ (refl, refl)))

  handle_frame-Keeps :
      (d : H2FrameDirection) (f : FrameHeader) (p : Option PartialHeadersState) (o : Observer hp)
      → Keeps o (handle_frame hp d f p o).0
  handle_frame-Keeps d f none o = keeps o _ (handle_regular_frame-Keeps d f o)
  handle_frame-Keeps d f (some p) o = keeps o _ (
      if-KeepsAfter (same_direction o.partial_direction d) o _ _ (continue_headers-Keeps d p f o)
        (handle_regular_frame-Keeps d f o))

  poll_with-Shrinks :
      (d : H2FrameDirection) (o : Observer hp) (r : Option (FrameHeader × Bytes)) {e : H2Event}
      → parse_next_frame (bytes_of hp d o) ≡ r
      → (poll_with hp d r o).1 ≡ some e
      → length (bytes_of hp d (poll_with hp d r o).0) < length (bytes_of hp d o)
  poll_with-Shrinks d o none q p = cc
  poll_with-Shrinks incoming o (some (f, rest)) q p =
      let unchanged =
        handle_frame-Keeps incoming f o.partial_headers (set_bytes hp incoming rest o) in
      let same = ap (λ b. length b.buffer) unchanged.0 in
      let used = parse_next_frame_consumes o.incoming_buffer.buffer f rest q in ground arith
  poll_with-Shrinks outgoing o (some (f, rest)) q p =
      let unchanged =
        handle_frame-Keeps outgoing f o.partial_headers (set_bytes hp outgoing rest o) in
      let same = ap (λ b. length b.buffer) unchanged.1 in
      let used = parse_next_frame_consumes o.outgoing_buffer.buffer f rest q in ground arith

  -- A poll that returns an event leaves fewer bytes in the buffer of its direction.
  poll_one_frame-Shrinks :
      (d : H2FrameDirection) (o : Observer hp) (e : H2Event)
      → (poll_one_frame hp d o).1 ≡ some e
      → length (bytes_of hp d (poll_one_frame hp d o).0) < length (bytes_of hp d o)
  unfolding poll_one_frame
  poll_one_frame-Shrinks d o e p =
      poll_with-Shrinks d o (parse_next_frame (bytes_of hp d o)) {e = e} refl p

  collect-ne-stalled :
      (p : Polled hp) (turns : Observer hp → Exec (Unit {0}) (List H2Event × Observer hp))
      → ((e : H2Event) → p.1 ≡ some e → turns p.0 ≢ stalled)
      → collect hp p turns ≢ stalled
  collect-ne-stalled (o, none) turns h x = cc
  collect-ne-stalled (o, some e) turns h x = map-ne-stalled _ _ (h e refl) x

  poll_all-ne-stalled :
      (fuel : ℕ) (d : H2FrameDirection) (o : Observer hp)
      → length (bytes_of hp d o) < fuel
      → poll_all hp fuel d o ≢ stalled
  unfolding poll_all
  poll_all-ne-stalled zero d o h = ground arith
  poll_all-ne-stalled (suc fuel) d o h =
      collect-ne-stalled (poll_one_frame hp d o) (poll_all hp fuel d) (λ e q.
        poll_all-ne-stalled fuel d (poll_one_frame hp d o).0
          (ground (arith, poll_one_frame-Shrinks d o e q)))

  -- Collecting the events of both buffers ends, whatever the buffers hold.
  pub get_all_events-ne-stalled : (o : Observer hp) → get_all_events hp o ≢ stalled
  unfolding get_all_events
  get_all_events-ne-stalled o =
      bind-ne-stalled _ _ (poll_all-ne-stalled _ incoming o (ground arith))
        (λ r. map-ne-stalled _ _ (poll_all-ne-stalled _ outgoing r.1 (ground arith)))
