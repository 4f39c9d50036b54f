-- ===== src/Http2/Observer.antt =====
-- src/tcp_proxy/h2_parser.rs: `H2Observer`. The HPACK decoder is that of the crate hpack_patched, and
-- is a parameter here; each direction has a decoder of its own.
pub mod Progress
pub mod Blocks
use odd_box.Http2.Event.{
  outgoing_headers, partial_outgoing_response, incoming_headers, outgoing_response,
  incoming_request, outgoing_request, window_update, body_data, outgoing, rst_stream, incoming,
  unknown_frame, H2FrameDirection, H2Event, HeaderMap,
}
use odd_box.Base.{
  zero, ◌-◌, length, ok, ◌^◌, [], suc, ◌+◌, ◌||◌, ◌∷◌, false, has_flag, ltb, none, not, stalled,
  ◌&&◌, ◌==◌, ◌>>=◌, Bool, Exec, Option, if◌then◌else◌, some, true, ◌++◌, ℕ, Bytes, List,
}
use odd_box.Http1.Message.{codes}
use odd_box.Http2.Frame.{FrameHeader, parse_next_frame, u31_be}
use odd_box.Http2.Payload.{parse_headers_payload, parse_data_payload}
use odd_box.Http2.Stream.{
  StreamState, Streams, stream_or_new, set_stream, remove_stream, get_header, collect_headers,
  to_request, to_response, is_continuous_stream,
}
use odd_box.Http2.Buffer.{H2Buffer, new_buffer, write}
use odd_box.Http2.Handlers.{
  unknown_of, handle_priority_frame, handle_rst_stream, handle_push_promise, handle_ping,
  handle_goaway, handle_settings_frame,
}

-- `hpack_patched::decoder::Decoder`: a state, and a decoding that moves it on and may fail.
pub record Hpack : Type 1 where
  pub Decoder : Type 0
  pub fresh : Decoder
  pub decode : Decoder → Bytes → Decoder × Option (List (Bytes × Bytes))

pub record PartialHeadersState : Type 0 where
  pub stream_id : ℕ
  pub flags : ℕ
  pub header_block : Bytes

pub record H2Observer (D : Type 0) : Type 0 where
  pub connection_window_size : ℕ
  pub incoming_buffer : H2Buffer
  pub outgoing_buffer : H2Buffer
  pub incoming_decoder : D
  pub outgoing_decoder : D
  pub streams : Streams
  pub partial_headers : Option PartialHeadersState
  pub partial_direction : Option H2FrameDirection

abbrev pub same_direction : Option H2FrameDirection → H2FrameDirection → Bool
same_direction (some incoming) incoming = true
same_direction (some outgoing) outgoing = true
same_direction _ _ = false

-- `checked_add(..).unwrap_or(u32::MAX)`
abbrev pub add_saturating : ℕ → ℕ → ℕ
add_saturating a b = if ltb (a + b) (2 ^ 32) then a + b else 2 ^ 32 - 1

abbrev pub rst_protocol_error : ℕ → H2Event
rst_protocol_error id = unknown_frame (rst_stream id 0x1)

abbrev pub is_some {ℓ} : {A : Type ℓ} → Option A → Bool
is_some none = false
is_some (some a) = true

module _ (hp : Hpack) where
  abbrev pub Observer : Type 0
  Observer = H2Observer hp.Decoder

  -- A method's new state, and the event that it returns.
  abbrev pub Polled : Type 0
  Polled = Observer × Option H2Event

  -- `H2Observer::new`
  unfoldable pub new : Observer
  new = record {
    connection_window_size = 65535;
    incoming_buffer = new_buffer true;
    outgoing_buffer = new_buffer false;
    incoming_decoder = hp.fresh;
    outgoing_decoder = hp.fresh;
    streams = [];
    partial_headers = none;
    partial_direction = none;
  }

  unfoldable pub write_to : H2FrameDirection → Bytes → Observer → Observer
  write_to incoming bytes o = record o { incoming_buffer = write o.incoming_buffer bytes }
  write_to outgoing bytes o = record o { outgoing_buffer = write o.outgoing_buffer bytes }

  abbrev pub bytes_of : H2FrameDirection → Observer → Bytes
  bytes_of incoming o = o.incoming_buffer.buffer
  bytes_of outgoing o = o.outgoing_buffer.buffer

  abbrev pub set_bytes : H2FrameDirection → Bytes → Observer → Observer
  set_bytes incoming b o = record o { incoming_buffer = record (o.incoming_buffer) { buffer = b } }
  set_bytes outgoing b o = record o { outgoing_buffer = record (o.outgoing_buffer) { buffer = b } }

  -- The decoder of a direction decodes a block, and keeps what it learnt.
  unfoldable pub decode_block :
      H2FrameDirection → Bytes → Observer → Observer × Option (List (Bytes × Bytes))
  decode_block incoming block o =
      let (d, r) = hp.decode o.incoming_decoder block in (record o { incoming_decoder = d }, r)
  decode_block outgoing block o =
      let (d, r) = hp.decode o.outgoing_decoder block in (record o { outgoing_decoder = d }, r)

  abbrev forget : ℕ → Observer → Observer
  forget id o = record o { streams = remove_stream id o.streams }

  -- The events of a complete header block, by the direction and its pseudo-headers.
  unfoldable pub headers_event :
      H2FrameDirection → ℕ → Bool → HeaderMap → StreamState → Observer → Polled
  headers_event incoming id end_stream headers st o =
      if end_stream && not (is_continuous_stream headers)
      then (forget id o, some (incoming_request (to_request st id)))
      else (o, some (incoming_headers id headers))
  headers_event outgoing id end_stream headers st o =
      if is_some (get_header (codes ":method") headers)
      then (if end_stream && not (is_continuous_stream headers)
          then (forget id o, some (outgoing_request (to_request st id)))
          else (o, some (outgoing_request (to_request st id))))
      else if is_some (get_header (codes ":status") headers)
      then (if end_stream
          then (forget id o, some (outgoing_response (to_response st id)))
          else (o, some (partial_outgoing_response (to_response st id))))
      else (o, some (outgoing_headers id headers))

  abbrev with_headers : H2FrameDirection → ℕ → ℕ → Observer × Option (List (Bytes × Bytes)) → Polled
  with_headers direction id flags (o, none) = (o, some (rst_protocol_error id))
  with_headers direction id flags (o, some list) =
      let headers = collect_headers list [] in
      let st = record (stream_or_new id o.streams) { headers = some headers } in
      headers_event direction id (has_flag 0x1 flags) headers st
        (record o { streams = set_stream id st o.streams })

  unfoldable pub handle_complete_headers : H2FrameDirection → ℕ → ℕ → Bytes → Observer → Polled
  handle_complete_headers direction id flags block o =
      with_headers direction id flags (decode_block direction block o)

  -- HEADERS: complete at once, or kept until the CONTINUATION frames have come.
  abbrev handle_headers : H2FrameDirection → FrameHeader → Option (Bytes × Bool) → Observer → Polled
  handle_headers direction frame none o = (o, some (rst_protocol_error frame.stream_id))
  handle_headers direction frame (some (block, true)) o =
      handle_complete_headers direction frame.stream_id frame.flags block o
  handle_headers direction frame (some (block, false)) o = (
    record o {
      partial_headers =
          some (record { stream_id = frame.stream_id; flags = frame.flags; header_block = block });
      partial_direction = some direction;
    },
    none,
  )

  abbrev pub window_update_of :
      H2FrameDirection → FrameHeader → Bytes → Observer → Observer × H2Event
  window_update_of direction fh (w0 ∷ w1 ∷ w2 ∷ w3 ∷ []) o =
      let increment = u31_be w0 w1 w2 w3 in
      let st = stream_or_new fh.stream_id o.streams in
      (
        if fh.stream_id == 0
            then record o {
              connection_window_size = add_saturating o.connection_window_size increment;
            }
            else record o {
              streams =
                  set_stream fh.stream_id
                    (record st {
                      stream_window_size = add_saturating st.stream_window_size increment;
                    })
                    o.streams;
            },
        window_update direction fh.stream_id increment,
      )
  window_update_of direction fh _ o = (o, unknown_of fh)

  unfoldable pub handle_window_update :
      H2FrameDirection → FrameHeader → Observer → Observer × H2Event
  handle_window_update direction fh o = window_update_of direction fh fh.payload o

  -- The end of a stream whose headers are known, by direction; `plain` is the event of any other frame.
  unfoldable pub end_of_stream :
      H2FrameDirection → ℕ → HeaderMap → StreamState → H2Event → Observer → Polled
  end_of_stream incoming id headers st plain o =
      if not (is_continuous_stream headers) then (forget id o, some plain) else (o, some plain)
  end_of_stream outgoing id headers st plain o =
      if is_some (get_header (codes ":method") headers)
      then (forget id o, some (outgoing_request (to_request st id)))
      else if is_some (get_header (codes ":status") headers)
      then (forget id o, some (outgoing_response (to_response st id)))
      else (o, some plain)

  -- What a DATA frame reports, by whether the headers of its stream are known.
  abbrev pub data_event :
      H2FrameDirection → ℕ → Bool → Option HeaderMap → StreamState → H2Event → Observer → Polled
  data_event direction id end_stream none st plain o = (o, some plain)
  data_event direction id end_stream (some headers) st plain o =
      if end_stream then end_of_stream direction id headers st plain o else (o, some plain)

  abbrev pub with_data : H2FrameDirection → FrameHeader → Option (Bytes × Bool) → Observer → Polled
  with_data direction frame none o = (o, some (unknown_of frame))
  with_data direction frame (some (bytes, end_stream)) o =
      let id = frame.stream_id in
      let old = stream_or_new id o.streams in
      let st = record old { body = old.body ++ bytes } in
      data_event direction id end_stream st.headers st (body_data id bytes direction end_stream)
        (record o { streams = set_stream id st o.streams })

  unfoldable pub handle_data_frame : H2FrameDirection → FrameHeader → Observer → Polled
  handle_data_frame direction frame o =
      with_data direction frame (parse_data_payload frame.flags frame.payload) o

  abbrev pub returning : Observer × H2Event → Polled
  returning (o, e) = (o, some e)

  unfoldable pub handle_regular_frame : H2FrameDirection → FrameHeader → Observer → Polled
  handle_regular_frame direction frame o =
      if frame.frame_type == 0x0
      then handle_data_frame direction frame o
      else if frame.frame_type == 0x1
      then handle_headers direction frame (parse_headers_payload frame.flags frame.payload) o
      else if frame.frame_type == 0x2
      then (o, some (handle_priority_frame frame))
      else if frame.frame_type == 0x3
      then (o, some (handle_rst_stream frame))
      else if frame.frame_type == 0x4
      then (o, some (handle_settings_frame direction frame))
      else if frame.frame_type == 0x5
      then (o, some (handle_push_promise frame))
      else if frame.frame_type == 0x6
      then (o, some (handle_ping direction frame))
      else if frame.frame_type == 0x7
      then (o, some (handle_goaway frame))
      else if frame.frame_type == 0x8
      then returning (handle_window_update direction frame o)
      else (o, some (unknown_of frame))

  -- A frame that comes while a header block is being collected.
  unfoldable pub continue_headers :
      H2FrameDirection → PartialHeadersState → FrameHeader → Observer → Polled
  continue_headers direction partial frame o =
      let block = partial.header_block ++ frame.payload in
      if not (frame.frame_type == 0x9) || not (frame.stream_id == partial.stream_id)
      then handle_regular_frame direction frame o
      else if has_flag 0x4 frame.flags
      then handle_complete_headers direction partial.stream_id partial.flags block
          (record o { partial_headers = none; partial_direction = none })
      else (record o { partial_headers = some (record partial { header_block = block }) }, none)

  abbrev handle_frame :
      H2FrameDirection → FrameHeader → Option PartialHeadersState → Observer → Polled
  handle_frame direction frame none o = handle_regular_frame direction frame o
  handle_frame direction frame (some partial) o =
      if same_direction o.partial_direction direction
      then continue_headers direction partial frame o
      else handle_regular_frame direction frame o

  abbrev poll_with : H2FrameDirection → Option (FrameHeader × Bytes) → Observer → Polled
  poll_with direction none o = (o, none)
  poll_with direction (some (frame, rest)) o =
      handle_frame direction frame o.partial_headers (set_bytes direction rest o)

  unfoldable pub poll_one_frame : H2FrameDirection → Observer → Polled
  poll_one_frame direction o = poll_with direction (parse_next_frame (bytes_of direction o)) o

  -- One turn of `while let Some(e) = self.poll_one_frame(direction)`, and the turns after it.
  abbrev pub collect :
      Polled
      → (Observer → Exec (Unit {0}) (List H2Event × Observer))
      → Exec (Unit {0}) (List H2Event × Observer)
  collect (o, none) turns = ok ([], o)
  collect (o, some e) turns = do (events, o') ← turns o; ok (e ∷ events, o')

  -- A frame takes nine bytes at least, so the length of the buffer is fuel enough.
  unfoldable pub poll_all :
      ℕ → H2FrameDirection → Observer → Exec (Unit {0}) (List H2Event × Observer)
  poll_all zero direction o = stalled
  poll_all (suc fuel) direction o = collect (poll_one_frame direction o) (poll_all fuel direction)

  unfoldable pub get_all_events : Observer → Exec (Unit {0}) (List H2Event × Observer)
  get_all_events o = do
    (in_events, o') ← poll_all (suc (length (bytes_of incoming o))) incoming o
    (out_events, o'') ← poll_all (suc (length (bytes_of outgoing o'))) outgoing o'
    ok (in_events ++ out_events, o'')

  -- `Stream::poll_next`: an event of either direction, the incoming one first; `none` is `Pending`.
  unfoldable pub poll_next : Observer → Polled
  poll_next o =
      let (o', e) = poll_one_frame incoming o in
      elim e [ some event ↦ (o', some event) | none ↦ poll_one_frame outgoing o' ]
