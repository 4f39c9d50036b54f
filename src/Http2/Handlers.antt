-- ===== src/Http2/Handlers.antt =====
-- src/tcp_proxy/h2_parser.rs: the handlers of frames that leave the observer as it is. A payload of
-- the wrong size makes an unknown frame of the whole.
use odd_box.Http2.Event.{
  ping, go_away, priority, push_promise, rst_stream, settings, unknown_frame, H2FrameDirection,
  H2Frame, H2Event, DecodedSettings, from_u16,
}
use odd_box.Base.{has_flag, u32_be, ◌==◌, length, u16_be, [], if◌then◌else◌, ◌∷◌, Bytes, List}
use odd_box.Http2.Frame.{FrameHeader, u31_be}

abbrev pub unknown_of : FrameHeader → H2Event
unknown_of fh = unknown_frame (H2Frame.unknown fh.frame_type fh.stream_id fh.flags fh.payload)

priority_of : FrameHeader → Bytes → H2Event
priority_of fh (p0 ∷ p1 ∷ p2 ∷ p3 ∷ weight ∷ []) =
    priority fh.stream_id (has_flag 0x80 p0) (u31_be p0 p1 p2 p3) weight
priority_of fh _ = unknown_of fh

unfoldable pub handle_priority_frame : FrameHeader → H2Event
unfolding priority_of
handle_priority_frame fh = priority_of fh fh.payload

rst_stream_of : FrameHeader → Bytes → H2Event
rst_stream_of fh (c0 ∷ c1 ∷ c2 ∷ c3 ∷ []) =
    unknown_frame (rst_stream fh.stream_id (u32_be c0 c1 c2 c3))
rst_stream_of fh _ = unknown_of fh

unfoldable pub handle_rst_stream : FrameHeader → H2Event
unfolding rst_stream_of
handle_rst_stream fh = rst_stream_of fh fh.payload

push_promise_of : FrameHeader → Bytes → H2Event
push_promise_of fh (p0 ∷ p1 ∷ p2 ∷ p3 ∷ block) =
    push_promise fh.stream_id (u31_be p0 p1 p2 p3) block
push_promise_of fh _ = unknown_of fh

unfoldable pub handle_push_promise : FrameHeader → H2Event
unfolding push_promise_of
handle_push_promise fh = push_promise_of fh fh.payload

unfoldable pub handle_ping : H2FrameDirection → FrameHeader → H2Event
handle_ping direction fh =
    if length fh.payload == 8 then ping direction fh.flags fh.payload else unknown_of fh

goaway_of : FrameHeader → Bytes → H2Event
goaway_of fh (s0 ∷ s1 ∷ s2 ∷ s3 ∷ c0 ∷ c1 ∷ c2 ∷ c3 ∷ debug_data) =
    go_away (u31_be s0 s1 s2 s3) (u32_be c0 c1 c2 c3) debug_data
goaway_of fh _ = unknown_of fh

unfoldable pub handle_goaway : FrameHeader → H2Event
unfolding goaway_of
handle_goaway fh = goaway_of fh fh.payload

-- `while cursor.len() >= 6`; fewer bytes than that at the end are passed over.
unfoldable pub decode_settings : Bytes → List DecodedSettings
decode_settings (i0 ∷ i1 ∷ v0 ∷ v1 ∷ v2 ∷ v3 ∷ cursor) =
    record { identifier = from_u16 (u16_be i0 i1); value = u32_be v0 v1 v2 v3 }
    ∷ decode_settings cursor
decode_settings _ = []

unfoldable pub handle_settings_frame : H2FrameDirection → FrameHeader → H2Event
handle_settings_frame direction fh = settings direction fh.flags (decode_settings fh.payload)
