-- ===== src/Http2/Frame.antt =====
-- src/tcp_proxy/h2_parser.rs: `FrameHeader` and `parse_next_frame`.
use odd_box.Base.{
  drop, take, some, none, length, ltb, if◌then◌else◌, u24_be, ◌^◌, ◌%◌, ◌∷◌, Option, u32_be, ℕ,
  Bytes,
}

pub record FrameHeader : Type 0 where
  pub frame_type : ℕ
  pub flags : ℕ
  pub stream_id : ℕ
  pub payload : Bytes

-- `sid_raw & 0x7FFF_FFFF`: the reserved top bit is dropped.
abbrev pub u31_be : ℕ → ℕ → ℕ → ℕ → ℕ
u31_be a b c d = u32_be a b c d % 2 ^ 31

-- The frame at the front of the buffer and what `advance` leaves of it; `none` while fewer than the
-- nine bytes of a header, or than the announced payload, have arrived.
unfoldable pub parse_next_frame : Bytes → Option (FrameHeader × Bytes)
parse_next_frame (l0 ∷ l1 ∷ l2 ∷ frame_type ∷ flags ∷ s0 ∷ s1 ∷ s2 ∷ s3 ∷ rest) =
    let size = u24_be l0 l1 l2 in
    if ltb (length rest) size
    then none
    else some (
      record {
        frame_type = frame_type;
        flags = flags;
        stream_id = u31_be s0 s1 s2 s3;
        payload = take size rest;
      },
      drop size rest,
    )
parse_next_frame _ = none
