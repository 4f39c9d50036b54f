-- ===== src/Http2/Wire.antt =====
-- HTTP/2 frames, padded payloads and settings as an endpoint writes them (RFC 9113, 4.1, 6.1, 6.2 and
-- 6.5), and that the observer reads them back.
use odd_box.Base.{
  subst, drop, take-all, append-nil, drop-append, drop-append_le, refl, length-drop, take-append,
  take-append_le, zero, ap, length-append, length-take, [], arith, suc, ◌∷◌, has_flag, replicate,
  u24_be, ◌%◌, ◌+◌, ◌<◌, ◌^◌, Bool, if◌then◌else◌, length, some, ◌++◌, ◌/◌, ℕ, Bytes, List, ◌≡◌,
}
use odd_box.Http2.Frame.{FrameHeader, parse_next_frame}
use odd_box.Http2.Payload.{unpad, skip_priority, parse_headers_payload, parse_data_payload}
use odd_box.Http2.Event.{
  SettingIdentifier, DecodedSettings, from_u16, header_table_size, enable_push,
  max_concurrent_streams, initial_window_size, max_frame_size, max_header_list_size,
  enable_connect_protocol,
}
use odd_box.Http2.Handlers.{decode_settings}

abbrev pub be32 : ℕ → Bytes
be32 n = (n / 2 ^ 24) ∷ n / 2 ^ 16 % 256 ∷ n / 2 ^ 8 % 256 ∷ n % 256 ∷ []

abbrev pub be24 : ℕ → Bytes
be24 n = n / 2 ^ 16 ∷ n / 2 ^ 8 % 256 ∷ n % 256 ∷ []

-- The reserved bit in front of the stream identifier may be set.
unfoldable pub encode_frame : Bool → FrameHeader → Bytes
encode_frame reserved f =
    be24 (length f.payload)
    ++ (f.frame_type
        ∷ f.flags
        ∷ (be32 (if reserved then 2 ^ 31 + f.stream_id else f.stream_id) ++ f.payload))

-- A frame that was written, with a stream below 2 ^ 31 and fewer than 2 ^ 24 bytes of payload, is taken off the
-- front of the buffer as it was, with all bytes behind it left, whether or not the reserved bit is set.
pub parse_next_frame-encode :
    (reserved : Bool) (f : FrameHeader) (rest : Bytes)
    → f.stream_id < 2 ^ 31
    → length f.payload < 2 ^ 24
    → parse_next_frame (encode_frame reserved f ++ rest) ≡ some (f, rest)
unfolding parse_next_frame encode_frame
parse_next_frame-encode reserved f rest h k =
    ground
      (arith, length-append f.payload rest, take-append f.payload rest, drop-append f.payload rest)

-- A frame that is complete in the buffer is parsed to the same frame whatever arrives behind it.
pub parse_next_frame-append :
    (buf more : Bytes) (f : FrameHeader) (rest : Bytes)
    → parse_next_frame buf ≡ some (f, rest)
    → parse_next_frame (buf ++ more) ≡ some (f, rest ++ more)
unfolding parse_next_frame
parse_next_frame-append (l0 ∷ l1 ∷ l2 ∷ t ∷ g ∷ s0 ∷ s1 ∷ s2 ∷ s3 ∷ tail) more f rest e =
    let size = u24_be l0 l1 l2 in
    ground
      (arith, length-append tail more, take-append_le size tail more, drop-append_le size tail more)
parse_next_frame-append _ more f rest e = cc

-- A parsed frame takes its nine bytes of header and its payload off the buffer.
pub parse_next_frame_consumes :
    (buf : Bytes) (f : FrameHeader) (rest : Bytes)
    → parse_next_frame buf ≡ some (f, rest)
    → length buf ≡ 9 + length f.payload + length rest
unfolding parse_next_frame
parse_next_frame_consumes (l0 ∷ l1 ∷ l2 ∷ t ∷ g ∷ s0 ∷ s1 ∷ s2 ∷ s3 ∷ tail) f rest e =
    let size = u24_be l0 l1 l2 in ground (arith, length-take size tail, length-drop size tail)
parse_next_frame_consumes _ f rest e = cc

-- The payload of a HEADERS frame by its flags: a pad length, five bytes of priority, the block, the pad.
abbrev pub pad_front : ℕ → ℕ → Bytes → Bytes
pad_front flags pad body = if has_flag 0x8 flags then pad ∷ body else body

abbrev pub pad_back : ℕ → ℕ → Bytes
pad_back flags pad = if has_flag 0x8 flags then replicate pad 0 else []

abbrev pub priority_front : ℕ → Bytes → Bytes → Bytes
priority_front flags five body = if has_flag 0x20 flags then five ++ body else body

unfoldable pub encode_headers : ℕ → ℕ → Bytes → Bytes → Bytes
encode_headers flags pad five block =
    pad_front flags pad (priority_front flags five (block ++ pad_back flags pad))

unfoldable pub encode_data : ℕ → ℕ → Bytes → Bytes
encode_data flags pad bytes = pad_front flags pad (bytes ++ pad_back flags pad)

length-replicate : (n b : ℕ) → length (replicate n b) ≡ n
length-replicate zero b = refl
length-replicate (suc n) b = ap suc (length-replicate n b)

five_dropped : (five rest : Bytes) → length five ≡ 5 → drop 5 (five ++ rest) ≡ rest
five_dropped five rest h = subst (λ n. drop n (five ++ rest) ≡ rest) h (drop-append five rest)

-- The block of a HEADERS frame is found between its padding and its five bytes of priority, under any flags.
pub parse_headers_payload-encode :
    (flags pad : ℕ) (five block : Bytes)
    → length five ≡ 5
    → parse_headers_payload flags (encode_headers flags pad five block)
      ≡ some (block, has_flag 0x4 flags)
unfolding parse_headers_payload unpad skip_priority encode_headers
parse_headers_payload-encode flags pad five block h =
    let back : Bytes = replicate pad 0 in
    ground (
      arith,
      length-append five (block ++ back),
      length-append five (block ++ []),
      length-append block back,
      length-append block [],
      length-replicate pad 0,
      five_dropped five (block ++ back) h,
      five_dropped five (block ++ []) h,
      take-append block back,
      append-nil block,
      take-all block,
    )

-- The data of a DATA frame is found in front of its padding, under any flags.
pub parse_data_payload-encode :
    (flags pad : ℕ) (bytes : Bytes)
    → parse_data_payload flags (encode_data flags pad bytes) ≡ some (bytes, has_flag 0x1 flags)
unfolding parse_data_payload unpad encode_data
parse_data_payload-encode flags pad bytes =
    let back : Bytes = replicate pad 0 in
    ground (
      arith,
      length-append bytes back,
      length-replicate pad 0,
      take-append bytes back,
      append-nil bytes,
      take-all bytes,
    )

-- The code of a setting.
abbrev pub into_u16 : SettingIdentifier → ℕ
into_u16 header_table_size = 0x1
into_u16 enable_push = 0x2
into_u16 max_concurrent_streams = 0x3
into_u16 initial_window_size = 0x4
into_u16 max_frame_size = 0x5
into_u16 max_header_list_size = 0x6
into_u16 enable_connect_protocol = 0x8
into_u16 (SettingIdentifier.unknown id) = id

unfoldable pub encode_settings : List DecodedSettings → Bytes
encode_settings [] = []
encode_settings (s ∷ rest) =
    into_u16 s.identifier / 256
    ∷ into_u16 s.identifier % 256
    ∷ (be32 s.value ++ encode_settings rest)

-- A setting is written by its own name if it has one.
abbrev pub AllKnown : List DecodedSettings → Type 0
AllKnown [] = Unit
AllKnown (s ∷ rest) = (from_u16 (into_u16 s.identifier) ≡ s.identifier) × AllKnown rest

decode_settings_short : (stray : Bytes) → length stray < 6 → decode_settings stray ≡ []
unfolding decode_settings
decode_settings_short (a ∷ b ∷ c ∷ d ∷ e ∷ f ∷ rest) h = absurd (omega arith)
decode_settings_short _ h = refl

-- The settings of a frame, each written by its own name if it has one, are read in their order, and up to
-- five stray bytes behind them change nothing.
pub decode_settings-encode :
    (entries : List DecodedSettings) (stray : Bytes)
    → AllKnown entries
    → length stray < 6
    → decode_settings (encode_settings entries ++ stray) ≡ entries
unfolding decode_settings encode_settings
decode_settings-encode [] stray k h = decode_settings_short stray h
decode_settings-encode (s ∷ rest) stray (k, ks) h =
    ground (arith, k, decode_settings-encode rest stray ks h)
