-- ===== src/Http1/Frame.antt =====
-- src/tcp_proxy/h1_parser.rs: `WebSocketFrame` and `parse_websocket_frame`. `usize` has 64 bits; its
-- sums wrap, as in the release profile, which leaves overflow checks off.
pub mod Safety
pub mod RoundTrip
pub mod Stable
use odd_box.Base.{
  get_or, bit_xor, zero, [], slice, ◌*◌, ◌+◌, index, length, ltb, ◌>>=◌, fail_if, leb, none, some,
  suc, ◌==◌, ◌^◌, Bool, Exec, Option, if◌then◌else◌, ok, ◌%◌, ◌>>◌, ◌∷◌, ℕ, Bytes,
}

pub record WebSocketFrame : Type 0 where
  pub fin : Bool
  pub opcode : ℕ
  pub masked : Bool
  pub payload : Bytes

pub data FrameError : Type 0 where
  incomplete_header incomplete_length_126 incomplete_length_127 : FrameError
  incomplete_masking_key incomplete_payload : FrameError

abbrev pub Framing : Type 0 → Type 0
Framing A = Exec FrameError A

abbrev pub usize : ℕ → ℕ
usize n = n % 2 ^ 64

-- `(first_byte & 0x80) != 0` of a byte
abbrev pub top_bit : ℕ → Bool
top_bit b = leb 128 b

-- `payload_len = (payload_len << 8) | buf[index + i]`, for each i of the eight bytes
unfoldable pub shift_in : Bytes → ℕ → ℕ → ℕ → Framing ℕ
shift_in buf at zero len = ok len
shift_in buf at (suc n) len = do b ← index buf at; shift_in buf (at + 1) n (usize (len * 256) + b)

-- The length in two bytes, and in eight.
abbrev length_16 : Bytes → Framing (ℕ × ℕ)
length_16 buf = do
  fail_if (ltb (length buf) (2 + 2)) incomplete_length_126
  hi ← index buf 2
  lo ← index buf 3
  ok (hi * 256 + lo, 4)

abbrev length_64 : Bytes → Framing (ℕ × ℕ)
length_64 buf = do
  fail_if (ltb (length buf) (2 + 8)) incomplete_length_127
  len ← shift_in buf 2 8 0
  ok (len, 10)

-- The length that the header announces, and the offset behind it.
unfoldable pub read_length : Bytes → ℕ → Framing (ℕ × ℕ)
read_length buf short =
    if short == 126 then length_16 buf else if short == 127 then length_64 buf else ok (short, 2)

abbrev key_at : Bytes → ℕ → Framing (Option Bytes × ℕ)
key_at buf at = do
  fail_if (ltb (length buf) (at + 4)) incomplete_masking_key
  k0 ← index buf at
  k1 ← index buf (at + 1)
  k2 ← index buf (at + 2)
  k3 ← index buf (at + 3)
  ok (some (k0 ∷ k1 ∷ k2 ∷ k3 ∷ []), at + 4)

-- The masking key, if the frame is masked, and the offset behind it.
unfoldable pub read_key : Bytes → Bool → ℕ → Framing (Option Bytes × ℕ)
read_key buf masked at = if masked then key_at buf at else ok (none, at)

-- `payload[i] ^= key[i % 4]`, from `i` on
unfoldable pub unmask : Bytes → ℕ → Bytes → Bytes
unmask key i [] = []
unmask key i (b ∷ bs) = bit_xor b (get_or key (i % 4) 0) ∷ unmask key (suc i) bs

abbrev pub apply_key : Option Bytes → Bytes → Bytes
apply_key none payload = payload
apply_key (some key) payload = unmask key 0 payload

pub record FrameHeader : Type 0 where
  pub first_byte : ℕ
  pub masked : Bool
  pub key : Option Bytes
  pub body_at : ℕ
  pub payload_len : ℕ

-- What stands in front of the payload.
unfoldable pub read_header : Bytes → Framing FrameHeader
read_header buf = do
  fail_if (ltb (length buf) 2) incomplete_header
  first_byte ← index buf 0
  second_byte ← index buf 1
  let masked = top_bit second_byte
  (payload_len, at) ← read_length buf (second_byte % 128)
  (key, at') ← read_key buf masked at
  ok (record {
    first_byte = first_byte;
    masked = masked;
    key = key;
    body_at = at';
    payload_len = payload_len;
  })

-- The payload behind a header, and the number of bytes that the frame takes.
unfoldable pub read_body : Bytes → FrameHeader → Framing (WebSocketFrame × ℕ)
read_body buf h = do
  fail_if (ltb (length buf) (usize (h.body_at + h.payload_len))) incomplete_payload
  payload ← slice buf h.body_at (usize (h.body_at + h.payload_len))
  ok (
    record {
      fin = top_bit h.first_byte;
      opcode = h.first_byte % 16;
      masked = h.masked;
      payload = apply_key h.key payload;
    },
    usize (h.body_at + h.payload_len),
  )

-- The frame at the front of `buf`, and the number of bytes that it takes.
unfoldable pub parse_websocket_frame : Bytes → Framing (WebSocketFrame × ℕ)
parse_websocket_frame buf = do h ← read_header buf; read_body buf h
