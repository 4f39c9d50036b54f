-- ===== src/Http1/Frame/Safety.antt =====
-- When `parse_websocket_frame` ends by itself, and the one way in which it does not: an announced
-- length so large that the end of the payload wraps around.
use odd_box.Base.{
  length-drop, [], length-take, ap, drop, none, some, ◌-◌, ◌∷◌, slice-le, take, bind-eq-ok, tests,
  inr, panic, inl, slice, bind-IsSafe, ltb, Bool-cases, ◌%◌, refl, zero, ◌*◌, AllBytes-get_or, suc,
  ◌+◌, ◌^◌, index-get_or, get_or, arith, index, ok, IsSafe, Option, length, ◌≤◌, AllBytes, Bool,
  ◌<◌, ℕ, Bytes, ◌≡◌,
}
use odd_box.Http1.Frame.{
  apply_key, unmask, WebSocketFrame, read_body, FrameHeader, parse_websocket_frame, top_bit,
  read_header, FrameError, usize, shift_in, read_length, read_key,
}

module _ (buf : Bytes) where
  byte : (i : ℕ) → i < length buf → index {E = FrameError} buf i ≡ ok (get_or buf i 0)
  byte i = index-get_or buf i 0

  module _ (bytes : AllBytes buf) where
    shift_in-ok :
        (n at len : ℕ)
        → at + n ≤ length buf
        → len < 2 ^ 64
        → (v : ℕ) × (shift_in buf at n len ≡ ok v) × (v < 2 ^ 64)
    unfolding shift_in
    shift_in-ok zero at len h k = (len, refl, k)
    shift_in-ok (suc n) at len h k =
        let b = get_or buf at 0 in
        let small = AllBytes-get_or buf at bytes in
        let (v, e, bound) =
          shift_in-ok n (at + 1) (usize (len * 256) + b) (omega arith) (omega arith) in
        (v, rw (byte at (omega arith)) e, bound)

    read_length-IsSafe : (short : ℕ) → 2 ≤ length buf → IsSafe (read_length buf short)
    unfolding read_length
    read_length-IsSafe short h = ground (arith, byte 2, byte 3, shift_in-ok 8 2 0)

    read_length-bounds :
        (short : ℕ) {len at : ℕ}
        → 2 ≤ length buf
        → short < 128
        → read_length buf short ≡ ok (len, at)
        → (2 ≤ at) × (at ≤ 10) × (at ≤ length buf) × (len < 2 ^ 64)
    unfolding read_length
    read_length-bounds short h k e = ground (
      arith,
      byte 2,
      byte 3,
      shift_in-ok 8 2 0,
      AllBytes-get_or buf 2 bytes,
      AllBytes-get_or buf 3 bytes,
    )

  read_key-IsSafe : (masked : Bool) (at : ℕ) → IsSafe (read_key buf masked at)
  unfolding read_key
  read_key-IsSafe masked at = ground (arith, byte at, byte (at + 1), byte (at + 2), byte (at + 3))

  read_key-bounds :
      (masked : Bool) (at : ℕ) {key : Option Bytes} {at' : ℕ}
      → at ≤ length buf
      → read_key buf masked at ≡ ok (key, at')
      → (at ≤ at') × (at' ≤ at + 4) × (at' ≤ length buf)
  unfolding read_key
  read_key-bounds masked at h e =
      ground (arith, byte at, byte (at + 1), byte (at + 2), byte (at + 3))

  -- A header is read in three steps, each of which ends by itself.
  pub read_header-IsSafe : AllBytes buf → IsSafe (read_header buf)
  unfolding read_header
  read_header-IsSafe bytes = elim (Bool-cases (ltb (length buf) 2)) [
    | inl short ↦ rw (short, IsSafe, read_header) tt
    | inr long ↦
        let two : 2 ≤ length buf = omega tests in
        let b1 = get_or buf 1 0 in
        rw (long, byte 0 (omega arith), byte 1 (omega arith))
          (bind-IsSafe (read_length buf (b1 % 128)) _ (read_length-IsSafe bytes (b1 % 128) two)
            (λ (len, at) _.
              bind-IsSafe (read_key buf (top_bit b1) at) _ (read_key-IsSafe (top_bit b1) at)
                (λ _ _. tt)))
  ]

  -- The header of a frame takes 2 to 14 bytes, all of them there, and announces a length of 64 bits.
  read_header-bounds :
      {h : FrameHeader}
      → AllBytes buf
      → read_header buf ≡ ok h
      → (2 ≤ h.body_at) × (h.body_at ≤ 14) × (h.body_at ≤ length buf) × (h.payload_len < 2 ^ 64)
  unfolding read_header
  read_header-bounds bytes e = elim (Bool-cases (ltb (length buf) 2)) [
    | inl short ↦ cc (rw (short, read_header) at e)
    | inr long ↦
        let two : 2 ≤ length buf = omega tests in
        let b1 = get_or buf 1 0 in
        let e1 = rw (long, byte 0 (omega arith), byte 1 (omega arith), read_header) at e in
        let ((len, at), e2, e3) = bind-eq-ok (read_length buf (b1 % 128)) _ e1 in
        let ((key, at'), e4, e5) = bind-eq-ok (read_key buf (top_bit b1) at) _ e3 in
        ground (
          arith,
          read_length-bounds bytes (b1 % 128) two (omega arith) e2,
          read_key-bounds (top_bit b1) at
              (read_length-bounds bytes (b1 % 128) two (omega arith) e2).2 e4,
          e5,
        )
  ]

length-unmask : (key : Bytes) (i : ℕ) (bs : Bytes) → length (unmask key i bs) ≡ length bs
unfolding unmask
length-unmask key i [] = refl
length-unmask key i (b ∷ bs) = ap suc (length-unmask key (suc i) bs)

pub length-apply_key : (key : Option Bytes) (bs : Bytes) → length (apply_key key bs) ≡ length bs
length-apply_key none bs = refl
length-apply_key (some key) bs = length-unmask key 0 bs

module _ (buf : Bytes) (h : FrameHeader) where
  read_body-IsSafe : h.body_at + h.payload_len < 2 ^ 64 → IsSafe (read_body buf h)
  unfolding read_body
  read_body-IsSafe small =
      ground (arith, slice-le {E = FrameError} buf h.body_at (usize (h.body_at + h.payload_len)))

  read_body_consumes :
      {frame : WebSocketFrame} {n : ℕ}
      → read_body buf h ≡ ok (frame, n)
      → (n ≤ length buf) × (length frame.payload + h.body_at ≡ n)
  unfolding read_body slice
  read_body_consumes e =
      let end = usize (h.body_at + h.payload_len) in
      let part = take (end - h.body_at) (drop h.body_at buf) in
      ground (
        arith,
        length-apply_key h.key part,
        length-take (end - h.body_at) (drop h.body_at buf),
        length-drop h.body_at buf,
      )

-- A buffer of bytes whose frame ends below 2 ^ 64 is parsed with no panic: a frame comes out, or an error that
-- asks for more bytes.
pub parse_websocket_frame-IsSafe :
    (buf : Bytes)
    → AllBytes buf
    → ((h : FrameHeader) → read_header buf ≡ ok h → h.body_at + h.payload_len < 2 ^ 64)
    → IsSafe (parse_websocket_frame buf)
unfolding parse_websocket_frame
parse_websocket_frame-IsSafe buf bytes small =
    bind-IsSafe (read_header buf) _ (read_header-IsSafe buf bytes)
      λ h e. read_body-IsSafe buf h (small h e)

-- A frame that ends at 2 ^ 64 or later, by its header, is a panic: the end wraps around, passes the
-- test on the length of the buffer, and lies in front of the payload.
pub parse_websocket_frame_panics :
    (buf : Bytes) (h : FrameHeader)
    → AllBytes buf
    → read_header buf ≡ ok h
    → 2 ^ 64 ≤ h.body_at + h.payload_len
    → parse_websocket_frame buf ≡ panic
unfolding parse_websocket_frame read_body slice
parse_websocket_frame_panics buf h bytes e big =
    rw e (ground (arith, read_header-bounds buf bytes e))

-- A parsed frame takes two bytes at least, and no more than there are; its payload is part of them.
pub parse_websocket_frame_consumes :
    (buf : Bytes) {frame : WebSocketFrame} {n : ℕ}
    → AllBytes buf
    → parse_websocket_frame buf ≡ ok (frame, n)
    → (2 ≤ n) × (n ≤ length buf) × (length frame.payload + 2 ≤ n)
unfolding parse_websocket_frame
parse_websocket_frame_consumes buf bytes e =
    let (h, e1, e2) = bind-eq-ok (read_header buf) (read_body buf) e in
    let bounds = read_header-bounds buf bytes e1 in
    let consumed = read_body_consumes buf h e2 in omega arith
