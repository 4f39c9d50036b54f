-- ===== src/Http1/Frame/Stable.antt =====
-- More bytes behind a complete frame do not change what is read: a frame means the same whether it
-- comes in one piece or with the next ones.
use odd_box.Base.{
  slice-append, bind-eq-ok, slice, refl, zero, ◌*◌, index-append, index-get_or, length-append, ◌%◌,
  arith, get_or, index, suc, Option, length, ◌++◌, ◌≤◌, Bool, ok, ◌+◌, ◌<◌, ℕ, Bytes, ◌≡◌,
}
use odd_box.Http1.Frame.{
  WebSocketFrame, parse_websocket_frame, read_body, FrameError, FrameHeader, usize, top_bit,
  shift_in, read_length, read_key, read_header,
}

module _ (buf more : Bytes) where
  same : (i : ℕ) → i < length buf → index {E = FrameError} (buf ++ more) i ≡ index buf i
  same = index-append buf more

  shift_in-append :
      (n at len : ℕ) → at + n ≤ length buf → shift_in (buf ++ more) at n len ≡ shift_in buf at n len
  unfolding shift_in
  shift_in-append zero at len h = refl
  shift_in-append (suc n) at len h =
      let b = get_or buf at 0 in
      ground (
        arith,
        same at,
        index-get_or {E = FrameError} buf at 0,
        shift_in-append n (at + 1) (usize (len * 256) + b),
      )

  read_length-append :
      (short : ℕ) {r : ℕ × ℕ}
      → read_length buf short ≡ ok r
      → read_length (buf ++ more) short ≡ ok r
  unfolding read_length
  read_length-append short h =
      ground (arith, length-append buf more, same 2, same 3, shift_in-append 8 2 0)

  read_key-append :
      (masked : Bool) (at : ℕ) {r : Option Bytes × ℕ}
      → read_key buf masked at ≡ ok r
      → read_key (buf ++ more) masked at ≡ ok r
  unfolding read_key
  read_key-append masked at h =
      ground (arith, length-append buf more, same at, same (at + 1), same (at + 2), same (at + 3))

  read_header-append : {h : FrameHeader} → read_header buf ≡ ok h → read_header (buf ++ more) ≡ ok h
  unfolding read_header
  read_header-append {h} e =
      let short = get_or buf 1 0 % 128 in
      let masked = top_bit (get_or buf 1 0) in
      grind (
        arith,
        length-append buf more,
        same,
        index-get_or {E = FrameError} buf 0 0,
        index-get_or {E = FrameError} buf 1 0,
        read_length-append,
        read_key-append,
      )

  read_body-append :
      (h : FrameHeader) {r : WebSocketFrame × ℕ}
      → read_body buf h ≡ ok r
      → read_body (buf ++ more) h ≡ ok r
  unfolding read_body
  read_body-append h e =
      let end = usize (h.body_at + h.payload_len) in
      let ordered : h.body_at ≤ end = unfold slice in ground arith in
      ground (arith, length-append buf more, slice-append {E = FrameError} buf more h.body_at end)

-- A frame that is complete in the buffer is parsed to the same frame, of the same size, whatever bytes
-- arrive behind it.
pub parse_websocket_frame-append :
    (buf more : Bytes) {r : WebSocketFrame × ℕ}
    → parse_websocket_frame buf ≡ ok r
    → parse_websocket_frame (buf ++ more) ≡ ok r
unfolding parse_websocket_frame
parse_websocket_frame-append buf more e =
    let (h, e1, e2) = bind-eq-ok (read_header buf) (read_body buf) e in
    rw (read_header-append buf more e1) (read_body-append buf more h e2)
