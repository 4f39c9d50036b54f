-- ===== src/Http1/Frame/RoundTrip.antt =====
-- Every WebSocket frame that an endpoint can send (RFC 6455, 5.2) is read back as it was.
use odd_box.Base.{
  ◌∙◌, ap, append_assoc, sym, subst, length-append, slice-Cursor, Cursor-start, Cursor-skip, Cursor,
  ◌≤◌, suc, AllBytes-get_or, get_or, bit_xor, bit_xor_twice, ok, refl, arith, length, none, true,
  ◌%◌, ◌++◌, [], false, ltb, some, ◌+◌, ◌<◌, ◌^◌, ◌∷◌, AllBytes, Bool, Option, if◌then◌else◌, index,
  ◌/◌, ℕ, Bytes, ◌≡◌,
}
use odd_box.Http1.Frame.Safety.{length-apply_key}
use odd_box.Http1.Frame.{
  FrameError, top_bit, read_body, read_key, read_length, FrameHeader, parse_websocket_frame,
  read_header, shift_in, unmask, apply_key,
}

abbrev pub be64 : ℕ → Bytes
be64 n =
    (n / 2 ^ 56 % 256)
    ∷ (n / 2 ^ 48 % 256)
    ∷ (n / 2 ^ 40 % 256)
    ∷ (n / 2 ^ 32 % 256)
    ∷ (n / 2 ^ 24 % 256)
    ∷ (n / 2 ^ 16 % 256)
    ∷ (n / 2 ^ 8 % 256)
    ∷ (n % 256)
    ∷ []

-- A masking key: four bytes.
pub record MaskingKey : Type 0 where
  pub k0 : ℕ
  pub k1 : ℕ
  pub k2 : ℕ
  pub k3 : ℕ
  pub bytes : AllBytes (k0 ∷ k1 ∷ k2 ∷ k3 ∷ [])

abbrev pub key_bytes : Option MaskingKey → Bytes
key_bytes none = []
key_bytes (some k) = k.k0 ∷ k.k1 ∷ k.k2 ∷ k.k3 ∷ []

abbrev pub key_list : Option MaskingKey → Option Bytes
key_list none = none
key_list (some k) = some (k.k0 ∷ k.k1 ∷ k.k2 ∷ k.k3 ∷ [])

abbrev pub mask_bit : Option MaskingKey → ℕ
mask_bit none = 0
mask_bit (some k) = 128

abbrev pub is_masked : Option MaskingKey → Bool
is_masked none = false
is_masked (some k) = true

-- The second byte and the extended length, by the three sizes of a payload.
unfoldable pub encode_length : ℕ → ℕ → Bytes
encode_length mask n =
    if ltb n 126
    then (mask + n) ∷ []
    else if ltb n 65536
    then (mask + 126) ∷ n / 256 ∷ n % 256 ∷ []
    else (mask + 127) ∷ be64 n

-- A payload under four bytes of key, taken in turn (RFC 6455, 5.3).
unfoldable pub mask_by : ℕ → ℕ → ℕ → ℕ → Bytes → Bytes
mask_by k0 k1 k2 k3 [] = []
mask_by k0 k1 k2 k3 (b ∷ bs) = bit_xor b k0 ∷ mask_by k1 k2 k3 k0 bs

abbrev pub mask_with : Option MaskingKey → Bytes → Bytes
mask_with none payload = payload
mask_with (some k) payload = mask_by k.k0 k.k1 k.k2 k.k3 payload

unfoldable pub encode_frame : Bool → ℕ → Option MaskingKey → Bytes → Bytes
encode_frame fin opcode key payload =
    (if fin then 128 + opcode else opcode)
    ∷ (encode_length (mask_bit key) (length payload) ++ (key_bytes key ++ mask_with key payload))

unmask_twice :
    (key : Bytes) (i : ℕ) (bs : Bytes)
    → AllBytes key
    → AllBytes bs
    → unmask key i (unmask key i bs) ≡ bs
unfolding unmask
unmask_twice key i [] k h = refl
unmask_twice key i (b ∷ bs) k h = ground (
  arith,
  bit_xor_twice b (get_or key (i % 4) 0) h.0 (AllBytes-get_or key (i % 4) k),
  unmask_twice key (suc i) bs k h.1,
)

apply_key_twice :
    (key : Option MaskingKey) (bs : Bytes)
    → AllBytes bs
    → apply_key (key_list key) (apply_key (key_list key) bs) ≡ bs
apply_key_twice none bs h = refl
apply_key_twice (some k) bs h = unmask_twice _ 0 bs k.bytes h

-- From a place in the payload on, the key is turned by as much.
unmask-mask_by :
    (k0 k1 k2 k3 i : ℕ) (bs : Bytes)
    → i % 4 ≡ 0
    → unmask (k0 ∷ k1 ∷ k2 ∷ k3 ∷ []) i bs ≡ mask_by k0 k1 k2 k3 bs
unfolding unmask mask_by
unmask-mask_by k0 k1 k2 k3 i [] h = refl
unmask-mask_by k0 k1 k2 k3 i (a ∷ []) h = rw h refl
unmask-mask_by k0 k1 k2 k3 i (a ∷ b ∷ []) h =
    let h1 : suc i % 4 ≡ 1 = omega arith in rw (h, h1) refl
unmask-mask_by k0 k1 k2 k3 i (a ∷ b ∷ c ∷ []) h =
    let h1 : suc i % 4 ≡ 1 = omega arith in
    let h2 : suc (suc i) % 4 ≡ 2 = omega arith in rw (h, h1, h2) refl
unmask-mask_by k0 k1 k2 k3 i (a ∷ b ∷ c ∷ d ∷ bs) h =
    let h1 : suc i % 4 ≡ 1 = omega arith in
    let h2 : suc (suc i) % 4 ≡ 2 = omega arith in
    let h3 : suc (suc (suc i)) % 4 ≡ 3 = omega arith in
    rw (h, h1, h2, h3, unmask-mask_by k0 k1 k2 k3 (suc (suc (suc (suc i)))) bs (omega arith)) refl

apply_key-mask_with :
    (key : Option MaskingKey) (bs : Bytes) → apply_key (key_list key) bs ≡ mask_with key bs
apply_key-mask_with none bs = refl
apply_key-mask_with (some k) bs = unmask-mask_by k.k0 k.k1 k.k2 k.k3 0 bs refl

shift_in-be64 :
    (a b n : ℕ) (rest : Bytes) → n < 2 ^ 64 → shift_in (a ∷ b ∷ (be64 n ++ rest)) 2 8 0 ≡ ok n
unfolding shift_in index
shift_in-be64 a b n rest h = ground arith

-- What is read in front of the payload.
abbrev header_of : ℕ → Option MaskingKey → ℕ → ℕ → FrameHeader
header_of first key n at = record {
  first_byte = first;
  masked = is_masked key;
  key = key_list key;
  body_at = at;
  payload_len = n;
}

-- The part of a frame in front of the payload.
abbrev front : ℕ → Option MaskingKey → ℕ → Bytes
front first key n = first ∷ (encode_length (mask_bit key) n ++ key_bytes key)

read_header-front :
    (first n : ℕ) (key : Option MaskingKey) (rest : Bytes)
    → n < 2 ^ 64
    → read_header (front first key n ++ rest)
      ≡ ok (header_of first key n (length (front first key n)))
unfolding read_header read_length read_key index encode_length
read_header-front first n none rest h = ground (arith, shift_in-be64 first 127 n rest h)
read_header-front first n (some k) rest h =
    ground (arith, shift_in-be64 first 255 n (k.k0 ∷ k.k1 ∷ k.k2 ∷ k.k3 ∷ rest) h)

length-front : (first n : ℕ) (key : Option MaskingKey) → length (front first key n) ≤ 14
unfolding encode_length
length-front first n none = ground arith
length-front first n (some k) = ground arith

read_body-front :
    (f body rest : Bytes) (first : ℕ) (key : Option MaskingKey)
    → length f + length body < 2 ^ 64
    → read_body (f ++ (body ++ rest)) (header_of first key (length body) (length f))
      ≡ ok (
        record {
          fin = top_bit first;
          opcode = first % 16;
          masked = is_masked key;
          payload = apply_key (key_list key) body;
        },
        length f + length body,
      )
unfolding read_body
read_body-front f body rest first key small =
    let buf = f ++ (body ++ rest) in
    let start : 0 + length f ≡ length f = omega arith in
    let at =
      subst (λ c. Cursor buf c (body ++ rest)) start
        (Cursor-skip f (body ++ rest) (Cursor-start buf)) in
    ground (
      arith,
      slice-Cursor {E = FrameError} body rest at,
      length-append f (body ++ rest),
      length-append body rest,
    )

-- A frame that was written with an opcode of four bits and a payload of bytes of any of the three sizes, fourteen bytes
-- short of 2 ^ 64 at most, masked by the four bytes of a key in turn or not at all, is read back as it was, and exactly
-- its own bytes are taken from the buffer.
pub parse_websocket_frame-encode :
    (fin : Bool) (opcode : ℕ) (key : Option MaskingKey) (payload rest : Bytes)
    → opcode < 16
    → AllBytes payload
    → length payload + 14 < 2 ^ 64
    → let frame = encode_frame fin opcode key payload in
      parse_websocket_frame (frame ++ rest)
      ≡ ok (
        record { fin = fin; opcode = opcode; masked = is_masked key; payload = payload },
        length frame,
      )
unfolding parse_websocket_frame
parse_websocket_frame-encode fin opcode key payload rest o b small =
    let first = if fin then 128 + opcode else opcode in
    let n = length payload in
    let body = mask_with key payload in
    let under = apply_key-mask_with key payload in
    let f = front first key n in
    let size : length body ≡ n = ap length (sym under) ∙ length-apply_key (key_list key) payload in
    let fits = length-front first n key in
    let split : encode_frame fin opcode key payload ≡ f ++ body =
      unfold encode_frame in
      sym (append_assoc (first ∷ encode_length (mask_bit key) n) (key_bytes key) body) in
    let whole : encode_frame fin opcode key payload ++ rest ≡ f ++ (body ++ rest) =
      rw split (append_assoc f body rest) in
    let header : read_header (f ++ (body ++ rest))
        ≡ ok (header_of first key (length body) (length f)) =
      rw size (read_header-front first n key (body ++ rest) (omega arith)) in
    let size_of : length (encode_frame fin opcode key payload) ≡ length f + length body =
      ap length split ∙ length-append f body in
    let read = read_body-front f body rest first key (omega arith) in
    let same = ap (apply_key (key_list key)) (sym under) ∙ apply_key_twice key payload b in
    rw (whole, header, read, same, size_of) (ground arith)
