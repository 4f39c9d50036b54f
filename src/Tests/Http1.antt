-- ===== src/Tests/Http1.antt =====
-- WebSocket frames and the observer, with httparse replaced by a parser of one fixed head.
use odd_box.Http1.Observer.{
  is_websocket_upgrade, H1Observer, ConnectionState, DataDirection, HttpData, parse, parse_in,
  drain, two_loops, push, drain_all, on_response,
}
use odd_box.Http1.Message.{
  parse_http_response, parse_headers, content_length, read_message_body, response_of, Httparse,
  RequestHead, ResponseHead, Parsed, codes,
}
use odd_box.Base.{
  ◌⊎◌, ◌-◌, ◌<◌, refl, ◌+◌, ◌^◌, length, none, ok, slice, stalled, IsSafe, [], arith, false, index,
  panic, some, true, ◌++◌, ◌∷◌, ◌≢◌, ◌≤◌, ℕ, Bytes, List, ◌≡◌, replicate,
}
use odd_box.Http1.Frame.{
  FrameHeader, read_header, read_length, read_key, shift_in, read_body, parse_websocket_frame,
}
use odd_box.Http1.Frame.Safety.{parse_websocket_frame-IsSafe, parse_websocket_frame_panics}
use odd_box.Http1.Frame.RoundTrip.{MaskingKey, encode_frame, parse_websocket_frame-encode}
use odd_box.Http1.Observer.Progress.{IsLawful, parse-ne-stalled}
use odd_box.Http1.Observer.Pieces.{arrived, later_events, parse_in_pieces}
use odd_box.Http1.Observer.States.{Explained, announced, parse-Explained, parse_upgrade_requested}

abbrev key : MaskingKey
key = record { k0 = 1; k1 = 2; k2 = 3; k3 = 255; bytes = omega arith }

abbrev greeting : Bytes
greeting = codes "Hello"

-- An unmasked text frame: final, opcode 1, five bytes.
abbrev hello_frame : Bytes
hello_frame = 0x81 ∷ 5 ∷ greeting

-- A frame that announces a payload of 2 ^ 64 - 1 bytes.
abbrev huge : Bytes
huge = 0x82 ∷ 127 ∷ replicate 8 255

abbrev huge_header : FrameHeader
huge_header = record {
  first_byte = 0x82;
  masked = false;
  key = none;
  body_at = 10;
  payload_len = 2 ^ 64 - 1;
}

read_huge : read_header huge ≡ ok huge_header
unfolding read_header read_length read_key shift_in index
read_huge = refl

read_hello :
    parse_websocket_frame hello_frame
    ≡ ok (record { fin = true; opcode = 1; masked = false; payload = greeting }, 7)
unfolding parse_websocket_frame read_header read_length read_key shift_in read_body index slice
read_hello = refl

hello_small :
    (h : FrameHeader) → read_header hello_frame ≡ ok h → h.body_at + h.payload_len < 2 ^ 64
unfolding read_header read_length read_key shift_in index
hello_small h e = ground arith

parse_websocket_frame-IsSafe_example : IsSafe (parse_websocket_frame hello_frame)
parse_websocket_frame-IsSafe_example =
    parse_websocket_frame-IsSafe hello_frame (omega arith) hello_small

parse_websocket_frame_panics_example : parse_websocket_frame huge ≡ panic
parse_websocket_frame_panics_example =
    parse_websocket_frame_panics huge huge_header (omega arith) read_huge (omega arith)

parse_websocket_frame-encode_example :
    parse_websocket_frame (encode_frame true 2 (some key) greeting ++ (9 ∷ []))
    ≡ ok (
      record { fin = true; opcode = 2; masked = true; payload = greeting },
      length (encode_frame true 2 (some key) greeting),
    )
parse_websocket_frame-encode_example =
    parse_websocket_frame-encode true 2 (some key) greeting (9 ∷ []) (omega arith) (omega arith)
      (omega arith)

-- A stand-in for httparse: every buffer of three bytes or more begins with a head of three bytes.
abbrev request_head : RequestHead
request_head = record { method = some (codes "GET"); path = none; version = some 1; headers = [] }

abbrev refusal : ResponseHead
refusal = record { version = some 1; code = some 403; reason = none; headers = [] }

abbrev three : {A : Type 0} → A → Bytes → Parsed A
three head (_ ∷ _ ∷ _ ∷ _) = Parsed.complete 3 head
three head _ = Parsed.partial

abbrev parser : Httparse
parser = record { request = three request_head; response = three refusal }

three_size :
    {A : Type 0} (head : A) (buf : Bytes) (n : ℕ) (found : A)
    → three head buf ≡ Parsed.complete n found
    → (1 ≤ n) × (n ≤ length buf)
three_size head (_ ∷ _ ∷ _ ∷ _) n found e = ground arith
three_size head [] n found e = cc
three_size head (_ ∷ []) n found e = cc
three_size head (_ ∷ _ ∷ []) n found e = cc

abbrev parser-IsLawful : IsLawful parser
parser-IsLawful = record {
  request_size = λ buf n head e. three_size request_head buf n head e;
  response_size = λ buf n head e. three_size refusal buf n head e;
}

-- The client asked for an upgrade, the server refuses it, and the client goes on with a request.
abbrev refused : H1Observer
refused = record {
  to_server = 1 ∷ 2 ∷ 3 ∷ [];
  to_client = 4 ∷ 5 ∷ 6 ∷ [];
  state = ConnectionState.upgrade_requested;
}

parse-ne-stalled_example : parse parser refused ≢ stalled
parse-ne-stalled_example =
    parse-ne-stalled parser-IsLawful refused
      (record { bytes = omega arith; addressable = omega arith })
      (record { bytes = omega arith; addressable = omega arith })

abbrev refusal_seen : List HttpData
refusal_seen =
    HttpData.response
      (record { version = 1; status_code = 403; reason = []; headers = []; body = none })
    ∷ []

abbrev still_waiting : H1Observer
still_waiting = record refused { to_client = [] }

parse-refused : parse parser refused ≡ ok (refusal_seen, still_waiting)
unfolding parse parse_in drain_all drain parse_http_response response_of read_message_body
    content_length parse_headers on_response is_websocket_upgrade
parse-refused = refl

parse-Explained_example :
    Explained ConnectionState.upgrade_requested refusal_seen ConnectionState.upgrade_requested
parse-Explained_example = parse-Explained parser refused still_waiting refusal_seen parse-refused

parse_upgrade_requested_example :
    (still_waiting.to_server ≡ refused.to_server)
    × (parse parser (record refused { to_server = greeting })
        ≡ ok (refusal_seen, record still_waiting { to_server = greeting }))
    × ((still_waiting.state ≡ ConnectionState.upgrade_requested)
        ⊎ ((still_waiting.state ≡ ConnectionState.web_socket)
            × (announced ConnectionState.web_socket refusal_seen ≡ true)))
parse_upgrade_requested_example =
    parse_upgrade_requested parser refused still_waiting refusal_seen greeting refl parse-refused

-- The hello frame, cut behind its header.
abbrev left_over : H1Observer
left_over = record { to_server = 0x81 ∷ 5 ∷ []; to_client = []; state = ConnectionState.web_socket }

read_first_piece :
    parse parser (arrived DataDirection.client_to_server (0x81 ∷ 5 ∷ [])) ≡ ok ([], left_over)
unfolding parse parse_in two_loops push drain_all drain parse_websocket_frame read_header
    read_length read_key read_body index
read_first_piece = refl

parse_in_pieces_example :
    parse parser (arrived DataDirection.client_to_server hello_frame)
    ≡ later_events parser [] (parse parser (push DataDirection.client_to_server greeting left_over))
parse_in_pieces_example =
    parse_in_pieces parser DataDirection.client_to_server (0x81 ∷ 5 ∷ []) greeting [] left_over
      (record { bytes = omega arith; addressable = omega arith })
      (record { bytes = omega arith; addressable = omega arith }) read_first_piece refl
