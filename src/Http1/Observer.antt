-- ===== src/Http1/Observer.antt =====
-- src/tcp_proxy/h1_parser.rs: `H1Observer`, which follows both directions of a connection from HTTP
-- to WebSocket and back. Each of its five loops takes parsed items off the front of one buffer.
pub mod Drain
pub mod Progress
pub mod States
pub mod Pieces
use odd_box.Base.{
  panic, zero, [], contains_ignore_case, err, ◌||◌, ◌∷◌, drop, eq_ignore_case, length, false, ok,
  stalled, suc, ◌&&◌, ◌==◌, Bool, Exec, if◌then◌else◌, ◌++◌, ◌>>=◌, ℕ, Bytes, List,
}
use odd_box.Http1.Frame.{WebSocketFrame, parse_websocket_frame}
use odd_box.Http1.Message.{
  Httparse, Headers, ParsedRequest, ParsedResponse, parse_http_request, parse_http_response, codes,
}

pub data HttpData : Type 0 where
  request : ParsedRequest → HttpData
  response : ParsedResponse → HttpData
  web_socket_send web_socket_receive : WebSocketFrame → HttpData
  web_socket_opened web_socket_closed protocol_switched : HttpData

pub data ConnectionState : Type 0 where
  http upgrade_requested web_socket : ConnectionState

pub data DataDirection : Type 0 where
  client_to_server server_to_client : DataDirection

pub record H1Observer : Type 0 where
  pub to_server : Bytes
  pub to_client : Bytes
  pub state : ConnectionState

-- `H1Observer::default`
abbrev pub new : H1Observer
new = record { to_server = []; to_client = []; state = http }

unfoldable pub push : DataDirection → Bytes → H1Observer → H1Observer
push client_to_server bytes o = record o { to_server = o.to_server ++ bytes }
push server_to_client bytes o = record o { to_client = o.to_client ++ bytes }

-- The two tests on a header of `is_websocket_upgrade`. `to_lowercase` maps the letters of `upgrade`
-- as the ASCII mapping does, and maps no other character to one of them.
unfoldable pub has_upgrade : Headers → Bool
has_upgrade [] = false
has_upgrade ((name, value) ∷ rest) =
    (eq_ignore_case name (codes "Upgrade") && eq_ignore_case value (codes "websocket"))
    || has_upgrade rest

unfoldable pub has_connection_upgrade : Headers → Bool
has_connection_upgrade [] = false
has_connection_upgrade ((name, value) ∷ rest) =
    (eq_ignore_case name (codes "Connection") && contains_ignore_case value (codes "upgrade"))
    || has_connection_upgrade rest

unfoldable pub is_websocket_upgrade : HttpData → Bool
unfolding has_upgrade has_connection_upgrade
is_websocket_upgrade (request r) = has_upgrade r.headers && has_connection_upgrade r.headers
is_websocket_upgrade (response r) =
    r.status_code == 101 && has_upgrade r.headers && has_connection_upgrade r.headers
is_websocket_upgrade _ = false

-- What the body of a loop pushes for an item, and the state that it leaves.
abbrev pub Reaction : Type 0 → Type 0
Reaction A = A → ConnectionState → List HttpData × ConnectionState

unfoldable pub on_request : ParsedRequest → ConnectionState → List HttpData × ConnectionState
on_request r s =
    if is_websocket_upgrade (request r)
    then (request r ∷ protocol_switched ∷ [], upgrade_requested)
    else (request r ∷ [], s)

unfoldable pub on_response : ParsedResponse → ConnectionState → List HttpData × ConnectionState
on_response r s =
    if is_websocket_upgrade (response r)
    then (response r ∷ web_socket_opened ∷ [], web_socket)
    else (response r ∷ [], s)

unfoldable pub on_frame :
    (WebSocketFrame → HttpData) → WebSocketFrame → ConnectionState → List HttpData × ConnectionState
on_frame wrap frame s =
    if frame.opcode == 0x8
    then (wrap frame ∷ web_socket_closed ∷ [], http)
    else (wrap frame ∷ [], s)

-- What a loop leaves: the events, the rest of its buffer, and the state.
pub record Drained : Type 0 where
  pub events : List HttpData
  pub buffer : Bytes
  pub state : ConnectionState

abbrev pub Running : Type 0 → Type 0
Running A = Exec (Unit {0}) A

-- `loop { match parse(&buffer) { Ok((item, consumed)) => .., Err(_) => break } }`, where `consumed`
-- bytes are popped. An item takes a byte at least, so the length of the buffer is fuel enough.
module _ {E A : Type 0} (parse : Bytes → Exec E (A × ℕ)) (react : Reaction A) where
  unfoldable pub drain : ℕ → Bytes → ConnectionState → Running Drained
  drain zero buf s = stalled
  drain (suc fuel) buf s = elim (parse buf) [
    | ok (item, consumed) ↦
        let (events, s') = react item s in
        do
          rest ← drain fuel (drop consumed buf) s'
          ok (record rest { events = events ++ rest.events })
    | err e ↦ ok (record { events = []; buffer = buf; state = s })
    | panic ↦ panic
    | stalled ↦ stalled
  ]

  unfoldable pub drain_all : Bytes → ConnectionState → Running Drained
  drain_all buf s = drain (suc (length buf)) buf s

-- The two loops of an arm, over the bytes from the client and then over those from the server.
unfoldable pub two_loops :
    {E A D B : Type 0}
    → (Bytes → Exec E (A × ℕ))
    → Reaction A
    → (Bytes → Exec D (B × ℕ))
    → Reaction B
    → H1Observer
    → Running (List HttpData × H1Observer)
two_loops p f q g o = do
  a ← drain_all p f o.to_server o.state
  b ← drain_all q g o.to_client a.state
  ok (a.events ++ b.events, record { to_server = a.buffer; to_client = b.buffer; state = b.state })

module _ (h : Httparse) where
  -- The arms of the `match` on the state.
  unfoldable pub parse_in : ConnectionState → H1Observer → Running (List HttpData × H1Observer)
  parse_in http o =
      two_loops (parse_http_request h) on_request (parse_http_response h) on_response o
  parse_in upgrade_requested o = do
    b ← drain_all (parse_http_response h) on_response o.to_client o.state
    ok (b.events, record o { to_client = b.buffer; state = b.state })
  parse_in web_socket o =
      two_loops parse_websocket_frame (on_frame web_socket_send) parse_websocket_frame
        (on_frame web_socket_receive) o

  unfoldable pub parse : H1Observer → Running (List HttpData × H1Observer)
  parse o = parse_in o.state o
