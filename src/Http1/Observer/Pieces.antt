-- ===== src/Http1/Observer/Pieces.antt =====
-- WebSocket data may reach the observer in pieces of any size.
use odd_box.Base.{
  append-nil, append_assoc, bind-eq-ok, ok-injective, refl, err, panic, stalled, [], List, ◌∙◌,
  length-drop, ap, length-append, arith, sym, drop-append_le, subst, length, suc, ◌>>=◌, ok, ◌++◌,
  Bytes, ◌≡◌,
}
use odd_box.Http1.Frame.{WebSocketFrame, parse_websocket_frame, read_header}
use odd_box.Http1.Message.{Httparse}
use odd_box.Http1.Observer.{
  HttpData, ConnectionState, DataDirection, Drained, H1Observer, Running, on_frame, drain,
  drain_all, client_to_server, server_to_client, web_socket, web_socket_send, web_socket_receive,
  push, parse, parse_in, two_loops,
}
use odd_box.Http1.Observer.Drain.{IsBuffer, drain_fuel, drain-append, drain-drop, IsBuffer-drop}
use odd_box.Http1.Observer.Progress.{frames_progress, frames-IsStable}

-- One direction of a WebSocket, from the buffer and the state that the observer keeps for it.
abbrev pub frames_of : (WebSocketFrame → HttpData) → Bytes → ConnectionState → Running Drained
frames_of wrap = drain_all parse_websocket_frame (on_frame wrap)

-- Events of two runs, one after the other.
abbrev pub behind : Drained → Drained → Drained
behind d r = record r { events = d.events ++ r.events }

-- A loop over what has arrived in one direction, and later one over what was left of it with the bytes that followed,
-- give the events, the rest and the state that one loop over all the bytes gives, wherever the bytes were split, if
-- there are fewer than 2 ^ 64 of them.
frames_in_pieces :
    (wrap : WebSocketFrame → HttpData) (first second : Bytes) (s : ConnectionState) (d : Drained)
    → IsBuffer (first ++ second)
    → IsBuffer first
    → frames_of wrap first s ≡ ok d
    → frames_of wrap (first ++ second) s
      ≡ (frames_of wrap (d.buffer ++ second) d.state >>= λ r. ok (behind d r))
unfolding drain_all
frames_in_pieces wrap first second s d whole part e =
    let P = parse_websocket_frame in
    let R = on_frame wrap in
    let (k, bound, left) = drain-drop P R frames_progress (suc (length first)) first s part e in
    let rest =
      subst IsBuffer (drop-append_le k first second bound)
        (IsBuffer-drop k (first ++ second) whole) in
    let rest' = subst (λ b. IsBuffer (b ++ second)) (sym left) rest in
    let joined =
      drain-append P R frames_progress frames-IsStable (suc (length first))
        (suc (length (first ++ second))) first second s part whole (omega arith) e in
    let fuel =
      drain_fuel P R frames_progress (suc (length (first ++ second)))
        (suc (length (d.buffer ++ second))) (d.buffer ++ second) d.state rest'
        (omega (
          arith,
          length-append d.buffer second,
          length-append first second,
          ap length left,
          length-drop k first,
        ))
        (omega arith) in
    joined ∙ rw fuel

-- An observer of an open WebSocket that holds bytes of one direction.
abbrev pub arrived : DataDirection → Bytes → H1Observer
arrived dir bytes = push dir bytes (record { to_server = []; to_client = []; state = web_socket })

-- Nothing is read from an empty buffer.
frames_of_nothing :
    (wrap : WebSocketFrame → HttpData) (s : ConnectionState)
    → frames_of wrap [] s ≡ ok (record { events = []; buffer = []; state = s })
unfolding drain_all drain parse_websocket_frame read_header
frames_of_nothing wrap s = refl

-- What the two loops of a parse leave, and what is left when only one of them had anything to read.
abbrev both : Drained → Drained → Running (List HttpData × H1Observer)
both a b =
    ok
      (a.events ++ b.events, record { to_server = a.buffer; to_client = b.buffer; state = b.state })

abbrev from_client : Drained → Running (List HttpData × H1Observer)
from_client d =
    ok (d.events ++ [], record { to_server = d.buffer; to_client = []; state = d.state })

abbrev from_server : Drained → Running (List HttpData × H1Observer)
from_server d = ok (d.events, record { to_server = []; to_client = d.buffer; state = d.state })

module _ (h : Httparse) where
  parse_to_server :
      (bytes : Bytes)
      → parse h (arrived client_to_server bytes)
        ≡ (frames_of web_socket_send bytes web_socket >>= λ d. from_client d)
  unfolding parse parse_in two_loops push
  parse_to_server bytes = same (frames_of web_socket_send bytes web_socket)
    where
      same :
          (m : Running Drained)
          → (m >>= λ a. frames_of web_socket_receive [] a.state >>= λ b. both a b)
            ≡ (m >>= λ d. from_client d)
      same (ok d) = rw (frames_of_nothing web_socket_receive d.state) refl
      same (err e) = refl
      same panic = refl
      same stalled = refl

  parse_to_client :
      (bytes : Bytes)
      → parse h (arrived server_to_client bytes)
        ≡ (frames_of web_socket_receive bytes web_socket >>= λ d. from_server d)
  unfolding parse parse_in two_loops push
  parse_to_client bytes =
      ap (λ m. m >>= λ a. frames_of web_socket_receive bytes a.state >>= λ b. both a b)
        (frames_of_nothing web_socket_send web_socket)

  -- What a later parse adds to the events of an earlier one.
  abbrev pub later_events :
      List HttpData → Running (List HttpData × H1Observer) → Running (List HttpData × H1Observer)
  later_events events m = m >>= λ r. ok (events ++ r.0, r.1)

  -- While a WebSocket is open and only one of its directions sends: parsing what has arrived, and then, if the
  -- WebSocket was not closed in it, what was left of it with the bytes that follow, gives the events and the observer
  -- that one parse of all the bytes gives, wherever they were split, if they are bytes and fewer than 2 ^ 64.
  pub parse_in_pieces :
      (dir : DataDirection) (first second : Bytes) (events : List HttpData) (o : H1Observer)
      → IsBuffer (first ++ second)
      → IsBuffer first
      → parse h (arrived dir first) ≡ ok (events, o)
      → o.state ≡ web_socket
      → parse h (arrived dir (first ++ second)) ≡ later_events events (parse h (push dir second o))
  unfolding push
  parse_in_pieces client_to_server first second events o whole part e opened =
      let (d, drained, made) =
        bind-eq-ok (frames_of web_socket_send first web_socket) _
          (sym (parse_to_server first) ∙ e) in
      let told = ok-injective made in
      let stays : d.state ≡ web_socket = ap (λ r. r.1.state) told ∙ opened in
      let observer : push client_to_server second o
          ≡ arrived client_to_server (d.buffer ++ second) =
        ap (λ r. push client_to_server second r.1) (sym told)
        ∙ ap (λ s. record { to_server = d.buffer ++ second; to_client = []; state = s }) stays in
      parse_to_server (first ++ second)
      ∙ ap (λ m. m >>= λ r. from_client r)
          (frames_in_pieces web_socket_send first second web_socket d whole part drained
            ∙ ap (λ s. frames_of web_socket_send (d.buffer ++ second) s >>= λ r. ok (behind d r))
                stays)
      ∙ joined d.events (frames_of web_socket_send (d.buffer ++ second) web_socket)
      ∙ ap
          (λ es.
            later_events es
              (frames_of web_socket_send (d.buffer ++ second) web_socket >>= λ r. from_client r))
          (sym (append-nil d.events) ∙ ap (λ r. r.0) told)
      ∙ ap (later_events events)
          (sym (parse_to_server (d.buffer ++ second)) ∙ ap (parse h) (sym observer))
    where
      joined :
          (es : List HttpData) (m : Running Drained)
          → ((m >>= λ r. ok (record r { events = es ++ r.events })) >>= λ r. from_client r)
            ≡ later_events es (m >>= λ r. from_client r)
      joined es (ok r) =
          ap (λ x. ok (x, record { to_server = r.buffer; to_client = []; state = r.state }))
            (append_assoc es r.events [])
      joined es (err x) = refl
      joined es panic = refl
      joined es stalled = refl
  parse_in_pieces server_to_client first second events o whole part e opened =
      let (d, drained, made) =
        bind-eq-ok (frames_of web_socket_receive first web_socket) _
          (sym (parse_to_client first) ∙ e) in
      let told = ok-injective made in
      let stays : d.state ≡ web_socket = ap (λ r. r.1.state) told ∙ opened in
      let observer : push server_to_client second o
          ≡ arrived server_to_client (d.buffer ++ second) =
        ap (λ r. push server_to_client second r.1) (sym told)
        ∙ ap (λ s. record { to_server = []; to_client = d.buffer ++ second; state = s }) stays in
      parse_to_client (first ++ second)
      ∙ ap (λ m. m >>= λ r. from_server r)
          (frames_in_pieces web_socket_receive first second web_socket d whole part drained
            ∙ ap (λ s. frames_of web_socket_receive (d.buffer ++ second) s >>= λ r. ok (behind d r))
                stays)
      ∙ joined d.events (frames_of web_socket_receive (d.buffer ++ second) web_socket)
      ∙ ap
          (λ es.
            later_events es
              (frames_of web_socket_receive (d.buffer ++ second) web_socket >>= λ r. from_server r))
          (ap (λ r. r.0) told)
      ∙ ap (later_events events)
          (sym (parse_to_client (d.buffer ++ second)) ∙ ap (parse h) (sym observer))
    where
      joined :
          (es : List HttpData) (m : Running Drained)
          → ((m >>= λ r. ok (record r { events = es ++ r.events })) >>= λ r. from_server r)
            ≡ later_events es (m >>= λ r. from_server r)
      joined es (ok r) = refl
      joined es (err x) = refl
      joined es panic = refl
      joined es stalled = refl
