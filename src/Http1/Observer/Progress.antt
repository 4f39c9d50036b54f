-- ===== src/Http1/Observer/Progress.antt =====
-- The observer's three parsers move on with every item, so its loops end.
use odd_box.Http1.Observer.{
  two_loops, web_socket, upgrade_requested, http, web_socket_receive, web_socket_send, on_frame,
  on_response, on_request, ConnectionState, Reaction, drain_all, parse, parse_in, H1Observer,
}
use odd_box.Base.{
  bind-eq-ok, suc, Exec, map-ne-stalled, refl, ◌≡◌, ok, ◌^◌, IsSafe-ne-stalled, stalled, ◌<◌,
  Option, bind-ne-stalled, length, ◌≢◌, arith, slice, ◌≤◌, ℕ, Bytes,
}
use odd_box.Http1.Message.{
  parse_headers, content_length, Httparse, RequestHead, ResponseHead, Parsed, complete,
  read_message_body, request_of, response_of, ParsedRequest, ParsedResponse, parse_http_request,
  parse_http_response,
}
use odd_box.Http1.Frame.{FrameHeader, read_header, read_body, parse_websocket_frame}
use odd_box.Http1.Frame.Safety.{read_header-IsSafe, parse_websocket_frame_consumes}
use odd_box.Http1.Frame.Stable.{parse_websocket_frame-append}
use odd_box.Http1.Observer.Drain.{IsBuffer, Progresses, IsStable, drain-ne-stalled}

-- What the crate httparse documents of `Status::Complete(n)`: `n` is the size of the head, which the
-- parser found in the buffer. An empty head is no message.
pub record IsLawful (h : Httparse) : Type 0 where
  pub request_size :
      (buf : Bytes) (n : ℕ) (head : RequestHead)
      → h.request buf ≡ complete n head
      → (1 ≤ n) × (n ≤ length buf)
  pub response_size :
      (buf : Bytes) (n : ℕ) (head : ResponseHead)
      → h.response buf ≡ complete n head
      → (1 ≤ n) × (n ≤ length buf)

read_body-ne-stalled : (buf : Bytes) (h : FrameHeader) → read_body buf h ≢ stalled
unfolding read_body slice
read_body-ne-stalled buf h = ground arith

pub frames_progress : Progresses parse_websocket_frame
unfolding parse_websocket_frame
frames_progress = record {
  takes = λ buf a n h e. let c = parse_websocket_frame_consumes buf h.bytes e in (omega arith, c.1);
  ends = λ buf h e.
      bind-ne-stalled (read_header buf) (read_body buf)
        (IsSafe-ne-stalled _ (read_header-IsSafe buf h.bytes)) (read_body-ne-stalled buf) e;
}

pub frames-IsStable : IsStable parse_websocket_frame
frames-IsStable buf more a n e = parse_websocket_frame-append buf more e

module _ (buf : Bytes) (n size : ℕ) where
  read_message_body_takes :
      {body : Option Bytes} {consumed : ℕ}
      → 1 ≤ n
      → n ≤ length buf
      → length buf < 2 ^ 64
      → read_message_body buf n size ≡ ok (body, consumed)
      → (1 ≤ consumed) × (consumed ≤ length buf)
  unfolding read_message_body slice
  read_message_body_takes h k l e = ground arith

  read_message_body-ne-stalled : read_message_body buf n size ≢ stalled
  unfolding read_message_body slice
  read_message_body-ne-stalled = ground arith

module _ {h : Httparse} (lawful : IsLawful h) where
  request_of-takes :
      (buf : Bytes) (p : Parsed RequestHead) (a : ParsedRequest) (n : ℕ)
      → h.request buf ≡ p
      → IsBuffer buf
      → request_of h buf p ≡ ok (a, n)
      → (1 ≤ n) × (n ≤ length buf)
  unfolding request_of
  request_of-takes buf (complete m head) a n found b e =
      let bounds = lawful.request_size buf m head found in
      let size = content_length (parse_headers head.headers) in
      let (r, e1, e2) = bind-eq-ok (read_message_body buf m size) _ e in
      let takes =
        read_message_body_takes buf m size {body = r.0} {consumed = r.1} bounds.0 bounds.1
          b.addressable e1 in
      ground arith
  request_of-takes buf _ a n found b e = cc

  request_of-ne-stalled : (buf : Bytes) (p : Parsed RequestHead) → request_of h buf p ≢ stalled
  unfolding request_of
  request_of-ne-stalled buf (complete m head) =
      map-ne-stalled (read_message_body buf m (content_length (parse_headers head.headers))) _
        (read_message_body-ne-stalled buf m (content_length (parse_headers head.headers)))
  request_of-ne-stalled buf _ = λ e. cc

  pub requests_progress : Progresses (parse_http_request h)
  unfolding parse_http_request
  requests_progress = record {
    takes = λ buf a n b e. request_of-takes buf (h.request buf) a n refl b e;
    ends = λ buf b. request_of-ne-stalled buf (h.request buf);
  }

  response_of-takes :
      (buf : Bytes) (p : Parsed ResponseHead) (a : ParsedResponse) (n : ℕ)
      → h.response buf ≡ p
      → IsBuffer buf
      → response_of h buf p ≡ ok (a, n)
      → (1 ≤ n) × (n ≤ length buf)
  unfolding response_of
  response_of-takes buf (complete m head) a n found b e =
      let bounds = lawful.response_size buf m head found in
      let size = content_length (parse_headers head.headers) in
      let (r, e1, e2) = bind-eq-ok (read_message_body buf m size) _ e in
      let takes =
        read_message_body_takes buf m size {body = r.0} {consumed = r.1} bounds.0 bounds.1
          b.addressable e1 in
      ground arith
  response_of-takes buf _ a n found b e = cc

  response_of-ne-stalled : (buf : Bytes) (p : Parsed ResponseHead) → response_of h buf p ≢ stalled
  unfolding response_of
  response_of-ne-stalled buf (complete m head) =
      map-ne-stalled (read_message_body buf m (content_length (parse_headers head.headers))) _
        (read_message_body-ne-stalled buf m (content_length (parse_headers head.headers)))
  response_of-ne-stalled buf _ = λ e. cc

  pub responses_progress : Progresses (parse_http_response h)
  unfolding parse_http_response
  responses_progress = record {
    takes = λ buf a n b e. response_of-takes buf (h.response buf) a n refl b e;
    ends = λ buf b. response_of-ne-stalled buf (h.response buf);
  }

  -- The observer's buffers hold bytes, and fit into memory.
  abbrev Fits : H1Observer → Type 0
  Fits o = IsBuffer o.to_server × IsBuffer o.to_client

  drain_all-ne-stalled :
      {E A : Type 0} (parse : Bytes → Exec E (A × ℕ)) (react : Reaction A) (buf : Bytes)
      (s : ConnectionState)
      → Progresses parse
      → IsBuffer buf
      → drain_all parse react buf s ≢ stalled
  unfolding drain_all
  drain_all-ne-stalled parse react buf s good b =
      drain-ne-stalled parse react good (suc (length buf)) buf s b (omega arith)

  two_loops-ne-stalled :
      {E A D B : Type 0} (p : Bytes → Exec E (A × ℕ)) (f : Reaction A) (q : Bytes → Exec D (B × ℕ))
      (g : Reaction B) (o : H1Observer)
      → Progresses p
      → Progresses q
      → Fits o
      → two_loops p f q g o ≢ stalled
  unfolding two_loops
  two_loops-ne-stalled p f q g o good good' b =
      bind-ne-stalled (drain_all p f o.to_server o.state) _
        (drain_all-ne-stalled p f o.to_server o.state good b.0)
        (λ a.
          map-ne-stalled (drain_all q g o.to_client a.state) _
            (drain_all-ne-stalled q g o.to_client a.state good' b.1))

  parse_in-ne-stalled : (s : ConnectionState) (o : H1Observer) → Fits o → parse_in h s o ≢ stalled
  unfolding parse_in
  parse_in-ne-stalled http o b =
      two_loops-ne-stalled (parse_http_request h) on_request (parse_http_response h) on_response o
        requests_progress responses_progress b
  parse_in-ne-stalled upgrade_requested o b =
      map-ne-stalled (drain_all (parse_http_response h) on_response o.to_client o.state) _
        (drain_all-ne-stalled _ on_response o.to_client o.state responses_progress b.1)
  parse_in-ne-stalled web_socket o b =
      two_loops-ne-stalled parse_websocket_frame (on_frame web_socket_send) parse_websocket_frame
        (on_frame web_socket_receive) o frames_progress frames_progress b

  -- A parse of the two buffers ends, in every state and whatever bytes they hold, fewer than 2 ^ 64 in each,
  -- if httparse is lawful: none of its loops runs on. (It may still end in a panic.)
  pub parse-ne-stalled :
      (o : H1Observer) → IsBuffer o.to_server → IsBuffer o.to_client → parse h o ≢ stalled
  unfolding parse
  parse-ne-stalled o a b = parse_in-ne-stalled o.state o (a, b)
