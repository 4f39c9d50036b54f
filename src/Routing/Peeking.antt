-- ===== src/Routing/Peeking.antt =====
-- `peek_managed_stream` of src/tcp_proxy/managed_stream.rs, with `is_valid_http_request` of src/tcp_proxy/http1.rs and
-- `is_valid_http2_request` of src/tcp_proxy/http2.rs: the loop that looks at what has arrived until it tells where the
-- connection is meant to go. A look is what `peek_async` returns; the sleeps, and what only the tracking is told, are
-- left out.
pub mod Endings
pub mod Attempts
pub mod Limit
use odd_box.Base.{
  ◌>>=◌, ◌&&◌, ◌||◌, ◌+◌, ◌==◌, ◌∷◌, [], ok, err, panic, stalled, none, some, true, false, ltb,
  if◌then◌else◌, bytes_eq, take, length, Exec, Bool, Option, Bytes, List, ℕ,
}
use odd_box.Http1.Initial.{parse_http_request_fast, ParsedHttpRequest, InitialError}
use odd_box.Http1.Message.{codes, or_else}
use odd_box.Http2.Event.{H2Event, HeaderMap, incoming, incoming_request}
use odd_box.Http2.Stream.{get_header}
use odd_box.Http2.Observer.{Hpack, H2Observer, write_to, get_all_events}
use odd_box.Routing.Finding.{contains_bytes}
use odd_box.Routing.Target.{
  http_09, http_10, http_11, http_2, http_3, tls, clear_text, Version, PeekError, PeekResult,
}
use odd_box.Tls.ClientHello.{try_from, message_incomplete, TlsClientHello, TlsClientHelloError}
use odd_box.Tls.Sni.{read_sni_hostname, SniParserError}

abbrev pub starts_with : Bytes → Bytes → Bool
starts_with bytes front = bytes_eq (take (length front) bytes) front

abbrev pub methods : List Bytes
methods =
    codes "GET "
    ∷ codes "POST "
    ∷ codes "PUT "
    ∷ codes "DELETE "
    ∷ codes "HEAD "
    ∷ codes "OPTIONS "
    ∷ codes "PATCH "
    ∷ codes "CONNECT "
    ∷ codes "TRACE "
    ∷ []

unfoldable pub has_method : List Bytes → Bytes → Bool
has_method [] bytes = false
has_method (m ∷ ms) bytes = starts_with bytes m || has_method ms bytes

-- The versions in the order in which they are searched for.
unfoldable pub find_version : Bytes → Option Version
unfolding contains_bytes
find_version bytes =
    if contains_bytes bytes (codes " HTTP/1.1\r\n")
    then some http_11
    else if contains_bytes bytes (codes " HTTP/1.0\r\n")
    then some http_10
    else if contains_bytes bytes (codes " HTTP/2.0\r\n")
    then some http_2
    else if contains_bytes bytes (codes " HTTP/3.0\r\n")
    then some http_3
    else if contains_bytes bytes (codes " HTTP/0.9\r\n")
    then some http_09
    else none

-- HTTP/0.9 needs no headers; the others need the end of them.
abbrev pub when_complete : Bytes → Option Version → Option Version
when_complete bytes none = none
when_complete bytes (some http_09) = some http_09
when_complete bytes (some v) = if contains_bytes bytes (codes "\r\n\r\n") then some v else none

unfoldable pub is_valid_http_request : Bytes → Option Version
unfolding has_method find_version
is_valid_http_request bytes =
    if has_method methods bytes then when_complete bytes (find_version bytes) else none

unfoldable pub is_valid_http2_request : Bytes → Bool
is_valid_http2_request bytes = starts_with bytes (codes "PRI * HTTP/2.0")

-- What `peek_async` returns: an error, the end of the stream, or all that has been read of it so far.
pub data Look : Type 0 where
  failed closed : Look
  buffered : Bytes → Look

-- How the loop goes on: the result, another turn with or without an attempt being counted, or a panic of a parser.
pub data Turn (S : Type 0) : Type 0 where
  done : PeekResult → S → Turn S
  refused : PeekError → Turn S
  again : S → Turn S
  broken : Turn S

-- What the loop comes to; `waiting` is a loop that has not ended with the looks that there were.
pub data Peeked (S : Type 0) : Type 0 where
  found : PeekResult → S → Peeked S
  gave_up : PeekError → Peeked S
  waiting : S → Peeked S
  crashed : Peeked S

abbrev pub tls_result : Bytes → PeekResult
tls_result host = record {
  typ = tls;
  http_version = none;
  target_host = some host;
  is_h2c_upgrade = false;
  sni = some host;
  host_header = none;
}

abbrev pub http1_result : Version → ParsedHttpRequest → PeekResult
http1_result v r = record {
  typ = clear_text;
  http_version = some v;
  target_host = some r.host;
  is_h2c_upgrade = r.is_h2c_upgrade;
  sni = none;
  host_header = some r.host;
}

abbrev pub http2_result : Bytes → PeekResult
http2_result host = record {
  typ = clear_text;
  http_version = some http_2;
  target_host = some host;
  is_h2c_upgrade = false;
  sni = none;
  host_header = some host;
}

-- The server name of the TLS session around the stream, if there is one.
abbrev pub outer_result : Option Bytes → PeekResult
outer_result sni = record {
  typ = clear_text;
  http_version = some http_2;
  target_host = sni;
  is_h2c_upgrade = false;
  sni = sni;
  host_header = none;
}

-- The authority of a request, or its host.
abbrev pub authority : HeaderMap → Option Bytes
authority headers = elim (get_header (codes ":authority") headers) [
  | some host ↦ some host
  | none ↦ get_header (codes "Host") headers
]

-- The loop over the events, up to the first request that names a host.
unfoldable pub first_authority : List H2Event → Option Bytes
first_authority [] = none
first_authority (incoming_request rq ∷ events) =
    let later = first_authority events in
    elim (authority rq.headers) [ some host ↦ some host | none ↦ later ]
first_authority (_ ∷ events) = first_authority events

module _ (hp : Hpack) where
  -- What the loop changes of the stream: the attempts, the marks, and the observer.
  pub record Peeking : Type 0 where
    pub attempts : ℕ
    pub is_tls : Bool
    pub is_http2 : Bool
    pub http_version : Option Version
    pub contains_h2c_upgrade_header : Bool
    pub h2_observer : H2Observer hp.Decoder

  abbrev pub count_attempt : Peeking → Turn Peeking
  count_attempt p = again (record p { attempts = p.attempts + 1 })

  abbrev pub look_at_name : Peeking → Exec SniParserError Bytes → Turn Peeking
  look_at_name p (ok host) = done (tls_result host) p
  look_at_name p (err e) = count_attempt p
  look_at_name p panic = broken
  look_at_name p stalled = broken

  -- An incomplete ClientHello is looked at again without an attempt being counted.
  abbrev pub look_at_hello : Peeking → Exec TlsClientHelloError TlsClientHello → Turn Peeking
  look_at_hello p (ok hello) = look_at_name p (read_sni_hostname hello)
  look_at_hello p (err (message_incomplete n)) = again p
  look_at_hello p (err _) = refused PeekError.unknown
  look_at_hello p panic = broken
  look_at_hello p stalled = broken

  abbrev pub look_at_request :
      Peeking → Version → Exec InitialError ParsedHttpRequest → Turn Peeking
  look_at_request p v (ok r) =
      done (http1_result v r)
        (record p { http_version = some v; contains_h2c_upgrade_header = r.is_h2c_upgrade })
  look_at_request p v (err e) = count_attempt p
  look_at_request p v panic = broken
  look_at_request p v stalled = broken

  -- Without a host in the events: the name of the TLS session, or a stream in the clear that has to be terminated.
  abbrev pub look_outside : Option (Option Bytes) → Peeking → Option Bytes → Turn Peeking
  look_outside outer p (some host) = done (http2_result host) p
  look_outside (some sni) p none = done (outer_result sni) p
  look_outside none p none = refused PeekError.h2_prior_knowledge_needs_to_be_terminated

  abbrev pub look_at_events :
      Option (Option Bytes)
      → Peeking
      → Exec (Unit {0}) (List H2Event × H2Observer hp.Decoder)
      → Turn Peeking
  look_at_events outer p (ok (events, o)) =
      if ltb (length events) 2
      then count_attempt (record p { h2_observer = o })
      else look_outside outer (record p { h2_observer = o }) (first_authority events)
  look_at_events outer p (err e) = broken
  look_at_events outer p panic = broken
  look_at_events outer p stalled = broken

  -- HTTP/2: the observer is given everything that was read, at every look.
  abbrev pub look_at_http2 : Option (Option Bytes) → Peeking → Bytes → Turn Peeking
  look_at_http2 outer p bytes =
      let marked = record p { is_http2 = true; http_version = some http_2 } in
      look_at_events outer marked (get_all_events hp (write_to hp incoming bytes p.h2_observer))

  abbrev pub look_at_clear : Option (Option Bytes) → Peeking → Bytes → Option Version → Turn Peeking
  look_at_clear outer p bytes (some v) = look_at_request p v (parse_http_request_fast bytes)
  look_at_clear outer p bytes none =
      if is_valid_http2_request bytes then look_at_http2 outer p bytes else count_attempt p

  unfoldable pub look_at_bytes : Option (Option Bytes) → Peeking → Bytes → Turn Peeking
  look_at_bytes outer p [] = count_attempt p
  look_at_bytes outer p (b ∷ bs) =
      if b == 0x16
      then look_at_hello (record p { is_tls = true }) (try_from (b ∷ bs))
      else look_at_clear outer p (b ∷ bs) (is_valid_http_request (b ∷ bs))

  unfoldable pub turn : Option (Option Bytes) → Peeking → Look → Turn Peeking
  turn outer p failed = refused PeekError.unknown
  turn outer p closed = refused PeekError.stream_is_closed
  turn outer p (buffered bytes) = look_at_bytes outer p bytes

  abbrev pub go_on : Turn Peeking → (Peeking → Peeked Peeking) → Peeked Peeking
  go_on (done r p) turns = found r p
  go_on (refused e) turns = gave_up e
  go_on (again p) turns = turns p
  go_on broken turns = crashed

  -- The loop over the looks, from any state; the attempts are tested before each of them.
  unfoldable pub peek_managed_stream : Option (Option Bytes) → List Look → Peeking → Peeked Peeking
  peek_managed_stream outer [] p = waiting p
  peek_managed_stream outer (look ∷ looks) p =
      if ltb 4 p.attempts
      then gave_up PeekError.unknown
      else go_on (turn outer p look) (peek_managed_stream outer looks)
