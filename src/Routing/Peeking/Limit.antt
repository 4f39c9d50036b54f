-- ===== src/Routing/Peeking/Limit.antt =====
-- How long the loop that peeks goes on: five attempts are counted.
use odd_box.Base.{
  ◌∷◌, ◌+◌, ◌≤◌, [], ok, err, none, some, true, false, ltb, not_ltb→le, if◌then◌else◌, length, refl,
  ◌≡◌, ◌≢◌, ◌==◌, arith, Exec, Bool, Option, Bytes, List, ℕ,
}
use odd_box.Http1.Initial.{parse_http_request_fast, InitialError, ParsedHttpRequest}
use odd_box.Http2.Event.{H2Event, incoming}
use odd_box.Http2.Observer.{Hpack, H2Observer, get_all_events, write_to}
use odd_box.Routing.Target.{http_2, Version, PeekError}
use odd_box.Routing.Peeking.{
  failed, closed, buffered, done, refused, again, broken, gave_up, waiting, Look, Turn, Peeked,
  Peeking, look_at_bytes, look_at_hello, look_at_name, look_at_clear, look_at_http2, look_at_events,
  look_at_request, look_outside, turn, go_on, peek_managed_stream, count_attempt,
  is_valid_http_request, is_valid_http2_request, first_authority,
}
use odd_box.Tls.ClientHello.{try_from, message_incomplete, TlsClientHello, TlsClientHelloError}
use odd_box.Tls.Sni.{read_sni_hostname, SniParserError}

module _ (hp : Hpack) where
  abbrev Counted : ℕ → Turn (Peeking hp) → Type 0
  Counted n (again q) = q.attempts ≡ n + 1
  Counted n _ = Unit

  look_at_name-Counted :
      (p : Peeking hp) (m : Exec SniParserError Bytes) → Counted p.attempts (look_at_name hp p m)
  look_at_name-Counted p (err e) = refl
  look_at_name-Counted p _ = tt

  look_at_hello-Counted :
      (p : Peeking hp) (m : Exec TlsClientHelloError TlsClientHello)
      → ((n : ℕ) → m ≢ err (message_incomplete n))
      → Counted p.attempts (look_at_hello hp p m)
  look_at_hello-Counted p (ok hello) h = look_at_name-Counted p (read_sni_hostname hello)
  look_at_hello-Counted p (err (message_incomplete n)) h = absurd (h n refl)
  look_at_hello-Counted p (err _) h = tt
  look_at_hello-Counted p _ h = tt

  look_outside-Counted :
      (n : ℕ) (outer : Option (Option Bytes)) (p : Peeking hp) (host : Option Bytes)
      → Counted n (look_outside hp outer p host)
  look_outside-Counted n outer p (some host) = tt
  look_outside-Counted n (some sni) p none = tt
  look_outside-Counted n none p none = tt

  look_at_events-Counted :
      (outer : Option (Option Bytes)) (p : Peeking hp)
      (m : Exec (Unit {0}) (List H2Event × H2Observer hp.Decoder))
      → Counted p.attempts (look_at_events hp outer p m)
  look_at_events-Counted outer p (ok (events, o)) = by_test (ltb (length events) 2)
    where
      by_test :
          (few : Bool)
          → Counted p.attempts (
              if few
              then count_attempt hp (record p { h2_observer = o })
              else look_outside hp outer (record p { h2_observer = o }) (first_authority events))
      by_test true = refl
      by_test false =
          look_outside-Counted p.attempts outer (record p { h2_observer = o })
            (first_authority events)
  look_at_events-Counted outer p _ = tt

  look_at_clear-Counted :
      (outer : Option (Option Bytes)) (p : Peeking hp) (bytes : Bytes) (v : Option Version)
      → Counted p.attempts (look_at_clear hp outer p bytes v)
  look_at_clear-Counted outer p bytes (some v) = request (parse_http_request_fast bytes)
    where
      request :
          (m : Exec InitialError ParsedHttpRequest) → Counted p.attempts (look_at_request hp p v m)
      request (err e) = refl
      request _ = tt
  look_at_clear-Counted outer p bytes none = by_test (is_valid_http2_request bytes)
    where
      by_test :
          (b : Bool)
          → Counted p.attempts (if b then look_at_http2 hp outer p bytes else count_attempt hp p)
      by_test true =
          look_at_events-Counted outer (record p { is_http2 = true; http_version = some http_2 })
            (get_all_events hp (write_to hp incoming bytes p.h2_observer))
      by_test false = refl

-- The look does not show an incomplete ClientHello.
abbrev pub IsConclusive : Look → Type 0
IsConclusive failed = Unit
IsConclusive closed = Unit
IsConclusive (buffered bytes) = (n : ℕ) → try_from bytes ≢ err (message_incomplete n)

abbrev pub AllConclusive : List Look → Type 0
AllConclusive [] = Unit
AllConclusive (look ∷ looks) = IsConclusive look × AllConclusive looks

module _ (hp : Hpack) where
  turn-Counted :
      (outer : Option (Option Bytes)) (p : Peeking hp) (look : Look)
      → IsConclusive look
      → Counted hp p.attempts (turn hp outer p look)
  unfolding turn look_at_bytes
  turn-Counted outer p failed h = tt
  turn-Counted outer p closed h = tt
  turn-Counted outer p (buffered []) h = refl
  turn-Counted outer p (buffered (b ∷ bs)) h = by_test (b == 0x16)
    where
      by_test :
          (t : Bool)
          → Counted hp p.attempts (
              if t
              then look_at_hello hp (record p { is_tls = true }) (try_from (b ∷ bs))
              else look_at_clear hp outer p (b ∷ bs) (is_valid_http_request (b ∷ bs)))
      by_test true = look_at_hello-Counted hp (record p { is_tls = true }) (try_from (b ∷ bs)) h
      by_test false = look_at_clear-Counted hp outer p (b ∷ bs) (is_valid_http_request (b ∷ bs))

  abbrev pub IsOver : Peeked (Peeking hp) → Type 0
  IsOver (waiting q) = ⊥
  IsOver _ = Unit

  -- From a start with five attempts counted at most, the loop is over by the look that makes six of them and the looks,
  -- if no look shows an incomplete ClientHello.
  pub peek_managed_stream-IsOver :
      (outer : Option (Option Bytes)) (looks : List Look) (p : Peeking hp)
      → p.attempts ≤ 5
      → 6 ≤ p.attempts + length looks
      → AllConclusive looks
      → IsOver (peek_managed_stream hp outer looks p)
  unfolding peek_managed_stream
  peek_managed_stream-IsOver outer [] p few enough h = absurd (omega arith)
  peek_managed_stream-IsOver outer (look ∷ looks) p few enough h =
      by_test (ltb 4 p.attempts) refl (turn hp outer p look) (turn-Counted outer p look h.0)
        (λ q. peek_managed_stream-IsOver outer looks q)
    where
      by_turn :
          (t : Turn (Peeking hp))
          → p.attempts ≤ 4
          → Counted hp p.attempts t
          → ((q : Peeking hp)
              → q.attempts ≤ 5
              → 6 ≤ q.attempts + length looks
              → AllConclusive looks
              → IsOver (peek_managed_stream hp outer looks q))
          → IsOver (go_on hp t (peek_managed_stream hp outer looks))
      by_turn (done r q) l c k = tt
      by_turn (refused e) l c k = tt
      by_turn broken l c k = tt
      by_turn (again q) l c k = k q (omega arith) (omega arith) h.1

      by_test :
          (over : Bool)
          → ltb 4 p.attempts ≡ over
          → (t : Turn (Peeking hp)) → Counted hp p.attempts t
          → ((q : Peeking hp)
              → q.attempts ≤ 5
              → 6 ≤ q.attempts + length looks
              → AllConclusive looks
              → IsOver (peek_managed_stream hp outer looks q))
          → IsOver (
              if over
              then gave_up PeekError.unknown
              else go_on hp t (peek_managed_stream hp outer looks))
      by_test true o t c k = tt
      by_test false o t c k = by_turn t (not_ltb→le 4 p.attempts o) c k
