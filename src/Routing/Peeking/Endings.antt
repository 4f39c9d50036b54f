-- ===== src/Routing/Peeking/Endings.antt =====
-- How the loop that peeks ends: without a panic, after a bounded number of looks unless a ClientHello stays
-- incomplete, and with a result that says what was seen.
use odd_box.Base.{
  ◌>>=◌, ◌∷◌, [], ok, err, panic, stalled, none, some, true, false, ltb, if◌then◌else◌, length,
  zero, suc, IsSafe, refl, sym, subst, ◌≡◌, ◌≢◌, ◌==◌, arith, Exec, Bool, Option, Bytes, List, ℕ,
}
use odd_box.Http1.Initial.{
  parse_http_request_fast, read_lines, seen_request, take_line, process_line, trim_start, trim_line,
  nothing_seen, Seen, InitialError, ParsedHttpRequest, is_blank,
}
use odd_box.Http1.Initial.Lines.{parse_http_request_fast-ne-stalled}
use odd_box.Http2.Event.{H2Event, H2FrameDirection, incoming, outgoing}
use odd_box.Http2.Observer.{
  Hpack, H2Observer, get_all_events, write_to, poll_all, poll_one_frame, collect, Polled,
}
use odd_box.Http2.Observer.Progress.{get_all_events-ne-stalled}
use odd_box.Routing.Target.{http_2, tls, clear_text, DataType, Version, PeekError, PeekResult}
use odd_box.Routing.Peeking.{
  failed, closed, buffered, done, refused, again, broken, found, gave_up, waiting, crashed, Look,
  Turn, Peeked, Peeking, look_at_bytes, look_at_hello, look_at_name, look_at_clear, look_at_http2,
  look_at_events, look_at_request, look_outside, turn, go_on, peek_managed_stream, count_attempt,
  is_valid_http_request, is_valid_http2_request, first_authority,
}
use odd_box.Tls.ClientHello.{try_from, message_incomplete, TlsClientHello, TlsClientHelloError}
use odd_box.Tls.Safety.{try_from-IsSafe, read_sni_hostname-IsSafe}
use odd_box.Tls.Sni.{SniParserError}

abbrev pub Finishes {ℓ κ} : {E : Type ℓ} {A : Type κ} → Exec E A → Type 0
Finishes (ok a) = Unit
Finishes (err e) = ⊥
Finishes panic = ⊥
Finishes stalled = Unit

bind-Finishes {ℓ κ μ} :
    {E : Type ℓ} {A : Type κ} {B : Type μ} (m : Exec E A) (f : A → Exec E B)
    → Finishes m
    → ((a : A) → Finishes (f a))
    → Finishes (m >>= f)
bind-Finishes (ok a) f h k = k a
bind-Finishes stalled f h k = tt
bind-Finishes (err e) f h k = h
bind-Finishes panic f h k = h

read_lines-Finishes :
    (fuel : ℕ) (request : Bytes) (seen : Seen) → Finishes (read_lines fuel request seen)
unfolding read_lines
read_lines-Finishes fuel [] seen = tt
read_lines-Finishes zero (b ∷ bs) seen = tt
read_lines-Finishes (suc fuel) (b ∷ bs) seen = by_test (is_blank (take_line (b ∷ bs)).0) _ (
    read_lines-Finishes fuel (take_line (b ∷ bs)).1
      (process_line seen (trim_start (trim_line (take_line (b ∷ bs)).0))))
  where
    by_test :
        (blank : Bool) (others : Exec InitialError Seen)
        → Finishes others
        → Finishes (if blank then ok seen else others)
    by_test true others h = tt
    by_test false others h = h

-- The quick look does not panic.
parse_http_request_fast-ne-panic : (request : Bytes) → parse_http_request_fast request ≢ panic
unfolding parse_http_request_fast
parse_http_request_fast-ne-panic request =
    lines (read_lines (length request) request nothing_seen)
      (read_lines-Finishes (length request) request nothing_seen)
  where
    lines : (m : Exec InitialError Seen) → Finishes m → (m >>= seen_request) ≢ panic
    lines (ok seen) h = seen_request-ne-panic seen.host
      where
        seen_request-ne-panic : Option Bytes → seen_request seen ≢ panic
        seen_request-ne-panic o = ground arith
    lines stalled h = λ e. cc
    lines (err e) h = absurd h
    lines panic h = absurd h

module _ (hp : Hpack) where
  poll_all-Finishes :
      (fuel : ℕ) (d : H2FrameDirection) (o : H2Observer hp.Decoder)
      → Finishes (poll_all hp fuel d o)
  unfolding poll_all
  poll_all-Finishes zero d o = tt
  poll_all-Finishes (suc fuel) d o = collected (poll_one_frame hp d o) (poll_all-Finishes fuel d)
    where
      collected :
          (r : Polled hp)
          → ((o' : H2Observer hp.Decoder) → Finishes (poll_all hp fuel d o'))
          → Finishes (collect hp r (poll_all hp fuel d))
      collected (o', none) h = tt
      collected (o', some e) h = bind-Finishes (poll_all hp fuel d o') _ (h o') (λ r. tt)

  get_all_events-Finishes : (o : H2Observer hp.Decoder) → Finishes (get_all_events hp o)
  unfolding get_all_events
  get_all_events-Finishes o =
      bind-Finishes _ _ (poll_all-Finishes _ incoming o)
        (λ r. bind-Finishes _ _ (poll_all-Finishes _ outgoing r.1) (λ r'. tt))

  -- Collecting the events of both buffers ends in events.
  get_all_events-ok :
      (o : H2Observer hp.Decoder)
      → (r : List H2Event × H2Observer hp.Decoder) × (get_all_events hp o ≡ ok r)
  get_all_events-ok o = by_case (get_all_events hp o) refl (get_all_events-Finishes o)
    where
      by_case :
          (m : Exec (Unit {0}) (List H2Event × H2Observer hp.Decoder))
          → get_all_events hp o ≡ m
          → Finishes m
          → (r : List H2Event × H2Observer hp.Decoder) × (get_all_events hp o ≡ ok r)
      by_case (ok r) e h = (r, e)
      by_case stalled e h = absurd (get_all_events-ne-stalled hp o e)
      by_case (err e) q h = absurd h
      by_case panic q h = absurd h

  -- A result for TLS has a server name, which is its target, and no version of HTTP; one for clear text has a version.
  abbrev pub IsTold : DataType → PeekResult → Type 0
  IsTold tls r =
      (host : Bytes) × (r.target_host ≡ some host) × (r.sni ≡ some host) × (r.http_version ≡ none)
  IsTold clear_text r = (v : Version) × (r.http_version ≡ some v)

  -- What a turn may come to, from a state.
  abbrev Sound : Turn (Peeking hp) → Type 0
  Sound (done r q) = IsTold r.typ r
  Sound (refused e) = Unit
  Sound (again q) = Unit
  Sound broken = ⊥

  look_at_name-Sound :
      (p : Peeking hp) (m : Exec SniParserError Bytes) → IsSafe m → Sound (look_at_name hp p m)
  look_at_name-Sound p (ok host) h = (host, refl, refl, refl)
  look_at_name-Sound p (err e) h = tt
  look_at_name-Sound p panic h = h
  look_at_name-Sound p stalled h = h

  look_at_hello-Sound :
      (p : Peeking hp) (m : Exec TlsClientHelloError TlsClientHello)
      → IsSafe m
      → Sound (look_at_hello hp p m)
  look_at_hello-Sound p (ok hello) h = look_at_name-Sound p _ (read_sni_hostname-IsSafe hello)
  look_at_hello-Sound p (err (message_incomplete n)) h = tt
  look_at_hello-Sound p (err _) h = tt
  look_at_hello-Sound p panic h = h
  look_at_hello-Sound p stalled h = h

  look_at_request-Sound :
      (p : Peeking hp) (v : Version) (m : Exec InitialError ParsedHttpRequest)
      → m ≢ panic
      → m ≢ stalled
      → Sound (look_at_request hp p v m)
  look_at_request-Sound p v (ok r) h k = (v, refl)
  look_at_request-Sound p v (err e) h k = tt
  look_at_request-Sound p v panic h k = h refl
  look_at_request-Sound p v stalled h k = k refl

  look_outside-Sound :
      (outer : Option (Option Bytes)) (p : Peeking hp) (host : Option Bytes)
      → Sound (look_outside hp outer p host)
  look_outside-Sound outer p (some host) = (http_2, refl)
  look_outside-Sound (some sni) p none = (http_2, refl)
  look_outside-Sound none p none = tt

  look_at_events-Sound :
      (outer : Option (Option Bytes)) (p : Peeking hp) (r : List H2Event × H2Observer hp.Decoder)
      → Sound (look_at_events hp outer p (ok r))
  look_at_events-Sound outer p (events, o) =
      by_test (ltb (length events) 2)
        (look_outside-Sound outer (record p { h2_observer = o }) (first_authority events))
    where
      by_test :
          (few : Bool)
          → Sound (look_outside hp outer (record p { h2_observer = o }) (first_authority events))
          → Sound (
              if few
              then count_attempt hp (record p { h2_observer = o })
              else look_outside hp outer (record p { h2_observer = o }) (first_authority events))
      by_test true h = tt
      by_test false h = h

  look_at_clear-Sound :
      (outer : Option (Option Bytes)) (p : Peeking hp) (bytes : Bytes) (v : Option Version)
      → Sound (look_at_clear hp outer p bytes v)
  look_at_clear-Sound outer p bytes (some v) =
      look_at_request-Sound p v (parse_http_request_fast bytes)
        (parse_http_request_fast-ne-panic bytes) (parse_http_request_fast-ne-stalled bytes)
  look_at_clear-Sound outer p bytes none = by_test (is_valid_http2_request bytes)
    where
      marked : Peeking hp
      marked = record p { is_http2 = true; http_version = some http_2 }

      written : H2Observer hp.Decoder
      written = write_to hp incoming bytes p.h2_observer

      http2-Sound : Sound (look_at_http2 hp outer p bytes)
      http2-Sound =
          let (r, e) = get_all_events-ok written in
          subst (λ m. Sound (look_at_events hp outer marked m)) (sym e)
            (look_at_events-Sound outer marked r)

      by_test :
          (b : Bool) → Sound (if b then look_at_http2 hp outer p bytes else count_attempt hp p)
      by_test true = http2-Sound
      by_test false = tt

  turn-Sound :
      (outer : Option (Option Bytes)) (p : Peeking hp) (look : Look) → Sound (turn hp outer p look)
  unfolding turn look_at_bytes
  turn-Sound outer p failed = tt
  turn-Sound outer p closed = tt
  turn-Sound outer p (buffered []) = tt
  turn-Sound outer p (buffered (b ∷ bs)) = by_test (b == 0x16)
    where
      tls_marked : Peeking hp
      tls_marked = record p { is_tls = true }

      by_test :
          (t : Bool)
          → Sound (
              if t
              then look_at_hello hp tls_marked (try_from (b ∷ bs))
              else look_at_clear hp outer p (b ∷ bs) (is_valid_http_request (b ∷ bs)))
      by_test true = look_at_hello-Sound tls_marked _ (try_from-IsSafe (b ∷ bs))
      by_test false = look_at_clear-Sound outer p (b ∷ bs) (is_valid_http_request (b ∷ bs))

  -- What the loop may come to.
  abbrev pub IsSoundEnd : Peeked (Peeking hp) → Type 0
  IsSoundEnd (found r q) = IsTold r.typ r
  IsSoundEnd (gave_up e) = Unit
  IsSoundEnd (waiting q) = Unit
  IsSoundEnd crashed = ⊥

  -- Whatever is looked at, reading a ClientHello and its server name does not panic, and no loop of the parsers of TLS,
  -- HTTP/1 and HTTP/2 runs on; a result for TLS has a server name, which is its target, and no version of HTTP; and a
  -- result for clear text has a version.
  pub peek_managed_stream-IsSoundEnd :
      (outer : Option (Option Bytes)) (looks : List Look) (p : Peeking hp)
      → IsSoundEnd (peek_managed_stream hp outer looks p)
  unfolding peek_managed_stream
  peek_managed_stream-IsSoundEnd outer [] p = tt
  peek_managed_stream-IsSoundEnd outer (look ∷ looks) p =
      by_test (ltb 4 p.attempts) (turn hp outer p look) (turn-Sound outer p look)
        (peek_managed_stream-IsSoundEnd outer looks)
    where
      by_turn :
          (t : Turn (Peeking hp))
          → Sound t
          → ((q : Peeking hp) → IsSoundEnd (peek_managed_stream hp outer looks q))
          → IsSoundEnd (go_on hp t (peek_managed_stream hp outer looks))
      by_turn (done r q) h k = h
      by_turn (refused e) h k = tt
      by_turn (again q) h k = k q
      by_turn broken h k = h

      by_test :
          (over : Bool) (t : Turn (Peeking hp))
          → Sound t
          → ((q : Peeking hp) → IsSoundEnd (peek_managed_stream hp outer looks q))
          → IsSoundEnd (
              if over
              then gave_up PeekError.unknown
              else go_on hp t (peek_managed_stream hp outer looks))
      by_test true t h k = tt
      by_test false t h k = by_turn t h k
