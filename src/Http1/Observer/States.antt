-- ===== src/Http1/Observer/States.antt =====
-- The states of the observer change with the events that announce it, and only so.
use odd_box.Base.{
  ap, subst, length, refl, zero, [], ends_stalled, ◌∷◌, ends_panic, inr, inl, ◌∙◌, sym, ends_err,
  ok-injective, drop, bind-eq-ok, ends_ok, Exec-cases, suc, ◌||◌, false, ok, Bool, Exec, arith,
  true, ◌++◌, ◌⊎◌, ℕ, Bytes, List, ◌≡◌,
}
use odd_box.Http1.Observer.{
  two_loops, protocol_switched, web_socket_closed, web_socket_opened, web_socket, upgrade_requested,
  http, web_socket_receive, web_socket_send, HttpData, ConnectionState, Drained, Reaction,
  H1Observer, on_frame, on_request, on_response, drain, drain_all, parse, parse_in,
}
use odd_box.Http1.Observer.Drain.{drain-stalled, drain-ok, drain-err, drain-panic, drain-zero}
use odd_box.Http1.Frame.{parse_websocket_frame}
use odd_box.Http1.Message.{Httparse, ParsedResponse, parse_http_request, parse_http_response}

abbrev announces : ConnectionState → HttpData → Bool
announces http web_socket_closed = true
announces upgrade_requested protocol_switched = true
announces web_socket web_socket_opened = true
announces _ _ = false

-- Whether one of the events says that the connection is now in a state.
abbrev pub announced : ConnectionState → List HttpData → Bool
announced s [] = false
announced s (e ∷ es) = announces s e || announced s es

-- Nothing changed, or the new state was announced.
abbrev pub Explained : ConnectionState → List HttpData → ConnectionState → Type 0
Explained s events s' = (s' ≡ s) ⊎ (announced s' events ≡ true)

announced-append_left :
    (s : ConnectionState) (xs ys : List HttpData)
    → announced s xs ≡ true
    → announced s (xs ++ ys) ≡ true
announced-append_left s [] ys h = cc
announced-append_left s (x ∷ xs) ys h = ground (arith, announced-append_left s xs ys)

announced-append_right :
    (s : ConnectionState) (xs ys : List HttpData)
    → announced s ys ≡ true
    → announced s (xs ++ ys) ≡ true
announced-append_right s [] ys h = h
announced-append_right s (x ∷ xs) ys h = ground (arith, announced-append_right s xs ys h)

Explained-append :
    (s t u : ConnectionState) (xs ys : List HttpData)
    → Explained s xs t
    → Explained t ys u
    → Explained s (xs ++ ys) u
Explained-append s t u xs ys (inl p) (inl q) = inl (q ∙ p)
Explained-append s t u xs ys (inr p) (inl q) = inr (rw q (announced-append_left t xs ys p))
Explained-append s t u xs ys p (inr q) = inr (announced-append_right u xs ys q)

-- A loop explains the state that it leaves, if each round does.
abbrev Explains : {A : Type 0} → Reaction A → Type 0
Explains {A} react = (a : A) (s : ConnectionState) → Explained s (react a s).0 (react a s).1

on_request-Explains : Explains on_request
unfolding on_request
on_request-Explains r s = ground arith

on_response-Explains : Explains on_response
unfolding on_response
on_response-Explains r s = ground arith

on_frame_send-Explains : Explains (on_frame web_socket_send)
unfolding on_frame
on_frame_send-Explains f s = ground arith

on_frame_receive-Explains : Explains (on_frame web_socket_receive)
unfolding on_frame
on_frame_receive-Explains f s = ground arith

module _ {E A : Type 0} (parse : Bytes → Exec E (A × ℕ)) (react : Reaction A)
    (each : Explains react) where
  drain-Explained :
      (fuel : ℕ) (buf : Bytes) (s : ConnectionState) {d : Drained}
      → drain parse react fuel buf s ≡ ok d
      → Explained s d.events d.state
  drain-Explained zero buf s e = cc (drain-zero parse react buf s)
  drain-Explained (suc fuel) buf s {d} e = elim (Exec-cases (parse buf)) [
    | ends_ok (a, n) p ↦
        let s' = (react a s).1 in
        let (rest, e1, e2) =
          bind-eq-ok (drain parse react fuel (drop n buf) s') _
            (rw (drain-ok parse react fuel buf s a n p) at e) in
        rw (← ok-injective e2) (
          Explained-append s s' rest.state (react a s).0 rest.events (each a s)
            (drain-Explained fuel (drop n buf) s' {d = rest} e1))
    | ends_err x p ↦ rw (← ok-injective (sym (drain-err parse react fuel buf s x p) ∙ e)) (inl refl)
    | ends_panic p ↦ cc (drain-panic parse react fuel buf s p)
    | ends_stalled p ↦ cc (drain-stalled parse react fuel buf s p)
  ]

  drain_all-Explained :
      (buf : Bytes) (s : ConnectionState) {d : Drained}
      → drain_all parse react buf s ≡ ok d
      → Explained s d.events d.state
  unfolding drain_all
  drain_all-Explained buf s {d} e = drain-Explained (suc (length buf)) buf s {d = d} e

-- A property of the state that each round keeps.
module _ {E A : Type 0} (parse : Bytes → Exec E (A × ℕ)) (react : Reaction A)
    (Q : ConnectionState → Type 0)
    (keep : (a : A) (s : ConnectionState) → Q s → Q (react a s).1) where
  drain-keeps :
      (fuel : ℕ) (buf : Bytes) (s : ConnectionState) {d : Drained}
      → Q s
      → drain parse react fuel buf s ≡ ok d
      → Q d.state
  drain-keeps zero buf s h e = cc (drain-zero parse react buf s)
  drain-keeps (suc fuel) buf s {d} h e = elim (Exec-cases (parse buf)) [
    | ends_ok (a, n) p ↦
        let s' = (react a s).1 in
        let (rest, e1, e2) =
          bind-eq-ok (drain parse react fuel (drop n buf) s') _
            (rw (drain-ok parse react fuel buf s a n p) at e) in
        rw (← ok-injective e2) (drain-keeps fuel (drop n buf) s' {d = rest} (keep a s h) e1)
    | ends_err x p ↦ rw (← ok-injective (sym (drain-err parse react fuel buf s x p) ∙ e)) h
    | ends_panic p ↦ cc (drain-panic parse react fuel buf s p)
    | ends_stalled p ↦ cc (drain-stalled parse react fuel buf s p)
  ]

-- The two loops of an arm, one after the other.
module _ {E A D B : Type 0} (p : Bytes → Exec E (A × ℕ)) (f : Reaction A)
    (q : Bytes → Exec D (B × ℕ)) (g : Reaction B) (each_f : Explains f) (each_g : Explains g) where
  two_loops-Explained :
      (o o' : H1Observer) (events : List HttpData)
      → two_loops p f q g o ≡ ok (events, o')
      → Explained o.state events o'.state
  unfolding two_loops
  two_loops-Explained o o' events e =
      let (a, e1, k) = bind-eq-ok (drain_all p f o.to_server o.state) _ e in
      let (b, e2, done) = bind-eq-ok (drain_all q g o.to_client a.state) _ k in
      let first = drain_all-Explained p f each_f o.to_server o.state {d = a} e1 in
      let second = drain_all-Explained q g each_g o.to_client a.state {d = b} e2 in
      subst (λ r. Explained o.state r.0 r.1.state) (ok-injective done)
        (Explained-append o.state a.state b.state a.events b.events first second)

module _ (h : Httparse) where
  parse_in-Explained :
      (o o' : H1Observer) (events : List HttpData) (s : ConnectionState)
      → parse_in h s o ≡ ok (events, o')
      → Explained o.state events o'.state
  unfolding parse_in
  parse_in-Explained o o' events http e =
      two_loops-Explained (parse_http_request h) on_request (parse_http_response h) on_response
        on_request-Explains on_response-Explains o o' events e
  parse_in-Explained o o' events upgrade_requested e =
      let (b, e1, done) =
        bind-eq-ok (drain_all (parse_http_response h) on_response o.to_client o.state) _ e in
      let one =
        drain_all-Explained (parse_http_response h) on_response on_response-Explains o.to_client
          o.state {d = b} e1 in
      subst (λ r. Explained o.state r.0 r.1.state) (ok-injective done) one
  parse_in-Explained o o' events web_socket e =
      two_loops-Explained parse_websocket_frame (on_frame web_socket_send) parse_websocket_frame
        (on_frame web_socket_receive) on_frame_send-Explains on_frame_receive-Explains o o' events e

  -- The observer leaves its state only with an event that announces the new one: the upgrade that was asked
  -- for, the WebSocket that was opened, or the one that was closed.
  pub parse-Explained :
      (o o' : H1Observer) (events : List HttpData)
      → parse h o ≡ ok (events, o')
      → Explained o.state events o'.state
  unfolding parse
  parse-Explained o o' events e = parse_in-Explained o o' events o.state e

  -- While an upgrade is awaited: asked for still, or granted.
  abbrev IsPending : ConnectionState → Type 0
  IsPending s = (s ≡ upgrade_requested) ⊎ (s ≡ web_socket)

  on_response-IsPending :
      (r : ParsedResponse) (s : ConnectionState) → IsPending s → IsPending (on_response r s).1
  unfolding on_response
  on_response-IsPending r s p = ground arith

  awaiting :
      (o o' : H1Observer) (events : List HttpData)
      → o.state ≡ upgrade_requested
      → parse_in h upgrade_requested o ≡ ok (events, o')
      → (o'.to_server ≡ o.to_server)
        × ((bytes : Bytes)
            → parse_in h upgrade_requested (record o { to_server = bytes })
              ≡ ok (events, record o' { to_server = bytes }))
        × IsPending o'.state
  unfolding parse_in drain_all
  awaiting o o' events waiting e =
      let P = parse_http_response h in
      let (b, e1, done) = bind-eq-ok (drain_all P on_response o.to_client o.state) _ e in
      let kept =
        drain-keeps P on_response IsPending on_response-IsPending (suc (length o.to_client))
          o.to_client o.state {d = b} (inl waiting) e1 in
      (
        sym (ap (λ r. r.1.to_server) (ok-injective done)),
        λ bytes. rw e1 (ap (λ r. ok (r.0, record (r.1) { to_server = bytes })) (ok-injective done)),
        subst (λ r. IsPending r.1.state) (ok-injective done) kept,
      )

  -- While an upgrade is awaited the bytes from the client are kept and not looked at: with any others in their place
  -- the same events are reported and the same state is reached. Unless a response opens the WebSocket the observer goes
  -- on waiting.
  pub parse_upgrade_requested :
      (o o' : H1Observer) (events : List HttpData) (bytes : Bytes)
      → o.state ≡ upgrade_requested
      → parse h o ≡ ok (events, o')
      → (o'.to_server ≡ o.to_server)
        × (parse h (record o { to_server = bytes }) ≡ ok (events, record o' { to_server = bytes }))
        × ((o'.state ≡ upgrade_requested)
            ⊎ ((o'.state ≡ web_socket) × (announced web_socket events ≡ true)))
  unfolding parse
  parse_upgrade_requested o o' events bytes waiting e =
      let (same, others, pending) =
        awaiting o o' events waiting
          (subst (λ s. parse_in h s o ≡ ok (events, o')) waiting (unfold parse in e)) in
      let explained = parse-Explained o o' events e in
      (
        same,
        subst
            (λ s.
              parse_in h s (record o { to_server = bytes })
              ≡ ok (events, record o' { to_server = bytes }))
            (sym waiting) (others bytes),
        ground arith,
      )
