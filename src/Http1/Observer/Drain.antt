-- ===== src/Http1/Observer/Drain.antt =====
-- The loop shared by the observer's five, over any parser: it ends, it takes bytes off the front
-- only, and it may be fed in pieces.
use odd_box.Base.{
  map-id, append_assoc, map-map, ◌∙◌, ok-injective, sym, ap, length-append, subst, drop-append_le,
  refl, [], drop-drop, ends_stalled, ◌∷◌, ends_panic, ◌+◌, bind-eq-ok, ends_err, map-ne-stalled,
  ends_ok, stalled, Exec-cases, ◌^◌, ◌≢◌, length-drop, zero, ◌++◌, ◌<◌, ◌≤◌, arith, err, length, ok,
  panic, suc, ◌>>=◌, AllBytes, Exec, drop, ℕ, Bytes, ◌≡◌,
}
use odd_box.Http1.Observer.{ConnectionState, Reaction, Drained, Running, drain}

-- A buffer of the machine.
pub record IsBuffer (buf : Bytes) : Type 0 where
  pub bytes : AllBytes buf
  pub addressable : length buf < 2 ^ 64

AllBytes-drop : (n : ℕ) (buf : Bytes) → AllBytes buf → AllBytes (drop n buf)
AllBytes-drop zero buf h = h
AllBytes-drop (suc n) [] h = tt
AllBytes-drop (suc n) (b ∷ bs) h = AllBytes-drop n bs h.1

pub IsBuffer-drop : (n : ℕ) (buf : Bytes) → IsBuffer buf → IsBuffer (drop n buf)
IsBuffer-drop n buf h = record {
  bytes = AllBytes-drop n buf h.bytes;
  addressable = omega (arith, h.addressable, length-drop n buf);
}

-- What a loop needs of its parser: an item takes a byte at least and no more than there are, and the
-- parser itself ends.
pub record Progresses {E A : Type 0} (parse : Bytes → Exec E (A × ℕ)) : Type 0 where
  pub takes :
      (buf : Bytes) (a : A) (n : ℕ)
      → IsBuffer buf
      → parse buf ≡ ok (a, n)
      → (1 ≤ n) × (n ≤ length buf)
  pub ends : (buf : Bytes) → IsBuffer buf → parse buf ≢ stalled

-- More bytes do not change an item that was there.
abbrev pub IsStable : {E A : Type 0} → (Bytes → Exec E (A × ℕ)) → Type 0
IsStable {A} parse =
    (buf more : Bytes) (a : A) (n : ℕ) → parse buf ≡ ok (a, n) → parse (buf ++ more) ≡ ok (a, n)

module _ {E A : Type 0} (parse : Bytes → Exec E (A × ℕ)) (react : Reaction A) where
  -- The next round, after an item.
  abbrev pub after : ℕ → Bytes → ConnectionState → A → ℕ → Running Drained
  after fuel buf s a n = drain parse react fuel (drop n buf) (react a s).1 >>= λ rest.
      ok (record rest { events = (react a s).0 ++ rest.events })

  pub drain-ok :
      (fuel : ℕ) (buf : Bytes) (s : ConnectionState) (a : A) (n : ℕ)
      → parse buf ≡ ok (a, n)
      → drain parse react (suc fuel) buf s ≡ after fuel buf s a n
  unfolding drain
  drain-ok fuel buf s a n e = rw (e, drain)

  pub drain-err :
      (fuel : ℕ) (buf : Bytes) (s : ConnectionState) (e : E)
      → parse buf ≡ err e
      → drain parse react (suc fuel) buf s ≡ ok (record { events = []; buffer = buf; state = s })
  unfolding drain
  drain-err fuel buf s e h = rw (h, drain)

  pub drain-panic :
      (fuel : ℕ) (buf : Bytes) (s : ConnectionState)
      → parse buf ≡ panic
      → drain parse react (suc fuel) buf s ≡ panic
  unfolding drain
  drain-panic fuel buf s h = rw (h, drain)

  pub drain-stalled :
      (fuel : ℕ) (buf : Bytes) (s : ConnectionState)
      → parse buf ≡ stalled
      → drain parse react (suc fuel) buf s ≡ stalled
  unfolding drain
  drain-stalled fuel buf s h = rw (h, drain)

  pub drain-zero : (buf : Bytes) (s : ConnectionState) → drain parse react zero buf s ≡ stalled
  unfolding drain
  drain-zero buf s = refl

  module _ (good : Progresses parse) where
    -- With as much fuel as there are bytes the loop ends.
    pub drain-ne-stalled :
        (fuel : ℕ) (buf : Bytes) (s : ConnectionState)
        → IsBuffer buf
        → length buf < fuel
        → drain parse react fuel buf s ≢ stalled
    drain-ne-stalled zero buf s h f = absurd (omega arith)
    drain-ne-stalled (suc fuel) buf s h f = elim (Exec-cases (parse buf)) [
      | ends_ok (a, n) e ↦
          let takes = good.takes buf a n h e in
          let later =
            drain-ne-stalled fuel (drop n buf) (react a s).1 (IsBuffer-drop n buf h)
              (omega (arith, length-drop n buf)) in
          rw (drain-ok fuel buf s a n e)
            (map-ne-stalled (drain parse react fuel (drop n buf) (react a s).1) _ later)
      | ends_err e h' ↦ rw (drain-err fuel buf s e h') (λ x. cc)
      | ends_panic h' ↦ rw (drain-panic fuel buf s h') (λ x. cc)
      | ends_stalled h' ↦ absurd (good.ends buf h h')
    ]

    -- More fuel than bytes changes nothing.
    pub drain_fuel :
        (f g : ℕ) (buf : Bytes) (s : ConnectionState)
        → IsBuffer buf
        → length buf < f
        → length buf < g
        → drain parse react f buf s ≡ drain parse react g buf s
    drain_fuel zero g buf s h p q = absurd (omega arith)
    drain_fuel (suc f) zero buf s h p q = absurd (omega arith)
    drain_fuel (suc f) (suc g) buf s h p q = elim (Exec-cases (parse buf)) [
      | ends_ok (a, n) e ↦
          let takes = good.takes buf a n h e in
          let same =
            drain_fuel f g (drop n buf) (react a s).1 (IsBuffer-drop n buf h)
              (omega (arith, length-drop n buf)) (omega (arith, length-drop n buf)) in
          rw (drain-ok f buf s a n e, drain-ok g buf s a n e, same)
      | ends_err e h' ↦ rw (drain-err f buf s e h', drain-err g buf s e h')
      | ends_panic h' ↦ rw (drain-panic f buf s h', drain-panic g buf s h')
      | ends_stalled h' ↦ absurd (good.ends buf h h')
    ]

    -- What is left in the buffer is its end.
    pub drain-drop :
        (fuel : ℕ) (buf : Bytes) (s : ConnectionState) {d : Drained}
        → IsBuffer buf
        → drain parse react fuel buf s ≡ ok d
        → (k : ℕ) × (k ≤ length buf) × (d.buffer ≡ drop k buf)
    drain-drop zero buf s h e = cc (drain-zero buf s)
    drain-drop (suc fuel) buf s {d} h e = elim (Exec-cases (parse buf)) [
      | ends_ok (a, n) p ↦
          let takes = good.takes buf a n h p in
          let (rest, e1, e2) =
            bind-eq-ok (drain parse react fuel (drop n buf) (react a s).1) _
              (rw (drain-ok fuel buf s a n p) at e) in
          let (k, bound, same) =
            drain-drop fuel (drop n buf) (react a s).1 {d = rest} (IsBuffer-drop n buf h) e1 in
          (n + k, omega (arith, length-drop n buf), ground (arith, drop-drop k n buf))
      | ends_err x p ↦ (0, omega arith, ground (arith, drain-err fuel buf s x p))
      | ends_panic p ↦ cc (drain-panic fuel buf s p)
      | ends_stalled p ↦ absurd (good.ends buf h p)
    ]

    -- Going on after a loop that was fed the first part only.
    abbrev pub resume : ℕ → Bytes → Drained → Running Drained
    resume fuel more d = drain parse react fuel (d.buffer ++ more) d.state >>= λ r.
        ok (record r { events = d.events ++ r.events })

    module _ (stable : IsStable parse) where
      pub drain-append :
          (f g : ℕ) (buf more : Bytes) (s : ConnectionState) {d : Drained}
          → IsBuffer buf
          → IsBuffer (buf ++ more)
          → length (buf ++ more) < g
          → drain parse react f buf s ≡ ok d
          → drain parse react g (buf ++ more) s ≡ resume g more d
      drain-append zero g buf more s h h' q e = cc (drain-zero buf s)
      drain-append (suc f) zero buf more s h h' q e = absurd (omega arith)
      drain-append (suc f) (suc g) buf more s {d} h h' q e = elim (Exec-cases (parse buf)) [
        | ends_ok (a, n) p ↦
            let takes = good.takes buf a n h p in
            let s' = (react a s).1 in
            let (rest, e1, e2) =
              bind-eq-ok (drain parse react f (drop n buf) s') _
                (rw (drain-ok f buf s a n p) at e) in
            let cut = drop-append_le n buf more takes.1 in
            let whole = subst IsBuffer cut (IsBuffer-drop n (buf ++ more) h') in
            let shorter : length (drop n buf ++ more) < g =
              omega (
                arith,
                length-append (drop n buf) more,
                length-append buf more,
                length-drop n buf,
              ) in
            let later =
              drain-append f g (drop n buf) more s' {d = rest} (IsBuffer-drop n buf h) whole shorter
                e1 in
            let (k, bound, left) =
              drain-drop f (drop n buf) s' {d = rest} (IsBuffer-drop n buf h) e1 in
            let fewer : length (rest.buffer ++ more) < g = omega (
              arith,
              length-append rest.buffer more,
              length-append buf more,
              length-drop n buf,
              ap length left,
              length-drop k (drop n buf),
            ) in
            let again =
              subst IsBuffer (drop-append_le k (drop n buf) more bound)
                (IsBuffer-drop k (drop n buf ++ more) whole) in
            let back = subst (λ b. IsBuffer (b ++ more)) (sym left) again in
            let fuel =
              drain_fuel (suc g) g (rest.buffer ++ more) rest.state back (omega arith) fewer in
            rw (← ok-injective e2) (
              drain-ok g (buf ++ more) s a n (stable buf more a n p)
              ∙ rw (cut, later)
                  (map-map (drain parse react g (rest.buffer ++ more) rest.state) _ _
                    ∙ simp (fuel, append_assoc)))
        | ends_err x p ↦
            let same = ok-injective (sym (drain-err f buf s x p) ∙ e) in
            rw (← same) (sym (map-id (drain parse react (suc g) (buf ++ more) s)))
        | ends_panic p ↦ cc (drain-panic f buf s p)
        | ends_stalled p ↦ absurd (good.ends buf h p)
      ]
