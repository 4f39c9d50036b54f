-- ===== src/Routing/Peeking/Attempts.antt =====
-- A ClientHello that stays incomplete: no attempt is counted, and it is routed once it is whole.
use odd_box.Base.{
  ◌∷◌, ◌++◌, ◌≤◌, ◌<◌, [], err, true, le→not_ltb, lt→ltb, length, refl, sym, ap, subst, ◌∙◌, ◌≡◌,
  none, some, false, arith, Option, Bytes, List, ℕ, is_utf8,
}
use odd_box.Http2.Observer.{Hpack}
use odd_box.Routing.Target.{PeekError, tls}
use odd_box.Routing.Peeking.{
  buffered, done, again, found, gave_up, waiting, crashed, Look, Peeked, Peeking, look_at_bytes,
  look_at_hello, look_at_name, turn, go_on, peek_managed_stream, tls_result,
}
use odd_box.Tls.ClientHello.{try_from, read_headers, message_incomplete, TlsClientHello}
use odd_box.Tls.Encoding.{encode, Envelope, IsHello}
use odd_box.Tls.Extension.{TlsExtension}
use odd_box.Tls.RoundTrip.{try_from-encode}
use odd_box.Tls.Routing.{read_sni_hostname-first, host_extension, AllPassed}

-- A look at a ClientHello of which a part is missing.
pub data IsIncomplete : Look → Type 0 where
  incomplete :
      (bytes : Bytes) (n : ℕ)
      → try_from (0x16 ∷ bytes) ≡ err (message_incomplete n)
      → IsIncomplete (buffered (0x16 ∷ bytes))

pub data AllIncomplete : List Look → Type 0 where
  nil : AllIncomplete []
  cons :
      {look : Look} {looks : List Look}
      → IsIncomplete look
      → AllIncomplete looks
      → AllIncomplete (look ∷ looks)

module _ (hp : Hpack) where
  abbrev mark_tls : Peeking hp → Peeking hp
  mark_tls p = record p { is_tls = true }

  incomplete-turn :
      (outer : Option (Option Bytes)) (p : Peeking hp) {look : Look}
      → IsIncomplete look
      → turn hp outer p look ≡ again (mark_tls p)
  unfolding turn look_at_bytes
  incomplete-turn outer p (incomplete bytes n e) = ap (look_at_hello hp (mark_tls p)) e

  incomplete-passed :
      (outer : Option (Option Bytes)) (p : Peeking hp) (looks : List Look) {look : Look}
      → p.attempts ≤ 4
      → IsIncomplete look
      → peek_managed_stream hp outer (look ∷ looks) p
        ≡ peek_managed_stream hp outer looks (mark_tls p)
  unfolding peek_managed_stream
  incomplete-passed outer p looks {look} few h =
      rw (le→not_ltb 4 p.attempts few, incomplete-turn outer p h)

  -- The attempts that a loop still waiting has counted are no more than before.
  abbrev pub StillWaits : ℕ → Peeked (Peeking hp) → Type 0
  StillWaits attempts (found r q) = ⊥
  StillWaits attempts (gave_up e) = ⊥
  StillWaits attempts (waiting q) = q.attempts ≡ attempts
  StillWaits attempts crashed = ⊥

  -- A ClientHello that stays incomplete keeps a loop with four attempts at most going, however often it is looked at:
  -- no attempt is counted.
  pub peek_managed_stream-incomplete :
      (outer : Option (Option Bytes)) (p : Peeking hp) {looks : List Look}
      → p.attempts ≤ 4
      → AllIncomplete looks
      → StillWaits p.attempts (peek_managed_stream hp outer looks p)
  unfolding peek_managed_stream
  peek_managed_stream-incomplete outer p few AllIncomplete.nil = refl
  peek_managed_stream-incomplete outer p few (AllIncomplete.cons {looks} h hs) =
      subst (StillWaits p.attempts) (sym (incomplete-passed outer p looks few h))
        (peek_managed_stream-incomplete outer (mark_tls p) few hs)

  hello-turn :
      (outer : Option (Option Bytes)) (p : Peeking hp) (v : Envelope) (hello : TlsClientHello)
      (trailing : Bytes) (before after : List TlsExtension) (host : Bytes)
      → IsHello hello
      → hello.extensions ≡ before ++ (host_extension host ∷ after)
      → AllPassed before
      → is_utf8 host ≡ true
      → turn hp outer p (buffered (encode v hello trailing)) ≡ done (tls_result host) (mark_tls p)
  unfolding turn look_at_bytes encode
  hello-turn outer p v hello trailing before after host valid e passed utf8 =
      ap (look_at_hello hp (mark_tls p)) (try_from-encode v hello trailing valid)
      ∙ ap (look_at_name hp (mark_tls p))
          (read_sni_hostname-first hello before after host e passed utf8)

  -- A ClientHello with 32 bytes of random and valid extensions, whose first server name is UTF-8 and stands behind
  -- extensions that name no host, comes to a result for TLS whose target and whose server name are that name, with no
  -- version of HTTP and no upgrade told, once a look shows it whole, after any number of looks at
  -- incomplete parts, if four attempts at most were counted before.
  pub peek_managed_stream-hello :
      (outer : Option (Option Bytes)) (p : Peeking hp) {looks : List Look} (later : List Look)
      (v : Envelope) (hello : TlsClientHello) (trailing : Bytes) (before after : List TlsExtension)
      (host : Bytes)
      → p.attempts ≤ 4
      → AllIncomplete looks
      → IsHello hello
      → hello.extensions ≡ before ++ (host_extension host ∷ after)
      → AllPassed before
      → is_utf8 host ≡ true
      → peek_managed_stream hp outer (looks ++ (buffered (encode v hello trailing) ∷ later)) p
        ≡ found
            (record {
              typ = tls;
              http_version = none;
              target_host = some host;
              is_h2c_upgrade = false;
              sni = some host;
              host_header = none;
            })
            (record p { is_tls = true })
  unfolding peek_managed_stream
  peek_managed_stream-hello outer p later v hello trailing before after host few AllIncomplete.nil
        valid e passed utf8 =
      rw (le→not_ltb 4 p.attempts few) (
        ap (λ t. go_on hp t (peek_managed_stream hp outer later))
          (hello-turn outer p v hello trailing before after host valid e passed utf8))
  peek_managed_stream-hello outer p later v hello trailing before after host few
        (AllIncomplete.cons {looks} h hs) valid e passed utf8 =
      incomplete-passed outer p _ few h
      ∙ peek_managed_stream-hello outer (mark_tls p) later v hello trailing before after host few hs
          valid e passed utf8

  -- Of a first look that shows fewer than six bytes of a ClientHello the loop makes nothing, and gives up.
  pub peek_managed_stream_short :
      (outer : Option (Option Bytes)) (p : Peeking hp) (bytes : Bytes) (later : List Look)
      → p.attempts ≤ 4
      → length bytes < 5
      → peek_managed_stream hp outer (buffered (0x16 ∷ bytes) ∷ later) p ≡ gave_up PeekError.unknown
  unfolding peek_managed_stream turn look_at_bytes try_from read_headers
  peek_managed_stream_short outer p bytes later few short =
      rw (le→not_ltb 4 p.attempts few, lt→ltb (length (0x16 ∷ bytes)) 6 (omega arith))
