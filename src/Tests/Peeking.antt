-- ===== src/Tests/Peeking.antt =====
-- Looks at a ClientHello that comes in two parts, and at one that never comes whole.
use odd_box.Base.{
  [], ◌∷◌, ◌++◌, ◌≡◌, err, none, some, true, false, refl, arith, index, is_utf8, Bytes, List, ℕ,
  ◌≢◌,
}
use odd_box.Http2.Observer.{Hpack, new}
use odd_box.Http1.Message.{codes}
use odd_box.Routing.Target.{tls}
use odd_box.Routing.Peeking.{buffered, closed, found, peek_managed_stream, Look, Peeking}
use odd_box.Routing.Peeking.Attempts.{
  incomplete, peek_managed_stream-hello, peek_managed_stream-incomplete, AllIncomplete,
  IsIncomplete, StillWaits,
}
use odd_box.Routing.Peeking.Limit.{peek_managed_stream-IsOver, AllConclusive, IsOver}
use odd_box.Routing.Peeking.Endings.{peek_managed_stream-IsSoundEnd, IsSoundEnd}
use odd_box.Tests.Fixtures.{host, versions, hello, envelope, hello-IsHello, versions-passed}
use odd_box.Tls.ClientHello.{message_incomplete, read_headers, try_from}
use odd_box.Tls.Encoding.{encode}

-- A block is decoded to one header with the method of a request.
abbrev one_header : Hpack
one_header = record {
  Decoder = Unit;
  fresh = tt;
  decode = λ d block. (d, some ((codes ":method", block) ∷ []));
}

abbrev start_of_loop : Peeking one_header
start_of_loop = record {
  attempts = 0;
  is_tls = false;
  is_http2 = false;
  http_version = none;
  contains_h2c_upgrade_header = false;
  h2_observer = new one_header;
}

abbrev first_part : Bytes
first_part = 3 ∷ 1 ∷ 0 ∷ 4 ∷ 1 ∷ []

first_part-IsIncomplete : IsIncomplete (buffered (0x16 ∷ first_part))
unfolding try_from read_headers index
first_part-IsIncomplete = incomplete first_part 6 refl

twice_incomplete : AllIncomplete (buffered (0x16 ∷ first_part) ∷ buffered (0x16 ∷ first_part) ∷ [])
twice_incomplete =
    AllIncomplete.cons first_part-IsIncomplete
      (AllIncomplete.cons first_part-IsIncomplete AllIncomplete.nil)

peek_managed_stream-incomplete_example : StillWaits one_header 0 (
    peek_managed_stream one_header none
      (buffered (0x16 ∷ first_part) ∷ buffered (0x16 ∷ first_part) ∷ [])
      start_of_loop)
peek_managed_stream-incomplete_example =
    peek_managed_stream-incomplete one_header none start_of_loop (omega arith) twice_incomplete

peek_managed_stream-hello_example :
    peek_managed_stream one_header none
      (buffered (0x16 ∷ first_part)
        ∷ buffered (0x16 ∷ first_part)
        ∷ buffered (encode envelope hello [])
        ∷ [])
      start_of_loop
    ≡ found
        (record {
          typ = tls;
          http_version = none;
          target_host = some host;
          is_h2c_upgrade = false;
          sni = some host;
          host_header = none;
        })
        (record start_of_loop { is_tls = true })
unfolding is_utf8
peek_managed_stream-hello_example =
    peek_managed_stream-hello one_header none start_of_loop [] envelope hello [] (versions ∷ []) []
      host (omega arith) twice_incomplete hello-IsHello refl versions-passed refl

peek_managed_stream-IsSoundEnd_example :
    IsSoundEnd one_header (
      peek_managed_stream one_header none
        (buffered (0x16 ∷ first_part) ∷ closed ∷ [])
        start_of_loop)
peek_managed_stream-IsSoundEnd_example =
    peek_managed_stream-IsSoundEnd one_header none (buffered (0x16 ∷ first_part) ∷ closed ∷ [])
      start_of_loop

abbrev three_empty : List Look
three_empty = buffered [] ∷ buffered [] ∷ buffered [] ∷ []

empty_conclusive : (n : ℕ) → try_from [] ≢ err (message_incomplete n)
unfolding try_from read_headers
empty_conclusive n e = cc

empty_looks : AllConclusive (three_empty ++ three_empty)
empty_looks = let e = empty_conclusive in (e, (e, (e, (e, (e, (e, tt))))))

peek_managed_stream-IsOver_example :
    IsOver one_header
      (peek_managed_stream one_header none (three_empty ++ three_empty) start_of_loop)
peek_managed_stream-IsOver_example =
    peek_managed_stream-IsOver one_header none (three_empty ++ three_empty) start_of_loop
      (omega arith) (omega arith) empty_looks
