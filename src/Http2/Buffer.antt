-- ===== src/Http2/Buffer.antt =====
-- src/tcp_proxy/h2_parser.rs: `H2Buffer`, which drops the connection preface of the client. The
-- waker, with which an async reader asks to be polled again, is left out.
use odd_box.Base.{
  true, drop, take, bytes_eq, false, length, ◌&&◌, [], ltb, not, Bool, if◌then◌else◌, ◌++◌, Bytes,
}
use odd_box.Http1.Message.{codes}

pub record H2Buffer : Type 0 where
  pub buffer : Bytes
  pub needs_preface : Bool
  pub preface_consumed : Bool

abbrev pub preface : Bytes
preface = codes "PRI * HTTP/2.0\r\n\r\nSM\r\n\r\n"

-- `H2Buffer::new`
abbrev pub new_buffer : Bool → H2Buffer
new_buffer needs = record { buffer = []; needs_preface = needs; preface_consumed = false }

unfoldable pub consume_preface : H2Buffer → H2Buffer
consume_preface b =
    if ltb (length b.buffer) 24
    then b
    else if bytes_eq (take 24 b.buffer) preface
    then record b { buffer = drop 24 b.buffer; preface_consumed = true }
    else record b { buffer = [] }

unfoldable pub write : H2Buffer → Bytes → H2Buffer
write b bytes =
    let b' = record b { buffer = b.buffer ++ bytes } in
    if not b.preface_consumed && b.needs_preface then consume_preface b' else b'
