-- ===== src/Http1/Message.antt =====
-- src/tcp_proxy/h1_parser.rs: `ParsedRequest`, `ParsedResponse`, and the parsers that find the end of
-- a message by its Content-Length. The head of a message is parsed by the crate httparse, which is a
-- parameter here.
use odd_box.Base.{
  slice, ◌+◌, ◌^◌, length, parse_unsigned, eq_ignore_case, ltb, fail_if, from_utf8, if◌then◌else◌,
  none, ok, some, ◌>>=◌, ◌>>◌, ◌∷◌, Exec, Option, [], err, ℕ, Bytes, List,
}
use Prim.Native.Char.{code}
use Prim.Native.String.{String}
use odd_box.Http1.Frame.{usize}

abbrev pub Headers : Type 0
Headers = List (Bytes × Bytes)

-- `httparse::Request` and `httparse::Response` after a parse; the fields that were not reached are
-- `None`.
pub record RequestHead : Type 0 where
  pub method : Option Bytes
  pub path : Option Bytes
  pub version : Option ℕ
  pub headers : Headers

pub record ResponseHead : Type 0 where
  pub version : Option ℕ
  pub code : Option ℕ
  pub reason : Option Bytes
  pub headers : Headers

-- `httparse::Result<Status<usize>>`, with what was parsed
pub data Parsed (A : Type 0) : Type 0 where
  complete : ℕ → A → Parsed A
  partial failed : Parsed A

pub record Httparse : Type 0 where
  pub request : Bytes → Parsed RequestHead
  pub response : Bytes → Parsed ResponseHead

pub record ParsedRequest : Type 0 where
  pub method : Bytes
  pub path : Bytes
  pub version : ℕ
  pub headers : Headers
  pub body : Option Bytes

pub record ParsedResponse : Type 0 where
  pub version : ℕ
  pub status_code : ℕ
  pub reason : Bytes
  pub headers : Headers
  pub body : Option Bytes

pub data MessageError : Type 0 where
  incomplete_body incomplete_head bad_head : MessageError

abbrev pub Parsing : Type 0 → Type 0
Parsing A = Exec MessageError A

abbrev pub or_else {ℓ} : {A : Type ℓ} → Option A → A → A
or_else none d = d
or_else (some a) d = a

-- ASCII texts of the code, as bytes
abbrev pub codes : String → Bytes
codes String.[] = []
codes (String.◌∷◌ c s) = code c ∷ codes s

-- Values that are no UTF-8 are replaced.
unfoldable pub parse_headers : Headers → Headers
parse_headers [] = []
parse_headers ((name, value) ∷ rest) =
    (name, or_else (from_utf8 value) (codes "<invalid UTF-8>")) ∷ parse_headers rest

-- The first Content-Length header decides; a value that is no `usize` counts as 0.
unfoldable pub content_length : Headers → ℕ
content_length [] = 0
content_length ((name, value) ∷ rest) =
    if eq_ignore_case name (codes "Content-Length")
    then or_else (parse_unsigned (2 ^ 64) value) 0
    else content_length rest

-- The body of `size` bytes behind a head of `n` bytes, and the size of the whole message.
unfoldable pub read_message_body : Bytes → ℕ → ℕ → Parsing (Option Bytes × ℕ)
read_message_body buf n size = do
  fail_if (ltb (length buf) (usize (n + size))) incomplete_body
  body ← (if ltb 0 size then (slice buf n (usize (n + size)) >>= λ b. ok (some b)) else ok none)
  ok (body, usize (n + size))

module _ (h : Httparse) where
  unfoldable pub request_of : Bytes → Parsed RequestHead → Parsing (ParsedRequest × ℕ)
  request_of buf partial = err incomplete_head
  request_of buf failed = err bad_head
  request_of buf (complete n head) = do
    let headers = parse_headers head.headers
    (body, consumed) ← read_message_body buf n (content_length headers)
    ok (
      record {
        method = or_else head.method [];
        path = or_else head.path [];
        version = or_else head.version 1;
        headers = headers;
        body = body;
      },
      consumed,
    )

  unfoldable pub response_of : Bytes → Parsed ResponseHead → Parsing (ParsedResponse × ℕ)
  response_of buf partial = err incomplete_head
  response_of buf failed = err bad_head
  response_of buf (complete n head) = do
    let headers = parse_headers head.headers
    (body, consumed) ← read_message_body buf n (content_length headers)
    ok (
      record {
        version = or_else head.version 1;
        status_code = or_else head.code 200;
        reason = or_else head.reason [];
        headers = headers;
        body = body;
      },
      consumed,
    )

  unfoldable pub parse_http_request : Bytes → Parsing (ParsedRequest × ℕ)
  unfolding request_of
  parse_http_request buf = request_of buf (h.request buf)

  unfoldable pub parse_http_response : Bytes → Parsing (ParsedResponse × ℕ)
  unfolding response_of
  parse_http_response buf = response_of buf (h.response buf)
