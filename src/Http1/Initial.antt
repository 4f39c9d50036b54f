-- ===== src/Http1/Initial.antt =====
-- src/tcp_proxy/h1_initial_parser.rs: the quick look at a request's headers, for its host and for an
-- upgrade to HTTP/2. Every slice of the source has its bounds from a test just before it.
pub mod Lines
pub mod Values
pub mod Headers
use odd_box.Base.{
  ends_with, contains_ignore_case, true, eq_ignore_case, drop, get_or, zero, ◌&&◌, ◌-◌, ◌||◌, [],
  bytes_eq, from_utf8, is_whitespace, leb, length, some, stalled, ◌==◌, ◌∷◌, Bool, err, false,
  if◌then◌else◌, ok, suc, take, ◌>>=◌, Bytes, Exec, Option, none, ℕ,
}
use odd_box.Http1.Message.{codes, or_else}

pub record ParsedHttpRequest : Type 0 where
  pub host : Bytes
  pub is_h2c_upgrade : Bool

-- `bail!("no host header found")`
pub data InitialError : Type 0 where
  no_host_header : InitialError

-- What the loop over the lines has seen.
pub record Seen : Type 0 where
  pub host : Option Bytes
  pub has_upgrade_h2c : Bool
  pub has_connection_upgrade : Bool
  pub has_http2_settings : Bool

abbrev pub nothing_seen : Seen
nothing_seen = record {
  host = none;
  has_upgrade_h2c = false;
  has_connection_upgrade = false;
  has_http2_settings = false;
}

abbrev pub line_feed : ℕ
line_feed = 0x0A

abbrev pub crlf : Bytes
crlf = 0x0D ∷ line_feed ∷ []

-- `memchr(b'\n', ..)`: a line with the line feed that ends it, and what follows.
unfoldable pub take_line : Bytes → Bytes × Bytes
take_line [] = ([], [])
take_line (b ∷ bs) =
    let (line, rest) = take_line bs in if b == line_feed then (b ∷ [], bs) else (b ∷ line, rest)

-- A line without the line end.
unfoldable pub trim_line : Bytes → Bytes
trim_line line =
    if ends_with line crlf
    then take (length line - 2) line
    else if ends_with line (line_feed ∷ [])
    then take (length line - 1) line
    else line

unfoldable pub trim_start : Bytes → Bytes
trim_start [] = []
trim_start (b ∷ bs) = let rest = trim_start bs in if is_whitespace b then rest else b ∷ bs

-- The loop of `trim_end`, on the end of what is kept.
unfoldable pub trim_to : Bytes → ℕ → ℕ
trim_to bytes zero = zero
trim_to bytes (suc end) =
    let shorter = trim_to bytes end in
    if is_whitespace (get_or bytes end 0) then shorter else suc end

unfoldable pub trim_end : Bytes → Bytes
unfolding trim_to
trim_end bytes = take (trim_to bytes (length bytes)) bytes

unfoldable pub skip_colon : Bytes → Bytes
skip_colon [] = []
skip_colon (b ∷ bs) =
    let rest = skip_colon bs in if b == b':' || is_whitespace b then rest else b ∷ bs

unfoldable pub get_header_value : Bytes → Bytes
unfolding skip_colon
get_header_value bytes = or_else (from_utf8 (trim_end (skip_colon bytes))) []

abbrev has_name : Bytes → Bytes → Bool
has_name name line =
    leb (length name) (length line) && eq_ignore_case (take (length name) line) name

-- What one line of the headers adds to what was seen.
unfoldable pub process_line : Seen → Bytes → Seen
process_line seen line =
    if has_name (codes "Host:") line
    then record seen { host = some (get_header_value (drop 5 line)) }
    else if has_name (codes "Upgrade:") line
    then (if eq_ignore_case (get_header_value (drop 8 line)) (codes "h2c")
        then record seen { has_upgrade_h2c = true }
        else seen)
    else if has_name (codes "Connection:") line
    then (if contains_ignore_case (get_header_value (drop 11 line)) (codes "upgrade")
        then record seen { has_connection_upgrade = true }
        else seen)
    else if has_name (codes "HTTP2-Settings:") line
    then record seen { has_http2_settings = true }
    else seen

abbrev pub is_blank : Bytes → Bool
is_blank line = bytes_eq line crlf || bytes_eq line (line_feed ∷ [])

-- The loop: it ends at the end of the bytes or at the first blank line. A line takes one byte at least, so
-- the length of the request is fuel enough.
unfoldable pub read_lines : ℕ → Bytes → Seen → Exec InitialError Seen
read_lines fuel [] seen = ok seen
read_lines zero (b ∷ bs) seen = stalled
read_lines (suc fuel) (b ∷ bs) seen =
    let (line, rest) = take_line (b ∷ bs) in
    let others = read_lines fuel rest (process_line seen (trim_start (trim_line line))) in
    if is_blank line then ok seen else others

abbrev pub seen_request : Seen → Exec InitialError ParsedHttpRequest
seen_request seen = elim seen.host [
  | none ↦ err no_host_header
  | some host ↦ ok (record {
    host = host;
    is_h2c_upgrade = seen.has_upgrade_h2c && seen.has_connection_upgrade && seen.has_http2_settings;
  })
]

unfoldable pub parse_http_request_fast : Bytes → Exec InitialError ParsedHttpRequest
parse_http_request_fast request = do
  seen ← read_lines (length request) request nothing_seen
  seen_request seen
