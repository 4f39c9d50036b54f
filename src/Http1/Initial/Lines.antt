-- ===== src/Http1/Initial/Lines.antt =====
-- A request as lines, for `read_lines` and `take_line` of src/tcp_proxy/h1_initial_parser.rs.
use odd_box.Base.{
  ◌&&◌, ◌==◌, not, Bool, true, take-append, drop-append, false, le→leb, bind-ne-stalled,
  length-append, ◌-◌, bytes_eq, zero, [], suc, ◌∷◌, arith, ok, refl, stalled, ◌≤◌, length, ◌≡◌, ◌≢◌,
  ℕ, ◌++◌, Bytes, List,
}
use odd_box.Http1.Initial.{
  is_blank, nothing_seen, parse_http_request_fast, seen_request, line_feed, trim_start, crlf,
  process_line, Seen, read_lines, take_line, trim_line,
}

-- Bytes without a line feed.
pub data NoFeed : Bytes → Type 0 where
  no_bytes : NoFeed []
  byte : (b : ℕ) {bs : Bytes} → b ≢ line_feed → NoFeed bs → NoFeed (b ∷ bs)

abbrev pub no_feed : Bytes → Bool
no_feed [] = true
no_feed (b ∷ bs) = not (b == line_feed) && no_feed bs

pub no_feed-NoFeed : (bs : Bytes) → no_feed bs ≡ true → NoFeed bs
no_feed-NoFeed [] h = no_bytes
no_feed-NoFeed (b ∷ bs) h = byte b (ground arith) (no_feed-NoFeed bs (ground arith))

-- Header lines without their ends: none is empty.
pub data AllLines : List Bytes → Type 0 where
  no_lines : AllLines []
  line :
      {b : ℕ} {bs : Bytes} {lines : List Bytes}
      → NoFeed (b ∷ bs)
      → AllLines lines
      → AllLines ((b ∷ bs) ∷ lines)

-- The lines, a blank line, and a body.
unfoldable pub render : List Bytes → Bytes → Bytes
render [] body = crlf ++ body
render (l ∷ lines) body = l ++ crlf ++ render lines body

-- What is seen in lines, one after the other.
unfoldable pub see_lines : Seen → List Bytes → Seen
see_lines seen [] = seen
see_lines seen (l ∷ lines) = see_lines (process_line seen (trim_start l)) lines

take_line_lem :
    {l : Bytes} (rest : Bytes) → NoFeed l → take_line (l ++ crlf ++ rest) ≡ (l ++ crlf, rest)
unfolding take_line
take_line_lem rest no_bytes = refl
take_line_lem rest (byte b {bs} n h) = ground (arith, take_line_lem rest h)

trim_line_lem : (l : Bytes) → trim_line (l ++ crlf) ≡ l
unfolding trim_line bytes_eq
trim_line_lem l =
    let shorter : length (l ++ crlf) - 2 ≡ length l = omega (arith, length-append l crlf) in
    rw (
      le→leb 2 (length (l ++ crlf)) (omega (arith, length-append l crlf)),
      shorter,
      drop-append l crlf,
      take-append l crlf,
    )

header_line_is_not_blank :
    (b : ℕ) (bs : Bytes) → NoFeed (b ∷ bs) → is_blank (b ∷ (bs ++ crlf)) ≡ false
unfolding bytes_eq
header_line_is_not_blank b [] (byte _ n h) = ground arith
header_line_is_not_blank b (c ∷ []) (byte _ n h) = ground arith
header_line_is_not_blank b (c ∷ d ∷ bs) (byte _ n h) = ground arith

take_line_shrinks : (b : ℕ) (bs : Bytes) → length (take_line (b ∷ bs)).1 ≤ length bs
unfolding take_line
take_line_shrinks b [] = ground arith
take_line_shrinks b (c ∷ bs) = ground (arith, take_line_shrinks c bs)

read_lines-ne-stalled :
    (fuel : ℕ) (request : Bytes) (seen : Seen)
    → length request ≤ fuel
    → read_lines fuel request seen ≢ stalled
unfolding read_lines
read_lines-ne-stalled fuel [] seen h = λ e. cc
read_lines-ne-stalled zero (b ∷ bs) seen h = ground arith
read_lines-ne-stalled (suc fuel) (b ∷ bs) seen h = ground (
  arith,
  read_lines-ne-stalled fuel (take_line (b ∷ bs)).1
      (process_line seen (trim_start (trim_line (take_line (b ∷ bs)).0))),
  take_line_shrinks b bs,
)

read_lines-render :
    (fuel : ℕ) {lines : List Bytes} (body : Bytes) (seen : Seen)
    → AllLines lines
    → length (render lines body) ≤ fuel
    → read_lines fuel (render lines body) seen ≡ ok (see_lines seen lines)
unfolding render see_lines read_lines take_line bytes_eq
read_lines-render zero body seen no_lines h = ground arith
read_lines-render (suc fuel) body seen no_lines h = refl
read_lines-render zero body seen (line n ls) h = ground arith
read_lines-render (suc fuel) {lines = (b ∷ bs) ∷ lines} body seen (line n ls) h =
    let later =
      read_lines-render fuel body (process_line seen (trim_start (b ∷ bs))) ls
        (omega (arith, length-append (bs ++ crlf) (render lines body), length-append bs crlf)) in
    rw (
      take_line_lem (render lines body) n,
      header_line_is_not_blank b bs n,
      trim_line_lem (b ∷ bs),
      later,
    )

-- The quick look at a request of header lines, each with a byte and without a line feed, a blank line and
-- a body, whatever the body holds, gives what the lines make when they are looked at one after the other.
pub parse_http_request_fast-render :
    (lines : List Bytes) (body : Bytes)
    → AllLines lines
    → parse_http_request_fast (render lines body) ≡ seen_request (see_lines nothing_seen lines)
unfolding parse_http_request_fast
parse_http_request_fast-render lines body h =
    rw (read_lines-render (length (render lines body)) body nothing_seen h (omega arith))

seen_request-ne-stalled : (seen : Seen) → seen_request seen ≢ stalled
seen_request-ne-stalled seen = ground arith

-- The quick look ends on every request, complete or not.
pub parse_http_request_fast-ne-stalled :
    (request : Bytes) → parse_http_request_fast request ≢ stalled
unfolding parse_http_request_fast
parse_http_request_fast-ne-stalled request =
    bind-ne-stalled _ _ (read_lines-ne-stalled (length request) request nothing_seen (omega arith))
      seen_request-ne-stalled
