-- ===== src/Tests/Initial.antt =====
-- The quick look at a request for a host with an upgrade to HTTP/2, and a body that names another host.
use odd_box.Http1.Initial.{
  trim_end, get_header_value, trim_line, trim_start, process_line, take_line, read_lines,
  parse_http_request_fast,
}
use odd_box.Base.{
  map, true, contains_ignore_case, is_utf8, eq_ignore_case, is_whitespace, bytes_eq, refl, false,
  [], ok, ◌∷◌, ◌≡◌, Bytes, List,
}
use odd_box.Config.Sites.{any}
use odd_box.Http1.Initial.Headers.{
  host, upgrade, connection, http2_settings, other, line_of, no_headers, with_host, with_upgrade,
  with_connection, with_settings, with_other, AllHeaders, HeaderLine,
}
use odd_box.Http1.Initial.Headers.Named.{parse_http_request_fast-names}
use odd_box.Http1.Initial.Lines.{no_lines, no_feed-NoFeed, line, render, AllLines}
use odd_box.Http1.Message.{codes}

abbrev request_lines : List Bytes
request_lines = codes "GET / HTTP/1.1" ∷ codes "host: a.se" ∷ codes "Upgrade: h2c" ∷ []

abbrev body : Bytes
body = codes "Host: b.se"

line_IsLine : AllLines request_lines
line_IsLine = line (no_feed-NoFeed (codes "GET / HTTP/1.1") refl) (
    line (no_feed-NoFeed (codes "host: a.se") refl)
      (line (no_feed-NoFeed (codes "Upgrade: h2c") refl) no_lines))

request_host :
    parse_http_request_fast (render request_lines body)
    ≡ ok (record { host = codes "a.se"; is_h2c_upgrade = false })
unfolding parse_http_request_fast read_lines render bytes_eq take_line process_line trim_start
    trim_line is_whitespace eq_ignore_case get_header_value is_utf8 trim_end
request_host = refl

abbrev named_lines : List HeaderLine
named_lines =
    other (codes "GET / HTTP/1.1")
    ∷ host (codes "a.se")
    ∷ upgrade (codes "H2C")
    ∷ connection (codes "Upgrade, HTTP2-Settings")
    ∷ http2_settings (codes "AAMAAABk")
    ∷ []

named_lines-AllHeaders : AllHeaders named_lines
unfolding is_utf8 eq_ignore_case is_whitespace
named_lines-AllHeaders =
    with_other
      (record {
        front = b'G';
        behind = codes "ET / HTTP/1.1";
        whole = refl;
        no_space = refl;
        no_host = refl;
        no_upgrade = refl;
        no_connection = refl;
        no_settings = refl;
      })
      (with_host
        (record {
          front = b'a';
          behind = codes ".se";
          whole = refl;
          no_space_first = refl;
          no_colon = refl;
          no_space_last = refl;
          utf8 = refl;
        })
        (with_upgrade
          (record {
            front = b'H';
            behind = codes "2C";
            whole = refl;
            no_space_first = refl;
            no_colon = refl;
            no_space_last = refl;
            utf8 = refl;
          })
          (with_connection
            (record {
              front = b'U';
              behind = codes "pgrade, HTTP2-Settings";
              whole = refl;
              no_space_first = refl;
              no_colon = refl;
              no_space_last = refl;
              utf8 = refl;
            })
            (with_settings no_headers))))

named_lines-AllLines : AllLines (map line_of named_lines)
named_lines-AllLines = line (no_feed-NoFeed (line_of (other (codes "GET / HTTP/1.1"))) refl) (
    line (no_feed-NoFeed (line_of (host (codes "a.se"))) refl) (
      line (no_feed-NoFeed (line_of (upgrade (codes "H2C"))) refl) (
        line (no_feed-NoFeed (line_of (connection (codes "Upgrade, HTTP2-Settings"))) refl)
          (line (no_feed-NoFeed (line_of (http2_settings (codes "AAMAAABk"))) refl) no_lines))))

parse_http_request_fast-names_example :
    parse_http_request_fast (render (map line_of named_lines) body)
    ≡ ok (record { host = codes "a.se"; is_h2c_upgrade = true })
unfolding any eq_ignore_case contains_ignore_case
parse_http_request_fast-names_example =
    parse_http_request_fast-names named_lines body named_lines-AllHeaders named_lines-AllLines
