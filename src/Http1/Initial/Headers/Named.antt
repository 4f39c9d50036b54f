-- ===== src/Http1/Initial/Headers/Named.antt =====
-- A request whose header lines are known: what the quick look says of its host and of an upgrade to HTTP/2.
use odd_box.Base.{
  ◌&&◌, ◌||◌, ◌∷◌, none, some, true, ok, err, refl, ap, sym, ◌∙◌, ◌≡◌, map, eq_ignore_case,
  contains_ignore_case, Bytes, List,
}
use odd_box.Config.Sites.{any}
use odd_box.Http1.Initial.{
  no_host_header, nothing_seen, parse_http_request_fast, seen_request, Seen,
}
use odd_box.Http1.Initial.Headers.{
  upgrade, connection, http2_settings, line_of, last_host, asks_for_h2c, asks_to_upgrade,
  has_settings, no_headers, with_host, with_upgrade, with_connection, with_settings, with_other,
  host_seen, upgrade_seen, connection_seen, settings_seen, other_seen, or_true, or_false_lem,
  or_assoc, AllHeaders, HeaderLine,
}
use odd_box.Http1.Initial.Lines.{parse_http_request_fast-render, render, see_lines, AllLines}
use odd_box.Http1.Message.{codes}

-- What lines add to what was seen before them.
abbrev told : Seen → List HeaderLine → Seen
told seen hs = record {
  host = last_host seen.host hs;
  has_upgrade_h2c = seen.has_upgrade_h2c || any asks_for_h2c hs;
  has_connection_upgrade = seen.has_connection_upgrade || any asks_to_upgrade hs;
  has_http2_settings = seen.has_http2_settings || any has_settings hs;
}

see_lines-told :
    (seen : Seen) {hs : List HeaderLine}
    → AllHeaders hs
    → see_lines seen (map line_of hs) ≡ told seen hs
unfolding see_lines any
see_lines-told seen no_headers =
    rw
      (
        or_false_lem seen.has_upgrade_h2c,
        or_false_lem seen.has_connection_upgrade,
        or_false_lem seen.has_http2_settings,
      )
      refl
see_lines-told seen (with_host {v} {hs} value all) =
    ap (λ x. see_lines x (map line_of hs)) (host_seen seen v value)
    ∙ see_lines-told (record seen { host = some v }) all
see_lines-told seen (with_upgrade {v} {hs} value all) =
    ap (λ x. see_lines x (map line_of hs)) (upgrade_seen seen v value)
    ∙ see_lines-told _ all
    ∙ ap (λ x. record (told seen (upgrade v ∷ hs)) { has_upgrade_h2c = x })
        (or_assoc seen.has_upgrade_h2c (eq_ignore_case v (codes "h2c")) (any asks_for_h2c hs))
see_lines-told seen (with_connection {v} {hs} value all) =
    ap (λ x. see_lines x (map line_of hs)) (connection_seen seen v value)
    ∙ see_lines-told _ all
    ∙ ap (λ x. record (told seen (connection v ∷ hs)) { has_connection_upgrade = x })
        (or_assoc seen.has_connection_upgrade (contains_ignore_case v (codes "upgrade"))
          (any asks_to_upgrade hs))
see_lines-told seen (with_settings {v} {hs} all) =
    ap (λ x. see_lines x (map line_of hs)) (settings_seen seen v)
    ∙ see_lines-told (record seen { has_http2_settings = true }) all
    ∙ ap (λ x. record (told seen (http2_settings v ∷ hs)) { has_http2_settings = x })
        (sym (or_true seen.has_http2_settings))
see_lines-told seen (with_other {l} {hs} is_other all) =
    ap (λ x. see_lines x (map line_of hs)) (other_seen seen l is_other) ∙ see_lines-told seen all

-- The quick look at a request of header lines, a blank line and any body: without a `Host` line there is no result;
-- otherwise the host is the value of the last one, and an upgrade to HTTP/2 is told exactly if an `Upgrade` line names
-- h2c, a `Connection` line names the upgrade, both in any case, and there is an `HTTP2-Settings` line. The four kinds
-- of line are written as their names usually are, with one blank before the value, and the value of the first three is
-- a byte at least, is UTF-8, has no white space at its ends and no colon at its front; every other line begins, in any
-- case, with none of the four names and not with white space. No line is empty or holds a line feed.
pub parse_http_request_fast-names :
    (hs : List HeaderLine) (body : Bytes)
    → AllHeaders hs
    → AllLines (map line_of hs)
    → parse_http_request_fast (render (map line_of hs) body) ≡ elim (last_host none hs) [
      | none ↦ err no_host_header
      | some name ↦ ok (record {
        host = name;
        is_h2c_upgrade = any asks_for_h2c hs && any asks_to_upgrade hs && any has_settings hs;
      })
    ]
parse_http_request_fast-names hs body all lines =
    parse_http_request_fast-render (map line_of hs) body lines
    ∙ ap seen_request (see_lines-told nothing_seen all)
