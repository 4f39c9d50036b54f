-- ===== src/Tests/Tls.antt =====
-- A ClientHello with two extensions, read from its bytes and searched for its host name.
use odd_box.Base.{[], ok, IsSafe, err, index, is_utf8, refl, ◌∷◌, ◌≡◌}
use odd_box.Tls.ClientHello.{TlsClientHello, try_from, message_incomplete, read_headers}
use odd_box.Tls.Sni.{read_sni_hostname}
use odd_box.Tls.Safety.{try_from-IsSafe, read_sni_hostname-IsSafe}
use odd_box.Tls.Encoding.{encode}
use odd_box.Tls.RoundTrip.{try_from-encode}
use odd_box.Tls.Routing.{read_sni_hostname-first}
use odd_box.Tests.Fixtures.{host, versions, hello, envelope, hello-IsHello, versions-passed}

abbrev nameless : TlsClientHello
nameless = record hello { extensions = versions ∷ [] }

try_from-IsSafe_example : IsSafe (try_from (22 ∷ 3 ∷ 1 ∷ 0 ∷ 4 ∷ 1 ∷ []))
try_from-IsSafe_example = try_from-IsSafe (22 ∷ 3 ∷ 1 ∷ 0 ∷ 4 ∷ 1 ∷ [])

short_hello : try_from (22 ∷ 3 ∷ 1 ∷ 0 ∷ 4 ∷ 1 ∷ []) ≡ err (message_incomplete 6)
unfolding try_from read_headers index
short_hello = refl

read_sni_hostname-IsSafe_example : IsSafe (read_sni_hostname hello)
read_sni_hostname-IsSafe_example = read_sni_hostname-IsSafe hello

try_from-encode_example : try_from (encode envelope hello (7 ∷ [])) ≡ ok hello
try_from-encode_example = try_from-encode envelope hello (7 ∷ []) hello-IsHello

read_sni_hostname-first_example : read_sni_hostname hello ≡ ok host
unfolding is_utf8
read_sni_hostname-first_example =
    read_sni_hostname-first hello (versions ∷ []) [] host refl versions-passed refl
