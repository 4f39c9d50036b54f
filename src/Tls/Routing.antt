-- ===== src/Tls/Routing.antt =====
-- What the host name that is read means: it is the one that the client wrote.
use odd_box.Base.{
  take-all, ok, true, append-nil, arith, is_utf8, refl, length, slice, ◌∙◌, ◌∷◌, ◌≢◌, [], err,
  false, index, ◌++◌, ◌+◌, ℕ, Bytes, List, ◌≡◌,
}
use odd_box.Tls.Sni.{
  no_sni_found, is_server_name, read_host_name, read_server_name, search_extensions,
  read_sni_hostname,
}
use odd_box.Tls.Extension.{TlsExtension, server_name, new}
use odd_box.Tls.ClientHello.{TlsClientHello}
use odd_box.Tls.Encoding.{be16}

-- A server name extension (RFC 6066, 3) with one name: the length of the list, the type of the name,
-- the length of the name, and the name.
abbrev pub name_payload : ℕ → Bytes → Bytes
name_payload kind host = be16 (3 + length host) ++ kind ∷ be16 (length host) ++ host

abbrev pub host_extension : Bytes → TlsExtension
host_extension host = new server_name (name_payload 0 host)

-- An extension that the search passes over: of another type, or with a name that is no host name.
pub data IsPassed : TlsExtension → Type 0 where
  other_type : {e : TlsExtension} → is_server_name e.typ ≡ false → IsPassed e
  other_name :
      {kind : ℕ} (host : Bytes) → kind ≢ 0 → IsPassed (new server_name (name_payload kind host))

pub data AllPassed : List TlsExtension → Type 0 where
  nil : AllPassed []
  cons :
      {e : TlsExtension} {es : List TlsExtension} → IsPassed e → AllPassed es → AllPassed (e ∷ es)

search_passed :
    {e : TlsExtension} (es : List TlsExtension)
    → IsPassed e
    → search_extensions (e ∷ es) ≡ search_extensions es
unfolding search_extensions read_server_name index
search_passed es (other_type h) = rw h
search_passed es (other_name host h) = ground arith

search_host :
    (host : Bytes) (es : List TlsExtension)
    → is_utf8 host ≡ true
    → search_extensions (host_extension host ∷ es) ≡ ok host
unfolding search_extensions read_server_name read_host_name index slice
search_host host es h = ground (arith, take-all host)

search_extensions-AllPassed :
    {before : List TlsExtension} (after : List TlsExtension)
    → AllPassed before
    → search_extensions (before ++ after) ≡ search_extensions after
search_extensions-AllPassed after nil = refl
search_extensions-AllPassed after (cons {es} p ps) =
    search_passed (es ++ after) p ∙ search_extensions-AllPassed after ps

-- The host name in the first server name extension of a ClientHello is the one that is read, whatever
-- extensions stand before it that name no host, and whatever stands behind it, if it is UTF-8.
pub read_sni_hostname-first :
    (hello : TlsClientHello) (before after : List TlsExtension) (host : Bytes)
    → hello.extensions ≡ before ++ (host_extension host ∷ after)
    → AllPassed before
    → is_utf8 host ≡ true
    → read_sni_hostname hello ≡ ok host
unfolding read_sni_hostname
read_sni_hostname-first hello before after host e p h =
    rw e (search_extensions-AllPassed _ p ∙ search_host host after h)

-- A ClientHello with no host name in it is reported as such.
pub read_sni_hostname_none :
    (hello : TlsClientHello)
    → AllPassed hello.extensions
    → read_sni_hostname hello ≡ err no_sni_found
unfolding read_sni_hostname
read_sni_hostname_none hello p =
    rw (← append-nil hello.extensions)
      (search_extensions-AllPassed [] p ∙ unfold search_extensions in refl)
