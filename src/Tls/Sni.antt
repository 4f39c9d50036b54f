-- ===== src/Tls/Sni.antt =====
-- src/tcp_proxy/tls/client_hello.rs: `read_sni_hostname`, and `SniParserError` of extension.rs.
use odd_box.Base.{
  ◌+◌, ◌-◌, Bool, true, false, not, List, [], ◌∷◌, ltb, ◌==◌, if◌then◌else◌, length, Bytes, u16_be,
  is_utf8, Exec, ok, err, ◌>>=◌, ◌>>◌, fail_if, index, slice,
}
use odd_box.Tls.Extension.{TlsExtension, TlsExtensionType, server_name}
use odd_box.Tls.ClientHello.{TlsClientHello}

pub data SniParserError : Type 0 where
  no_sni_found invalid_extension_format utf8_error : SniParserError

abbrev pub Searching : Type 0 → Type 0
Searching A = Exec SniParserError A

abbrev pub is_server_name : TlsExtensionType → Bool
is_server_name server_name = true
is_server_name _ = false

-- The host name in the payload of a server name extension, once its type is known to be 0.
unfoldable pub read_host_name : Bytes → Searching Bytes
read_host_name payload = do
  hi ← index payload 3
  lo ← index payload 4
  fail_if (ltb (length payload - 5) (u16_be hi lo)) invalid_extension_format
  name ← slice payload 5 (5 + u16_be hi lo)
  fail_if (not (is_utf8 name)) utf8_error
  ok name

-- The loop over the extensions; `rest` is what the extensions behind this one give.
unfoldable pub read_server_name : Bytes → Searching Bytes → Searching Bytes
read_server_name payload rest = do
  fail_if (ltb (length payload) 5) invalid_extension_format
  name_type ← index payload 2
  if not (name_type == 0x00) then rest else read_host_name payload

unfoldable pub search_extensions : List TlsExtension → Searching Bytes
search_extensions [] = err no_sni_found
search_extensions (e ∷ es) =
    if is_server_name e.typ
    then read_server_name e.payload (search_extensions es)
    else search_extensions es

unfoldable pub read_sni_hostname : TlsClientHello → Searching Bytes
read_sni_hostname hello = search_extensions hello.extensions
