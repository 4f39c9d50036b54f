-- ===== src/Tls/Encoding.antt =====
-- How a client writes a ClientHello (RFC 8446, 4.1.2 and 5.1), stated apart from the reader.
use odd_box.Base.{ℕ, ◌/◌, ◌%◌, ◌≡◌, List, [], ◌∷◌, ◌++◌, length, Bytes}
use odd_box.Tls.Extension.{TlsExtension, into_u16, IsCanonical}
use odd_box.Tls.ClientHello.{TlsClientHello}

-- A number in two bytes, the higher one first.
abbrev pub be16 : ℕ → Bytes
be16 n = n / 256 ∷ n % 256 ∷ []

unfoldable pub encode_suites : List ℕ → Bytes
encode_suites [] = []
encode_suites (suite ∷ suites) = suite / 256 ∷ suite % 256 ∷ encode_suites suites

unfoldable pub encode_extensions : List TlsExtension → Bytes
encode_extensions [] = []
encode_extensions (e ∷ es) =
    be16 (into_u16 e.typ) ++ (be16 (length e.payload) ++ (e.payload ++ encode_extensions es))

-- What the reader skips: the version and the length of the record, and the length of the message.
pub record Envelope : Type 0 where
  pub record_version : ℕ × ℕ
  pub record_length : ℕ × ℕ
  pub message_length : ℕ × ℕ × ℕ

abbrev pub encode_envelope : Envelope → Bytes → Bytes
encode_envelope v body =
    0x16 ∷ v.record_version.0 ∷ v.record_version.1 ∷ v.record_length.0 ∷ v.record_length.1 ∷ 0x01
    ∷ v.message_length.0 ∷ v.message_length.1 ∷ v.message_length.2 ∷ body

abbrev pub vector8 : Bytes → Bytes → Bytes
vector8 field rest = length field ∷ (field ++ rest)

abbrev pub vector16 : Bytes → Bytes → Bytes
vector16 field rest = be16 (length field) ++ (field ++ rest)

-- The message, with whatever bytes follow it in the buffer.
unfoldable pub encode : Envelope → TlsClientHello → Bytes → Bytes
encode v hello trailing = encode_envelope v (
    hello.protocol_version.0
    ∷ hello.protocol_version.1
    ∷ (hello.random
        ++ vector8 hello.session_id (
            vector16 (encode_suites hello.cipher_suites) (
              vector8 hello.compression_methods
                (vector16 (encode_extensions hello.extensions) trailing)))))

-- A type that is written by its own name has one name only: `IsCanonical` rules out the catch-all
-- constructor at a known code.
pub record IsExtension (e : TlsExtension) : Type 0 where
  pub canonical : IsCanonical e.typ

abbrev pub AllExtensions : List TlsExtension → Type 0
AllExtensions [] = Unit
AllExtensions (e ∷ es) = IsExtension e × AllExtensions es

pub record IsHello (hello : TlsClientHello) : Type 0 where
  pub random_length : length hello.random ≡ 32
  pub extensions_valid : AllExtensions hello.extensions
