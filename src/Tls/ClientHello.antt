-- ===== src/Tls/ClientHello.antt =====
-- src/tcp_proxy/tls/client_hello.rs: `TryFrom<&[u8]> for TlsClientHello`. The reader walks the
-- buffer by an offset, `current`; each early return and each index or slice is a step of `Exec`.
use odd_box.Base.{
  ℕ, zero, suc, ◌+◌, ◌/◌, true, false, not, List, [], ◌∷◌, ltb, leb, ◌==◌, length, Bytes, u16_be,
  Exec, ok, stalled, ◌>>=◌, ◌>>◌, fail_if, index, slice,
}
use odd_box.Tls.Extension.{TlsExtension, new, from_u16}

pub data TlsClientHelloError : Type 0 where
  not_tls_handshake not_client_hello : TlsClientHelloError
  message_incomplete : ℕ → TlsClientHelloError

pub record TlsClientHello : Type 0 where
  pub protocol_version : ℕ × ℕ
  pub random : Bytes
  pub session_id : Bytes
  pub cipher_suites : List ℕ
  pub compression_methods : Bytes
  pub extensions : List TlsExtension

abbrev pub Reading : Type 0 → Type 0
Reading A = Exec TlsClientHelloError A

-- `if data.len() < needed { return Err(MessageIncomplete(current)) }`
abbrev pub want : Bytes → ℕ → ℕ → Reading (Unit {0})
want input needed current = fail_if (ltb (length input) needed) (message_incomplete current)

-- The two record and handshake headers, up to the ClientHello's body at offset 9.
unfoldable pub read_headers : Bytes → Reading ℕ
read_headers input = do
  fail_if (ltb (length input) 6) not_tls_handshake
  content_type ← index input 0
  fail_if (not (content_type == 0x16)) not_tls_handshake
  want input (1 + 4) 1
  fail_if (leb (length input) 5) not_client_hello
  handshake_type ← index input 5
  fail_if (not (handshake_type == 0x01)) not_client_hello
  want input (6 + 3) 6
  ok 9

-- A field of `width` bytes that the code copies whole.
unfoldable pub read_block : Bytes → ℕ → ℕ → Reading (Bytes × ℕ)
read_block input width current = do
  want input (current + width) current
  block ← slice input current (current + width)
  ok (block, current + width)

-- The version, as two bytes.
unfoldable pub read_version : Bytes → ℕ → Reading ((ℕ × ℕ) × ℕ)
read_version input current = do
  want input (current + 2) current
  major ← index input current
  minor ← index input (current + 1)
  ok ((major, minor), current + 2)

-- A field behind its length in one byte: the session id and the compression methods.
unfoldable pub read_vector : Bytes → ℕ → Reading (Bytes × ℕ)
read_vector input current = do
  fail_if (leb (length input) current) (message_incomplete current)
  size ← index input current
  want input (current + 1 + size) current
  block ← slice input (current + 1) (current + 1 + size)
  ok (block, current + 1 + size)

-- `(0..n).map(|i| u16::from_be_bytes([data[at + i * 2], data[at + 1 + i * 2]]))`
unfoldable pub read_suites : Bytes → ℕ → ℕ → Reading (List ℕ)
read_suites input at zero = ok []
read_suites input at (suc n) = do
  hi ← index input at
  lo ← index input (at + 1)
  rest ← read_suites input (at + 2) n
  ok (u16_be hi lo ∷ rest)

unfoldable pub read_cipher_suites : Bytes → ℕ → Reading (List ℕ × ℕ)
unfolding read_suites
read_cipher_suites input current = do
  want input (current + 2) current
  hi ← index input current
  lo ← index input (current + 1)
  want input (current + 2 + u16_be hi lo) current
  suites ← read_suites input (current + 2) (u16_be hi lo / 2)
  ok (suites, current + 2 + u16_be hi lo)

-- One extension at `current`, and the offset behind it.
unfoldable pub read_extension : Bytes → ℕ → ℕ → Reading (TlsExtension × ℕ)
read_extension input last current = do
  t1 ← index input current
  t2 ← index input (current + 1)
  l1 ← index input (current + 2)
  l2 ← index input (current + 3)
  let from = current + 4
  fail_if (ltb last (from + u16_be l1 l2)) (message_incomplete from)
  fail_if (ltb (length input) (from + u16_be l1 l2)) (message_incomplete from)
  payload ← slice input from (from + u16_be l1 l2)
  ok (new (from_u16 (u16_be t1 t2)) payload, from + u16_be l1 l2)

-- `while current + 4 <= extensions_end`. Each round moves `current` on by four at least, so the
-- length of the buffer is fuel enough.
unfoldable pub read_extensions : ℕ → Bytes → ℕ → ℕ → Reading (List TlsExtension)
read_extensions zero input last current = stalled
read_extensions (suc fuel) input last current = elim (leb (current + 4) last) [
  | false ↦ ok []
  | true ↦ do
    (extension, next) ← read_extension input last current
    rest ← read_extensions fuel input last next
    ok (extension ∷ rest)
]

unfoldable pub read_extension_block : Bytes → ℕ → Reading (List TlsExtension)
read_extension_block input current = do
  want input (current + 2) current
  hi ← index input current
  lo ← index input (current + 1)
  let from = current + 2
  want input (from + u16_be hi lo) from
  read_extensions (suc (length input)) input (from + u16_be hi lo) from

unfoldable pub try_from : Bytes → Reading TlsClientHello
try_from input = do
  c0 ← read_headers input
  (version, c1) ← read_version input c0
  (random, c2) ← read_block input 32 c1
  (session_id, c3) ← read_vector input c2
  (suites, c4) ← read_cipher_suites input c3
  (compression, c5) ← read_vector input c4
  extensions ← read_extension_block input c5
  ok (record {
    protocol_version = version;
    random = random;
    session_id = session_id;
    cipher_suites = suites;
    compression_methods = compression;
    extensions = extensions;
  })
