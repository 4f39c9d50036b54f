-- ===== src/Tls/Safety.antt =====
-- No input, however malformed, makes the TLS readers index out of bounds or run on.
use odd_box.Base.{
  [], ◌∷◌, List, inr, leb→le, inl, drop, ◌-◌, leb, take, Bool-cases, ok, get_or, index, slice, ℕ,
  zero, suc, ◌+◌, ◌*◌, ◌/◌, ◌≤◌, ◌<◌, ◌≡◌, arith, length, Bytes, u16_be, IsSafe, index-get_or,
  slice-le, bind-IsSafe,
}
use odd_box.Tls.Sni.{
  read_host_name, Searching, SniParserError, read_server_name, read_sni_hostname, search_extensions,
}
use odd_box.Tls.ClientHello.{
  TlsClientHello, try_from, read_extension_block, read_extensions, TlsClientHelloError,
  read_headers, read_block, read_version, read_vector, read_suites, read_cipher_suites,
  read_extension,
}
use odd_box.Tls.Extension.{TlsExtension}

module _ (input : Bytes) where
  abbrev at : ℕ → ℕ
  at i = get_or input i 0

  byte : (i : ℕ) → i < length input → index {E = TlsClientHelloError} input i ≡ ok (at i)
  byte i = index-get_or input i 0

  block :
      (lo hi : ℕ)
      → lo ≤ hi
      → hi ≤ length input
      → slice {E = TlsClientHelloError} input lo hi ≡ ok (take (hi - lo) (drop lo input))
  block = slice-le input

  read_headers-IsSafe : IsSafe (read_headers input)
  unfolding read_headers
  read_headers-IsSafe = ground (arith, byte 0, byte 5)

  read_version-IsSafe : (c : ℕ) → IsSafe (read_version input c)
  unfolding read_version
  read_version-IsSafe c = ground (arith, byte c, byte (c + 1))

  read_block-IsSafe : (width c : ℕ) → IsSafe (read_block input width c)
  unfolding read_block
  read_block-IsSafe width c = ground (arith, block c (c + width))

  read_vector-IsSafe : (c : ℕ) → IsSafe (read_vector input c)
  unfolding read_vector
  read_vector-IsSafe c = ground (arith, byte c, block (c + 1) (c + 1 + at c))

  read_suites-IsSafe : (n c : ℕ) → c + 2 * n ≤ length input → IsSafe (read_suites input c n)
  unfolding read_suites
  read_suites-IsSafe zero c h = tt
  read_suites-IsSafe (suc n) c h =
      ground (arith, byte c, byte (c + 1), read_suites-IsSafe n (c + 2))

  read_cipher_suites-IsSafe : (c : ℕ) → IsSafe (read_cipher_suites input c)
  unfolding read_cipher_suites
  read_cipher_suites-IsSafe c =
      ground
        (arith, byte c, byte (c + 1), read_suites-IsSafe (u16_be (at c) (at (c + 1)) / 2) (c + 2))

  module _ (last : ℕ) (inside : last ≤ length input) where
    read_extension-IsSafe : (c : ℕ) → c + 4 ≤ last → IsSafe (read_extension input last c)
    unfolding read_extension
    read_extension-IsSafe c h = ground (
      arith,
      byte c,
      byte (c + 1),
      byte (c + 2),
      byte (c + 3),
      block (c + 4) (c + 4 + u16_be (at (c + 2)) (at (c + 3))),
    )

    -- A round of the loop moves on by four bytes at least.
    read_extension_moves :
        (c : ℕ) {e : TlsExtension} {next : ℕ}
        → c + 4 ≤ last
        → read_extension input last c ≡ ok (e, next)
        → (c + 4 ≤ next) × (next ≤ last)
    unfolding read_extension
    read_extension_moves c h e = ground (
      arith,
      byte c,
      byte (c + 1),
      byte (c + 2),
      byte (c + 3),
      block (c + 4) (c + 4 + u16_be (at (c + 2)) (at (c + 3))),
    )

    read_extensions-IsSafe :
        (fuel c : ℕ) → c ≤ last → last < fuel + c → IsSafe (read_extensions fuel input last c)
    unfolding read_extensions
    read_extensions-IsSafe zero c h f = absurd (omega arith)
    read_extensions-IsSafe (suc fuel) c h f = elim (Bool-cases (leb (c + 4) last)) [
      | inl more ↦
          rw (more, IsSafe, read_extensions)
            (bind-IsSafe (read_extension input last c) _ (read_extension-IsSafe c (leb→le _ _ more))
              (λ (e, next) found.
                let moved = read_extension_moves c (leb→le _ _ more) found in
                bind-IsSafe (read_extensions fuel input last next) _
                  (read_extensions-IsSafe fuel next moved.1 (omega arith)) (λ rest _. tt)))
      | inr done ↦ rw (done, IsSafe, read_extensions) tt
    ]

  read_extension_block-IsSafe : (c : ℕ) → IsSafe (read_extension_block input c)
  unfolding read_extension_block
  read_extension_block-IsSafe c =
      let from = c + 2 + u16_be (at c) (at (c + 1)) in
      ground (
        arith,
        byte c,
        byte (c + 1),
        λ (h : from ≤ length input). read_extensions-IsSafe from h (suc (length input)) (c + 2),
      )

-- Reading a ClientHello out of any bytes ends in a value or in an error: no index or slice is out of
-- bounds, and the loop over the extensions ends.
pub try_from-IsSafe : (input : Bytes) → IsSafe (try_from input)
unfolding try_from
try_from-IsSafe input = bind-IsSafe (read_headers input) _ (read_headers-IsSafe input) λ c0 _.
    bind-IsSafe (read_version input c0) _ (read_version-IsSafe input c0) λ (version, c1) _.
      bind-IsSafe (read_block input 32 c1) _ (read_block-IsSafe input 32 c1) λ (random, c2) _.
        bind-IsSafe (read_vector input c2) _ (read_vector-IsSafe input c2) λ (session_id, c3) _.
          bind-IsSafe (read_cipher_suites input c3) _ (read_cipher_suites-IsSafe input c3)
            λ (suites, c4) _.
              bind-IsSafe (read_vector input c4) _ (read_vector-IsSafe input c4)
                λ (compression, c5) _.
                  bind-IsSafe (read_extension_block input c5) _
                    (read_extension_block-IsSafe input c5) (λ extensions _. tt)

module _ (payload : Bytes) where
  sni_byte :
      (i : ℕ) → i < length payload → index {E = SniParserError} payload i ≡ ok (get_or payload i 0)
  sni_byte i = index-get_or payload i 0

  read_server_name-IsSafe :
      (rest : Searching Bytes) → IsSafe rest → IsSafe (read_server_name payload rest)
  unfolding read_server_name read_host_name
  read_server_name-IsSafe rest h =
      let size = u16_be (get_or payload 3 0) (get_or payload 4 0) in
      ground (
        arith,
        sni_byte 2,
        sni_byte 3,
        sni_byte 4,
        slice-le {E = SniParserError} payload 5 (5 + size),
      )

search_extensions-IsSafe : (es : List TlsExtension) → IsSafe (search_extensions es)
unfolding search_extensions
search_extensions-IsSafe [] = tt
search_extensions-IsSafe (e ∷ es) = ground (
  arith,
  search_extensions-IsSafe es,
  read_server_name-IsSafe e.payload (search_extensions es) (search_extensions-IsSafe es),
)

-- Looking for the host name in any ClientHello ends in a name or in an error, with no index or slice
-- out of bounds.
pub read_sni_hostname-IsSafe : (hello : TlsClientHello) → IsSafe (read_sni_hostname hello)
unfolding read_sni_hostname
read_sni_hostname-IsSafe hello = search_extensions-IsSafe hello.extensions
