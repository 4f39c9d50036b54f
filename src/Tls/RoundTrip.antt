-- ===== src/Tls/RoundTrip.antt =====
-- The reader gives back every ClientHello that a client can write.
use odd_box.Base.{
  zero, le→leb, true, leb, subst, suc, append_assoc, u16_be, ◌<◌, refl, [], ◌%◌, ◌*◌, ◌/◌,
  Cursor-skip, List, length-append, le→not_ltb, false, slice-Cursor, Cursor-next, arith,
  index-Cursor, ltb, index, length, ◌+◌, ok, ◌++◌, ◌∷◌, ◌≤◌, Cursor, ℕ, Bytes, ◌≡◌,
}
use odd_box.Tls.Encoding.{
  encode, IsHello, Envelope, AllExtensions, encode_extensions, IsExtension, encode_suites, vector8,
  vector16, be16,
}
use odd_box.Tls.ClientHello.{
  TlsClientHello, read_extensions, read_extension_block, read_headers, try_from,
  TlsClientHelloError, read_block, read_version, read_vector, read_suites, read_cipher_suites,
  read_extension,
}
use odd_box.Tls.Extension.{into_u16, TlsExtension}

length-encode_suites : (suites : List ℕ) → length (encode_suites suites) ≡ 2 * length suites
unfolding encode_suites
length-encode_suites [] = refl
length-encode_suites (s ∷ suites) = omega (arith, length-encode_suites suites)

length-encode_extensions :
    (e : TlsExtension) (es : List TlsExtension)
    → length (encode_extensions (e ∷ es)) ≡ 4 + length e.payload + length (encode_extensions es)
unfolding encode_extensions
length-encode_extensions e es = omega (arith, length-append e.payload (encode_extensions es))

encode_extensions-append :
    (e : TlsExtension) (es : List TlsExtension) (rest : Bytes)
    → encode_extensions (e ∷ es) ++ rest
      ≡ be16 (into_u16 e.typ)
        ++ (be16 (length e.payload) ++ (e.payload ++ (encode_extensions es ++ rest)))
unfolding encode_extensions
encode_extensions-append e es rest = simp append_assoc

module _ {input : Bytes} where
  fits :
      {c : ℕ} (needed : ℕ) {rest : Bytes}
      → Cursor input c rest
      → needed ≤ c + length rest
      → ltb (length input) needed ≡ false
  fits needed at h = le→not_ltb _ _ (omega (arith, at.total))

  byte :
      {c : ℕ} {b : ℕ} {rest : Bytes}
      → Cursor input c (b ∷ rest)
      → index {E = TlsClientHelloError} input c ≡ ok b
  byte = index-Cursor

  read_vector-Cursor :
      (c : ℕ) (field rest : Bytes)
      → Cursor input c (vector8 field rest)
      → (read_vector input c ≡ ok (field, c + 1 + length field))
        × Cursor input (c + 1 + length field) rest
  unfolding read_vector
  read_vector-Cursor c field rest at =
      let at1 = Cursor-next at in
      (
        ground (
          arith,
          at.total,
          byte at,
          slice-Cursor {E = TlsClientHelloError} field rest at1,
          length-append field rest,
        ),
        Cursor-skip field rest at1,
      )

  read_version-Cursor :
      (c major minor : ℕ) (rest : Bytes)
      → Cursor input c (major ∷ minor ∷ rest)
      → read_version input c ≡ ok ((major, minor), c + 2)
  unfolding read_version
  read_version-Cursor c major minor rest at =
      ground (arith, at.total, byte at, byte (Cursor-next at))

  read_block-Cursor :
      (c : ℕ) (field rest : Bytes)
      → Cursor input c (field ++ rest)
      → read_block input (length field) c ≡ ok (field, c + length field)
  unfolding read_block
  read_block-Cursor c field rest at = ground (
    arith,
    at.total,
    slice-Cursor {E = TlsClientHelloError} field rest at,
    length-append field rest,
  )

  read_suites-Cursor :
      (suites : List ℕ) (c : ℕ) (rest : Bytes)
      → Cursor input c (encode_suites suites ++ rest)
      → read_suites input c (length suites) ≡ ok suites
  unfolding read_suites encode_suites
  read_suites-Cursor [] c rest at = refl
  read_suites-Cursor (s ∷ suites) c rest at =
      let at1 = Cursor-next at in
      let at2 : Cursor input (c + 2) _ = Cursor-skip (s / 256 ∷ s % 256 ∷ []) _ at in
      ground (arith, byte at, byte at1, read_suites-Cursor suites (c + 2) rest at2)

  read_cipher_suites-Cursor :
      (c : ℕ) (suites : List ℕ) (rest : Bytes)
      → Cursor input c (vector16 (encode_suites suites) rest)
      → let width = length (encode_suites suites) in
        (read_cipher_suites input c ≡ ok (suites, c + 2 + width))
        × Cursor input (c + 2 + width) rest
  unfolding read_cipher_suites
  read_cipher_suites-Cursor c suites rest at =
      let field = encode_suites suites in
      let at2 : Cursor input (c + 2) (field ++ rest) = Cursor-skip (be16 (length field)) _ at in
      let count : length field / 2 ≡ length suites = omega (arith, length-encode_suites suites) in
      (
        ground (
          arith,
          at.total,
          byte at,
          byte (Cursor-next at),
          length-append field rest,
          count,
          length-encode_suites suites,
          read_suites-Cursor suites (c + 2) rest at2,
        ),
        Cursor-skip field rest at2,
      )

  read_extension-Cursor :
      (c last : ℕ) (e : TlsExtension) (rest : Bytes)
      → IsExtension e
      → last ≤ length input
      → c + 4 + length e.payload ≤ last
      → Cursor input c (be16 (into_u16 e.typ) ++ (be16 (length e.payload) ++ (e.payload ++ rest)))
      → read_extension input last c ≡ ok (e, c + 4 + length e.payload)
  unfolding read_extension
  read_extension-Cursor c last e rest v h k at =
      let at1 = Cursor-next at in
      let at2 = Cursor-next at1 in
      let at3 = Cursor-next at2 in
      let at4 : Cursor input (c + 4) (e.payload ++ rest) =
        Cursor-skip (be16 (into_u16 e.typ) ++ be16 (length e.payload)) _ at in
      ground (
        arith,
        v.canonical,
        byte at,
        byte at1,
        byte at2,
        byte at3,
        slice-Cursor {E = TlsClientHelloError} e.payload rest at4,
      )

  -- The loop stops at the end of the extensions, whatever follows them in the buffer.
  read_extensions-Cursor :
      (es : List TlsExtension) (fuel c last : ℕ) (rest : Bytes)
      → AllExtensions es
      → Cursor input c (encode_extensions es ++ rest)
      → last ≡ c + length (encode_extensions es)
      → last < fuel + c
      → read_extensions fuel input last c ≡ ok es
  unfolding read_extensions
  read_extensions-Cursor es zero c last rest v at end enough = absurd (omega arith)
  read_extensions-Cursor [] (suc fuel) c last rest v at end enough =
      unfold read_extensions encode_extensions in ground arith
  read_extensions-Cursor (e ∷ es) (suc fuel) c last rest (ev, v) at end enough =
      let tail = encode_extensions es ++ rest in
      let whole = length-encode_extensions e es in
      let shape = encode_extensions-append e es rest in
      let here = subst (Cursor input c) shape at in
      let past : Cursor input (c + 4) (e.payload ++ tail) =
        Cursor-skip (be16 (into_u16 e.typ) ++ be16 (length e.payload)) _ here in
      let next = Cursor-skip e.payload tail past in
      let inside : last ≤ length input =
        omega (arith, at.total, length-append (encode_extensions (e ∷ es)) rest) in
      let read = read_extension-Cursor c last e tail ev inside (omega arith) here in
      let later =
        read_extensions-Cursor es fuel (c + 4 + length e.payload) last rest v next (omega arith)
          (omega arith) in
      let more : leb (c + 4) last ≡ true = le→leb _ _ (omega arith) in
      rw (more, read_extensions) (rw (read, later))

  read_extension_block-Cursor :
      (c : ℕ) (es : List TlsExtension) (rest : Bytes)
      → AllExtensions es
      → Cursor input c (vector16 (encode_extensions es) rest)
      → read_extension_block input c ≡ ok es
  unfolding read_extension_block
  read_extension_block-Cursor c es rest v at =
      let field = encode_extensions es in
      let at2 : Cursor input (c + 2) (field ++ rest) = Cursor-skip (be16 (length field)) _ at in
      let size : u16_be (length field / 256) (length field % 256) ≡ length field = omega arith in
      let later =
        read_extensions-Cursor es (suc (length input)) (c + 2) (c + 2 + length field) rest v at2
          refl (omega (arith, at.total, length-append field rest)) in
      ground
        (arith, at.total, byte at, byte (Cursor-next at), length-append field rest, size, later)

read_headers-encode :
    (v : Envelope) (hello : TlsClientHello) (trailing : Bytes)
    → read_headers (encode v hello trailing) ≡ ok 9
unfolding read_headers index encode
read_headers-encode v hello trailing = ground arith

-- Reading a ClientHello that was written, with any envelope around it and any bytes behind it, gives it
-- back, if its random has 32 bytes and each of its extensions is valid.
pub try_from-encode :
    (v : Envelope) (hello : TlsClientHello) (trailing : Bytes)
    → IsHello hello
    → try_from (encode v hello trailing) ≡ ok hello
unfolding try_from
try_from-encode v hello trailing h =
    let input = encode v hello trailing in
    let suites = encode_suites hello.cipher_suites in
    let block = encode_extensions hello.extensions in
    let tail3 = vector16 block trailing in
    let tail2 = vector8 hello.compression_methods tail3 in
    let tail1 = vector16 suites tail2 in
    let tail0 = vector8 hello.session_id tail1 in
    let at9 : Cursor input 9
        (hello.protocol_version.0 ∷ hello.protocol_version.1 ∷ (hello.random ++ tail0)) =
      unfold encode in record { ahead = refl; total = omega arith } in
    let at11 : Cursor input 11 (hello.random ++ tail0) =
      Cursor-skip (hello.protocol_version.0 ∷ hello.protocol_version.1 ∷ []) _ at9 in
    let random = read_block-Cursor 11 hello.random tail0 at11 in
    let (session, at43) =
      read_vector-Cursor _ hello.session_id tail1 (Cursor-skip hello.random tail0 at11) in
    let (ciphers, at_c) = read_cipher_suites-Cursor _ hello.cipher_suites tail2 at43 in
    let (methods, at_m) = read_vector-Cursor _ hello.compression_methods tail3 at_c in
    let exts = read_extension_block-Cursor _ hello.extensions trailing h.extensions_valid at_m in
    rw (read_headers-encode v hello trailing, read_version-Cursor 9 _ _ _ at9, ← h.random_length)
      (rw (random, session, ciphers, methods, exts))
