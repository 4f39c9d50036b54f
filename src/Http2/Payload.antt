-- ===== src/Http2/Payload.antt =====
-- src/tcp_proxy/h2_parser.rs: `parse_headers_payload` and `parse_data_payload`. The cursor of the
-- code is what is left of the payload.
use odd_box.Base.{
  drop, ◌-◌, length, has_flag, ltb, take, Bool, [], if◌then◌else◌, none, some, ◌∷◌, Option, ℕ,
  Bytes,
}

infixl 5 ◌>>=?◌
abbrev pub ◌>>=?◌ {ℓ κ} : {A : Type ℓ} {B : Type κ} → Option A → (A → Option B) → Option B
none >>=? f = none
some a >>=? f = f a

abbrev padded : Bytes → Option (ℕ × Bytes)
padded [] = none
padded (pad_len ∷ cursor) = if ltb (length cursor) pad_len then none else some (pad_len, cursor)

-- The pad length and the bytes behind it, if the PADDED flag is set.
unfoldable pub unpad : ℕ → Bytes → Option (ℕ × Bytes)
unpad flags payload = if has_flag 0x8 flags then padded payload else some (0, payload)

-- The five bytes that a set PRIORITY flag puts in front of the block are skipped.
unfoldable pub skip_priority : ℕ → Bytes → Option Bytes
skip_priority flags cursor =
    if has_flag 0x20 flags
    then (if ltb (length cursor) 5 then none else some (drop 5 cursor))
    else some cursor

-- The header block, and whether END_HEADERS is set.
unfoldable pub parse_headers_payload : ℕ → Bytes → Option (Bytes × Bool)
parse_headers_payload flags payload = unpad flags payload >>=? λ (pad_len, cursor).
    skip_priority flags cursor >>=? λ block.
    if ltb (length block) pad_len
    then none
    else some (take (length block - pad_len) block, has_flag 0x4 flags)

-- The data, and whether END_STREAM is set.
unfoldable pub parse_data_payload : ℕ → Bytes → Option (Bytes × Bool)
parse_data_payload flags payload = unpad flags payload >>=? λ (pad_len, cursor).
    some (take (length cursor - pad_len) cursor, has_flag 0x1 flags)
