-- ===== src/Tls/Labels.antt =====
-- src/tcp_proxy/tls/client_hello.rs: `get_session_id_hex` and `get_random_hex`, as character codes.
use odd_box.Base.{
  refl, [], ◌%◌, ◌+◌, ◌-◌, arith, ltb, ◌*◌, ◌/◌, AllBytes, if◌then◌else◌, ◌∷◌, ℕ, Bytes, ◌≡◌,
}
use odd_box.Tls.ClientHello.{TlsClientHello}

abbrev hex_digit : ℕ → ℕ
hex_digit d = if ltb d 10 then b'0' + d else b'A' + (d - 10)

-- `.map(|byte| format!("{:02X}", byte)).collect().join("")`
hex : Bytes → Bytes
hex [] = []
hex (byte ∷ bytes) = hex_digit (byte / 16) ∷ hex_digit (byte % 16) ∷ hex bytes

pub get_session_id_hex : TlsClientHello → Bytes
get_session_id_hex hello = hex hello.session_id

pub get_random_hex : TlsClientHello → Bytes
get_random_hex hello = hex hello.random

abbrev digit_value : ℕ → ℕ
digit_value c = if ltb c b'A' then c - b'0' else c - b'A' + 10

-- Reading pairs of hexadecimal digits.
abbrev pub unhex : Bytes → Bytes
unhex (hi ∷ lo ∷ rest) = (digit_value hi * 16 + digit_value lo) ∷ unhex rest
unhex _ = []

unhex-hex : (bytes : Bytes) → AllBytes bytes → unhex (hex bytes) ≡ bytes
unfolding hex
unhex-hex [] h = refl
unhex-hex (b ∷ bs) h = ground (arith, unhex-hex bs)

-- The two hexadecimal labels of a ClientHello of bytes can be read back.
pub unhex-labels :
    (hello : TlsClientHello)
    → AllBytes hello.session_id
    → AllBytes hello.random
    → (unhex (get_session_id_hex hello) ≡ hello.session_id)
      × (unhex (get_random_hex hello) ≡ hello.random)
unfolding get_session_id_hex get_random_hex
unhex-labels hello s r = (unhex-hex hello.session_id s, unhex-hex hello.random r)
