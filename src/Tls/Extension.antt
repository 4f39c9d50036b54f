-- ===== src/Tls/Extension.antt =====
-- src/tcp_proxy/tls/extension.rs: the extensions of a ClientHello and their codes.
use odd_box.Base.{ℕ, ◌≡◌, arith, ◌==◌, if◌then◌else◌, Bytes}

pub data TlsExtensionType : Type 0 where
  server_name max_fragment_length status_request supported_groups : TlsExtensionType
  signature_algorithms application_layer_protocol_negotiation : TlsExtensionType
  signed_certificate_timestamp key_share pre_shared_key early_data : TlsExtensionType
  supported_versions cookie psk_key_exchange_modes : TlsExtensionType
  unknown : ℕ → TlsExtensionType

pub record TlsExtension : Type 0 where
  pub typ : TlsExtensionType
  pub payload : Bytes

-- `TlsExtension::new`
abbrev pub new : TlsExtensionType → Bytes → TlsExtension
new typ payload = record { typ = typ; payload = payload }

-- `impl From<u16> for TlsExtensionType`
unfoldable pub from_u16 : ℕ → TlsExtensionType
from_u16 value =
    if value == 0x0000
    then server_name
    else if value == 0x0001
    then max_fragment_length
    else if value == 0x0005
    then status_request
    else if value == 0x000a
    then supported_groups
    else if value == 0x000d
    then signature_algorithms
    else if value == 0x0010
    then application_layer_protocol_negotiation
    else if value == 0x0012
    then signed_certificate_timestamp
    else if value == 0x0028
    then key_share
    else if value == 0x0029
    then pre_shared_key
    else if value == 0x002a
    then early_data
    else if value == 0x002b
    then supported_versions
    else if value == 0x002c
    then cookie
    else if value == 0x002d
    then psk_key_exchange_modes
    else unknown value

-- `impl Into<u16> for TlsExtensionType`
unfoldable pub into_u16 : TlsExtensionType → ℕ
into_u16 server_name = 0x0000
into_u16 max_fragment_length = 0x0001
into_u16 status_request = 0x0005
into_u16 supported_groups = 0x000a
into_u16 signature_algorithms = 0x000d
into_u16 application_layer_protocol_negotiation = 0x0010
into_u16 signed_certificate_timestamp = 0x0012
into_u16 key_share = 0x0028
into_u16 pre_shared_key = 0x0029
into_u16 early_data = 0x002a
into_u16 supported_versions = 0x002b
into_u16 cookie = 0x002c
into_u16 psk_key_exchange_modes = 0x002d
into_u16 (unknown value) = value

-- A known code is written by its own constructor.
abbrev pub IsCanonical : TlsExtensionType → Type 0
IsCanonical t = from_u16 (into_u16 t) ≡ t

-- Reading a code and writing it back gives the same code, for every code.
pub into_u16-from_u16 : (value : ℕ) → into_u16 (from_u16 value) ≡ value
unfolding into_u16 from_u16
into_u16-from_u16 value = ground arith
