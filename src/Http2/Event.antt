-- ===== src/Http2/Event.antt =====
-- src/tcp_proxy/h2_parser.rs: directions, settings, frames and events. Strings are their bytes; a
-- `HashMap` is an association list with one entry for a key.
use odd_box.Base.{none, some, ◌==◌, Bool, Option, if◌then◌else◌, ℕ, Bytes, List}

pub data H2FrameDirection : Type 0 where
  incoming outgoing : H2FrameDirection

abbrev pub HeaderMap : Type 0
HeaderMap = List (Bytes × Bytes)

pub record HttpRequest : Type 0 where
  pub stream_id : ℕ
  pub method : Bytes
  pub path : Bytes
  pub headers : HeaderMap
  pub body : Bytes

pub record H2Response : Type 0 where
  pub stream_id : ℕ
  pub status : Bytes
  pub headers : HeaderMap
  pub body : Bytes

pub data SettingIdentifier : Type 0 where
  header_table_size enable_push max_concurrent_streams initial_window_size : SettingIdentifier
  max_frame_size max_header_list_size enable_connect_protocol : SettingIdentifier
  unknown : ℕ → SettingIdentifier

-- `SettingIdentifier::from_u16`
unfoldable pub from_u16 : ℕ → SettingIdentifier
from_u16 id =
    if id == 0x1
    then header_table_size
    else if id == 0x2
    then enable_push
    else if id == 0x3
    then max_concurrent_streams
    else if id == 0x4
    then initial_window_size
    else if id == 0x5
    then max_frame_size
    else if id == 0x6
    then max_header_list_size
    else if id == 0x8
    then enable_connect_protocol
    else unknown id

pub record DecodedSettings : Type 0 where
  pub identifier : SettingIdentifier
  pub value : ℕ

-- The two forms of `H2Frame` that are built.
pub data H2Frame : Type 0 where
  rst_stream : (stream_id error_code : ℕ) → H2Frame
  unknown : (frame_type stream_id flags : ℕ) (payload : Bytes) → H2Frame

pub data H2Event : Type 0 where
  incoming_request outgoing_request : HttpRequest → H2Event
  outgoing_response partial_outgoing_response : H2Response → H2Event
  outgoing_headers incoming_headers : (stream_id : ℕ) (headers : HeaderMap) → H2Event
  body_data :
      (stream_id : ℕ) (bytes : Bytes) (direction : H2FrameDirection) (end_stream : Bool) → H2Event
  priority : (stream_id : ℕ) (exclusive : Bool) (stream_dependency weight : ℕ) → H2Event
  go_away : (last_stream_id error_code : ℕ) (debug_data : Bytes) → H2Event
  window_update : (direction : H2FrameDirection) (stream_id window_size_increment : ℕ) → H2Event
  settings : (direction : H2FrameDirection) (flags : ℕ) (entries : List DecodedSettings) → H2Event
  ping : (direction : H2FrameDirection) (flags : ℕ) (opaque_data : Bytes) → H2Event
  push_promise : (stream_id promised_stream_id : ℕ) (header_block_fragment : Bytes) → H2Event
  unknown_frame : H2Frame → H2Event

-- `H2Event::stream_id`
unfoldable pub stream_id : H2Event → Option ℕ
stream_id (incoming_request r) = some r.stream_id
stream_id (outgoing_request r) = some r.stream_id
stream_id (outgoing_response r) = some r.stream_id
stream_id (partial_outgoing_response r) = some r.stream_id
stream_id (outgoing_headers id _) = some id
stream_id (incoming_headers id _) = some id
stream_id (body_data id _ _ _) = some id
stream_id (priority id _ _ _) = some id
stream_id (go_away _ _ _) = none
stream_id (window_update _ id _) = some id
stream_id (settings _ _ _) = none
stream_id (ping _ _ _) = none
stream_id (push_promise id _ _) = some id
stream_id (unknown_frame _) = none
