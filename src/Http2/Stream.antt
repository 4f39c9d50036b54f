-- ===== src/Http2/Stream.antt =====
-- src/tcp_proxy/h2_parser.rs: `StreamState`, the map of streams, and the helpers on headers. The
-- fields of `StreamState` that nothing reads or writes are left out.
use odd_box.Base.{
  not, ◌||◌, [], bytes_eq, some, ◌==◌, ◌∷◌, false, if◌then◌else◌, true, Bool, Option, from_utf8,
  none, ℕ, Bytes, List,
}
use odd_box.Http1.Message.{codes, or_else}
use odd_box.Http2.Event.{HeaderMap, HttpRequest, H2Response}

-- `HashMap::insert` and `get` on headers
unfoldable pub insert_header : Bytes → Bytes → HeaderMap → HeaderMap
insert_header k v [] = (k, v) ∷ []
insert_header k v ((j, w) ∷ m) = if bytes_eq j k then (k, v) ∷ m else (j, w) ∷ insert_header k v m

unfoldable pub get_header : Bytes → HeaderMap → Option Bytes
get_header k [] = none
get_header k ((j, v) ∷ m) = if bytes_eq j k then some v else get_header k m

-- `vec_to_string`
abbrev pub vec_to_string : Bytes → Bytes
vec_to_string bytes = or_else (from_utf8 bytes) (codes "failed to convert to string..")

-- `.map(|(k, v)| (vec_to_string(k), vec_to_string(v))).collect()`: a later entry replaces an earlier.
unfoldable pub collect_headers : List (Bytes × Bytes) → HeaderMap → HeaderMap
collect_headers [] m = m
collect_headers ((k, v) ∷ rest) m =
    collect_headers rest (insert_header (vec_to_string k) (vec_to_string v) m)

pub record StreamState : Type 0 where
  pub headers : Option HeaderMap
  pub body : Bytes
  pub stream_window_size : ℕ

-- `StreamState::new`
abbrev pub new_stream : StreamState
new_stream = record { headers = none; body = []; stream_window_size = 65535 }

unfoldable pub to_request : StreamState → ℕ → HttpRequest
to_request st id =
    let headers = or_else st.headers [] in
    record {
      stream_id = id;
      method = or_else (get_header (codes ":method") headers) (codes "GET");
      path = or_else (get_header (codes ":path") headers) (codes "/");
      headers = headers;
      body = st.body;
    }

unfoldable pub to_response : StreamState → ℕ → H2Response
to_response st id =
    let headers = or_else st.headers [] in
    record {
      stream_id = id;
      status = or_else (get_header (codes ":status") headers) (codes "200");
      headers = headers;
      body = st.body;
    }

-- `HashMap<u32, StreamState>`
abbrev pub Streams : Type 0
Streams = List (ℕ × StreamState)

unfoldable pub get_stream : ℕ → Streams → Option StreamState
get_stream id [] = none
get_stream id ((j, st) ∷ rest) = if j == id then some st else get_stream id rest

-- `entry(id).or_insert_with(StreamState::new)`, as it is read
abbrev pub stream_or_new : ℕ → Streams → StreamState
stream_or_new id streams = or_else (get_stream id streams) new_stream

unfoldable pub set_stream : ℕ → StreamState → Streams → Streams
set_stream id st [] = (id, st) ∷ []
set_stream id st ((j, old) ∷ rest) =
    if j == id then (id, st) ∷ rest else (j, old) ∷ set_stream id st rest

unfoldable pub remove_stream : ℕ → Streams → Streams
remove_stream id [] = []
remove_stream id ((j, st) ∷ rest) =
    if j == id then remove_stream id rest else (j, st) ∷ remove_stream id rest

abbrev pub regulars : List Bytes
regulars =
    codes "GET"
    ∷ codes "POST"
    ∷ codes "PUT"
    ∷ codes "DELETE"
    ∷ codes "PATCH"
    ∷ codes "HEAD"
    ∷ codes "OPTIONS"
    ∷ []

abbrev one_of : Bytes → List Bytes → Bool
one_of b [] = false
one_of b (x ∷ xs) = bytes_eq x b || one_of b xs

abbrev not_regular : Option Bytes → Bool
not_regular none = true
not_regular (some m) = not (one_of m regulars)

-- A request with one of the usual methods is not continuous; everything else is.
unfoldable pub is_continuous_stream : HeaderMap → Bool
is_continuous_stream headers = not_regular (get_header (codes ":method") headers)
