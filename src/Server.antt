-- ===== src/Server.antt =====
-- src/server_tcp.c: the command buffer, the replies and the configuration.
pub mod Handlers
pub mod Loop
pub mod Config
pub mod Start
pub mod Get
pub mod Bounds
pub mod Life
pub mod Pipeline
pub mod RoundTrip
pub mod Incr
pub mod Names
pub mod Replies
pub mod Chunks
pub mod Session
use podcache.Prelude.{
  ℕ, suc, ◌+◌, ◌-◌, ◌*◌, ◌^◌, Bytes, codes, Bool, true, false, Option, none, some, List, [], ◌∷◌,
  ◌++◌, ltb, leb, ◌==◌, not, ◌||◌, ◌&&◌, if◌then◌else◌, length, drop, get_or,
}
use podcache.Prelude.Int.{ℤ, pos, negsuc}
use podcache.Pod.{PodCache, pod_cache_create}
use podcache.Prelude.Decimal.{decimal, strtol}

-- `command_buffer_t`: its bytes, of which there are `used`
pub record CommandBuffer : Type 0 where
  pub buffer : Bytes
  pub capacity : ℕ

-- `BUFFER_SIZE`
abbrev pub buffer_size : ℕ
buffer_size = 4096

-- `MAX_COMMAND_SIZE`
abbrev pub max_command_size : ℕ
max_command_size = buffer_size * 4

unfoldable pub buffer_init : ℕ → CommandBuffer
buffer_init size = record { buffer = []; capacity = size }

-- the answer `false` leaves the buffer as it is
unfoldable pub buffer_append : CommandBuffer → Bytes → Bool × CommandBuffer
buffer_append buf data_in =
    if ltb buf.capacity (length buf.buffer + length data_in)
    then (false, buf)
    else (true, record buf { buffer = buf.buffer ++ data_in })

unfoldable pub buffer_consume : CommandBuffer → ℕ → CommandBuffer
buffer_consume buf bytes =
    if leb (length buf.buffer) bytes
    then record buf { buffer = [] }
    else record buf { buffer = drop bytes buf.buffer }

-- What a handler does: whether the connection goes on, and the bytes sent.
pub record Outcome : Type 0 where
  pub goes_on : Bool
  pub sent : Bytes

-- `send_formatted_response` of a text; `send_ok` says whether `send` succeeds
unfoldable pub send_formatted_response : Bool → Bytes → Outcome
send_formatted_response send_ok text =
    if leb buffer_size (length text)
    then record { goes_on = false; sent = [] }
    else if send_ok
    then record { goes_on = true; sent = text }
    else record { goes_on = false; sent = [] }

abbrev pub crlf : Bytes
crlf = 13 ∷ 10 ∷ []

-- the `%lu` of a `long`
abbrev pub as_unsigned : ℤ → ℕ
as_unsigned (pos n) = n
as_unsigned (negsuc n) = 2 ^ 64 - suc n

unfoldable pub send_integer_response : Bool → ℤ → Outcome
unfolding send_formatted_response
send_integer_response send_ok val =
    send_formatted_response send_ok (codes ":" ++ decimal (as_unsigned val) ++ crlf)

unfoldable pub send_ok_response : Bool → Bytes → Outcome
unfolding send_formatted_response
send_ok_response send_ok message = send_formatted_response send_ok (codes "+" ++ message ++ crlf)

unfoldable pub send_error_response : Bool → Bytes → Outcome
unfolding send_formatted_response
send_error_response send_ok message =
    send_formatted_response send_ok (codes "-ERR " ++ message ++ crlf)

unfoldable pub send_bulk_string_response : Bool → Option Bytes → Outcome
unfolding send_formatted_response
send_bulk_string_response send_ok none = send_formatted_response send_ok (codes "$-1" ++ crlf)
send_bulk_string_response send_ok (some str) =
    send_formatted_response send_ok (codes "$" ++ decimal (length str) ++ crlf ++ str ++ crlf)

-- The check of the bounds, which are not negative, behind the other two: `valid` is what these say.
unfoldable pub in_bounds : Bool → ℕ → ℕ → ℕ → ℤ → ℕ
in_bounds valid default_value min_val max_val (pos n) =
    if not valid || (ltb n min_val || ltb max_val n) then default_value else n
in_bounds valid default_value min_val max_val (negsuc n) = default_value

-- `get_env_int` of what `getenv` gives
unfoldable pub get_env_int : Option Bytes → ℕ → ℕ → ℕ → ℕ
unfolding in_bounds
get_env_int none default_value min_val max_val = default_value
get_env_int (some env_str) default_value min_val max_val =
    let val = strtol env_str in
    in_bounds (not val.range_error && (val.end == length env_str)) default_value min_val max_val
      val.value

-- `get_server_port` of the value of PODCACHE_SERVER_PORT
unfoldable pub get_server_port : Option Bytes → ℕ
unfolding get_env_int
get_server_port port = get_env_int port 6379 1024 65535

-- `MB_TO_BYTES` of an `int` that is not negative: a product that does not fit is undefined, `none`.
unfoldable pub mb_to_bytes : ℕ → Option ℕ
mb_to_bytes mb = if leb (2 ^ 31) (mb * 1024 * 1024) then none else some (mb * 1024 * 1024)

-- What the environment decides in `pod_cache_create`: its allocations, and the path that is made up.
pub record Creation : Type 0 where
  pub pod_ok : Bool
  pub registry_ok : Bool
  pub entries_ok : Bool
  pub array_ok : Bool
  pub made : ℕ → Bool × Bool × Bool
  pub base_path : Bytes

-- `pod_cache_create` with that many bytes
unfoldable pub create_sized : Creation → ℕ → Option ℕ → Option (Option PodCache)
create_sized env partitions none = none
create_sized env partitions (some capacity) =
    pod_cache_create env.pod_ok env.registry_ok env.entries_ok env.array_ok env.made env.base_path
      capacity partitions

-- `initialize_cache` of the values of PODCACHE_SIZE and PODCACHE_PARTITIONS; `none` is a fault,
-- `some none` is NULL.
unfoldable pub initialize_cache : Creation → Option Bytes → Option Bytes → Option (Option PodCache)
initialize_cache env size partitions =
    create_sized env (get_env_int partitions 1 1 64) (mb_to_bytes (get_env_int size 100 1 4096))
