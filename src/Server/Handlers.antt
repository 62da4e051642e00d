-- ===== src/Server/Handlers.antt =====
-- The command handlers of src/server_tcp.c and their dispatch.
use podcache.Prelude.{
  zero, suc, ◌+◌, ◌^◌, Bytes, codes, Bool, false, Option, none, some, List, [], ◌∷◌, ◌++◌, ◌==◌,
  not, ◌||◌, if◌then◌else◌, length,
}
use podcache.Prelude.Int.{ℤ, pos, negsuc}
use podcache.Prelude.Decimal.{decimal_ℤ, strtol}
use podcache.Resp.{Command, CommandType, c_string, decode_command}
use podcache.Cas.Files.{FileSystem}
use podcache.Pod.{Pod, pure, fault, ◌>>=◌, ◌>>◌}
use podcache.Pod.Ops.{Env, pod_cache_put, pod_cache_get, pod_cache_evict, minus_one}
use podcache.Server.{
  Outcome, send_integer_response, send_ok_response, send_error_response, send_bulk_string_response,
}

-- What the environment decides for one command: the calls of the cache, whether `send` succeeds, and
-- the bytes that lie in memory behind a value, up to a NUL.
pub record Request : Type 0 where
  pub first : Env
  pub second : Env
  pub send_ok : Bool
  pub behind : Bytes

-- `val++`, `none` where the `long` overflows
abbrev increment : ℤ → Option ℤ
increment (pos n) = if n + 1 == 2 ^ 63 then none else some (pos (n + 1))
increment (negsuc zero) = some (pos 0)
increment (negsuc (suc n)) = some (negsuc n)

module _ {F : Type 0} (fs : FileSystem F) (r : Request) where
  -- a key that is NULL is refused by `pod_cache_put`, `pod_cache_get` and `pod_cache_evict`
  abbrev put_key : Env → Option Bytes → Bytes → Pod F ℤ
  put_key env none value = pure minus_one
  put_key env (some key) value = pod_cache_put fs env (c_string key) value

  abbrev get_key : Option Bytes → Pod F (ℤ × Option Bytes)
  get_key none = pure (minus_one, none)
  get_key (some key) = pod_cache_get fs r.first (c_string key)

  unfoldable pub handle_ping : Pod F Outcome
  handle_ping = pure (send_ok_response r.send_ok (codes "PONG"))

  -- the value as a C string
  abbrev text : Bytes → Bytes
  text value = c_string (value ++ r.behind)

  unfoldable pub get_reply : ℤ × Option Bytes → Pod F Outcome
  get_reply (negsuc n, v) = pure (send_bulk_string_response r.send_ok none)
  get_reply (pos n, none) = fault
  get_reply (pos n, some v) =
      if not (n == 0)
      then pure (send_bulk_string_response r.send_ok none)
      else pure (send_bulk_string_response r.send_ok (some (text v)))

  unfoldable pub handle_get : List (Option Bytes) → Pod F Outcome
  handle_get [] =
      pure (send_error_response r.send_ok (codes "wrong number of arguments for 'GET' command"))
  handle_get (key ∷ args) = do got ← get_key key; get_reply got

  unfoldable pub set_reply : ℤ → Outcome
  set_reply (pos n) = send_ok_response r.send_ok (codes "OK")
  set_reply (negsuc n) = send_error_response r.send_ok (codes "failed to store value")

  -- `strlen` of a value that is NULL is a fault
  unfoldable pub handle_set : List (Option Bytes) → Pod F Outcome
  handle_set (key ∷ some value ∷ args) = do
    result ← put_key r.first key (c_string value)
    pure (set_reply result)
  handle_set (key ∷ none ∷ args) = fault
  handle_set (key ∷ []) =
      pure (send_error_response r.send_ok (codes "wrong number of arguments for 'SET' command"))
  handle_set [] =
      pure (send_error_response r.send_ok (codes "wrong number of arguments for 'SET' command"))

  unfoldable pub handle_del : List (Option Bytes) → Pod F Outcome
  handle_del [] = pure (
      send_error_response r.send_ok
        (codes "wrong number of arguments for 'DEL' or 'UNLINK' command"))
  handle_del (none ∷ args) = pure (send_error_response r.send_ok (codes "error"))
  handle_del (some key ∷ args) = do
    evicted ← pod_cache_evict fs r.first (c_string key)
    pure (send_integer_response r.send_ok (pos evicted))

  -- the key is not there: it starts with 1
  unfoldable pub incr_new : Option Bytes → Pod F Outcome
  incr_new key = do put_key r.second key (codes "1"); pure (send_integer_response r.send_ok (pos 1))

  unfoldable pub incr_store : Option Bytes → Option ℤ → Pod F Outcome
  incr_store key none = fault
  incr_store key (some val) = do
    put_key r.second key (decimal_ℤ val)
    pure (send_integer_response r.send_ok val)

  unfoldable pub incr_value : Option Bytes → Bytes → Pod F Outcome
  incr_value key value =
      let val = strtol (text value) in
      if val.range_error || not (val.end == length (text value))
      then pure (send_error_response r.send_ok (codes "value is not an integer or out of range"))
      else incr_store key (increment val.value)

  unfoldable pub incr_found : Option Bytes → ℤ × Option Bytes → Pod F Outcome
  incr_found key (negsuc n, v) = incr_new key
  incr_found key (pos n, none) = fault
  incr_found key (pos n, some v) = if not (n == 0) then incr_new key else incr_value key v

  unfoldable pub handle_incr : List (Option Bytes) → Pod F Outcome
  handle_incr [] =
      pure (send_error_response r.send_ok (codes "wrong number of arguments for 'INCR' command"))
  handle_incr (key ∷ args) = do got ← get_key key; incr_found key got

  -- the answer -1 ends the connection
  unfoldable pub handle_quit : Pod F Outcome
  handle_quit = pure (record (send_ok_response r.send_ok (codes "BYE")) { goes_on = false })

  unfoldable pub handle_client_cmd : Pod F Outcome
  handle_client_cmd = pure (send_ok_response r.send_ok (codes "OK"))

  -- the table of the handlers
  unfoldable pub handler : CommandType → List (Option Bytes) → Pod F Outcome
  handler CommandType.ping args = handle_ping
  handler CommandType.set args = handle_set args
  handler CommandType.get args = handle_get args
  handler CommandType.quit args = handle_quit
  handler CommandType.client args = handle_client_cmd
  handler CommandType.incr args = handle_incr args
  handler CommandType.del args = handle_del args
  handler CommandType.unlink args = handle_del args
  handler CommandType.unknow args = pure (send_error_response r.send_ok (codes "unknown command"))

  abbrev name_of : Option Bytes → Option Bytes
  name_of none = none
  name_of (some command) = some (c_string command)

  unfoldable pub dispatch_command : Command → Pod F Outcome
  dispatch_command cmd = handler (decode_command (name_of cmd.command)) cmd.args
