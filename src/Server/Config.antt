-- ===== src/Server/Config.antt =====
-- The bounds that the configuration keeps.
use podcache.Prelude.{ℕ, Bytes, Bool, Option, none, some, ◌≤◌, arith}
use podcache.Prelude.Int.{ℤ, pos, negsuc}
use podcache.Prelude.Decimal.{strtol}
use podcache.Server.{get_env_int, in_bounds}

in_bounds_within :
    (valid : Bool) (default_value min_val max_val : ℕ) (v : ℤ)
    → min_val ≤ default_value
    → default_value ≤ max_val
    → let val = in_bounds valid default_value min_val max_val v in (min_val ≤ val) × (val ≤ max_val)
unfolding in_bounds
in_bounds_within valid default_value min_val max_val (pos n) low high = ground arith
in_bounds_within valid default_value min_val max_val (negsuc n) low high = (low, high)

-- `get_env_int` stays within the minimum and the maximum, whatever the variable holds, if the
-- default does.
pub get_env_int_bounds :
    (env_str : Option Bytes) (default_value min_val max_val : ℕ)
    → min_val ≤ default_value
    → default_value ≤ max_val
    → let val = get_env_int env_str default_value min_val max_val in
      (min_val ≤ val) × (val ≤ max_val)
unfolding get_env_int
get_env_int_bounds none default_value min_val max_val low high = (low, high)
get_env_int_bounds (some env_str) default_value min_val max_val low high =
    in_bounds_within _ default_value min_val max_val (strtol env_str).value low high
