-- ===== src/RateLimit.antt =====
-- common/middleware/rate-limit.middleware.ts: the limit on requests, counted in Redis. The response
-- headers are numbers here, and log lines are left out. The `catch` of `use` is not reached, since
-- the methods of the cache do not throw.
pub mod Window
pub mod Verdicts
mod Tests
use text.Mathlib.Text.{starts_with}
use mathplat.Common.{
  ℕ, suc, ◌+◌, ◌-◌, ltb, if◌then◌else◌, String, Bool, true, false, not, Option, none, some, List,
  [], ◌∷◌, or_else,
}
use mathplat.Common.Int.{ℤ, pos, negsuc, gtb, is}
use mathplat.Common.Text.{◌⧺◌, split, trim, is_empty}
use mathplat.Redis.{Redis}
use mathplat.Cache.{Cache, is_connected}
use mathplat.Cache.Reads.{ttl}
use mathplat.Cache.Writes.{incr, expire}

-- A header of a request: absent, once, or several times.
pub data Header : Type 0 where
  absent several : Header
  single : String → Header

-- What the middleware reads of a request; `user_id` is that of `req.user`, if there is one.
pub record Request : Type 0 where
  pub user_id : Option String
  pub forwarded : Header
  pub ip : Option String
  pub path : String

-- `X-RateLimit-Limit`, `-Remaining`, `-Reset`
pub record Headers : Type 0 where
  pub limit : ℕ
  pub remaining : ℕ
  pub reset : ℕ

-- `passed` if `next` is called, and otherwise the status is 429.
pub record Reply : Type 0 where
  pub passed : Bool
  pub headers : Option Headers

abbrev global_limit : ℕ
global_limit = 100

abbrev auth_limit : ℕ
auth_limit = 10

abbrev window_seconds : ℕ
window_seconds = 60

-- A string that is not empty, as JavaScript tests it.
abbrev truthy : Option String → Option String
truthy none = none
truthy (some s) = if is_empty s then none else some s

abbrev first_part : List String → String
first_part [] = ""
first_part (s ∷ _) = s

abbrev by_address : Request → Header → String
by_address req (single s) = trim (first_part (split b',' s))
by_address req absent = or_else (truthy req.ip) "0.0.0.0"
by_address req several = or_else (truthy req.ip) "0.0.0.0"

unfoldable pub get_identifier : Request → String
get_identifier req = elim (truthy req.user_id) [
  | some id ↦ id
  | none ↦ by_address req req.forwarded
]

unfoldable pub limit_of : Request → ℕ
limit_of req = if starts_with req.path "/auth" then auth_limit else global_limit

unfoldable pub cache_key : Request → String
cache_key req = "rate_limit:" ⧺ get_identifier req ⧺ ":" ⧺ req.path

-- `Math.max(0, limit - count)`
abbrev remaining : ℕ → ℤ → ℕ
remaining limit (pos n) = limit - n
remaining limit (negsuc n) = limit + suc n

abbrev reset : ℤ → ℕ
reset (pos (suc n)) = suc n
reset (pos ℕ.zero) = window_seconds
reset (negsuc n) = window_seconds

module _ {R : Type 0} (redis : Redis R) where
  -- The first request of a window starts its clock.
  unfoldable pub start_window : Request → ℤ → Cache R → Cache R
  start_window req count c =
      if is count 1 then (expire redis (cache_key req) window_seconds c).1 else c

  abbrev answer : Request → ℤ → ℤ → Reply
  answer req count left = record {
    passed = not (gtb count (limit_of req));
    headers = some (record {
      limit = limit_of req;
      remaining = remaining (limit_of req) count;
      reset = reset left;
    });
  }

  abbrev checked : Request → ℤ × Cache R → Reply × Cache R
  checked req (count, c) =
      let c' = start_window req count c in (answer req count (ttl redis (cache_key req) c'), c')

  unfoldable pub use_request : Request → Cache R → Reply × Cache R
  use_request req c =
      if is_connected c
      then checked req (incr redis (cache_key req) c)
      else (record { passed = true; headers = none }, c)
