-- ===== src/RateLimit/Verdicts.antt =====
-- When common/middleware/rate-limit.middleware.ts refuses one request.
use mathplat.Common.{ℕ, ◌<◌, ◌≡◌, ◌↔◌, true, false, arith}
use mathplat.Common.Int.{pos}
use mathplat.Common.Outcome.{ok}
use mathplat.Redis.{Redis}
use mathplat.Cache.{Cache, is_connected, ready}
use mathplat.Cache.Writes.{incr}
use mathplat.RateLimit.{Request, use_request, cache_key, limit_of}

module _ {R : Type 0} (redis : Redis R) (req : Request) (c : Cache R) where
  -- A request is refused exactly when the cache is ready and Redis counts it above the limit of its
  -- path. So Redis being away, or failing, lets every request pass.
  pub refused_iff : ((use_request redis req c).0.passed ≡ false) ↔ (
      (is_connected c ≡ true)
      × (ready c ≡ true)
      × ((n : ℕ) × ((redis.incr (cache_key req) c.server).0 ≡ ok (pos n)) × (limit_of req < n)))
  unfolding use_request incr
  refused_iff = ground arith
