-- ===== src/RateLimit/Window.antt =====
-- common/middleware/rate-limit.middleware.ts over all the requests of one window.
use mathplat.Common.{
  ℕ, suc, ◌+◌, ◌-◌, ◌≡◌, ltb, if◌then◌else◌, Bool, true, List, [], ◌∷◌, arith, ◌==◌, eq_iff, ◌&&◌,
}
use Prim.Native.Nat.{min}
use mathplat.Redis.{Redis, IsCounting}
use mathplat.Cache.{Cache, ready}
use mathplat.Cache.Writes.{incr, expire}
use mathplat.RateLimit.{Request, use_request, cache_key, limit_of, start_window}

abbrev same_key : Request → Request → Bool
same_key q r = cache_key q == cache_key r

-- The requests of a run that share the key of `q`, and how many of these pass.
abbrev pub asked : Request → List Request → ℕ
asked q [] = 0
asked q (r ∷ rs) = if same_key q r then suc (asked q rs) else asked q rs

-- Requests that are counted at one key have one limit.
abbrev SharesLimit : Request → List Request → Type 0
SharesLimit q [] = Unit
SharesLimit q (r ∷ rs) = (cache_key q ≡ cache_key r → limit_of r ≡ limit_of q) × SharesLimit q rs

module _ {R : Type 0} (redis : Redis R) where
  abbrev pub passes : Request → List Request → Cache R → ℕ
  passes q [] c = 0
  passes q (r ∷ rs) c =
      let rest = passes q rs (use_request redis r c).1 in
      if same_key q r && (use_request redis r c).0.passed then suc rest else rest

  module _ (counting : IsCounting redis) where
    open counting use {counter, incr_ok, incr_counter, expire_counter}

    use_request_lem :
        (r : Request) (c : Cache R)
        → ready c ≡ true
        → (ready (use_request redis r c).1 ≡ true)
          × ((use_request redis r c).0.passed ≡ ltb (counter c.server (cache_key r)) (limit_of r))
    unfolding use_request incr start_window expire
    use_request_lem r c up = ground (arith, incr_ok (cache_key r) c.server)

    use_request_counter :
        (q r : Request) (c : Cache R)
        → ready c ≡ true
        → counter (use_request redis r c).1.server (cache_key q) ≡ (
            if same_key q r
            then counter c.server (cache_key q) + 1
            else counter c.server (cache_key q))
    unfolding use_request incr start_window expire
    use_request_counter q r c up = ground (
      arith,
      incr_ok (cache_key r) c.server,
      incr_counter (cache_key r) c.server (cache_key q),
      expire_counter (cache_key r) 60 (redis.incr (cache_key r) c.server).1 (cache_key q),
      eq_iff (cache_key r) (cache_key q),
      eq_iff (cache_key q) (cache_key r),
    )

    -- With a ready cache over a server that counts, and requests that have one limit where they have
    -- one key: of the requests of a window that are counted at one key as many pass as the limit
    -- leaves, or all of them if these are fewer, whatever other requests come between.
    pub passes-min :
        (q : Request) (rs : List Request) (c : Cache R)
        → ready c ≡ true
        → SharesLimit q rs
        → passes q rs c ≡ min (asked q rs) (limit_of q - counter c.server (cache_key q))
    passes-min q [] c up h = omega arith
    passes-min q (r ∷ rs) c up (shared, h) =
        let (still, verdict) = use_request_lem r c up in
        ground (
          arith,
          verdict,
          eq_iff (cache_key q) (cache_key r),
          use_request_counter q r c up,
          passes-min q rs (use_request redis r c).1 still h,
        )
