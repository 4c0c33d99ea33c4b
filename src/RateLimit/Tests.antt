-- ===== src/RateLimit/Tests.antt =====
-- The theorems on common/middleware/rate-limit.middleware.ts at a few requests.
use mathplat.Common.{
  ℕ, ◌-◌, ◌<◌, ◌≡◌, refl, ◌↔◌, true, false, none, some, List, [], ◌∷◌, ◌==◌, eq_iff, arith,
}
use Prim.Native.Nat.{min}
use mathplat.Common.Int.{pos}
use mathplat.Common.Outcome.{ok}
use mathplat.Common.Text.{trim, split, is_space}
use mathplat.Cache.{Cache, ready, is_connected}
use mathplat.RateLimit.{Request, absent, single, use_request, cache_key, limit_of, get_identifier}
use mathplat.RateLimit.Verdicts.{refused_iff}
use mathplat.RateLimit.Window.{passes, passes-min, asked}
use mathplat.Samples.{Server, server, server-IsCounting, ready_on}

-- Ten requests are counted for every key.
abbrev busy : Cache Server
busy = ready_on (record { texts = λ j. none; counts = λ j. 10 })

abbrev login : Request
login = record {
  user_id = none;
  forwarded = single "10.0.0.1, 10.0.0.2";
  ip = none;
  path = "/auth/login";
}

abbrev problems : Request
problems = record { user_id = some "u1"; forwarded = absent; ip = none; path = "/problems" }

refused_iff_example : ((use_request server login busy).0.passed ≡ false) ↔ (
    (is_connected busy ≡ true)
    × (ready busy ≡ true)
    × ((n : ℕ) × ((server.incr (cache_key login) busy.server).0 ≡ ok (pos n))
        × (limit_of login < n)))
refused_iff_example = refused_iff server login busy

abbrev requests : List Request
requests = problems ∷ login ∷ problems ∷ []

problems_apart : (cache_key problems ≡ cache_key login → limit_of login ≡ limit_of problems)
unfolding cache_key get_identifier trim split is_space
problems_apart e =
    let different : (cache_key problems == cache_key login) ≡ false = refl in
    ground (arith, eq_iff (cache_key problems) (cache_key login))

passes-min_example :
    passes server problems requests busy ≡ min (asked problems requests) (limit_of problems - 10)
passes-min_example =
    passes-min server server-IsCounting problems requests busy refl
      ((λ e. refl), (problems_apart, ((λ e. refl), tt)))
