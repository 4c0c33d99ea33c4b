-- ===== src/Cache/Reads.antt =====
-- core/cache/cache.service.ts: the methods that read. A service that is not ready, and a command
-- that throws, give the value that the source names.
use mathplat.Common.{
  ℕ, num_eq, String, if◌then◌else◌, Bool, false, Option, none, some, List, [], ◌∷◌, map, ◌==◌,
}
use mathplat.Common.Int.{ℤ, negsuc}
use mathplat.Common.Outcome.{Outcome, ok, throws}
use mathplat.Redis.{Redis, Json, Parsed, value, null, refused}
use mathplat.Cache.{Cache, ready, hit, miss}

abbrev all_null {ℓ} : {V : Type ℓ} → List String → List (Option V)
all_null ks = map (λ _. none) ks

module _ {V : Type 0} (json : Json V) where
  abbrev parsed_or : V → Parsed V → Option V
  parsed_or text (value v) = some v
  parsed_or text null = none
  parsed_or text refused = some text

  -- `JSON.parse(value)`, which may be `null`, or the text itself where that throws.
  abbrev pub decode : String → Option V
  decode s = parsed_or (json.text s) (json.parse s)

module _ {R V : Type 0} (json : Json V) where
  -- One reply of Redis: counted as a hit or a miss, and decoded.
  unfoldable pub receive : Option String → Cache R → Option V × Cache R
  receive none c = (none, miss c)
  receive (some s) c = (decode json s, hit c)

  -- The callback of `values.map` in `mget`, over the values from left to right.
  unfoldable pub receive_all : List (Option String) → Cache R → List (Option V) × Cache R
  unfolding receive
  receive_all [] c = ([], c)
  receive_all (o ∷ os) c =
      let (v, c') = receive o c in let (vs, c'') = receive_all os c' in (v ∷ vs, c'')

module _ {R V : Type 0} (redis : Redis R) (json : Json V) where
  abbrev got : Outcome (Option String) → Cache R → Option V × Cache R
  got (ok o) c = receive json o c
  got (throws e) c = (none, miss c)

  unfoldable pub get : String → Cache R → Option V × Cache R
  unfolding receive
  get key c = if ready c then got (redis.get key c.server) c else (none, miss c)

  abbrev got_all :
      List String → Outcome (List (Option String)) → Cache R → List (Option V) × Cache R
  got_all ks (ok os) c = receive_all json os c
  got_all ks (throws e) c = (all_null ks, c)

  -- With no keys, or when not ready, nothing is asked and nothing is counted.
  unfoldable pub mget : List String → Cache R → List (Option V) × Cache R
  unfolding receive_all
  mget [] c = ([], c)
  mget (k ∷ ks) c =
      if ready c then got_all (k ∷ ks) (redis.mget (k ∷ ks) c.server) c else (all_null (k ∷ ks), c)

module _ {R : Type 0} (redis : Redis R) where
  abbrev is_one : Outcome ℕ → Bool
  is_one (ok n) = num_eq n 1
  is_one (throws e) = false

  unfoldable pub exists : String → Cache R → Bool
  exists key c = if ready c then is_one (redis.exists key c.server) else false

  abbrev or_absent : Outcome ℤ → ℤ
  or_absent (ok n) = n
  or_absent (throws e) = negsuc 1

  unfoldable pub ttl : String → Cache R → ℤ
  ttl key c = if ready c then or_absent (redis.ttl key c.server) else negsuc 1

  abbrev or_no_keys : Outcome (List String) → List String
  or_no_keys (ok ks) = ks
  or_no_keys (throws e) = []

  unfoldable pub keys : String → Cache R → List String
  keys pattern c = if ready c then or_no_keys (redis.keys pattern c.server) else []

  abbrev is_pong : Outcome String → Bool
  is_pong (ok s) = s == "PONG"
  is_pong (throws e) = false

  unfoldable pub is_healthy : Cache R → Bool
  is_healthy c = if ready c then is_pong (redis.ping c.server) else false
