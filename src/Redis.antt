-- ===== src/Redis.antt =====
-- The client of Redis (ioredis), which the repository does not hold: the commands that
-- core/cache/cache.service.ts sends, as a parameter over the state `R` of the server and of the
-- connection. Any command may throw. Reads leave the server as it is.
use mathplat.Common.{
  ℕ, ◌+◌, String, ◌≡◌, Option, none, some, List, [], ◌∷◌, map, ◌==◌, if◌then◌else◌,
}
use mathplat.Common.Int.{ℤ, pos}
use mathplat.Common.Outcome.{Outcome, ok, Done}
use mathplat.Common.StrSet

-- A node of the cluster; a port that is no number is `NaN`, here `none`.
pub record Node : Type 0 where
  pub host : String
  pub port : Option ℤ

-- A key, its text, and the seconds that it lives (`EX`), if it expires.
pub record Write : Type 0 where
  pub key : String
  pub text : String
  pub ttl : Option ℕ

pub record Redis (R : Type 0) : Type 0 where
  pub create : String → ℕ → Option String → R → Outcome Done × R
  pub create_cluster : List Node → Option String → R → Outcome Done × R
  pub connect : R → Outcome Done × R
  pub quit : R → Outcome Done × R
  pub get : String → R → Outcome (Option String)
  pub set : Write → R → Outcome Done × R
  pub del : List String → R → Outcome ℕ × R
  pub exists : String → R → Outcome ℕ
  pub expire : String → ℕ → R → Outcome ℕ × R
  pub ttl : String → R → Outcome ℤ
  pub keys : String → R → Outcome (List String)
  pub incr : String → R → Outcome ℤ × R
  pub decr : String → R → Outcome ℤ × R
  pub mget : List String → R → Outcome (List (Option String))
  pub exec : List Write → R → Outcome Done × R
  pub flushdb : R → Outcome Done × R
  pub ping : R → Outcome String

-- What `JSON.parse` makes of a text: a value, `null`, or an exception.
pub data Parsed (V : Type 0) : Type 0 where
  value : V → Parsed V
  null : Parsed V
  refused : Parsed V

-- `JSON.stringify` and `JSON.parse` at the type of the values that a caller caches; `text s` is the
-- string `s` taken for such a value, which is never `null`. `JSON.stringify` may throw.
pub record Json (V : Type 0) : Type 0 where
  pub stringify : V → Outcome String
  pub parse : String → Parsed V
  pub text : String → V

-- What stands at a key after a list of writes, the last of which holds.
abbrev pub written : List Write → Option String → String → Option String
written [] o j = o
written (w ∷ ws) o j = written ws (if w.key == j then some w.text else o) j

-- How many of the keys asked for stand, for one key.
abbrev pub one_if_there : Option String → ℕ
one_if_there none = 0
one_if_there (some s) = 1

-- What Redis documents of a server that answers every command: the contents, by key, that the
-- commands read and write. Keys that expire between two commands are left out.
pub record IsServing {R : Type 0} (redis : Redis R) : Type 0 where
  pub view : R → String → Option String
  pub get_lem : (k : String) (r : R) → redis.get k r ≡ ok (view r k)
  pub exists_lem : (k : String) (r : R) → redis.exists k r ≡ ok (one_if_there (view r k))
  pub set_ok : (w : Write) (r : R) → (redis.set w r).0 ≡ ok tt
  pub set_view :
      (w : Write) (r : R) (j : String)
      → view (redis.set w r).1 j ≡ (if w.key == j then some w.text else view r j)
  pub del_view :
      (ks : List String) (r : R) (j : String)
      → view (redis.del ks r).1 j ≡ (if StrSet.has j ks then none else view r j)
  pub exec_view :
      (ws : List Write) (r : R) (j : String) → view (redis.exec ws r).1 j ≡ written ws (view r j) j
  pub exec_ok : (ws : List Write) (r : R) → (redis.exec ws r).0 ≡ ok tt
  pub mget_lem : (ks : List String) (r : R) → redis.mget ks r ≡ ok (map (view r) ks)

-- What Redis documents of counters on a server that answers, within one window: `INCR` adds one to
-- its key, from nothing if the key is new, and setting the time to live changes no count. A key that
-- expires starts a new window, which is another run.
pub record IsCounting {R : Type 0} (redis : Redis R) : Type 0 where
  pub counter : R → String → ℕ
  pub incr_ok : (k : String) (r : R) → (redis.incr k r).0 ≡ ok (pos (counter r k + 1))
  pub incr_counter :
      (k : String) (r : R) (j : String)
      → counter (redis.incr k r).1 j ≡ (if k == j then counter r k + 1 else counter r j)
  pub expire_counter :
      (k : String) (s : ℕ) (r : R) (j : String) → counter (redis.expire k s r).1 j ≡ counter r j
