-- ===== src/Cache/Writes.antt =====
-- core/cache/cache.service.ts: the methods that write. A service that is not ready sends nothing.
use mathplat.Common.{ℕ, num_eq, String, if◌then◌else◌, Bool, true, false, Option, List, [], ◌∷◌}
use mathplat.Common.Int.{ℤ, pos}
use mathplat.Common.Outcome.{Outcome, ok, throws, Done}
use mathplat.Redis.{Redis, Json, Write}
use mathplat.Cache.{Cache, Entry, ready, positive}

module _ {R : Type 0} where
  -- The value of a command, or that of its `catch`.
  abbrev settle {ℓ} : {A : Type ℓ} → A → Cache R → Outcome A × R → A × Cache R
  settle d c (ok a, r) = (a, record c { server = r })
  settle d c (throws e, r) = (d, record c { server = r })

  abbrev succeed : Cache R → Outcome Done × R → Bool × Cache R
  succeed c (ok a, r) = (true, record c { server = r })
  succeed c (throws e, r) = (false, record c { server = r })

  abbrev affirm : Cache R → Outcome ℕ × R → Bool × Cache R
  affirm c (ok n, r) = (num_eq n 1, record c { server = r })
  affirm c (throws e, r) = (false, record c { server = r })

module _ {R : Type 0} (redis : Redis R) where
  unfoldable pub del : List String → Cache R → ℕ × Cache R
  del [] c = (0, c)
  del (k ∷ ks) c = if ready c then settle 0 c (redis.del (k ∷ ks) c.server) else (0, c)

  unfoldable pub expire : String → ℕ → Cache R → Bool × Cache R
  expire key seconds c =
      if ready c then affirm c (redis.expire key seconds c.server) else (false, c)

  unfoldable pub incr : String → Cache R → ℤ × Cache R
  incr key c = if ready c then settle (pos 0) c (redis.incr key c.server) else (pos 0, c)

  unfoldable pub decr : String → Cache R → ℤ × Cache R
  decr key c = if ready c then settle (pos 0) c (redis.decr key c.server) else (pos 0, c)

  abbrev flushed : Cache R → Outcome Done × R → Cache R
  flushed c (ok a, r) = record c { stats = record c.stats { keys = 0 }; server = r }
  flushed c (throws e, r) = record c { server = r }

  unfoldable pub clear : Cache R → Cache R
  clear c = if ready c then flushed c (redis.flushdb c.server) else c

module _ {R V : Type 0} (redis : Redis R) (json : Json V) where
  abbrev send : String → Option ℕ → Outcome String → Cache R → Bool × Cache R
  send key ttl (ok s) c =
      succeed c (redis.set (record { key = key; text = s; ttl = positive ttl }) c.server)
  send key ttl (throws e) c = (false, c)

  unfoldable pub set : String → V → Option ℕ → Cache R → Bool × Cache R
  set key value ttl c = if ready c then send key ttl (json.stringify value) c else (false, c)

  -- The loop of `mset` fills the pipeline; a value that `JSON.stringify` refuses ends it.
  abbrev queue : Write → Outcome (List Write) → Outcome (List Write)
  queue w (ok ws) = ok (w ∷ ws)
  queue w (throws e) = throws e

  abbrev serialize : Entry V → Outcome String → Outcome Write
  serialize entry (ok s) = ok (record { key = entry.key; text = s; ttl = positive entry.ttl })
  serialize entry (throws e) = throws e

  unfoldable pub pipeline : List (Entry V) → Outcome (List Write)
  pipeline [] = ok []
  pipeline (entry ∷ entries) = elim (serialize entry (json.stringify entry.value)) [
    | ok w ↦ queue w (pipeline entries)
    | throws e ↦ throws e
  ]

  abbrev execute : Outcome (List Write) → Cache R → Bool × Cache R
  execute (ok ws) c = succeed c (redis.exec ws c.server)
  execute (throws e) c = (false, c)

  unfoldable pub mset : List (Entry V) → Cache R → Bool × Cache R
  unfolding pipeline
  mset [] c = (false, c)
  mset (entry ∷ entries) c = if ready c then execute (pipeline (entry ∷ entries)) c else (false, c)
