-- ===== src/Cache/Contents.antt =====
-- Writing and reading back through core/cache/cache.service.ts, over a server that answers.
use mathplat.Common.{
  ℕ, ◌≡◌, refl, String, true, Option, none, some, List, [], ◌∷◌, arith, if◌then◌else◌, ◌==◌,
}
use mathplat.Common.Outcome.{ok}
use mathplat.Common.StrSet
use mathplat.Redis.{Redis, Json, IsServing, Write}
use mathplat.Cache.{Cache, ready, positive}
use mathplat.Cache.Reads.{get}
use mathplat.Cache.Coherence.{get-view}
use mathplat.Cache.Writes.{set, del}
use mathplat.Redis.{value}

module _ {R V : Type 0} (redis : Redis R) (json : Json V) (serving : IsServing redis) where
  open serving use {view, get_lem, set_ok, set_view, del_view, exec_ok, exec_view}

  -- With a server that answers: a value that `JSON.stringify` takes and `JSON.parse` gives back is set,
  -- and is what its key then reads as; what other keys read as stays.
  pub get-set :
      (k j : String) (v : V) (ttl : Option ℕ) (s : String) (c : Cache R)
      → ready c ≡ true
      → json.stringify v ≡ ok s
      → json.parse s ≡ value v
      → ((set redis json k v ttl c).0 ≡ true)
        × ((get redis json j (set redis json k v ttl c).1).0
            ≡ (if k == j then some v else (get redis json j c).0))
  unfolding set
  get-set k j v ttl s c up kept back =
      let w : Write = record { key = k; text = s; ttl = positive ttl } in
      ground (
        arith,
        set_ok w c.server,
        set_view w c.server j,
        get-view redis json serving j c,
        get-view redis json serving j (set redis json k v ttl c).1,
      )

  -- With a server that answers, deleted keys read as missing, and other keys as before.
  pub get-del :
      (ks : List String) (j : String) (c : Cache R)
      → ready c ≡ true
      → (get redis json j (del redis ks c).1).0
        ≡ (if StrSet.has j ks then none else (get redis json j c).0)
  unfolding del StrSet.has
  get-del [] j c up = refl
  get-del (k ∷ ks) j c up = ground (
    arith,
    del_view (k ∷ ks) c.server j,
    get-view redis json serving j c,
    get-view redis json serving j (del redis (k ∷ ks) c).1,
  )
