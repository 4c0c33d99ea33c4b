-- ===== src/Cache/Coherence.antt =====
-- When a cache holds nothing stale: what stands at an entity's key is the JSON text of the entity that
-- the database has now. One definition for every service that caches the rows of a table.
use mathplat.Common.{
  ℕ, String, ◌≡◌, ◌≢◌, refl, if◌then◌else◌, true, false, Option, none, some, List, [], ◌∷◌, arith,
  ◌==◌, eq_iff, inl, inr, Bool-cases, ap, eq_refl,
}
use mathplat.Common.Outcome.{ok, throws, Exception, Outcome-cases}
use mathplat.Common.StrSet
use mathplat.Redis.{Redis, Json, IsServing, Write}
use mathplat.Cache.{Cache, ready, positive}
use mathplat.Cache.Reads.{get, decode}
use mathplat.Cache.Writes.{set, del}

-- A cached text as the value that `get` makes of it.
abbrev pub read : {V : Type 0} → Json V → Option String → Option V
read json none = none
read json (some s) = decode json s

module _ {R V : Type 0} (redis : Redis R) (json : Json V) (serving : IsServing redis) where
  open serving use {view, get_lem, set_ok, set_view, del_view}

  set_refused :
      (k : String) (v : V) (ttl : Option ℕ) (e : Exception) (c : Cache R)
      → json.stringify v ≡ throws e
      → (set redis json k v ttl c).1 ≡ c
  unfolding set
  set_refused k v ttl e c h = ground arith

  pub set-view :
      (k : String) (v : V) (ttl : Option ℕ) (s : String) (c : Cache R)
      → ready c ≡ true
      → json.stringify v ≡ ok s
      → (ready (set redis json k v ttl c).1 ≡ true)
        × ((j : String)
            → view (set redis json k v ttl c).1.server j
              ≡ (if k == j then some s else view c.server j))
  unfolding set
  set-view k v ttl s c up kept =
      let w : Write = record { key = k; text = s; ttl = positive ttl } in
      (
        ground (arith, set_ok w c.server),
        λ j. ground (arith, set_ok w c.server, set_view w c.server j),
      )

  pub del-view :
      (ks : List String) (c : Cache R)
      → ready c ≡ true
      → (ready (del redis ks c).1 ≡ true)
        × ((j : String)
            → view (del redis ks c).1.server j
              ≡ (if StrSet.has j ks then none else view c.server j))
  unfolding del StrSet.has
  del-view [] c up = (up, λ j. refl)
  del-view (k ∷ ks) c up = (ground arith, λ j. ground (arith, del_view (k ∷ ks) c.server j))

  -- What `get` gives, and that it leaves the server and the connection.
  pub get-view :
      (k : String) (c : Cache R)
      → ready c ≡ true
      → ((get redis json k c).0 ≡ read json (view c.server k))
        × (ready (get redis json k c).1 ≡ true)
        × ((get redis json k c).1.server ≡ c.server)
  unfolding get
  get-view k c up = ground (arith, get_lem k c.server)

  -- The service is ready, and each key that holds a text holds that of the present value.
  pub record IsCoherent (key : String → String) (current : String → Option V) (c : Cache R)
      : Type 0 where
    pub up : ready c ≡ true
    pub fresh :
        (k s : String)
        → view c.server (key k) ≡ some s
        → (v : V) × (current k ≡ some v) × (json.stringify v ≡ ok s)

  module _ {key : String → String} (key_injective : (j k : String) → key j ≡ key k → j ≡ k) where
    -- Caching the present value.
    pub set-IsCoherent :
        (current : String → Option V) (k : String) (v : V) (ttl : Option ℕ) (c : Cache R)
        → current k ≡ some v
        → IsCoherent key current c
        → IsCoherent key current (set redis json (key k) v ttl c).1
    set-IsCoherent current k v ttl c now inv = elim (Outcome-cases (json.stringify v)) [
      | inl (s, kept) ↦
          let (still, views) = set-view (key k) v ttl s c inv.up kept in
          record {
            up = still;
            fresh = λ j t e. elim (Bool-cases (key k == key j)) [
              | inl same ↦
                  let it : k ≡ j = key_injective k j ((eq_iff (key k) (key j)).0 same) in
                  (v, rw (← it) now, ground (arith, views (key j)))
              | inr other ↦ inv.fresh j t (ground (arith, views (key j)))
            ];
          }
      | inr (e, refused) ↦ rw (set_refused (key k) v ttl e c refused) inv
    ]

    -- Dropping the key of an entity that has changed, while the others have not.
    pub del-IsCoherent :
        (before after : String → Option V) (k : String) (c : Cache R)
        → ((j : String) → k ≢ j → after j ≡ before j)
        → IsCoherent key before c
        → IsCoherent key after (del redis (key k ∷ []) c).1
    unfolding StrSet.has
    del-IsCoherent before after k c others inv =
        let (still, views) = del-view (key k ∷ []) c inv.up in
        record {
          up = still;
          fresh = λ j t e.
              let apart : (key k == key j) ≡ false = ground (arith, views (key j)) in
              let ne : k ≢ j = λ same. cc (ap (λ i. key k == key i) same, eq_refl (key k)) in
              rw (others j ne) (inv.fresh j t (ground (arith, views (key j))));
        }

    -- Dropping any other keys.
    pub del_more-IsCoherent :
        (current : String → Option V) (ks : List String) (c : Cache R)
        → IsCoherent key current c
        → IsCoherent key current (del redis ks c).1
    del_more-IsCoherent current ks c inv =
        let (still, views) = del-view ks c inv.up in
        record { up = still; fresh = λ j t e. inv.fresh j t (ground (arith, views (key j))) }

  -- A lookup, and new entities beside the old ones, keep the cache coherent.
  pub get-IsCoherent :
      {key : String → String} (current : String → Option V) (k : String) (c : Cache R)
      → IsCoherent key current c
      → IsCoherent key current (get redis json k c).1
  get-IsCoherent {key} current k c inv =
      let (value, still, same) = get-view k c inv.up in
      record { up = still; fresh = λ j t e. inv.fresh j t (rw same at e) }

  pub more-IsCoherent :
      {key : String → String} (before after : String → Option V) (c : Cache R)
      → ((j : String) (v : V) → before j ≡ some v → after j ≡ some v)
      → IsCoherent key before c
      → IsCoherent key after c
  more-IsCoherent before after c more inv = record {
    up = inv.up;
    fresh = λ j t e. let (v, now, kept) = inv.fresh j t e in (v, more j v now, kept);
  }
