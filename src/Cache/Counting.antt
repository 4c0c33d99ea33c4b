-- ===== src/Cache/Counting.antt =====
-- What the counters of core/cache/cache.service.ts count, and that `mget` is `get` in turn.
use mathplat.Common.{
  subst, sym, ◌+◌, ◌≡◌, refl, String, true, false, Option, List, [], ◌∷◌, map, arith, ◌∙◌, ap, some,
  none, ◌⊎◌, inl, inr, Bool-cases, Option-cases,
}
use mathplat.Common.Outcome.{Exception, ok, throws, Outcome-cases}
use mathplat.Redis.{Parsed, value, null, refused, Redis, Json, IsServing}
use mathplat.Cache.{Cache, ready}
use mathplat.Cache.Reads.{decode, get, mget, receive, receive_all}

module _ {R V : Type 0} (redis : Redis R) (json : Json V) where
  -- What `JSON.parse` makes of a text, `null` included, or the text where that throws.
  abbrev pub IsRead : String → Option V → Type 0
  IsRead s o =
      ((v : V) × (json.parse s ≡ value v) × (o ≡ some v))
      ⊎ (json.parse s ≡ null) × (o ≡ none)
      ⊎ (json.parse s ≡ refused) × (o ≡ some (json.text s))

  parsed_lem : (s : String) (x : Parsed V) → json.parse s ≡ x → IsRead s (decode json s)
  parsed_lem s (value v) e = inl (v, e, rw e refl)
  parsed_lem s null e = inr (inl (e, rw e refl))
  parsed_lem s refused e = inr (inr (e, rw e refl))

  -- A text that Redis gives, and what is returned for it.
  abbrev pub Found : String → Cache R → Type 0
  Found k c =
      (s : String) × (ready c ≡ true)
      × (redis.get k c.server ≡ ok (some s))
      × IsRead s (get redis json k c).0

  -- Redis is away, has no such key, or throws.
  abbrev pub Missed : String → Cache R → Type 0
  Missed k c =
      ((get redis json k c).0 ≡ none)
      × ((ready c ≡ false)
          ⊎ (redis.get k c.server ≡ ok none)
          ⊎ ((e : Exception) × (redis.get k c.server ≡ throws e)))

  -- Every `get` counts exactly one lookup. It counts a hit exactly when Redis is there and gives a
  -- text, and returns what `JSON.parse` makes of it, `null` included, or the text itself; it counts
  -- a miss, and returns null, when Redis is away, has no such key or throws. It changes nothing but
  -- the counters.
  pub get_counts :
      (k : String) (c : Cache R)
      → (((get redis json k c).1.stats.hits ≡ c.stats.hits + 1)
            × ((get redis json k c).1.stats.misses ≡ c.stats.misses)
            × Found k c
          ⊎ ((get redis json k c).1.stats.hits ≡ c.stats.hits)
            × ((get redis json k c).1.stats.misses ≡ c.stats.misses + 1)
            × Missed k c)
        × ((get redis json k c).1.server ≡ c.server)
        × (ready (get redis json k c).1 ≡ ready c)
  unfolding get
  get_counts k c = elim (Bool-cases (ready c)) [
    | inr away ↦
        (inr (ground arith, ground arith, (ground arith, inl away)), ground arith, ground arith)
    | inl up ↦ elim (Outcome-cases (redis.get k c.server)) [
      | inr (e, failed) ↦ (
        inr (ground arith, ground arith, (ground arith, inr (inr (e, failed)))),
        ground arith,
        ground arith,
      )
      | inl (o, done) ↦ elim (Option-cases o) [
        | inl gone ↦
            let missing : redis.get k c.server ≡ ok none = rw done (ap ok gone) in
            (
              inr (ground arith, ground arith, (ground arith, inr (inl missing))),
              ground arith,
              ground arith,
            )
        | inr (s, there) ↦
            let found : redis.get k c.server ≡ ok (some s) = rw done (ap ok there) in
            let returned : (get redis json k c).0 ≡ decode json s = ground arith in
            (
              inl (
                ground arith,
                ground arith,
                (s, up, found, subst (IsRead s) (sym returned) (parsed_lem s (json.parse s) refl)),
              ),
              ground arith,
              ground arith,
            )
      ]
    ]
  ]

  -- The same keys asked for one at a time, from left to right.
  abbrev pub get_each : List String → Cache R → List (Option V) × Cache R
  get_each [] c = ([], c)
  get_each (k ∷ ks) c = (
    (get redis json k c).0 ∷ (get_each ks (get redis json k c).1).0,
    (get_each ks (get redis json k c).1).1,
  )

  module _ (serving : IsServing redis) where
    open serving use {view, get_lem, mget_lem}

    get-receive :
        (k : String) (c : Cache R)
        → ready c ≡ true
        → get redis json k c ≡ receive json (view c.server k) c
    unfolding get
    get-receive k c up = rw (up, get_lem k c.server)

    receive-keeps :
        (o : Option String) (c : Cache R)
        → (ready (receive json o c).1 ≡ ready c) × ((receive json o c).1.server ≡ c.server)
    unfolding receive
    receive-keeps o c = ground arith

    receive_all-get_each :
        (ks : List String) (f : String → Option String) (c : Cache R)
        → ready c ≡ true
        → view c.server ≡ f
        → receive_all json (map f ks) c ≡ get_each ks c
    unfolding receive_all
    receive_all-get_each [] f c up e = refl
    receive_all-get_each (k ∷ ks) f c up e =
        let (alive, same) = receive-keeps (f k) c in
        rw (get-receive k c up, e)
          (rw (receive_all-get_each ks f (receive json (f k) c).1 (alive ∙ up) (ap view same ∙ e)))

    -- With a server that answers, `mget` returns and counts what `get` of each key in turn would.
    pub mget-get_each :
        (ks : List String) (c : Cache R) → ready c ≡ true → mget redis json ks c ≡ get_each ks c
    unfolding mget
    mget-get_each [] c up = refl
    mget-get_each (k ∷ ks) c up =
        rw (up, mget_lem (k ∷ ks) c.server)
          (receive_all-get_each (k ∷ ks) (view c.server) c up refl)
