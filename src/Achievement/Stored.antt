-- ===== src/Achievement/Stored.antt =====
-- achievement/achievement.service.ts stores in the database what the statistics of the user's
-- attempts are, with the cache in front of it.
use mathplat.Common.{
  ℕ, String, ◌≡◌, refl, sym, subst, Option, none, some, List, [], ◌∷◌, arith, first, inl, inr, ◌∙◌,
}
use mathplat.Common.Outcome.{ok, Exception, fault, pure}
use mathplat.Common.Triple.{Triple, bind}
use mathplat.Redis.{Redis, Json, IsServing, value}
use mathplat.Prisma.{Prisma, IsStore}
use mathplat.Cache.Reads.{get, decode}
use mathplat.Cache.Writes.{set}
use mathplat.Cache.Coherence.{IsCoherent, get-view, read, set-IsCoherent, get-IsCoherent}
use mathplat.Cache.Keys
use mathplat.Cache.Keys.{user_stats-injective}
use mathplat.Cache.Ttl
use mathplat.World.{UserStats, World, cached}
use mathplat.Achievement.Rows.{stats_of, live_stats_of, find_stats_row}
use mathplat.Achievement.{find_stats, cached_or_stored, or_created}

first-live_stats :
    (u : String) (rs : List UserStats)
    → ((s : UserStats) → first (stats_of u) rs ≡ some s → s.deleted_at ≡ none)
    → first (live_stats_of u) rs ≡ first (stats_of u) rs
first-live_stats u [] alive = refl
first-live_stats u (r ∷ rs) alive = ground (arith, alive r, first-live_stats u rs)

module _ {T : Type 0 → Type 0} {R : Type 0} (prisma : Prisma T) (redis : Redis R)
    (json : Json UserStats) (midnight : ℕ → ℕ) (store : IsStore prisma) (serving : IsServing redis)
    (round_trip : (s : UserStats) (t : String)
      → json.stringify s ≡ ok t
      → json.parse t ≡ value s) where
  open store use {rows}
  open serving use {view}

  abbrev pub row_of : World T R → String → Option UserStats
  row_of w u = first (stats_of u) (rows w.stats)

  -- No statistics are deleted, and what the cache holds of them is what the table holds now.
  pub record IsFresh (w : World T R) : Type 0 where
    pub alive : (u : String) (s : UserStats) → row_of w u ≡ some s → s.deleted_at ≡ none
    pub coherent : IsCoherent redis json serving Keys.user_stats (row_of w) w.cache

  -- The state where this user's row is `s` at the time `n`.
  abbrev pub Holds : String → UserStats → ℕ → World T R → Type 0
  Holds u s n w = IsFresh w × (row_of w u ≡ some s) × (w.now ≡ n)

  -- So it is after an exception, which is the database's.
  abbrev pub Fails : String → UserStats → ℕ → Exception → World T R → Type 0
  Fails u s n e w = Holds u s n w × ((m : String) × (e ≡ fault m))

  -- A hit in the cache is the row.
  abbrev Hit : String → UserStats → ℕ → Option UserStats → World T R → Type 0
  Hit u s n none w = Holds u s n w
  Hit u s n (some r) w = Holds u s n w × (r ≡ s)

  Hit-of_view :
      (u : String) (s : UserStats) (n : ℕ) (w : World T R) (o : Option String)
      → Holds u s n w
      → view w.cache.server (Keys.user_stats u) ≡ o
      → Hit u s n (read json o) w
  Hit-of_view u s n w none h e = h
  Hit-of_view u s n w (some t) h e =
      let (r, now, kept) = h.0.coherent.fresh u t e in
      let same : decode json t ≡ some r = ground (arith, round_trip r t kept) in
      let it : some r ≡ some s = sym now ∙ h.1 in rw same (h, ground (arith, it))

  lookup-Hit :
      (u : String) (s : UserStats) (n : ℕ)
      → Triple
          (Holds u s n)
          (cached {T = T} (get redis json (Keys.user_stats u)))
          (Hit u s n)
          (Fails u s n)
  lookup-Hit u s n = record {
    at = λ w h.
        let c = (get redis json (Keys.user_stats u) w.cache).1 in
        let after : World T R = record w { cache = c } in
        let kept : IsFresh after = record {
          alive = h.0.alive;
          coherent =
              get-IsCoherent redis json serving (row_of w) (Keys.user_stats u) w.cache h.0.coherent;
        } in
        let (found, still, same) =
          get-view redis json serving (Keys.user_stats u) w.cache h.0.coherent.up in
        subst (λ o. Hit u s n o after) (sym found)
          (Hit-of_view u s n after (view w.cache.server (Keys.user_stats u)) (kept, h.1, h.2)
            (rw same));
  }

  search-Holds :
      (u : String) (s : UserStats) (n : ℕ)
      → Triple
          (Holds u s n)
          (find_stats_row {R = R} prisma u)
          (λ o w. Holds u s n w × (o ≡ some s))
          (Fails u s n)
  unfolding find_stats_row
  search-Holds u s n = record {
    at = λ w h. elim (store.find_first_lem (live_stats_of u) w.stats) [
      | inl done ↦ rw (done, first-live_stats u (rows w.stats) (h.0.alive u)) (h, h.1)
      | inr (e, failed) ↦ rw failed (h, (e, refl))
    ];
  }

  pure-Holds :
      (u : String) (s r : UserStats) (n : ℕ)
      → Triple
          (λ w. Holds u s n w × (r ≡ s))
          (pure r)
          (λ q w. Holds u s n w × (q ≡ s))
          (Fails u s n)
  pure-Holds u s r n = record { at = λ w h. h }

  cache-Holds :
      (u : String) (s r : UserStats) (n : ℕ)
      → Triple
          (λ w. Holds u s n w × (r ≡ s))
          (cached {T = T} (set redis json (Keys.user_stats u) r (some Ttl.user_stats)))
          (λ _ w. Holds u s n w × (r ≡ s))
          (Fails u s n)
  cache-Holds u s r n = record {
    at = λ w (h, same). (
      (
        record {
          alive = h.0.alive;
          coherent =
              set-IsCoherent redis json serving user_stats-injective (row_of w) u r
                (some Ttl.user_stats) w.cache (rw same h.1) h.0.coherent;
        },
        h.1,
        h.2,
      ),
      same,
    );
  }

  created-Holds :
      (u : String) (s : UserStats) (o : Option UserStats) (n : ℕ)
      → Triple
          (λ w. Holds u s n w × (o ≡ some s))
          (or_created {R = R} prisma redis json midnight u o)
          (λ r w. Holds u s n w × (r ≡ s))
          (Fails u s n)
  created-Holds u s none n = record { at = λ w (h, e). cc }
  created-Holds u s (some r) n = record { at = λ w (h, e). (h, ground (arith, e)) }

  Hit-Holds :
      (u : String) (s : UserStats) (o : Option UserStats) (n : ℕ)
      → Triple
          (Hit u s n o)
          (cached_or_stored {T = T} prisma redis json midnight u o)
          (λ r w. Holds u s n w × (r ≡ s))
          (Fails u s n)
  Hit-Holds u s (some r) n = pure-Holds u s r n
  Hit-Holds u s none n = bind (search-Holds u s n) λ found.
      bind (created-Holds u s found n) λ r. bind (cache-Holds u s r n) λ _. pure-Holds u s r n

  pub find_stats-Holds :
      (u : String) (s : UserStats) (n : ℕ)
      → Triple
          (Holds u s n)
          (find_stats {T = T} prisma redis json midnight u)
          (λ r w. Holds u s n w × (r ≡ s))
          (Fails u s n)
  unfolding find_stats
  find_stats-Holds u s n = bind (lookup-Hit u s n) λ hit. Hit-Holds u s hit n
