-- ===== src/Achievement/Refined.antt =====
-- achievement/achievement.service.ts implements the statistics of Achievement/Streak.antt.
use mathplat.Common.{
  ℕ, String, ◌≡◌, ◌≢◌, refl, sym, subst, Bool, if◌then◌else◌, Option, none, some, List, [], ◌∷◌,
  arith, ◌==◌, eq_iff, eq_refl, first, inl, inr, Bool-cases,
}
use mathplat.Common.Outcome.{ok, Exception, pure}
use mathplat.Common.Triple.{Triple, Post, bind}
use mathplat.Redis.{Redis, Json, IsServing, value}
use mathplat.Prisma.{Prisma, IsStore, change}
use mathplat.Prisma.Tables.{first-change, first-change_apart}
use mathplat.Cache.Writes.{del}
use mathplat.Cache.Coherence.{IsCoherent, del-IsCoherent}
use mathplat.Cache.Keys
use mathplat.Cache.Keys.{user_stats-injective}
use mathplat.World.{UserStats, World, cached}
use mathplat.Achievement.Rows.{StatsData, stats_of, with_data, new_stats, upsert_stats}
use mathplat.Achievement.{store_attempt, update_stats_after_attempt, after_attempt}
use mathplat.Achievement.Streak.{attempted}
use mathplat.Achievement.Stored.{row_of, Holds, Fails, find_stats-Holds}

module _ {T : Type 0 → Type 0} {R : Type 0} (prisma : Prisma T) (redis : Redis R)
    (json : Json UserStats) (midnight : ℕ → ℕ) (store : IsStore prisma) (serving : IsServing redis)
    (round_trip : (s : UserStats) (t : String)
      → json.stringify s ≡ ok t
      → json.parse t ≡ value s) where
  open store use {rows}
  open serving use {view}

  abbrev at_row : World T R → String → Option UserStats
  at_row w u = row_of prisma redis json midnight store serving round_trip w u

  abbrev Holding : String → UserStats → ℕ → World T R → Type 0
  Holding = Holds prisma redis json midnight store serving round_trip

  abbrev Failing : String → UserStats → ℕ → Exception → World T R → Type 0
  Failing = Fails prisma redis json midnight store serving round_trip

  -- The table has the new row, the cache may have the old one.
  record IsStale (u : String) (s : UserStats) (n : ℕ) (w : World T R) : Type 0 where
    alive : (v : String) (r : UserStats) → at_row w v ≡ some r → r.deleted_at ≡ none
    row : at_row w u ≡ some s
    time : w.now ≡ n
    before : String → Option UserStats
    others : (v : String) → u ≢ v → at_row w v ≡ before v
    coherent : IsCoherent redis json serving Keys.user_stats before w.cache

  changed-row :
      (u v : String) (d : StatsData) (s : UserStats) (n : ℕ) (rs : List UserStats)
      → first (stats_of u) rs ≡ some s
      → first (stats_of v) (change (stats_of u) (with_data d n) rs)
        ≡ (if u == v then some (with_data d n s) else first (stats_of v) rs)
  unfolding with_data
  changed-row u v d s n rs here = elim (Bool-cases (u == v)) [
    | inl same ↦
        let it : u ≡ v = (eq_iff u v).0 same in
        rw (same, ← it) (first-change (stats_of u) (with_data d n) s rs (λ r h. h) here)
    | inr apart ↦ rw apart (
        first-change_apart (stats_of u) (with_data d n) (stats_of v) rs
          (λ r h. ground (arith, eq_iff r.user_id u, eq_iff u v, eq_iff r.user_id v)))
  ]

  with_data-deleted :
      (d : StatsData) (n : ℕ) (s : UserStats) → (with_data d n s).deleted_at ≡ s.deleted_at
  unfolding with_data
  with_data-deleted d n s = refl

  upsert_stats-Stale :
      (u : String) (s : UserStats) (d : StatsData) (n : ℕ) (w : World T R)
      → Holding u s n w
      → Post
          (λ _ v. IsStale u (with_data d n s) n v)
          (Failing u s n)
          (upsert_stats {R = R} prisma u d w).0
          (upsert_stats {R = R} prisma u d w).1
  unfolding upsert_stats
  upsert_stats-Stale u s d n w (fresh, here, time) =
      elim (store.upsert_lem (stats_of u) (with_data d w.now) (new_stats u d w.now) w.stats) [
        | inl (r, found, done, changed) ↦
            let rewritten : (v : String)
                → first (stats_of v) (
                    rows
                      (prisma.upsert (stats_of u) (with_data d w.now) (new_stats u d w.now)
                        w.stats).1)
                  ≡ (if u == v then some (with_data d n s) else at_row w v) =
              λ v. rw (changed, time) (changed-row u v d s n (rows w.stats) here) in
            rw done (record {
              alive = λ v q e.
                  ground
                    (arith, rewritten v, fresh.alive v q, fresh.alive u s, with_data-deleted d n s);
              row = ground (arith, rewritten u, eq_refl u);
              time = time;
              before = at_row w;
              others = λ v ne. ground (arith, rewritten v, eq_iff u v);
              coherent = fresh.coherent;
            })
        | inr (inl (id, missing, done, grown)) ↦ absurd (ground (arith, here, missing))
        | inr (inr (e, failed, same)) ↦ rw failed (
          (
            record {
              alive = rw same fresh.alive;
              coherent =
                  subst
                    (λ rs.
                      IsCoherent redis json serving Keys.user_stats (λ v. first (stats_of v) rs)
                        w.cache)
                    (sym same) fresh.coherent;
            },
            rw same here,
            time,
          ),
          (e, refl),
        )
      ]

  store_attempt-Stale :
      (u : String) (s r : UserStats) (correct : Option Bool) (taken n : ℕ)
      → Triple
          (λ w. Holding u s n w × (r ≡ s))
          (store_attempt {T = T} prisma redis json midnight u r correct taken)
          (λ _ w.
            IsStale u
              (attempted midnight s (record { correct = correct; taken = taken; at = n }))
              n
              w)
          (Failing u s n)
  store_attempt-Stale u s r correct taken n = record {
    at = λ w (h, same).
        let result : after_attempt midnight s correct taken n
            ≡ after_attempt midnight r correct taken w.now =
          rw (same, h.2) refl in
        let after : UserStats =
          attempted midnight s (record { correct = correct; taken = taken; at = n }) in
        subst
          (λ d.
            Post (λ _ v. IsStale u after n v) (Failing u s n) (upsert_stats {R = R} prisma u d w).0
              (upsert_stats {R = R} prisma u d w).1)
          result (upsert_stats-Stale u s (after_attempt midnight s correct taken n) n w h);
  }

  forget-Holds :
      (u : String) (s r : UserStats) (n : ℕ)
      → Triple
          (IsStale u r n)
          (cached {T = T} (del redis (Keys.user_stats u ∷ [])))
          (λ _ w. Holding u r n w)
          (Failing u s n)
  forget-Holds u s r n = record {
    at = λ w h. (
      record {
        alive = h.alive;
        coherent =
            del-IsCoherent redis json serving user_stats-injective h.before (at_row w) u w.cache
              h.others h.coherent;
      },
      h.row,
      h.time,
    );
  }

  done-Holds :
      (u : String) (s r : UserStats) (n : ℕ)
      → Triple (Holding u r n) (pure tt) (λ _ w. Holding u r n w) (Failing u s n)
  done-Holds u s r n = record { at = λ w h. h }

  -- One attempt: the row becomes what the attempt makes of it, or the database throws and it stays.
  pub update_stats-Holds :
      (u : String) (s : UserStats) (correct : Option Bool) (taken n : ℕ)
      → Triple
          (Holding u s n)
          (update_stats_after_attempt {T = T} prisma redis json midnight u correct taken)
          (λ _ w.
            Holding u
              (attempted midnight s (record { correct = correct; taken = taken; at = n }))
              n
              w)
          (Failing u s n)
  unfolding update_stats_after_attempt
  update_stats-Holds u s correct taken n =
      let r : UserStats =
        attempted midnight s (record { correct = correct; taken = taken; at = n }) in
      bind (find_stats-Holds prisma redis json midnight store serving round_trip u s n) λ found.
        bind (store_attempt-Stale u s found correct taken n)
          λ _. bind (forget-Holds u s r n) λ _. done-Holds u s r n
