-- ===== src/Achievement/Frame.antt =====
-- What the statistics of achievement/achievement.service.ts leave alone: all but the table of the
-- statistics and the cache.
use mathplat.Common.{ℕ, zero, suc, String, Bool, Option, none, some, [], ◌∷◌}
use mathplat.Common.Triple.{Keeps, Keeps-pure, Keeps-step, bind}
use mathplat.Redis.{Redis, Json}
use mathplat.Prisma.{Prisma}
use mathplat.Cache.{Cache}
use mathplat.Cache.Reads.{get}
use mathplat.Cache.Writes.{set, del}
use mathplat.Cache.Keys
use mathplat.Cache.Ttl
use mathplat.World.{UserStats, World, cached}
use mathplat.Achievement.Rows.{StatsData, find_stats_row, upsert_stats}
use mathplat.Achievement.{
  first_stats, rewarded, find_stats, cached_or_stored, or_created, store_attempt,
  update_stats_after_attempt, reward, reward_found,
}

module _ {T : Type 0 → Type 0} {R : Type 0} (prisma : Prisma T) (redis : Redis R)
    (P : World T R → Type 0)
    (stable : (w : World T R) (t : T UserStats) (c : Cache R)
      → P w
      → P (record w { stats = t; cache = c })) where
  pub drop-Kept : (k : String) → Keeps P (cached {T = T} (del redis (k ∷ [])))
  drop-Kept k = record { at = λ w h. stable w w.stats _ h }

  module _ (json : Json UserStats) (midnight : ℕ → ℕ) (user : String) where
    lookup-Kept : (k : String) → Keeps P (cached {T = T} (get redis json k))
    lookup-Kept k = record { at = λ w h. stable w w.stats _ h }

    keep-Kept :
        (k : String) (s : UserStats) (n : Option ℕ)
        → Keeps P (cached {T = T} (set redis json k s n))
    keep-Kept k s n = record { at = λ w h. stable w w.stats _ h }

    find_row-Kept : Keeps P (find_stats_row {R = R} prisma user)
    unfolding find_stats_row
    find_row-Kept = Keeps-step (λ w h. h)

    upsert_stats-Kept : (d : StatsData) → Keeps P (upsert_stats {R = R} prisma user d)
    unfolding upsert_stats
    upsert_stats-Kept d = Keeps-step (λ w h. stable w _ w.cache h)

    or_created-Kept :
        (o : Option UserStats) → Keeps P (or_created {R = R} prisma redis json midnight user o)
    or_created-Kept none = upsert_stats-Kept first_stats
    or_created-Kept (some s) = Keeps-pure s

    stored-Kept :
        (o : Option UserStats)
        → Keeps P (cached_or_stored {T = T} prisma redis json midnight user o)
    stored-Kept (some s) = Keeps-pure s
    stored-Kept none = bind find_row-Kept λ found.
        bind (or_created-Kept found)
          λ s. bind (keep-Kept (Keys.user_stats user) s (some Ttl.user_stats)) λ b. Keeps-pure s

    pub find_stats-Kept : Keeps P (find_stats {T = T} prisma redis json midnight user)
    unfolding find_stats
    find_stats-Kept = bind (lookup-Kept (Keys.user_stats user)) λ hit. stored-Kept hit

    store_attempt-Kept :
        (s : UserStats) (correct : Option Bool) (taken : ℕ)
        → Keeps P (store_attempt {T = T} prisma redis json midnight user s correct taken)
    unfolding upsert_stats
    store_attempt-Kept s correct taken = Keeps-step (λ w h. stable w _ w.cache h)

    pub update_stats_after_attempt-Kept :
        (correct : Option Bool) (taken : ℕ)
        → Keeps P (update_stats_after_attempt {T = T} prisma redis json midnight user correct taken)
    unfolding update_stats_after_attempt
    update_stats_after_attempt-Kept correct taken = bind find_stats-Kept λ s.
        bind (store_attempt-Kept s correct taken)
          λ r. bind (drop-Kept (Keys.user_stats user)) λ n. Keeps-pure tt

    reward_found-Kept :
        (n : ℕ) (o : Option UserStats)
        → Keeps P (reward_found {R = R} prisma redis json midnight user n o)
    reward_found-Kept n none = Keeps-pure tt
    reward_found-Kept n (some s) = bind (upsert_stats-Kept (rewarded n s)) λ r. Keeps-pure tt

    pub reward-Kept : (n : ℕ) → Keeps P (reward {R = R} prisma redis json midnight user n)
    reward-Kept zero = Keeps-pure tt
    reward-Kept (suc n) = bind find_row-Kept λ found. reward_found-Kept (suc n) found
