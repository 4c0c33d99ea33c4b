-- ===== src/Achievement.antt =====
-- achievement/achievement.service.ts: experience, levels, streaks and achievements.
pub mod Rows
pub mod Streak
pub mod Frame
pub mod Granted
pub mod Stored
pub mod Refined
pub mod History
mod Tests
use mathplat.Common.{
  ℕ, zero, suc, ◌+◌, ◌-◌, ◌/◌, String, Bool, true, false, not, ◌&&◌, if◌then◌else◌, Option, none,
  some, List, [], ◌∷◌, map, ltb, leb, num_eq,
}
use mathplat.Common.Outcome.{
  Outcome, ok, throws, Exception, Action, pure, throw, proceed, ◌>>=◌, ◌>>◌, Done,
}
use mathplat.Common.StrSet
use mathplat.Redis.{Redis, Json}
use mathplat.Prisma.{Prisma}
use mathplat.Cache.Reads.{get}
use mathplat.Cache.Writes.{set, del}
use mathplat.Cache.Keys
use mathplat.Cache.Ttl
use mathplat.World.{Condition, Achievement, UserAchievement, UserStats, World, cached}
use Rows.{
  CreateAchievement, StatsData, create_achievement_row, find_all_achievements, find_earned,
  create_user_achievement, find_stats_row, upsert_stats,
}

-- `Math.floor(totalXp / 100) + 1`
abbrev pub level_of : ℕ → ℕ
level_of xp = xp / 100 + 1

-- What an attempt earns; `none` is one that is not marked.
abbrev pub xp_gain : Option Bool → ℕ
xp_gain none = 0
xp_gain (some true) = 10
xp_gain (some false) = 2

abbrev pub day_length : ℕ
day_length = 86400000

-- The streak after an attempt, `days` days after the last one; negative differences, when a clock is set back,
-- count as 0, as the code treats both alike.
abbrev pub next_streak : (solved days streak : ℕ) → ℕ
next_streak zero days streak = 1
next_streak (suc n) days streak =
    if num_eq days 1 then suc streak else if ltb 1 days then 1 else streak

abbrev pub larger : ℕ → ℕ → ℕ
larger a b = if ltb b a then a else b

-- The new statistics; `midnight` is `setHours(0, 0, 0, 0)`, which depends on the server's time zone.
unfoldable pub after_attempt :
    (midnight : ℕ → ℕ) → UserStats → Option Bool → (taken now : ℕ) → StatsData
after_attempt midnight s correct taken now =
    let xp : ℕ = s.total_xp + xp_gain correct in
    let days : ℕ = (midnight now - midnight s.updated_at) / day_length in
    let streak : ℕ = next_streak s.total_problems_solved days s.current_streak in
    record {
      total_xp = xp;
      level = level_of xp;
      current_streak = streak;
      longest_streak = larger streak s.longest_streak;
      total_problems_solved = s.total_problems_solved + 1;
      total_study_time = s.total_study_time + taken;
    }

-- One member of a condition: the statistic reaches it, if it is there.
abbrev pub reaches : ℕ → Option ℕ → Bool
reaches n none = true
reaches n (some wanted) = not (ltb n wanted)

unfoldable pub is_met : Condition → UserStats → Bool
is_met c s =
    reaches s.total_problems_solved c.total_problems_solved
    && reaches s.current_streak c.current_streak
    && reaches s.level c.level
    && reaches s.total_xp c.total_xp

-- The statistics that a user starts with.
abbrev pub first_stats : StatsData
first_stats = record {
  total_xp = 0;
  level = 1;
  current_streak = 0;
  longest_streak = 0;
  total_problems_solved = 0;
  total_study_time = 0;
}

-- `{ ...updatedStats, totalXp, level }`; the other columns of the spread are those of the same row.
unfoldable pub rewarded : ℕ → UserStats → StatsData
rewarded reward s = record {
  total_xp = s.total_xp + reward;
  level = level_of (s.total_xp + reward);
  current_streak = s.current_streak;
  longest_streak = s.longest_streak;
  total_problems_solved = s.total_problems_solved;
  total_study_time = s.total_study_time;
}

module _ {T : Type 0 → Type 0} {R : Type 0} (prisma : Prisma T) (redis : Redis R) where
  unfoldable pub create_achievement : CreateAchievement → Action (World T R) Achievement
  unfolding create_achievement_row
  create_achievement dto = create_achievement_row prisma dto

  module _ (json : Json (List UserAchievement)) where
    abbrev earned_or_found :
        String → Option (List UserAchievement) → Action (World T R) (List UserAchievement)
    earned_or_found user (some rows) = pure rows
    earned_or_found user none = do
      found ← find_earned prisma user
      cached (set redis json (Keys.user_achievements user) found (some Ttl.user_achievements))
      pure found

    unfoldable pub find_user_achievements : String → Action (World T R) (List UserAchievement)
    unfolding find_earned
    find_user_achievements user = do
      hit ← cached (get redis json (Keys.user_achievements user))
      earned_or_found user hit

  module _ (json : Json UserStats) (midnight : ℕ → ℕ) where
    abbrev pub or_created : String → Option UserStats → Action (World T R) UserStats
    or_created user (some s) = pure s
    or_created user none = upsert_stats prisma user first_stats

    abbrev pub cached_or_stored : String → Option UserStats → Action (World T R) UserStats
    cached_or_stored user (some s) = pure s
    cached_or_stored user none = do
      found ← find_stats_row prisma user
      stats ← or_created user found
      cached (set redis json (Keys.user_stats user) stats (some Ttl.user_stats))
      pure stats

    unfoldable pub find_stats : String → Action (World T R) UserStats
    unfolding find_stats_row upsert_stats
    find_stats user = do
      hit ← cached (get redis json (Keys.user_stats user))
      cached_or_stored user hit

    abbrev pub store_attempt : String → UserStats → Option Bool → ℕ → Action (World T R) UserStats
    store_attempt user s correct taken w =
        upsert_stats prisma user (after_attempt midnight s correct taken w.now) w

    unfoldable pub update_stats_after_attempt : String → Option Bool → ℕ → Action (World T R) Done
    unfolding find_stats upsert_stats
    update_stats_after_attempt user correct taken = do
      stats ← find_stats user
      store_attempt user stats correct taken
      cached (del redis (Keys.user_stats user ∷ []))
      pure tt

    abbrev pub reward_found : String → ℕ → Option UserStats → Action (World T R) Done
    reward_found user reward none = pure tt
    reward_found user reward (some s) = do upsert_stats prisma user (rewarded reward s); pure tt

    abbrev pub reward : String → ℕ → Action (World T R) Done
    reward user zero = pure tt
    reward user (suc n) = do found ← find_stats_row prisma user; reward_found user (suc n) found

    -- One achievement that is earned.
    unfoldable pub grant : String → Achievement → Action (World T R) Done
    unfolding create_user_achievement find_stats_row upsert_stats
    grant user a = do
      create_user_achievement prisma user a.id
      reward user a.xp_reward
      cached (del redis (Keys.user_achievements user ∷ []))
      cached (del redis (Keys.user_stats user ∷ []))
      pure tt

    abbrev pub is_due : List String → UserStats → Achievement → Bool
    is_due earned s a = not (StrSet.has a.id earned) && is_met a.condition s

    -- The loop: the statistics and the set of earned achievements are those from before it.
    unfoldable pub grant_due :
        String → List String → UserStats → List Achievement → Action (World T R) Done
    unfolding grant is_met
    grant_due user earned s [] = pure tt
    grant_due user earned s (a ∷ rest) =
        let more = grant_due user earned s rest in
        if is_due earned s a then (grant user a >> more) else more

    -- `Promise.all` starts all three queries, and throws if any does.
    unfoldable pub check_achievements : String → Action (World T R) Done
    unfolding find_all_achievements find_earned find_stats grant_due
    check_achievements user w =
        let (all, w1) = find_all_achievements prisma w in
        let (mine, w2) = find_earned prisma user w1 in
        let (stats, w3) = find_stats user w2 in
        proceed all
          (λ rows. proceed mine (λ earned.
            proceed stats (λ s. grant_due user (map (λ e. e.achievement_id) earned) s rows)))
          w3
