-- ===== src/Achievement/Rows.antt =====
-- achievement/achievement.repository.ts: the queries on achievements and on the statistics of the
-- users. The achievement that a query brings along with a row is left out, and so is the order of a list.
use mathplat.Common.{ℕ, String, Bool, Option, none, List, ◌==◌, ◌&&◌, is_none, or_else}
use mathplat.Common.Outcome.{Action}
use mathplat.Prisma.{Prisma}
use mathplat.World.{Condition, Achievement, UserAchievement, UserStats, World, query}

-- `CreateAchievementDto`
pub record CreateAchievement : Type 0 where
  pub name : String
  pub description : String
  pub icon_url : Option String
  pub condition : Condition
  pub xp_reward : Option ℕ

-- The data of `upsertStats`.
pub record StatsData : Type 0 where
  pub total_xp : ℕ
  pub level : ℕ
  pub current_streak : ℕ
  pub longest_streak : ℕ
  pub total_problems_solved : ℕ
  pub total_study_time : ℕ

unfoldable pub new_achievement : CreateAchievement → ℕ → String → Achievement
new_achievement dto now id = record {
  id = id;
  name = dto.name;
  description = dto.description;
  icon_url = dto.icon_url;
  condition = dto.condition;
  xp_reward = or_else dto.xp_reward 0;
  created_at = now;
  updated_at = now;
  deleted_at = none;
}

unfoldable pub new_user_achievement : (user achievement : String) → ℕ → String → UserAchievement
new_user_achievement user achievement now id = record {
  id = id;
  user_id = user;
  achievement_id = achievement;
  earned_at = now;
  created_at = now;
  updated_at = now;
  deleted_at = none;
}

unfoldable pub new_stats : String → StatsData → ℕ → String → UserStats
new_stats user d now id = record {
  id = id;
  user_id = user;
  total_xp = d.total_xp;
  level = d.level;
  current_streak = d.current_streak;
  longest_streak = d.longest_streak;
  total_problems_solved = d.total_problems_solved;
  total_study_time = d.total_study_time;
  created_at = now;
  updated_at = now;
  deleted_at = none;
}

unfoldable pub with_data : StatsData → ℕ → UserStats → UserStats
with_data d now s = record s {
  total_xp = d.total_xp;
  level = d.level;
  current_streak = d.current_streak;
  longest_streak = d.longest_streak;
  total_problems_solved = d.total_problems_solved;
  total_study_time = d.total_study_time;
  updated_at = now;
}

-- `where: { userId, deletedAt: null }` of the two tables, and `where: { userId }`
abbrev pub earned_by : String → UserAchievement → Bool
earned_by user a = a.user_id == user && is_none a.deleted_at

abbrev pub stats_of : String → UserStats → Bool
stats_of user s = s.user_id == user

abbrev pub live_stats_of : String → UserStats → Bool
live_stats_of user s = s.user_id == user && is_none s.deleted_at

module _ {T : Type 0 → Type 0} {R : Type 0} (prisma : Prisma T) where
  unfoldable pub create_achievement_row : CreateAchievement → Action (World T R) Achievement
  create_achievement_row dto w =
      let (r, t) = prisma.create (new_achievement dto w.now) w.achievements in
      (r, record w { achievements = t })

  unfoldable pub find_all_achievements : Action (World T R) (List Achievement)
  find_all_achievements = query (λ w. prisma.find_many (λ a. is_none a.deleted_at) w.achievements)

  unfoldable pub find_achievement_by_id : String → Action (World T R) (Option Achievement)
  find_achievement_by_id id =
      query (λ w. prisma.find_first (λ a. a.id == id && is_none a.deleted_at) w.achievements)

  unfoldable pub find_earned : String → Action (World T R) (List UserAchievement)
  find_earned user = query (λ w. prisma.find_many (earned_by user) w.user_achievements)

  unfoldable pub create_user_achievement : String → String → Action (World T R) UserAchievement
  create_user_achievement user achievement w =
      let (r, t) =
        prisma.create (new_user_achievement user achievement w.now) w.user_achievements in
      (r, record w { user_achievements = t })

  unfoldable pub find_stats_row : String → Action (World T R) (Option UserStats)
  find_stats_row user = query (λ w. prisma.find_first (live_stats_of user) w.stats)

  unfoldable pub upsert_stats : String → StatsData → Action (World T R) UserStats
  upsert_stats user d w =
      let (r, t) =
        prisma.upsert (stats_of user) (with_data d w.now) (new_stats user d w.now) w.stats in
      (r, record w { stats = t })
