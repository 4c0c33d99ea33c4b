-- ===== src/Achievement/Tests.antt =====
-- The theorems on achievement/achievement.service.ts at three attempts on two days.
use native.Mathlib.Decide.{ℕ_discrete}
use mathplat.Common.{
  ℕ, ◌+◌, ◌*◌, ◌/◌, ◌≤◌, ◌≡◌, refl, String, Bool, true, false, Option, none, some, List, [], ◌∷◌,
  arith,
}
use mathplat.Common.Outcome.{ok}
use mathplat.Redis.{Json, value}
use mathplat.World.{Achievement, UserStats, World}
use mathplat.Common.{keep}
use mathplat.Common.Triple.{Post}
use mathplat.Achievement.Granted.{owed, Granted, check_achievements-Granted}
use mathplat.Achievement.{find_stats, check_achievements, level_of, day_length}
use mathplat.Achievement.Streak.{
  Try, IsStreak, replay, worked_on, last_day, gains, time_taken, replay-IsStreak, replay-totals,
}
use mathplat.Achievement.Stored.{IsFresh, row_of}
use mathplat.Achievement.History.{serve, stored, serve-replay}
use mathplat.Samples.{
  beginner, Server, server, server-IsServing, tables, tables-IsStore, blank, known,
  known-round_trip, string_discrete,
}

abbrev day : ℕ → ℕ
day t = t / day_length

abbrev midnight : ℕ → ℕ
midnight t = 0 + day t * day_length

whole_days : (t : ℕ) → midnight t ≡ 0 + day t * day_length
whole_days t = refl

abbrev at : ℕ → Option Bool → Try
at t correct = record { correct = correct; taken = 30; at = t }

abbrev later : List Try
later = at 86400005 (some false) ∷ at 172800005 none ∷ []

replay-IsStreak_example :
    IsStreak
      (replay midnight (at 5 (some true) ∷ later) beginner).current_streak
      (last_day midnight day (day 5) later)
      (worked_on midnight day (at 5 (some true) ∷ later))
replay-IsStreak_example =
    replay-IsStreak midnight day 0 whole_days (at 5 (some true)) later beginner refl
      (omega arith, (omega arith, tt))

replay-totals_example :
    ((replay midnight later beginner).total_xp ≡ 0 + gains later)
    × ((replay midnight later beginner).total_study_time ≡ 0 + time_taken later)
    × ((replay midnight later beginner).total_problems_solved ≡ 0 + 2)
    × ((replay midnight later beginner).level ≡ level_of (replay midnight later beginner).total_xp)
    × ((replay midnight later beginner).current_streak
        ≤ (replay midnight later beginner).longest_streak)
    × (0 ≤ (replay midnight later beginner).longest_streak)
replay-totals_example = replay-totals midnight later beginner refl (omega arith)

stats_discrete : Discrete UserStats
stats_discrete = hlevel (string_discrete, ℕ_discrete)

abbrev codec : Json UserStats
codec = known stats_discrete beginner

round_trip : (s : UserStats) (t : String) → codec.stringify s ≡ ok t → codec.parse t ≡ value s
round_trip s t h = known-round_trip stats_discrete beginner s t h

abbrev world : World List Server
world = record blank { stats = beginner ∷ [] }

world-IsFresh :
    IsFresh tables server codec midnight tables-IsStore server-IsServing round_trip world
world-IsFresh = record {
  alive = λ u s e. ground arith;
  coherent = record { up = refl; fresh = λ k s e. cc };
}

serve-replay_example :
    IsFresh tables server codec midnight tables-IsStore server-IsServing round_trip
      (serve tables server codec midnight "u1" later world)
    × (row_of tables server codec midnight tables-IsStore server-IsServing round_trip
          (serve tables server codec midnight "u1" later world)
          "u1"
        ≡ some (replay midnight (stored tables server codec midnight "u1" later world) beginner))
serve-replay_example =
    serve-replay tables server codec midnight tables-IsStore server-IsServing round_trip "u1" later
      beginner world world-IsFresh refl

abbrev first_steps : Achievement
first_steps = record {
  id = "a1";
  name = "first steps";
  description = "";
  icon_url = none;
  condition = record {
    total_problems_solved = some 0;
    current_streak = none;
    level = some 1;
    total_xp = none;
  };
  xp_reward = 50;
  created_at = 0;
  updated_at = 0;
  deleted_at = none;
}

abbrev rewarding : World List Server
rewarding = record world { achievements = first_steps ∷ [] }

check_achievements-Granted_example :
    Post
      (λ _ v.
        (s : UserStats) × ((find_stats tables server codec midnight "u1" rewarding).0 ≡ ok s)
        × Granted tables server codec midnight tables-IsStore "u1" []
            (keep (owed [] s) (first_steps ∷ []))
            v)
      (λ _ _. Unit)
      (check_achievements tables server codec midnight "u1" rewarding).0
      (check_achievements tables server codec midnight "u1" rewarding).1
check_achievements-Granted_example =
    check_achievements-Granted tables server codec midnight tables-IsStore "u1" rewarding
