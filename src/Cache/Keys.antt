-- ===== src/Cache/Keys.antt =====
-- core/cache/cache-key.constants.ts: the keys that the services use.
use text.Mathlib.TextLemmas.{append_cancel_left}
use mathplat.Common.{String, ◌≡◌}
use mathplat.Common.Text.{◌⧺◌}

unfoldable pub user_info : String → String
user_info user = "user_info:" ⧺ user

unfoldable pub user_session : String → String
user_session user = "user_session:" ⧺ user

unfoldable pub problem : String → String
problem id = "problem:" ⧺ id

unfoldable pub problem_list : String → String
problem_list topic = "problem_list:" ⧺ topic

unfoldable pub user_progress : String → String → String
user_progress user topic = "user_progress:" ⧺ user ⧺ ":" ⧺ topic

unfoldable pub user_stats : String → String
user_stats user = "user_stats:" ⧺ user

unfoldable pub user_achievements : String → String
user_achievements user = "user_achievements:" ⧺ user

pub problem-injective : (a b : String) → problem a ≡ problem b → a ≡ b
unfolding problem
problem-injective a b e = append_cancel_left "problem:" a b e

pub user_stats-injective : (a b : String) → user_stats a ≡ user_stats b → a ≡ b
unfolding user_stats
user_stats-injective a b e = append_cancel_left "user_stats:" a b e
