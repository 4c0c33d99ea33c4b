-- ===== src/Cache/Ttl.antt =====
-- core/cache/cache-key.constants.ts: the times to live that the services use, in seconds.
use mathplat.Common.{ℕ}

abbrev pub user_info : ℕ
user_info = 3600

abbrev pub problem : ℕ
problem = 3600

abbrev pub user_progress : ℕ
user_progress = 1800

abbrev pub user_stats : ℕ
user_stats = 1800

abbrev pub user_achievements : ℕ
user_achievements = 3600
