-- ===== src/Achievement/Streak.antt =====
-- The streak of achievement/achievement.service.ts over the attempts of one user, in a time zone
-- whose days all have 24 hours.
use mathplat.Common.{
  ℕ, suc, ◌+◌, ◌-◌, ◌*◌, ◌/◌, ◌≤◌, ◌<◌, ◌≡◌, Bool, true, false, ◌||◌, Option, List, [], ◌∷◌, any,
  length, num_eq, ltb, arith, Bool-cases, inl, inr, sym, ◌∙◌,
}
use mathplat.World.{UserStats}
use mathplat.Achievement.Rows.{with_data}
use mathplat.Achievement.{after_attempt, next_streak, day_length, level_of, xp_gain}

-- An attempt: whether it is right, the seconds it took, and when it is handed in.
pub record Try : Type 0 where
  pub correct : Option Bool
  pub taken : ℕ
  pub at : ℕ

-- `n` days in a row up to the day `d` have an attempt, the day before them has none, and no later day has.
pub record IsStreak (n d : ℕ) (p : ℕ → Bool) : Type 0 where
  pub some_day : 1 ≤ n
  pub through : (e : ℕ) → e ≤ d → d < e + n → p e ≡ true
  pub before : (e : ℕ) → e + n ≡ d → p e ≡ false
  pub past : (e : ℕ) → p e ≡ true → e ≤ d

IsStreak-once :
    (d : ℕ) (p : ℕ → Bool)
    → ((e : ℕ) → p e ≡ true → e + 1 < d)
    → IsStreak 1 d (λ e. num_eq d e || p e)
IsStreak-once d p earlier = record {
  some_day = omega arith;
  through = λ e low high. ground arith;
  before = λ e h. ground (arith, earlier e);
  past = λ e h. ground (arith, earlier e);
}

IsStreak-ext : {n d : ℕ} {p q : ℕ → Bool} → ((e : ℕ) → q e ≡ p e) → IsStreak n d p → IsStreak n d q
IsStreak-ext same h = record {
  some_day = h.some_day;
  through = λ e low high. same e ∙ h.through e low high;
  before = λ e g. same e ∙ h.before e g;
  past = λ e g. h.past e (sym (same e) ∙ g);
}

IsStreak-next :
    (n solved d k : ℕ) (p : ℕ → Bool)
    → IsStreak n d p
    → d ≤ k
    → IsStreak (next_streak (suc solved) (k - d) n) k (λ e. num_eq k e || p e)
IsStreak-next n solved d k p h later = elim (Bool-cases (num_eq (k - d) 1)) [
  | inl one ↦ rw one (record {
    some_day = omega arith;
    through = λ e low high. ground (arith, h.through e);
    before = λ e g. ground (arith, h.before e, h.some_day);
    past = λ e g. ground (arith, h.past e);
  })
  | inr other ↦ elim (Bool-cases (ltb 1 (k - d))) [
    | inl long ↦ rw (other, long) (IsStreak-once k p (λ e g. ground (arith, h.past e)))
    | inr same ↦
        let it : d ≡ k = ground arith in
        rw (other, same, ← it)
          (record {
            some_day = h.some_day;
            through = λ e low high. ground (arith, h.through e);
            before = λ e g. ground (arith, h.before e, h.some_day);
            past = λ e g. ground (arith, h.past e);
          })
  ]
]

days_between : (o d k : ℕ) → (o + k * day_length - (o + d * day_length)) / day_length ≡ k - d
days_between o d k = omega arith

module _ (midnight : ℕ → ℕ) where
  abbrev pub attempted : UserStats → Try → UserStats
  attempted s t = with_data (after_attempt midnight s t.correct t.taken t.at) t.at s

  -- The statistics after some attempts, the oldest of which comes first.
  abbrev pub replay : List Try → UserStats → UserStats
  replay [] s = s
  replay (t ∷ ts) s = replay ts (attempted s t)

module _ (midnight day : ℕ → ℕ) where
  abbrev pub InOrder : ℕ → List Try → Type 0
  InOrder d [] = Unit
  InOrder d (t ∷ ts) = (d ≤ day t.at) × InOrder (day t.at) ts

  abbrev pub worked_on : List Try → ℕ → Bool
  worked_on ts d = any (λ t. num_eq (day t.at) d) ts

  abbrev pub last_day : ℕ → List Try → ℕ
  last_day d [] = d
  last_day d (t ∷ ts) = last_day (day t.at) ts

  module _ (o : ℕ) (whole_days : (t : ℕ) → midnight t ≡ o + day t * day_length) where
    attempted-IsStreak :
        (s : UserStats) (t : Try) (solved : ℕ) (p : ℕ → Bool)
        → s.total_problems_solved ≡ suc solved
        → IsStreak s.current_streak (day s.updated_at) p
        → day s.updated_at ≤ day t.at
        → IsStreak
            (attempted midnight s t).current_streak
            (day (attempted midnight s t).updated_at)
            (λ e. num_eq (day t.at) e || p e)
    unfolding with_data after_attempt
    attempted-IsStreak s t solved p more h later =
        rw
          (
            more,
            whole_days t.at,
            whole_days s.updated_at,
            days_between o (day s.updated_at) (day t.at),
          )
          (IsStreak-next s.current_streak solved (day s.updated_at) (day t.at) p h later)

    replay_on-IsStreak :
        (ts : List Try) (s : UserStats) (solved : ℕ) (p : ℕ → Bool)
        → s.total_problems_solved ≡ suc solved
        → IsStreak s.current_streak (day s.updated_at) p
        → InOrder (day s.updated_at) ts
        → IsStreak
            (replay midnight ts s).current_streak
            (last_day (day s.updated_at) ts)
            (λ e. worked_on ts e || p e)
    unfolding with_data after_attempt
    replay_on-IsStreak [] s solved p more h _ = h
    replay_on-IsStreak (t ∷ ts) s solved p more h (later, order) =
        IsStreak-ext (λ e. ground arith)
          (replay_on-IsStreak ts (attempted midnight s t) (suc solved)
            (λ e. num_eq (day t.at) e || p e) (ground arith)
            (attempted-IsStreak s t solved p more h later) order)

    -- In a time zone whose days have 24 hours: after attempts that begin with a user's first and come
    -- on days in order, the current streak is the number of days in a row, up to that of the last
    -- attempt, on which there was an attempt.
    pub replay-IsStreak :
        (t : Try) (ts : List Try) (s : UserStats)
        → s.total_problems_solved ≡ 0
        → InOrder (day t.at) ts
        → IsStreak
            (replay midnight (t ∷ ts) s).current_streak
            (last_day (day t.at) ts)
            (worked_on (t ∷ ts))
    unfolding with_data after_attempt
    replay-IsStreak t ts s none_yet order =
        IsStreak-ext (λ e. ground arith)
          (replay_on-IsStreak ts (attempted midnight s t) 0 (λ e. num_eq (day t.at) e || false)
            (ground arith)
            (rw none_yet (IsStreak-once (day t.at) (λ e. false) (λ e h. ground arith))) order)

abbrev pub gains : List Try → ℕ
gains [] = 0
gains (t ∷ ts) = xp_gain t.correct + gains ts

abbrev pub time_taken : List Try → ℕ
time_taken [] = 0
time_taken (t ∷ ts) = t.taken + time_taken ts

module _ (midnight : ℕ → ℕ) where
  -- Over any attempts the statistics add up: the experience and the study time are the sums, the
  -- attempts are counted, and if it was so before, the level is that of the experience, and no streak is
  -- longer than the longest.
  pub replay-totals :
      (ts : List Try) (s : UserStats)
      → s.level ≡ level_of s.total_xp
      → s.current_streak ≤ s.longest_streak
      → ((replay midnight ts s).total_xp ≡ s.total_xp + gains ts)
        × ((replay midnight ts s).total_study_time ≡ s.total_study_time + time_taken ts)
        × ((replay midnight ts s).total_problems_solved ≡ s.total_problems_solved + length ts)
        × ((replay midnight ts s).level ≡ level_of (replay midnight ts s).total_xp)
        × ((replay midnight ts s).current_streak ≤ (replay midnight ts s).longest_streak)
        × (s.longest_streak ≤ (replay midnight ts s).longest_streak)
  unfolding with_data after_attempt
  replay-totals [] s fits bound = ground arith
  replay-totals (t ∷ ts) s fits bound = ground (arith, replay-totals ts (attempted midnight s t))
