-- ===== src/Progress/Effect.antt =====
-- What one call of progress/progress.service.ts does to the rows of the users' progress.
use mathplat.Common.{
  ℕ, ◌+◌, String, ◌≡◌, refl, Bool, true, false, ◌&&◌, Option, none, some, List, [], ◌∷◌, ◌++◌,
  arith, ◌==◌, eq_iff, first, ◌⊎◌, inl, inr, eq_refl, sym, subst, ◌∙◌,
}
use mathplat.Common.Outcome.{Outcome, ok, throws, fault, Done}
use mathplat.Redis.{Redis}
use mathplat.Prisma.{Prisma, IsStore, change}
use mathplat.Prisma.Tables.{first-change, first-change_apart, first-append_none, first-append_other}
use mathplat.World.{Progress, Rate, World}
use mathplat.Progress.{
  is_of, live, one_if, solved_after, correct_after, tallied, new_progress, find_by_user_and_topic,
  upsert, update_progress,
}

-- The row stands for `n` marked attempts, `m` of them right; no row stands for none.
abbrev pub Counts : Option Progress → ℕ → ℕ → Type 0
Counts none n m = (n ≡ 0) × (m ≡ 0)
Counts (some p) n m =
    (p.deleted_at ≡ none)
    × (p.problems_solved ≡ n)
    × (p.correct_count ≡ m)
    × (p.mastery_level ≡ record { over = m; under = n })

-- A row that is not deleted is what the query for live rows finds.
first-live :
    (u t : String) (rs : List Progress)
    → ((p : Progress) → first (is_of u t) rs ≡ some p → p.deleted_at ≡ none)
    → first (live u t) rs ≡ first (is_of u t) rs
first-live u t [] alive = refl
first-live u t (r ∷ rs) alive = ground (arith, alive r, first-live u t rs)

abbrev pub is_ok : Outcome Done → Bool
is_ok (ok _) = true
is_ok (throws e) = false

module _ {T : Type 0 → Type 0} {R : Type 0} (prisma : Prisma T) (redis : Redis R) where
  module _ (store : IsStore prisma) where
    open store use {rows}

    abbrev pub row_of : World T R → String → String → Option Progress
    row_of w u t = first (is_of u t) (rows w.progress)

    abbrev rate : ℕ → ℕ → Rate
    rate right solved = record { over = right; under = solved }

    -- The upsert that a call sends, where its query has found `o`.
    abbrev sent :
        String → String → Bool → Option Progress → World T R → Outcome Progress × T Progress
    sent u t b o w =
        let solved : ℕ = solved_after o in
        let right : ℕ = correct_after o b in
        prisma.upsert (is_of u t) (tallied solved right (rate right solved) w.now)
          (new_progress u t solved right (rate right solved) w.now) w.progress

    update_progress-sent :
        (u t : String) (b : Bool) (o : Option Progress) (w : World T R)
        → prisma.find_first (live u t) w.progress ≡ ok o
        → ((update_progress prisma redis u t b w).1.progress ≡ (sent u t b o w).1)
          × ((update_progress prisma redis u t b w).0
              ≡ elim (sent u t b o w).0 [ ok p ↦ ok tt | throws e ↦ throws e ])
    unfolding update_progress find_by_user_and_topic upsert
    update_progress-sent u t b o w found = ground arith

    -- What an upsert that goes through makes of the rows.
    abbrev pub Tallied : String → String → Bool → List Progress → List Progress → Type 0
    Tallied u t b before after =
        ((n m : ℕ)
          → Counts (first (is_of u t) before) n m
          → Counts (first (is_of u t) after) (n + 1) (m + one_if b))
        × ((v s : String)
            → (u == v && t == s) ≡ false
            → first (is_of v s) after ≡ first (is_of v s) before)

    changed-Tallied :
        (u t : String) (b : Bool) (p : Progress) (now : ℕ) (rs : List Progress)
        → first (is_of u t) rs ≡ some p
        → Tallied u t b rs (
            change
              (is_of u t)
              (tallied
                (p.problems_solved + 1)
                (p.correct_count + one_if b)
                (rate (p.correct_count + one_if b) (p.problems_solved + 1))
                now)
              rs)
    unfolding tallied
    changed-Tallied u t b p now rs here =
        let f : Progress → Progress =
          tallied (p.problems_solved + 1) (p.correct_count + one_if b)
            (rate (p.correct_count + one_if b) (p.problems_solved + 1)) now in
        let found : first (is_of u t) (change (is_of u t) f rs) ≡ some (f p) =
          first-change (is_of u t) f p rs (λ s h. h) here in
        (
          λ n m h. rw (found) (ground (arith, here)),
          λ v s ne. first-change_apart (is_of u t) f (is_of v s) rs (λ r h. ground (
            arith,
            eq_iff r.user_id u,
            eq_iff r.topic_id t,
            eq_iff u v,
            eq_iff t s,
            eq_iff r.user_id v,
            eq_iff r.topic_id s,
          )),
        )

    added-Tallied :
        (u t id : String) (b : Bool) (now : ℕ) (rs : List Progress)
        → first (is_of u t) rs ≡ none
        → Tallied u t b rs (rs ++ new_progress u t 1 (one_if b) (rate (one_if b) 1) now id ∷ [])
    unfolding new_progress
    added-Tallied u t id b now rs missing =
        let new : Progress = new_progress u t 1 (one_if b) (rate (one_if b) 1) now id in
        let found : first (is_of u t) (rs ++ new ∷ []) ≡ some new =
          ground (arith, first-append_none (is_of u t) rs (new ∷ []), eq_refl u, eq_refl t) in
        (
          λ n m h. rw found (ground arith),
          λ v s ne. first-append_other (is_of v s) rs new (ground arith),
        )

    Counts-live :
        (o : Option Progress) (n m : ℕ)
        → Counts o n m
        → (p : Progress) → o ≡ some p
        → p.deleted_at ≡ none
    Counts-live none n m c p e = cc
    Counts-live (some q) n m c p e = ground (arith, c)

    -- What the upsert does to the rows, if it does not throw.
    sent-Tallied :
        (u t : String) (b : Bool) (o : Option Progress) (w : World T R)
        → row_of w u t ≡ o
        → ((p : Progress) × ((sent u t b o w).0 ≡ ok p))
            × Tallied u t b (rows w.progress) (rows (sent u t b o w).1)
          ⊎ ((e : String) × ((sent u t b o w).0 ≡ throws (fault e)))
            × (rows (sent u t b o w).1 ≡ rows w.progress)
    sent-Tallied u t b o w here =
        let solved : ℕ = solved_after o in
        let right : ℕ = correct_after o b in
        elim (store.upsert_lem (is_of u t) (tallied solved right (rate right solved) w.now)
          (new_progress u t solved right (rate right solved) w.now) w.progress) [
            | inl (p, found, done, changed) ↦
                let it : o ≡ some p = sym here ∙ found in
                inl (
                  (_, done),
                  subst (Tallied u t b (rows w.progress)) (sym changed)
                      (rw it (changed-Tallied u t b p w.now (rows w.progress) found)),
                )
            | inr (inl (id, missing, done, grown)) ↦
                let it : o ≡ none = sym here ∙ missing in
                inl (
                  (_, done),
                  subst (Tallied u t b (rows w.progress)) (sym grown)
                      (rw it (added-Tallied u t id b w.now (rows w.progress) missing)),
                )
            | inr (inr (e, failed, same)) ↦ inr ((e, failed), same)
          ]

    unread :
        (u t e : String) (b : Bool) (w : World T R)
        → prisma.find_first (live u t) w.progress ≡ throws (fault e)
        → (is_ok (update_progress prisma redis u t b w).0 ≡ false)
          × (rows (update_progress prisma redis u t b w).1.progress ≡ rows w.progress)
    unfolding update_progress find_by_user_and_topic
    unread u t e b w failed = ground arith

    -- One call: the row of this user and topic counts an attempt more and the other rows stay, or the
    -- database has thrown and every row stays.
    pub update_progress-Tallied :
        (u t : String) (b : Bool) (n m : ℕ) (w : World T R)
        → Counts (row_of w u t) n m
        → ((update_progress prisma redis u t b w).0 ≡ ok tt)
            × Tallied u t b
                (rows w.progress)
                (rows (update_progress prisma redis u t b w).1.progress)
          ⊎ (is_ok (update_progress prisma redis u t b w).0 ≡ false)
            × (rows (update_progress prisma redis u t b w).1.progress ≡ rows w.progress)
    update_progress-Tallied u t b n m w c = elim (store.find_first_lem (live u t) w.progress) [
      | inr (e, failed) ↦ inr (unread u t e b w failed)
      | inl reads ↦
          let o : Option Progress = row_of w u t in
          let same : first (live u t) (rows w.progress) ≡ o =
            first-live u t (rows w.progress) (Counts-live o n m c) in
          let (state, result) = update_progress-sent u t b o w (rw (reads, same) refl) in
          elim (sent-Tallied u t b o w refl) [
            | inl ((p, done), tally) ↦ inl (
              ground arith,
              subst (λ t'. Tallied u t b (rows w.progress) (rows t')) (sym state) tally,
            )
            | inr ((e, failed), kept) ↦ inr (ground arith, rw state kept)
          ]
    ]
