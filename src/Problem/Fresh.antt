-- ===== src/Problem/Fresh.antt =====
-- The cache of problem/problem.service.ts never shows a stale problem.
use mathplat.Common.{
  ℕ, String, ◌≡◌, ◌≢◌, refl, sym, subst, Option, none, some, List, [], ◌∷◌, ◌++◌, arith, ◌==◌,
  eq_iff, first, inl, inr, Bool, true, if◌then◌else◌, Bool-cases,
}
use mathplat.Common.Outcome.{Outcome, ok, throws}
use mathplat.Common.Text.{is_empty}
use mathplat.Common.Triple.{Triple, Triple-if, Keeps, Post, bind, Keeps-pure, Keeps-throw}
use mathplat.Redis.{Redis, Json, IsServing}
use mathplat.Prisma.{Prisma, IsStore, change}
use mathplat.Cache.Writes.{del}
use mathplat.Cache.Coherence.{IsCoherent, del-IsCoherent, del_more-IsCoherent, more-IsCoherent}
use mathplat.Cache.Keys
use mathplat.Cache.Keys.{problem-injective}
use mathplat.World.{Problem, Rate, World, cached}
use mathplat.Problem.Rows.{
  CreateProblem, UpdateProblem, live, by_id, new_problem, edited, removed, counted, find_by_id,
  create, change_by_id,
}
use mathplat.Problem.{
  create_problem, update_problem, delete_problem, update_stats, not_found, forget_problem, require,
  moved_list,
}

module _ {T : Type 0 → Type 0} (prisma : Prisma T) where
  -- A change of one problem leaves what is found for every other.
  first-change_other :
      (j k : String) (f : Problem → Problem) (rs : List Problem)
      → ((p : Problem) → (f p).id ≡ p.id)
      → prisma.collate k ≢ prisma.collate j
      → first (live prisma j) (change (by_id prisma k) f rs) ≡ first (live prisma j) rs
  first-change_other j k f [] keeps ne = refl
  first-change_other j k f (r ∷ rs) keeps ne = ground (
    arith,
    keeps r,
    eq_iff (prisma.collate r.id) (prisma.collate k),
    eq_iff (prisma.collate r.id) (prisma.collate j),
    first-change_other j k f rs keeps ne,
  )

  first-append :
      (j : String) (p : Problem) (rs ss : List Problem)
      → first (live prisma j) rs ≡ some p
      → first (live prisma j) (rs ++ ss) ≡ some p
  first-append j p [] ss e = cc
  first-append j p (r ∷ rs) ss e = ground (arith, first-append j p rs ss)

-- `spelled` tells which spellings of identifiers are used. Of those that the database takes for equal
-- there is one.
module _ {T : Type 0 → Type 0} {R : Type 0} (prisma : Prisma T) (redis : Redis R)
    (json : Json Problem) (store : IsStore prisma) (serving : IsServing redis)
    (spelled : String → Bool)
    (one_spelling : (a b : String)
      → spelled a ≡ true
      → spelled b ≡ true
      → prisma.collate a ≡ prisma.collate b
      → a ≡ b) where
  open store use {rows}

  -- The row of an identifier, where its spelling is one that is used.
  abbrev pub current_in : List Problem → String → Option Problem
  current_in rs id = if spelled id then first (live prisma id) rs else none

  abbrev pub current : World T R → String → Option Problem
  current w id = current_in (rows w.problems) id

  current-append :
      (rs ss : List Problem) (j : String) (p : Problem)
      → current_in rs j ≡ some p
      → current_in (rs ++ ss) j ≡ some p
  current-append rs ss j p e = ground (arith, first-append prisma j p rs ss)

  current-change_other :
      (j k : String) (f : Problem → Problem) (rs : List Problem)
      → ((p : Problem) → (f p).id ≡ p.id)
      → spelled k ≡ true
      → k ≢ j
      → current_in (change (by_id prisma k) f rs) j ≡ current_in rs j
  current-change_other j k f rs keeps used ne = elim (Bool-cases (spelled j)) [
    | inr e ↦ rw e refl
    | inl e ↦
        let apart : prisma.collate k ≢ prisma.collate j =
          λ same. ne (one_spelling k j used e same) in
        rw e (first-change_other prisma j k f rs keeps apart)
  ]

  -- What the cache holds of problems is what the table holds now.
  pub record IsFresh (w : World T R) : Type 0 where
    pub coherent : IsCoherent redis json serving Keys.problem (current w) w.cache

  -- So it would be, if the entry of this one problem were dropped.
  record IsStale (id : String) (w : World T R) : Type 0 where
    before : String → Option Problem
    others : (j : String) → id ≢ j → current w j ≡ before j
    coherent : IsCoherent redis json serving Keys.problem before w.cache

  find_by_id-IsFresh : (id : String) → Keeps IsFresh (find_by_id {R = R} prisma id)
  unfolding find_by_id
  find_by_id-IsFresh id = record {
    at = λ w h. go w h (prisma.find_first (live prisma id) w.problems);
  }
    where
      go :
          (w : World T R)
          → IsFresh w
          → (r : Outcome (Option Problem)) → Post (λ _ w. IsFresh w) (λ _ w. IsFresh w) r w
      go w h (ok o) = h
      go w h (throws e) = h

  change_by_id-IsStale :
      (id : String) (f : ℕ → Problem → Problem)
      → spelled id ≡ true
      → ((now : ℕ) (p : Problem) → (f now p).id ≡ p.id)
      → Triple IsFresh (change_by_id {R = R} prisma id f) (λ _ w. IsStale id w) (λ _ w. IsFresh w)
  unfolding change_by_id
  change_by_id-IsStale id f used keeps = record {
    at = λ w h. elim (store.update_lem (by_id prisma id) (f w.now) w.problems) [
      | inl (p, found, done, changed) ↦ rw done (record {
        before = current w;
        others = λ j ne.
            rw changed
              (current-change_other j id (f w.now) (rows w.problems) (keeps w.now) used ne);
        coherent = h.coherent;
      })
      | inr (e, failed, same) ↦ rw failed (record {
        coherent =
            subst (λ rs. IsCoherent redis json serving Keys.problem (current_in rs) w.cache)
              (sym same) h.coherent;
      })
    ];
  }

  forget-IsFresh :
      (id : String)
      → Triple
          (IsStale id)
          (forget_problem {T = T} prisma redis json id)
          (λ _ w. IsFresh w)
          (λ _ w. IsFresh w)
  forget-IsFresh id = record {
    at = λ w h. record {
      coherent =
          del-IsCoherent redis json serving problem-injective h.before (current w) id w.cache
            h.others h.coherent;
    };
  }

  drop-IsFresh : (ks : List String) → Keeps IsFresh (cached {T = T} (del redis ks))
  drop-IsFresh ks = record {
    at = λ w h. record {
      coherent =
          del_more-IsCoherent redis json serving problem-injective (current w) ks w.cache
            h.coherent;
    };
  }

  require-IsFresh : (o : Option Problem) → Keeps IsFresh (require {T = T} prisma redis json o)
  require-IsFresh none = Keeps-throw (not_found "Problem not found")
  require-IsFresh (some p) = Keeps-pure p

  moved_list-IsFresh :
      (o : Option String) (old : String)
      → Keeps IsFresh (moved_list {T = T} prisma redis json o old)
  moved_list-IsFresh none old = Keeps-pure 0
  moved_list-IsFresh (some topic) old =
      Triple-if (is_empty topic) (λ _. Keeps-pure 0)
        λ _.
          Triple-if (topic == old) (λ _. Keeps-pure 0)
            λ _. drop-IsFresh (Keys.problem_list topic ∷ [])

  edited-id : (dto : UpdateProblem) (now : ℕ) (p : Problem) → (edited dto now p).id ≡ p.id
  unfolding edited
  edited-id dto now p = refl

  pub update_problem-IsFresh :
      (id : String) (dto : UpdateProblem)
      → spelled id ≡ true
      → Keeps IsFresh (update_problem {T = T} prisma redis json id dto)
  unfolding update_problem
  update_problem-IsFresh id dto used = bind (find_by_id-IsFresh id) λ found.
      bind (require-IsFresh found) λ existing.
        bind (change_by_id-IsStale id (edited dto) used (edited-id dto)) λ updated.
          bind (forget-IsFresh id) λ _.
            bind (drop-IsFresh (Keys.problem_list existing.topic_id ∷ []))
              λ _. bind (moved_list-IsFresh dto.topic_id existing.topic_id) λ _. Keeps-pure updated

  removed-id : (now : ℕ) (p : Problem) → (removed now p).id ≡ p.id
  unfolding removed
  removed-id now p = refl

  pub delete_problem-IsFresh :
      (id : String)
      → spelled id ≡ true
      → Keeps IsFresh (delete_problem {T = T} prisma redis json id)
  unfolding delete_problem
  delete_problem-IsFresh id used = bind (find_by_id-IsFresh id) λ found.
      bind (require-IsFresh found) λ existing.
        bind (change_by_id-IsStale id removed used removed-id) λ deleted.
          bind (forget-IsFresh id) λ _.
            bind (drop-IsFresh (Keys.problem_list existing.topic_id ∷ [])) λ _. Keeps-pure deleted

  counted-id :
      (solved : ℕ) (rate : Rate) (now : ℕ) (p : Problem) → (counted solved rate now p).id ≡ p.id
  unfolding counted
  counted-id solved rate now p = refl

  pub update_stats-IsFresh :
      (id : String) (solved : ℕ) (rate : Rate)
      → spelled id ≡ true
      → Keeps IsFresh (update_stats {T = T} prisma redis json id solved rate)
  unfolding update_stats
  update_stats-IsFresh id solved rate used =
      bind (change_by_id-IsStale id (counted solved rate) used (counted-id solved rate))
        λ _. forget-IsFresh id

  create-IsFresh : (dto : CreateProblem) → Keeps IsFresh (create {R = R} prisma dto)
  unfolding create
  create-IsFresh dto = record {
    at = λ w h. elim (store.create_lem (new_problem dto w.now) w.problems) [
      | inl (id, done, grown) ↦ rw done (record {
        coherent =
            more-IsCoherent redis json serving (current w) _ w.cache
              (λ j p e. rw grown (current-append (rows w.problems) _ j p e)) h.coherent;
      })
      | inr (e, failed, same) ↦ rw failed (record {
        coherent =
            subst (λ rs. IsCoherent redis json serving Keys.problem (current_in rs) w.cache)
              (sym same) h.coherent;
      })
    ];
  }

  pub create_problem-IsFresh :
      (dto : CreateProblem) → Keeps IsFresh (create_problem {T = T} prisma redis json dto)
  unfolding create_problem
  create_problem-IsFresh dto =
      bind (create-IsFresh dto)
        λ p. bind (drop-IsFresh (Keys.problem_list dto.topic_id ∷ [])) λ _. Keeps-pure p
