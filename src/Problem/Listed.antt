-- ===== src/Problem/Listed.antt =====
-- Which problems problem/problem.service.ts lists, and in which order.
use native.Mathlib.Nat.{mod-lt, mod-add-div}
use mathlib.Core.List.{Perm}
use mathplat.Common.{
  ◌%◌, ℕ, zero, suc, ◌+◌, ◌-◌, ◌*◌, ◌/◌, ◌≤◌, ◌<◌, String, ◌≡◌, refl, Bool, true, not, ◌↔◌, ◌⊎◌,
  List, [], ◌∷◌, map, keep, length, All, All-map, every-All, inl, inr, or_else, arith,
}
use mathplat.Common.Outcome.{fault}
use mathplat.Common.Triple.{Post}
use mathplat.Prisma.{Prisma, IsStore, is_ordered, skipped, page_of}
use mathplat.World.{Problem, World}
use mathplat.Problem.Pages.{ProblemFilter, Page, summary, passes, before, find_many, ceil_div}
use mathplat.Problem.Conditions.{Wanted, passes_iff}

length-summaries : (ps : List Problem) → length (map summary ps) ≡ length ps
length-summaries [] = refl
length-summaries (p ∷ ps) = ground (arith, length-summaries ps)

length-page_of : {Row : Type 0} (n : ℕ) (rs : List Row) → length (page_of n rs) ≤ n
length-page_of zero rs = omega arith
length-page_of (suc n) [] = omega arith
length-page_of (suc n) (r ∷ rs) = omega (arith, length-page_of n rs)

-- The number of pages is the least that hold all.
ceil_div_lem :
    (n d : ℕ) → (n ≤ suc d * ceil_div n (suc d)) × (suc d * ceil_div n (suc d) < n + suc d)
ceil_div_lem n d =
    let rest : (n + d) % suc d < suc d = mod-lt (n + d) (omega arith) in
    let whole : (n + d) % suc d + suc d * ((n + d) / suc d) ≡ n + d = mod-add-div (n + d) (suc d) in
    (omega (arith, rest, whole), omega (arith, rest, whole))

-- The first of two problems may stand before the second: it is easier, or as difficult and not older.
abbrev pub Precedes : (p q : Problem) → Type 0
Precedes p q =
    (p.difficulty < q.difficulty) ⊎ (p.difficulty ≡ q.difficulty) × (q.created_at ≤ p.created_at)

abbrev pub InOrder : List Problem → Type 0
InOrder [] = Unit
InOrder (p ∷ ps) = All (Precedes p) ps × InOrder ps

before-Precedes : (p q : Problem) → not (before q p) ≡ true → Precedes p q
unfolding before
before-Precedes p q h = ground arith

ordered-InOrder : (ps : List Problem) → is_ordered before ps ≡ true → InOrder ps
ordered-InOrder [] h = tt
ordered-InOrder (p ∷ ps) h = (
  All-map (before-Precedes p) ps (every-All (λ q. not (before q p)) ps (ground arith)),
  ordered-InOrder ps (ground arith),
)

module _ {T : Type 0 → Type 0} {R : Type 0} (prisma : Prisma T) (store : IsStore prisma) where
  open store use {rows}

  -- What is listed: `sorted` holds the rows that are wanted, each as often as the table does, in
  -- order, and the items are those of the page asked for.
  abbrev pub Lists : ProblemFilter → (limit : ℕ) → World T R → Page → Type 0
  Lists f limit w r =
      (test : Problem → Bool) × (sorted : List Problem) × ((p : Problem)
        → (test p ≡ true) ↔ Wanted prisma f p)
      × Perm sorted (keep test (rows w.problems))
      × InOrder sorted
      × (r.items ≡ map summary (page_of limit (skipped ((or_else f.page 1 - 1) * limit) sorted)))
      × (r.total ≡ length (keep test (rows w.problems)))

  -- With a database that keeps its laws and a limit of one or more: a page lists, without their
  -- answers and solutions, the problems from number `(page - 1) * limit` on, at most `limit`, of
  -- those that are not deleted and have all that the filter asks for, sorted by difficulty, the newest
  -- first; the total counts all of these; the pages are as many as it takes to hold them and no
  -- more; the state stays; and an exception is the database's.
  pub find_many-Lists :
      (f : ProblemFilter) (d : ℕ) (w : World T R)
      → or_else f.limit 20 ≡ suc d
      → Post
          (λ r v.
            (v ≡ w)
            × Lists f (suc d) w r
            × (length r.items ≤ suc d)
            × (r.total ≤ suc d * r.total_pages)
            × (suc d * r.total_pages < r.total + suc d))
          (λ e v. (v ≡ w) × ((m : String) × (e ≡ fault m)))
          (find_many prisma f w).0
          (find_many prisma f w).1
  unfolding find_many
  find_many-Lists f d w size =
      let skip : ℕ = (or_else f.page 1 - 1) * suc d in
      elim (store.find_page_lem (passes prisma f) before skip (suc d) w.problems) [
        | inr (e, failed) ↦ rw (size, failed) (refl, (e, refl))
        | inl (ps, same, ordered, done) ↦ elim (store.count_lem (passes prisma f) w.problems) [
          | inr (e, failed) ↦ rw (size, done, failed) (refl, (e, refl))
          | inl counts ↦
              let (enough, needed) =
                ceil_div_lem (length (keep (passes prisma f) (rows w.problems))) d in
              rw (size, done, counts)
                (
                  refl,
                  (
                    passes prisma f,
                    ps,
                    passes_iff prisma f,
                    same,
                    ordered-InOrder ps ordered,
                    refl,
                    refl,
                  ),
                  rw (length-summaries (page_of (suc d) (skipped skip ps)))
                      (length-page_of (suc d) (skipped skip ps)),
                  enough,
                  needed,
                )
        ]
      ]
