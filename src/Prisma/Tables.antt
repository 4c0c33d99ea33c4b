-- ===== src/Prisma/Tables.antt =====
-- What the queries of Prisma.antt do to what a later query finds.
use mathplat.Common.{◌≡◌, refl, Bool, true, false, none, some, List, [], ◌∷◌, ◌++◌, arith, first}
use mathplat.Prisma.{change}

module _ {Row : Type 0} (p : Row → Bool) (f : Row → Row) where
  -- The row that is changed is found again.
  pub first-change :
      (r : Row) (rs : List Row)
      → ((s : Row) → p s ≡ true → p (f s) ≡ true)
      → first p rs ≡ some r
      → first p (change p f rs) ≡ some (f r)
  first-change r [] stays e = cc
  first-change r (s ∷ rs) stays e = ground (arith, stays s, first-change r rs stays)

  -- A query for rows of another kind finds what it found.
  pub first-change_apart :
      (q : Row → Bool) (rs : List Row)
      → ((s : Row) → p s ≡ true → (q s ≡ false) × (q (f s) ≡ false))
      → first q (change p f rs) ≡ first q rs
  first-change_apart q [] apart = refl
  first-change_apart q (s ∷ rs) apart = ground (arith, apart s, first-change_apart q rs apart)

module _ {Row : Type 0} (p : Row → Bool) where
  pub first-append_none : (rs ss : List Row) → first p rs ≡ none → first p (rs ++ ss) ≡ first p ss
  first-append_none [] ss e = refl
  first-append_none (r ∷ rs) ss e = ground (arith, first-append_none rs ss)

  pub first-append_other :
      (rs : List Row) (s : Row) → p s ≡ false → first p (rs ++ s ∷ []) ≡ first p rs
  first-append_other [] s e = rw e refl
  first-append_other (r ∷ rs) s e = ground (arith, first-append_other rs s)

  pub first-holds : (rs : List Row) (r : Row) → first p rs ≡ some r → p r ≡ true
  first-holds [] r e = cc
  first-holds (s ∷ rs) r e = ground (arith, first-holds rs r)
