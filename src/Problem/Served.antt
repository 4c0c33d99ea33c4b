-- ===== src/Problem/Served.antt =====
-- What problem/problem.service.ts serves: the row of the table, whether it comes from the cache or
-- not, after any operations.
use mathplat.Common.{
  String, ◌≡◌, refl, sym, subst, Option, none, some, List, [], ◌∷◌, arith, first, ◌⊎◌, inl, inr,
  Bool, true, All,
}
use mathplat.Common.Outcome.{Outcome, ok, throws, Exception, fault, pure, throw}
use mathplat.Common.Triple.{Triple, Post, bind, Keeps-state}
use mathplat.Redis.{Redis, Json, IsServing, value}
use mathplat.Prisma.{Prisma, IsStore}
use mathplat.Cache.Reads.{get, decode}
use mathplat.Cache.Writes.{set}
use mathplat.Cache.Coherence.{get-view, read, set-IsCoherent, get-IsCoherent}
use mathplat.Cache.Keys
use mathplat.Cache.Ttl
use mathplat.Cache.Keys.{problem-injective}
use mathplat.World.{Problem, World, cached}
use mathplat.Problem.Calls.{Call, creates, finds, updates, deletes, counts, call, calls}
use mathplat.Problem.Rows.{live, find_by_id}
use mathplat.Problem.{find_problem, not_found, found_or_cached, cached_or_found}
use mathplat.Problem.Fresh.{
  IsFresh, current_in, create_problem-IsFresh, update_problem-IsFresh, delete_problem-IsFresh,
  update_stats-IsFresh,
}

-- A problem but for its dates, of which JSON makes texts.
abbrev pub dateless : Problem → Problem
dateless p = record p { created_at = 0; updated_at = 0; deleted_at = none }

-- The spelling of the identifier that a call is given.
abbrev pub is_spelled : (String → Bool) → Call → Bool
is_spelled spelled (creates dto) = true
is_spelled spelled (finds id) = spelled id
is_spelled spelled (updates id dto) = spelled id
is_spelled spelled (deletes id) = spelled id
is_spelled spelled (counts id solved rate) = spelled id

module _ {T : Type 0 → Type 0} {R : Type 0} (prisma : Prisma T) (redis : Redis R)
    (json : Json Problem) (store : IsStore prisma) (serving : IsServing redis)
    (spelled : String → Bool)
    (one_spelling : (a b : String)
      → spelled a ≡ true
      → spelled b ≡ true
      → prisma.collate a ≡ prisma.collate b
      → a ≡ b)
    (round_trip : (p : Problem) (s : String)
      → json.stringify p ≡ ok s
      → (q : Problem) × (json.parse s ≡ value q) × (dateless q ≡ dateless p)) where
  open store use {rows}
  open serving use {view}

  abbrev pub Fresh : World T R → Type 0
  Fresh w = IsFresh prisma redis json store serving spelled one_spelling w

  abbrev pub now_at : World T R → String → Option Problem
  now_at w id = first (live prisma id) (rows w.problems)

  -- The row itself.
  abbrev Stands : String → Problem → World T R → Type 0
  Stands id p w = Fresh w × (now_at w id ≡ some p)

  -- The row, but for its dates.
  abbrev pub Served : String → Problem → World T R → Type 0
  Served id p w = Fresh w × (row : Problem) × (now_at w id ≡ some row) × (dateless p ≡ dateless row)

  -- 404 only if there is no such problem
  abbrev pub Refused : String → Exception → World T R → Type 0
  Refused id e w =
      Fresh w
      × ((e ≡ not_found "Problem not found") × (now_at w id ≡ none)
          ⊎ ((m : String) × (e ≡ fault m)))

  -- A hit is the row that the table has.
  abbrev Hit : String → Option Problem → World T R → Type 0
  Hit id none w = Fresh w
  Hit id (some p) w = Served id p w

  Hit-of_view :
      (id : String) (w : World T R) (o : Option String)
      → Fresh w
      → view w.cache.server (Keys.problem id) ≡ o
      → Hit id (read json o) w
  Hit-of_view id w none h e = h
  Hit-of_view id w (some s) h e =
      let (p, now, kept) = h.coherent.fresh id s e in
      let (q, back, alike) = round_trip p s kept in
      let same : decode json s ≡ some q = rw back refl in rw same (h, p, ground (arith, now), alike)

  lookup-Hit :
      (id : String)
      → Triple Fresh (cached {T = T} (get redis json (Keys.problem id))) (Hit id) (Refused id)
  lookup-Hit id = record {
    at = λ w h.
        let c = (get redis json (Keys.problem id) w.cache).1 in
        let after : World T R = record w { cache = c } in
        let kept : Fresh after = record {
          coherent =
              get-IsCoherent redis json serving
                (current_in prisma redis json store serving spelled one_spelling (rows w.problems))
                (Keys.problem id) w.cache h.coherent;
        } in
        let (found, still, same) =
          get-view redis json serving (Keys.problem id) w.cache h.coherent.up in
        subst (λ o. Hit id o after) (sym found)
          (Hit-of_view id after (view w.cache.server (Keys.problem id)) kept (rw same));
  }

  cache-Stands :
      (id : String) (p : Problem)
      → spelled id ≡ true
      → Triple
          (Stands id p)
          (cached {T = T} (set redis json (Keys.problem id) p (some Ttl.problem)))
          (λ _ w. Stands id p w)
          (Refused id)
  cache-Stands id p used = record {
    at = λ w (h, now). (
      record {
        coherent =
            set-IsCoherent redis json serving problem-injective
              (current_in prisma redis json store serving spelled one_spelling (rows w.problems)) id
              p (some Ttl.problem) w.cache (rw used now) h.coherent;
      },
      now,
    );
  }

  search-Served :
      (id : String)
      → Triple Fresh
          (find_by_id {R = R} prisma id)
          (λ o w. Fresh w × (now_at w id ≡ o))
          (Refused id)
  unfolding find_by_id
  search-Served id = record {
    at = λ w h. elim (store.find_first_lem (live prisma id) w.problems) [
      | inl done ↦ rw done (h, refl)
      | inr (e, failed) ↦ rw failed (h, inr (e, refl))
    ];
  }

  not_found-Refused :
      (id : String)
      → Triple
          (λ w. Fresh w × (now_at w id ≡ none))
          (throw {W = World T R} {A = Problem} (not_found "Problem not found"))
          (λ p w. Served id p w)
          (Refused id)
  not_found-Refused id = record { at = λ w (h, gone). (h, inl (refl, gone)) }

  pure-Served :
      (id : String) (p : Problem)
      → Triple (Served id p) (pure p) (λ q w. Served id q w) (Refused id)
  pure-Served id p = record { at = λ w h. h }

  pure-Stands :
      (id : String) (p : Problem)
      → Triple (Stands id p) (pure p) (λ q w. Served id q w) (Refused id)
  pure-Stands id p = record { at = λ w (h, now). (h, p, now, refl) }

  found-Served :
      (id : String) (o : Option Problem)
      → spelled id ≡ true
      → Triple
          (λ w. Fresh w × (now_at w id ≡ o))
          (found_or_cached {T = T} prisma redis json id o)
          (λ p w. Served id p w)
          (Refused id)
  found-Served id none used = not_found-Refused id
  found-Served id (some p) used = bind (cache-Stands id p used) λ _. pure-Stands id p

  Hit-Served :
      (id : String) (o : Option Problem)
      → spelled id ≡ true
      → Triple
          (Hit id o)
          (cached_or_found {T = T} prisma redis json id o)
          (λ p w. Served id p w)
          (Refused id)
  Hit-Served id (some p) used = pure-Served id p
  Hit-Served id none used = bind (search-Served id) λ found. found-Served id found used

  find_problem-Served :
      (id : String)
      → spelled id ≡ true
      → Triple Fresh (find_problem {T = T} prisma redis json id) (λ p w. Served id p w) (Refused id)
  unfolding find_problem
  find_problem-Served id used = bind (lookup-Hit id) λ hit. Hit-Served id hit used

  Served-state :
      (id : String) (r : Outcome Problem) (w : World T R)
      → Post (λ p w. Served id p w) (Refused id) r w
      → Fresh w
  Served-state id (ok p) w h = h.0
  Served-state id (throws e) w h = h.0

  call-Fresh :
      (c : Call) (w : World T R)
      → is_spelled spelled c ≡ true
      → Fresh w
      → Fresh (call prisma redis json c w)
  unfolding call
  call-Fresh (creates dto) w used h =
      Keeps-state (create_problem-IsFresh prisma redis json store serving spelled one_spelling dto)
        w h
  call-Fresh (finds id) w used h =
      let (r, v) = find_problem prisma redis json id w in
      Served-state id r v ((find_problem-Served id used).at w h)
  call-Fresh (updates id dto) w used h =
      Keeps-state
        (update_problem-IsFresh prisma redis json store serving spelled one_spelling id dto used) w
        h
  call-Fresh (deletes id) w used h =
      Keeps-state
        (delete_problem-IsFresh prisma redis json store serving spelled one_spelling id used) w h
  call-Fresh (counts id solved rate) w used h =
      Keeps-state
        (update_stats-IsFresh prisma redis json store serving spelled one_spelling id solved rate
          used)
        w h

  calls-Fresh :
      (cs : List Call) (w : World T R)
      → All (λ c. is_spelled spelled c ≡ true) cs
      → Fresh w
      → Fresh (calls prisma redis json cs w)
  unfolding calls
  calls-Fresh [] w used h = h
  calls-Fresh (c ∷ cs) w (used, more) h =
      calls-Fresh cs (call prisma redis json c w) more (call-Fresh c w used h)

  -- Cached problems are not stale, as long as no identifier is given in two spellings that the database takes
  -- for one. With a cache server that answers, a database that keeps its laws, JSON that gives back
  -- what it took but for the dates, and `spelled` telling which spellings of identifiers are used,
  -- no two of them equal for the database, from a state whose cache holds nothing stale: after any
  -- calls with such identifiers, failed ones included, `findById` of such an identifier returns, but
  -- for the dates, the row that the table has under it, deleted rows left out; it throws 404 only if
  -- there is none, and otherwise only what the database throws.
  pub find_problem-calls :
      (cs : List Call) (id : String) (w : World T R)
      → All (λ c. is_spelled spelled c ≡ true) cs
      → spelled id ≡ true
      → Fresh w
      → Post
          (λ p v. Served id p v)
          (Refused id)
          (find_problem prisma redis json id (calls prisma redis json cs w)).0
          (find_problem prisma redis json id (calls prisma redis json cs w)).1
  find_problem-calls cs id w used this h =
      (find_problem-Served id this).at (calls prisma redis json cs w) (calls-Fresh cs w used h)
