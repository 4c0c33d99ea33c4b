-- ===== src/Cache/Bulk.antt =====
-- `mset` of core/cache/cache.service.ts against one `set` after another.
use mathplat.Common.{
  ◌++◌, inl, inr, ◌≡◌, refl, String, true, false, some, List, [], ◌∷◌, arith, if◌then◌else◌, ◌==◌,
  ◌∙◌,
}
use mathplat.Common.Outcome.{Outcome-cases, ok, throws, Exception}
use mathplat.Redis.{Redis, Json, IsServing, Write, written}
use mathplat.Cache.{Cache, Entry, ready, positive}
use mathplat.Cache.Reads.{get}
use mathplat.Cache.Writes.{set, mset, pipeline}
use mathplat.Cache.Coherence.{get-view}

module _ {R V : Type 0} (redis : Redis R) (json : Json V) where
  -- The same entries set one at a time.
  abbrev pub set_each : List (Entry V) → Cache R → Cache R
  set_each [] c = c
  set_each (e ∷ es) c = set_each es (set redis json e.key e.value e.ttl c).1

  pipeline-refused :
      (before after : List (Entry V)) (x : Entry V) (e : Exception)
      → json.stringify x.value ≡ throws e
      → (f : Exception) × (pipeline redis json (before ++ x ∷ after) ≡ throws f)
  unfolding pipeline
  pipeline-refused [] after x e h = (e, ground arith)
  pipeline-refused (b ∷ before) after x e h =
      let (f, later) = pipeline-refused before after x e h in
      elim (Outcome-cases (json.stringify b.value)) [
        | inl (s, kept) ↦ (f, ground arith)
        | inr (g, refused) ↦ (g, ground arith)
      ]

  -- If `JSON.stringify` refuses the value of any entry, whatever stands before and after it, `mset`
  -- fails and nothing is written, not even the entries before it.
  pub mset-throws :
      (before after : List (Entry V)) (x : Entry V) (e : Exception) (c : Cache R)
      → json.stringify x.value ≡ throws e
      → mset redis json (before ++ x ∷ after) c ≡ (false, c)
  unfolding mset
  mset-throws [] after x e c h = let (f, refused) = pipeline-refused [] after x e h in ground arith
  mset-throws (b ∷ before) after x e c h =
      let (f, refused) = pipeline-refused (b ∷ before) after x e h in ground arith

  module _ (serving : IsServing redis) where
    open serving use {view, set_view, exec_ok, exec_view}

    set-view :
        (e : Entry V) (s : String) (c : Cache R) (j : String)
        → ready c ≡ true
        → json.stringify e.value ≡ ok s
        → (ready (set redis json e.key e.value e.ttl c).1 ≡ true)
          × (view (set redis json e.key e.value e.ttl c).1.server j
              ≡ (if e.key == j then some s else view c.server j))
    unfolding set
    set-view e s c j up h =
        ground (arith, set_view (record { key = e.key; text = s; ttl = positive e.ttl }) c.server j)

    pipeline-eq-ok :
        (e : Entry V) (es : List (Entry V)) (ws : List Write)
        → pipeline redis json (e ∷ es) ≡ ok ws
        → (s : String) × (vs : List Write) × (json.stringify e.value ≡ ok s)
          × (pipeline redis json es ≡ ok vs)
          × (ws ≡ record { key = e.key; text = s; ttl = positive e.ttl } ∷ vs)
    unfolding pipeline
    pipeline-eq-ok e es ws h = ground arith

    set_each-view :
        (es : List (Entry V)) (ws : List Write) (c : Cache R) (j : String)
        → ready c ≡ true
        → pipeline redis json es ≡ ok ws
        → (ready (set_each es c) ≡ true)
          × (view (set_each es c).server j ≡ written ws (view c.server j) j)
    unfolding pipeline
    set_each-view [] ws c j up h = ground arith
    set_each-view (e ∷ es) ws c j up h =
        let (s, vs, one, rest, whole) = pipeline-eq-ok e es ws h in
        let (alive, here) = set-view e s c j up one in
        let (still, there) =
          set_each-view es vs (set redis json e.key e.value e.ttl c).1 j alive rest in
        (still, there ∙ (rw (here, whole)))

    -- With a server that answers and values that all have a JSON text, every key reads after one `mset`
    -- as it would after setting the entries in turn.
    pub mset-set_each :
        (es : List (Entry V)) (ws : List Write) (c : Cache R) (j : String)
        → ready c ≡ true
        → pipeline redis json es ≡ ok ws
        → (get redis json j (mset redis json es c).1).0 ≡ (get redis json j (set_each es c)).0
    unfolding mset
    mset-set_each [] ws c j up h = refl
    mset-set_each (e ∷ es) ws c j up h =
        let (still, there) = set_each-view (e ∷ es) ws c j up h in
        ground (
          arith,
          exec_ok ws c.server,
          exec_view ws c.server j,
          get-view redis json serving j (set_each (e ∷ es) c) still,
          get-view redis json serving j (mset redis json (e ∷ es) c).1,
        )
