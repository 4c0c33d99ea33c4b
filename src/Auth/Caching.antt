-- ===== src/Auth/Caching.antt =====
-- What auth/auth.service.ts relies on of the cache that it is given, and the cache of
-- core/cache/cache.service.ts as such a cache: its texts go in and out as JSON strings.
use Prim.Native.String.{[], ◌∷◌, ◌++◌}
use Prim.Native.Char.{Char, code}
use text.Mathlib.TextLemmas.{cons-append}
use mathplat.Common.{
  ℕ, String, ◌≡◌, refl, ap, true, false, Option, none, some, if◌then◌else◌, is_some, arith, ◌==◌,
  eq_iff, inl, inr, Bool-cases, Option-cases, List,
}
use mathplat.Common.Text.{◌⧺◌}
use mathplat.Common.Outcome.{ok}
use mathplat.Common.StrSet
use mathplat.Redis.{Redis, Json, IsServing, value}
use mathplat.Cache.{Cache, ready}
use mathplat.Cache.Reads
use mathplat.Cache.Reads.{decode}
use mathplat.Cache.Writes
use mathplat.Cache.Coherence.{read, get-view, set-view, del-view}
use mathplat.Auth.{CacheService, info_key, invalid_key}

first_code : String → ℕ
first_code [] = 0
first_code (c ∷ s) = code c

first_code-append : (c : Char) (l x : String) → first_code ((c ∷ l) ++ x) ≡ code c
unfolding first_code
first_code-append c l x = rw (cons-append c l x) refl

-- No user's key is a session's.
pub keys_apart : (user session : String) → (info_key user == invalid_key session) ≡ false
unfolding info_key invalid_key
keys_apart user session = elim (Bool-cases (info_key user == invalid_key session)) [
  | inr e ↦ e
  | inl e ↦
      let same : info_key user ≡ invalid_key session =
        (eq_iff (info_key user) (invalid_key session)).0 e in
      let one : first_code (info_key user) ≡ b'u' = first_code-append "u" "ser_info" (":" ⧺ user) in
      let other : first_code (invalid_key session) ≡ b's' =
        first_code-append "s" "ession_invalid" (":" ⧺ session) in
      let absurd : ⊥ = omega (arith, ap first_code same, one, other) in elim absurd [ ]
]

-- While the cache is ready, it stays so, and its contents, by key, are what was written.
pub record IsCaching {K : Type 0} (cache : CacheService K) : Type 1 where
  pub Ready : K → Type 0
  pub view : K → String → Option String
  pub get_lem :
      (key : String) (k : K)
      → Ready k
      → ((cache.get key k).0 ≡ ok (view k key))
        × Ready (cache.get key k).1
        × ((j : String) → view (cache.get key k).1 j ≡ view k j)
  pub exists_lem :
      (key : String) (k : K)
      → Ready k
      → ((cache.exists key k).0 ≡ ok (is_some (view k key)))
        × Ready (cache.exists key k).1
        × ((j : String) → view (cache.exists key k).1 j ≡ view k j)
  pub set_lem :
      (key text : String) (ttl : ℕ) (k : K)
      → Ready k
      → Ready (cache.set key text ttl k).1
        × ((j : String)
            → view (cache.set key text ttl k).1 j ≡ (if key == j then some text else view k j))
  pub del_lem :
      (key : String) (k : K)
      → Ready k
      → Ready (cache.del key k).1
        × ((j : String) → view (cache.del key k).1 j ≡ (if key == j then none else view k j))

module _ {R : Type 0} (redis : Redis R) (json : Json String) where
  -- The methods of `CacheService`, which never throw.
  abbrev pub redis_cache : CacheService (Cache R)
  redis_cache = record {
    get = λ key c. let (text, c') = Reads.get redis json key c in (ok text, c');
    set = λ key text ttl c. (ok tt, (Writes.set redis json key text (some ttl) c).1);
    del = λ key c. (ok tt, (Writes.del redis (List.◌∷◌ key List.[]) c).1);
    exists = λ key c. (ok (Reads.exists redis key c), c);
  }

  module _ (serving : IsServing redis)
      (stringify_ok : (s : String) → (t : String) × (json.stringify s ≡ ok t))
      (round_trip : (s t : String) → json.stringify s ≡ ok t → json.parse t ≡ value s) where
    unfoldable pub contents : Cache R → String → Option String
    contents c j = read json (serving.view c.server j)

    -- The service is ready, and no key holds a text that `JSON.parse` takes for `null`: `exists`
    -- would find it, and `get` would give nothing.
    pub record IsFilled (c : Cache R) : Type 0 where
      pub up : ready c ≡ true
      pub filled :
          (j s : String)
          → serving.view c.server j ≡ some s
          → (v : String) × (decode json s ≡ some v)

    pub exists-contents :
        (key : String) (c : Cache R)
        → IsFilled c
        → Reads.exists redis key c ≡ is_some (contents c key)
    unfolding Reads.exists contents
    exists-contents key c h = elim (Option-cases (serving.view c.server key)) [
      | inl e ↦ rw (h.up, serving.exists_lem key c.server, e) refl
      | inr (s, e) ↦ rw (h.up, serving.exists_lem key c.server, e, (h.filled key s e).1) refl
    ]

    pub set-contents :
        (key text : String) (ttl : ℕ) (c : Cache R)
        → IsFilled c
        → IsFilled (Writes.set redis json key text (some ttl) c).1
          × ((j : String)
              → contents (Writes.set redis json key text (some ttl) c).1 j
                ≡ (if key == j then some text else contents c j))
    unfolding contents
    set-contents key text ttl c h =
        let (t, kept) = stringify_ok text in
        let (still, views) = set-view redis json serving key text (some ttl) t c h.up kept in
        let back : json.parse t ≡ value text = round_trip text t kept in
        let own : decode json t ≡ some text = rw back refl in
        (
          record {
            up = still;
            filled = λ j s e. elim (Bool-cases (key == j)) [
              | inl it ↦ let same : t ≡ s = ground (arith, views j) in (text, rw (← same) own)
              | inr other ↦ h.filled j s (ground (arith, views j))
            ];
          },
          λ j. ground (arith, views j, back),
        )

    pub del-contents :
        (key : String) (c : Cache R)
        → IsFilled c
        → IsFilled (Writes.del redis (List.◌∷◌ key List.[]) c).1
          × ((j : String)
              → contents (Writes.del redis (List.◌∷◌ key List.[]) c).1 j
                ≡ (if key == j then none else contents c j))
    unfolding contents StrSet.has
    del-contents key c h =
        let (still, views) = del-view redis json serving (List.◌∷◌ key List.[]) c h.up in
        (
          record { up = still; filled = λ j s e. h.filled j s (ground (arith, views j)) },
          λ j. ground (arith, views j),
        )

    pub get-contents :
        (key : String) (c : Cache R)
        → IsFilled c
        → ((Reads.get redis json key c).0 ≡ contents c key)
          × IsFilled (Reads.get redis json key c).1
          × ((j : String) → contents (Reads.get redis json key c).1 j ≡ contents c j)
    unfolding contents
    get-contents key c h =
        let (found, still, same) = get-view redis json serving key c h.up in
        (
          found,
          record { up = still; filled = λ j s e. h.filled j s (rw same at e) },
          λ j. rw same refl,
        )

    -- The Redis cache is one that AuthService may rely on.
    abbrev pub redis_cache-IsCaching : IsCaching redis_cache
    redis_cache-IsCaching = record {
      Ready = IsFilled;
      view = contents;
      get_lem = λ key c up.
          let (found, still, same) = get-contents key c up in (ap ok found, still, same);
      exists_lem = λ key c up. (ap ok (exists-contents key c up), up, λ j. refl);
      set_lem = λ key text ttl c up. set-contents key text ttl c up;
      del_lem = λ key c up. del-contents key c up;
    }
