-- ===== src/Samples.antt =====
-- Concrete clients of Redis and of the database for the examples: a server that keeps its texts and
-- counters as functions of the key, and tables that are lists.
use mathlib.Core.List.Perm
use mathplat.Common.{
  ◌≡◌, ℕ, ◌+◌, ◌-◌, String, refl, Bool, true, if◌then◌else◌, Option, none, some, List, [], ◌∷◌,
  ◌++◌, ◌==◌, map, keep, first, length, inl, inr, Option-cases, Bool-cases, eq_iff, eq_refl, ap,
}
use mathplat.Common.Int.{pos, negsuc}
use mathplat.Common.Outcome.{Outcome, ok, throws, fault}
use mathplat.Common.StrSet
use mathplat.Redis.{value, refused, one_if_there, Redis, Json, IsServing, IsCounting, written}
use mathplat.Prisma.{skipped, page_of, is_ordered, Prisma, IsStore, change, change_all}
use mathplat.Common.JsonValue.{num}
use mathplat.World.{Problem, multiple_choice, UserStats, World}
use mathplat.Cache.{Cache, direct}

pub record Server : Type 0 where
  pub texts : String → Option String
  pub counts : String → ℕ

abbrev pub empty : Server
empty = record { texts = λ j. none; counts = λ j. 0 }

-- A server that answers every command.
abbrev pub server : Redis Server
server = record {
  create = λ host port password r. (ok tt, r);
  create_cluster = λ nodes password r. (ok tt, r);
  connect = λ r. (ok tt, r);
  quit = λ r. (ok tt, r);
  get = λ k r. ok (r.texts k);
  set = λ w r. (ok tt, record r { texts = λ j. if w.key == j then some w.text else r.texts j });
  del = λ ks r.
      (ok (length ks), record r { texts = λ j. if StrSet.has j ks then none else r.texts j });
  exists = λ k r. ok (one_if_there (r.texts k));
  expire = λ k s r. (ok 1, r);
  ttl = λ k r. ok (negsuc 0);
  keys = λ p r. ok [];
  incr = λ k r. (
    ok (pos (r.counts k + 1)),
    record r { counts = λ j. if k == j then r.counts k + 1 else r.counts j },
  );
  decr = λ k r. (
    ok (pos (r.counts k - 1)),
    record r { counts = λ j. if k == j then r.counts k - 1 else r.counts j },
  );
  mget = λ ks r. ok (map r.texts ks);
  exec = λ ws r. (ok tt, record r { texts = λ j. written ws (r.texts j) j });
  flushdb = λ r. (ok tt, empty);
  ping = λ r. ok "PONG";
}

abbrev pub server-IsServing : IsServing server
server-IsServing = record {
  view = λ r. r.texts;
  get_lem = λ k r. refl;
  exists_lem = λ k r. refl;
  set_ok = λ w r. refl;
  set_view = λ w r j. refl;
  del_view = λ ks r j. refl;
  exec_view = λ ws r j. refl;
  exec_ok = λ ws r. refl;
  mget_lem = λ ks r. refl;
}

abbrev pub server-IsCounting : IsCounting server
server-IsCounting = record {
  counter = λ r. r.counts;
  incr_ok = λ k r. refl;
  incr_counter = λ k r j. refl;
  expire_counter = λ k s r j. refl;
}

-- A service that is ready.
abbrev pub ready_on : Server → Cache Server
ready_on r = record {
  settings = record {
    mode = direct;
    enabled = true;
    host = "localhost";
    port = 6379;
    password = none;
    cluster_nodes = "";
  };
  client = true;
  stats = record { hits = 0; misses = 0; keys = 0; connected = true };
  server = r;
}

-- Texts that stand for themselves.
abbrev pub plain : Json String
plain = record { stringify = λ s. ok s; parse = λ s. value s; text = λ s. s }

abbrev or_fault {ℓ} : {A : Type ℓ} → Option A → Outcome A
or_fault none = throws (fault "P2025")
or_fault (some a) = ok a

abbrev upserted :
    {Row : Type 0}
    → Option Row
    → (Row → Bool)
    → (Row → Row)
    → (String → Row)
    → List Row
    → Outcome Row × List Row
upserted (some r) p f mk t = (ok (f r), change p f t)
upserted none p f mk t = (ok (mk "new"), t ++ mk "new" ∷ [])

abbrev updated :
    {Row : Type 0} → Option Row → (Row → Bool) → (Row → Row) → List Row → Outcome Row × List Row
updated (some r) p f t = (ok (f r), change p f t)
updated none p f t = (throws (fault "P2025"), t)

abbrev beside : {Row Other : Type 0} → Row → Option Other → Outcome (Option (Row × Other))
beside r none = throws (fault "no row")
beside r (some s) = ok (some (r, s))

abbrev included :
    {Row Other : Type 0}
    → (Row → Other → Bool)
    → Option Row
    → List Other
    → Outcome (Option (Row × Other))
included refers none o = ok none
included refers (some r) o = beside r (first (refers r) o)

-- Tables as lists, which give pages of rows that are sorted already; every new row is called `new`.
abbrev pub tables : Prisma List
tables = record {
  collate = λ s. s;
  find_first = λ p t. ok (first p t);
  find_many = λ p t. ok (keep p t);
  find_page = λ p before skip n t.
      if is_ordered before (keep p t)
      then ok (page_of n (skipped skip (keep p t)))
      else throws (fault "not sorted");
  count = λ p t. ok (length (keep p t));
  create = λ mk t. (ok (mk "new"), t ++ mk "new" ∷ []);
  update = λ p f t. updated (first p t) p f t;
  upsert = λ p f mk t. upserted (first p t) p f mk t;
  update_many = λ p f t. (ok (length (keep p t)), change_all p f t);
  find_first_with = λ p refers t o. included refers (first p t) o;
}

abbrev pub tables-IsStore : IsStore tables
tables-IsStore = record {
  rows = λ t. t;
  find_first_lem = λ p t. inl refl;
  find_many_lem = λ p t. inl refl;
  find_page_lem = λ p before skip n t. elim (Bool-cases (is_ordered before (keep p t))) [
    | inl e ↦ inl (keep p t, Perm.refl (keep p t), e, rw e refl)
    | inr e ↦ inr ("not sorted", rw e refl)
  ];
  count_lem = λ p t. inl refl;
  create_lem = λ mk t. inl ("new", refl, refl);
  update_lem = λ p f t. elim (Option-cases (first p t)) [
    | inl e ↦ inr ("P2025", rw e refl, rw e refl)
    | inr (r, e) ↦ inl (r, e, rw e refl, rw e refl)
  ];
  upsert_lem = λ p f mk t. elim (Option-cases (first p t)) [
    | inl e ↦ inr (inl ("new", e, rw e refl, rw e refl))
    | inr (r, e) ↦ inl (r, e, rw e refl, rw e refl)
  ];
  update_many_lem = λ p f t. inl (_, refl, refl);
  find_first_with_lem = λ p refers t o. elim (Option-cases (first p t)) [
    | inl e ↦ inl (e, rw e refl)
    | inr (r, e) ↦ elim (Option-cases (first (refers r) o)) [
      | inl missing ↦ inr (inr ("no row", rw (e, missing) refl))
      | inr (s, there) ↦ inr (inl (r, s, e, there, rw (e, there) refl))
    ]
  ];
}

-- Empty tables, and a cache that is ready.
abbrev pub blank : World List Server
blank = record {
  problems = [];
  attempts = [];
  progress = [];
  achievements = [];
  user_achievements = [];
  stats = [];
  cache = ready_on empty;
  now = 1;
}

module _ {V : Type 0} where
  abbrev text_of : (a : V) {v : V} → Dec (v ≡ a) → Outcome String
  text_of a (yes e) = ok "known"
  text_of a (no e) = throws (fault "unknown")

  -- JSON that knows one value.
  abbrev pub known : Discrete V → V → Json V
  known equal a = record {
    stringify = λ v. text_of a (equal v a);
    parse = λ s. if s == "known" then value a else refused;
    text = λ s. a;
  }

  known_text :
      (equal : Discrete V) (a v : V) (d : Dec (v ≡ a)) (s : String)
      → text_of a d ≡ ok s
      → (known equal a).parse s ≡ value v
  known_text equal a v (yes e) s h = let same : "known" ≡ s = cc in rw (← same, e) refl
  known_text equal a v (no e) s h = cc

  pub known-round_trip :
      (equal : Discrete V) (a v : V) (s : String)
      → (known equal a).stringify v ≡ ok s
      → (known equal a).parse s ≡ value v
  known-round_trip equal a v s h = known_text equal a v (equal v a) s h

pub string_discrete : Discrete String
string_discrete a b = elim (Bool-cases (a == b)) [
  | inl e ↦ yes ((eq_iff a b).0 e)
  | inr e ↦ no (λ h. cc (ap (λ c. a == c) h, eq_refl a))
]

abbrev pub sum : Problem
sum = record {
  id = "p1";
  topic_id = "t1";
  objective_id = none;
  content = "1 + 1";
  kind = multiple_choice;
  difficulty = 1;
  answer = num "2";
  solution = num "2";
  hints = none;
  concept_tags = none;
  estimated_time = 60;
  solve_count = 0;
  correct_rate = record { over = 0; under = 0 };
  created_at = 0;
  updated_at = 0;
  deleted_at = none;
}

abbrev pub beginner : UserStats
beginner = record {
  id = "s1";
  user_id = "u1";
  total_xp = 0;
  level = 1;
  current_streak = 0;
  longest_streak = 0;
  total_problems_solved = 0;
  total_study_time = 0;
  created_at = 0;
  updated_at = 0;
  deleted_at = none;
}
