-- ===== src/Cache/Tests.antt =====
-- The theorems on core/cache/cache.service.ts at a small cache.
use mathplat.Common.{
  ◌⊎◌, ◌++◌, ◌+◌, ◌≡◌, refl, String, true, false, none, some, List, [], ◌∷◌, if◌then◌else◌, ◌==◌,
}
use mathplat.Common.Outcome.{ok, throws, fault}
use mathplat.Common.StrSet
use mathplat.Redis.{Json, Write, value}
use mathplat.Cache.{Cache, Entry, ready}
use mathplat.Cache.Reads.{get, mget}
use mathplat.Cache.Writes.{set, del, mset, pipeline}
use mathplat.Cache.Counting.{get_counts, mget-get_each, get_each, Found, Missed}
use mathplat.Cache.Contents.{get-set, get-del}
use mathplat.Cache.Bulk.{set_each, mset-set_each, mset-throws}
use mathplat.Samples.{Server, server, server-IsServing, ready_on, plain}

-- A server that holds one text.
abbrev stored : Server
stored = record { texts = λ j. if "a" == j then some "1" else none; counts = λ j. 0 }

abbrev cache : Cache Server
cache = ready_on stored

abbrev entries : List (Entry String)
entries =
    record { key = "a"; value = "2"; ttl = some 60 }
    ∷ record { key = "b"; value = "3"; ttl = none }
    ∷ record { key = "a"; value = "4"; ttl = none }
    ∷ []

abbrev writes : List Write
writes =
    record { key = "a"; text = "2"; ttl = some 60 }
    ∷ record { key = "b"; text = "3"; ttl = none }
    ∷ record { key = "a"; text = "4"; ttl = none }
    ∷ []

-- A value with no JSON text.
abbrev circular : Json String
circular = record {
  stringify = λ s. if s == "3" then throws (fault "circular") else ok s;
  parse = λ s. value s;
  text = λ s. s;
}

get_counts_example :
    (((get server plain "a" cache).1.stats.hits ≡ 0 + 1)
        × ((get server plain "a" cache).1.stats.misses ≡ 0)
        × Found server plain "a" cache
      ⊎ ((get server plain "a" cache).1.stats.hits ≡ 0)
        × ((get server plain "a" cache).1.stats.misses ≡ 0 + 1)
        × Missed server plain "a" cache)
    × ((get server plain "a" cache).1.server ≡ stored)
    × (ready (get server plain "a" cache).1 ≡ true)
get_counts_example = get_counts server plain "a" cache

mget-get_each_example :
    mget server plain ("a" ∷ "b" ∷ "a" ∷ []) cache
    ≡ get_each server plain ("a" ∷ "b" ∷ "a" ∷ []) cache
mget-get_each_example =
    mget-get_each server plain server-IsServing ("a" ∷ "b" ∷ "a" ∷ []) cache refl

get-set_example :
    ((set server plain "b" "2" (some 60) cache).0 ≡ true)
    × ((get server plain "b" (set server plain "b" "2" (some 60) cache).1).0
        ≡ (if "b" == "b" then some "2" else (get server plain "b" cache).0))
get-set_example =
    get-set server plain server-IsServing "b" "b" "2" (some 60) "2" cache refl refl refl

get-del_example :
    (get server plain "a" (del server ("b" ∷ "a" ∷ []) cache).1).0
    ≡ (if StrSet.has "a" ("b" ∷ "a" ∷ []) then none else (get server plain "a" cache).0)
get-del_example = get-del server plain server-IsServing ("b" ∷ "a" ∷ []) "a" cache refl

sent : pipeline server plain entries ≡ ok writes
unfolding pipeline
sent = refl

mset-set_each_example :
    (get server plain "a" (mset server plain entries cache).1).0
    ≡ (get server plain "a" (set_each server plain entries cache)).0
mset-set_each_example =
    mset-set_each server plain server-IsServing entries writes cache "a" refl sent

abbrev broken : Entry String
broken = record { key = "b"; value = "3"; ttl = none }

mset-throws_example : mset server circular (entries ++ broken ∷ []) cache ≡ (false, cache)
mset-throws_example = mset-throws server circular entries [] broken (fault "circular") cache refl
