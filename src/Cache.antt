-- ===== src/Cache.antt =====
-- core/cache/cache.service.ts: the Redis cache. A method never throws: it returns its value and the
-- service that it leaves. Log lines are left out.
pub mod Reads
pub mod Writes
pub mod Counting
pub mod Contents
pub mod Bulk
pub mod Coherence
pub mod Keys
pub mod Ttl
mod Tests
use mathplat.Common.{
  ℕ, zero, suc, ◌+◌, if◌then◌else◌, String, Bool, true, false, not, ◌&&◌, ◌||◌, Option, none, some,
  List, [], ◌∷◌, map, keep,
}
use mathplat.Common.Outcome.{Outcome, ok, throws, Done}
use mathplat.Common.Text.{split, trim, parse_int, is_empty}
use mathplat.Redis.{Redis, Node}

pub data Mode : Type 0 where
  direct cluster : Mode

-- The settings that the constructor and `onModuleInit` read.
pub record Settings : Type 0 where
  pub mode : Mode
  pub enabled : Bool
  pub host : String
  pub port : ℕ
  pub password : Option String
  pub cluster_nodes : String

-- `CacheStats`
pub record Stats : Type 0 where
  pub hits : ℕ
  pub misses : ℕ
  pub keys : ℕ
  pub connected : Bool

-- The service, with the state `R` of the server behind its client.
pub record Cache (R : Type 0) : Type 0 where
  pub settings : Settings
  -- whether `this.client` is set
  pub client : Bool
  pub stats : Stats
  pub server : R

-- An entry of `mset`.
pub record Entry (V : Type 0) : Type 0 where
  pub key : String
  pub value : V
  pub ttl : Option ℕ

-- One configured node, `host:port`.
abbrev to_node : List String → Node
to_node (host ∷ port ∷ _) = record { host = host; port = parse_int port }
to_node (host ∷ []) = record { host = host; port = none }
to_node [] = record { host = ""; port = none }

unfoldable pub parse_nodes : String → List Node
parse_nodes config =
    map (λ node. to_node (split b':' (trim node)))
      (keep (λ node. not (is_empty node)) (split b',' config))

abbrev pub positive : Option ℕ → Option ℕ
positive none = none
positive (some zero) = none
positive (some (suc n)) = some (suc n)

module _ {R : Type 0} where
  abbrev pub ready : Cache R → Bool
  ready c = c.client && c.stats.connected

  abbrev pub miss : Cache R → Cache R
  miss c = record c { stats = record c.stats { misses = c.stats.misses + 1 } }

  abbrev pub hit : Cache R → Cache R
  hit c = record c { stats = record c.stats { hits = c.stats.hits + 1 } }

  abbrev set_connected : Bool → Cache R → Cache R
  set_connected b c = record c { stats = record c.stats { connected = b } }

  -- The constructor: no client, nothing counted.
  unfoldable pub create : Settings → R → Cache R
  create settings server = record {
    settings = settings;
    client = false;
    stats = record { hits = 0; misses = 0; keys = 0; connected = false };
    server = server;
  }

  -- `getStats`, `isConnected`, `getMode`, `isEnabled`
  abbrev pub get_stats : Cache R → Stats
  get_stats c = c.stats

  abbrev pub is_connected : Cache R → Bool
  is_connected c = c.stats.connected

  abbrev pub get_mode : Cache R → Mode
  get_mode c = c.settings.mode

  abbrev pub is_enabled : Cache R → Bool
  is_enabled c = c.settings.enabled

module _ {R : Type 0} (redis : Redis R) where
  -- The end of `onModuleInit`: connected, or the `catch`.
  abbrev attempted : Cache R → Bool → Outcome Done × R → Cache R
  attempted c made (ok _, r) = set_connected true (record c { client = true; server = r })
  attempted c made (throws e, r) =
      set_connected false (record c { client = c.client || made; server = r })

  -- In cluster mode the client is set only if its constructor returns.
  abbrev init_cluster : List Node → Cache R → Cache R
  init_cluster [] c = set_connected false c
  init_cluster (n ∷ ns) c =
      attempted c false (redis.create_cluster (n ∷ ns) c.settings.password c.server)

  -- In direct mode the client is set before it connects.
  abbrev connect_direct : Cache R → Outcome Done × R → Cache R
  connect_direct c (throws e, r) = set_connected false (record c { server = r })
  connect_direct c (ok _, r) = attempted c true (redis.connect r)

  abbrev init_mode : Mode → Cache R → Cache R
  init_mode cluster c = init_cluster (parse_nodes c.settings.cluster_nodes) c
  init_mode direct c =
      connect_direct c (redis.create c.settings.host c.settings.port c.settings.password c.server)

  unfoldable pub on_module_init : Cache R → Cache R
  on_module_init c = if c.settings.enabled then init_mode c.settings.mode c else c

  abbrev closed : Cache R → Outcome Done × R → Cache R
  closed c (ok _, r) = set_connected false (record c { server = r })
  closed c (throws e, r) = record c { server = r }

  unfoldable pub on_module_destroy : Cache R → Cache R
  on_module_destroy c = if c.client then closed c (redis.quit c.server) else c
