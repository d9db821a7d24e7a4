-- ===== src/Examples/SetUp.antt =====
-- The theorems on the set-up of providers at concrete inputs.
use wp_knowledge.Base.{
  ℕ, ◌≡◌, refl, true, false, List, [], ◌∷◌, Option, none, some, Bytes, ℕ_discrete,
}
use wp_knowledge.Base.Model.{Bytes-discrete}
use wp_knowledge.Base.Text.{codes}
use wp_knowledge.Runtime.Types.{KnowledgeResult}
use wp_knowledge.Runtime.State.{provider_exists}
use wp_knowledge.Fun.{RedisServer}
use wp_knowledge.Facade.Specs.{SqlProviderKind, SqlProviderSpec, CacheSpec, KnowDbConf}
use wp_knowledge.Facade.Setup.{Drivers, HostOver, init_sqldb}
use wp_knowledge.Facade.Registered.{has_name, provider_exists-init_sqldb}
use wp_knowledge.Examples.World.{results, redis, provider, State, one}

abbrev drivers : Drivers ℕ Bytes
drivers = record {
  from_seed = λ kind seed. seed;
  connect_postgres = λ name config id g. KnowledgeResult.ok (provider name);
  connect_mysql = λ config id g. KnowledgeResult.ok (provider id);
  thread_cloned = λ uri id g. provider uri;
  init_redis = λ uri. KnowledgeResult.ok tt;
  build_authority = λ uri. KnowledgeResult.ok tt;
}

abbrev host : State → HostOver drivers results redis
host rt = record { runtime = rt; funs = none; redis_ready = false }

abbrev spec : Option Bytes → SqlProviderKind → SqlProviderSpec
spec name kind = record {
  name = name;
  kind = kind;
  connection_uri = codes "db";
  pool_size = some 4;
  min_connections = none;
  acquire_timeout_ms = none;
  idle_timeout_ms = none;
  max_lifetime_ms = none;
  postgres_session = none;
}

abbrev cache : CacheSpec
cache = record { enabled = true; capacity = 8; ttl_ms = 0 }

-- The default provider `one` has been installed before, and stands in the registry.
provider_exists-init_sqldb_example :
    provider_exists
      (codes "default")
      (init_sqldb drivers results redis cache
        (spec (some (codes "a")) SqlProviderKind.postgres)
        (spec (some (codes "b")) SqlProviderKind.mysql ∷ [])
        (host one)).0.runtime
    ≡ has_name (codes "default") (
        spec (some (codes "a")) SqlProviderKind.postgres
        ∷ spec (some (codes "b")) SqlProviderKind.mysql
        ∷ [])
unfolding init_sqldb Bytes-discrete ℕ_discrete
provider_exists-init_sqldb_example =
    provider_exists-init_sqldb drivers results redis cache
      (spec (some (codes "a")) SqlProviderKind.postgres)
      (spec (some (codes "b")) SqlProviderKind.mysql ∷ []) (host one) tt (codes "default") refl

abbrev server : RedisServer ℕ
server = record {
  bf_exists = λ w key item. KnowledgeResult.ok true;
  set_exists = λ w key item. KnowledgeResult.ok true;
  hget = λ w key field. KnowledgeResult.ok (some field);
  get = λ w key. KnowledgeResult.ok (some key);
  bf_madd = λ w key items. (w, KnowledgeResult.ok (true ∷ []));
}

abbrev hash : List Bytes → ℕ
hash [] = 1
hash ([] ∷ ss) = 7
hash ((b ∷ s) ∷ ss) = b

abbrev conf : Option (List SqlProviderSpec) → KnowDbConf Bytes
conf sqldb = record {
  cache = cache;
  fun = [];
  provider = some (record { sqldb = sqldb; redis = some (codes "redis://h") });
}

abbrev single : List SqlProviderSpec
single = spec none SqlProviderKind.postgres ∷ []
