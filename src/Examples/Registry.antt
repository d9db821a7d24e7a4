-- ===== src/Examples/Registry.antt =====
-- `src/redis.rs`: one name, its pool, and a second init of it.
use wp_knowledge.Base.{
  List, ℕ, ◌≡◌, refl, ◌⊎◌, [], ◌∷◌, ◌++◌, none, some, find, Bytes, ℕ_discrete, ◌+◌, ◌==◌,
  if◌then◌else◌, true, false,
}
use wp_knowledge.Base.Model.{Bytes-discrete}
use wp_knowledge.Base.Text.{codes}
use wp_knowledge.Runtime.Types.{KnowledgeError, KnowledgeResult}
use wp_knowledge.Redis.{close, RedisPool, RedisRegistry, new, resolve, init_with_opts}
use wp_knowledge.Redis.Reached.{Step, Reached, Kept}
use wp_knowledge.Redis.Commands.{timeout_err, Outcome, Driver, conclude, on_pool}
use wp_knowledge.Redis.Answers.{on_pool-Reached}
use wp_knowledge.Fun.{Call}
use wp_knowledge.Facade.Redis.{redis_hget}
use wp_knowledge.Facade.Served.{redis_server, redis_hget-registry}
use wp_knowledge.Redis.Opened.{Origin, IsOpened, init_with_opts-IsOpened}
use wp_knowledge.Facade.Specs.{KnowDbConf}
use wp_knowledge.Facade.Setup.{Drivers, HostOver}
use wp_knowledge.Facade.Init.{init_thread_cloned_from_knowdb}
use wp_knowledge.Facade.Twice.{
  RedisProviderSpec, IsRedisOnly, over_registry, init_thread_cloned_from_knowdb-again,
}
use wp_knowledge.Examples.World.{fresh-IsConsistent, results, redis, provider, fresh}

abbrev always : Bytes → KnowledgeResult ℕ
always url = KnowledgeResult.ok 7

abbrev knowdb : Bytes
knowdb = codes "knowdb"

abbrev local_url : Bytes
local_url = codes "redis://a"

abbrev other_url : Bytes
other_url = codes "rediss://b"

abbrev pool : RedisPool ℕ
pool = record { conn = 7; command_timeout = 100 }

abbrev after_init : RedisRegistry ℕ
after_init = (init_with_opts always knowdb local_url 100 new new).0

-- The second command that runs fails, the others answer.
abbrev answer : {A : Type 0} → A → ℕ → ℕ × Outcome A
answer v world =
    (world + 1, if world == 1 then Outcome.failed (codes "LOADING") else Outcome.answered v)

abbrev driver : Driver ℕ ℕ ℕ
driver = record {
  query_bool = λ conn t cmd args world. answer true world;
  query_bools = λ conn t cmd args world. answer (true ∷ []) world;
  query_text = λ conn t cmd args world. answer (codes "OK") world;
  query_opt_text = λ conn t cmd args world. answer (some cmd) world;
}

on_pool-Reached_example :
    ((find Bytes-discrete knowdb after_init.names ≡ none)
      × (on_pool driver after_init driver.query_opt_text knowdb (codes "GET") [] 1 ≡ (
        1,
        KnowledgeResult.err
            (KnowledgeError.logic (codes "redis provider '" ++ (knowdb ++ codes "' not found"))),
      )))
    ⊎ ((url : Bytes) × (p : RedisPool ℕ) × (find Bytes-discrete knowdb after_init.names ≡ some url)
        × (find Bytes-discrete url after_init.pools ≡ some p)
        × (on_pool driver after_init driver.query_opt_text knowdb (codes "GET") [] 1 ≡ (
          2,
          conclude (codes "GET") knowdb p.command_timeout (Outcome.failed (codes "LOADING")),
        )))
on_pool-Reached_example =
    on_pool-Reached driver driver.query_opt_text always after_init knowdb (codes "GET") [] 1
      (Reached.after (Reached.start refl) (Step.init_step knowdb local_url 100 new refl))

abbrev key : Bytes
key = codes "k"

init_with_opts-IsOpened_example :
    IsOpened always
      (codes "second")
      local_url
      20
      after_init
      after_init
      (init_with_opts always (codes "second") local_url 20 after_init after_init).0
unfolding init_with_opts new Bytes-discrete ℕ_discrete
init_with_opts-IsOpened_example =
    init_with_opts-IsOpened always (codes "second") local_url 20 after_init after_init refl

abbrev spec : RedisProviderSpec
spec = record {
  connection_uri = local_url;
  pool_size = none;
  connect_timeout_ms = 3000;
  command_timeout_ms = 100;
}

abbrev drivers : Drivers ℕ RedisProviderSpec
drivers = record {
  from_seed = λ kind seed. seed;
  connect_postgres = λ name config id g. KnowledgeResult.ok (provider name);
  connect_mysql = λ config id g. KnowledgeResult.ok (provider id);
  thread_cloned = λ uri id g. provider uri;
  init_redis = λ redis_spec. KnowledgeResult.ok tt;
  build_authority = λ uri. KnowledgeResult.ok tt;
}

abbrev conf : KnowDbConf RedisProviderSpec
conf = record {
  provider = some (record { sqldb = none; redis = some spec });
  cache = record { enabled = true; capacity = 8; ttl_ms = 0 };
  fun = [];
}

only_redis : IsRedisOnly conf spec
unfolding IsRedisOnly
only_redis = (record { sqldb = none; redis = some spec }, refl, refl, refl)

abbrev in_registry : RedisRegistry ℕ → Drivers ℕ RedisProviderSpec
in_registry reg = over_registry always reg reg drivers

abbrev host : (reg : RedisRegistry ℕ) → HostOver (in_registry reg) results redis
host reg = record { runtime = fresh; funs = none; redis_ready = false }

-- The same file is loaded twice.
init_thread_cloned_from_knowdb-again_example :
    (e : KnowledgeError) × (init_thread_cloned_from_knowdb
        (in_registry after_init)
        results
        redis
        (KnowledgeResult.ok conf)
        (codes "file:db")
        (host after_init)
      ≡ (host after_init, KnowledgeResult.err e))
unfolding init_thread_cloned_from_knowdb over_registry new
init_thread_cloned_from_knowdb-again_example =
    init_thread_cloned_from_knowdb-again always results redis drivers conf conf spec spec
      (codes "file:db") (codes "file:db") new new after_init after_init (host new) (host after_init)
      only_redis only_redis refl (Kept.start refl)

abbrev loaded : HostOver (in_registry new) results redis × KnowledgeResult (Unit {0})
loaded =
    init_thread_cloned_from_knowdb (in_registry new) results redis (KnowledgeResult.ok conf)
      (codes "file:db") (host new)

abbrev hash : List Bytes → ℕ
hash ss = 1

redis_hget-registry_example :
    (p : RedisPool ℕ) × (find Bytes-discrete local_url after_init.pools ≡ some p)
    × Origin always local_url 100 new new p
    × (redis_hget hash redis (redis_server driver after_init) 3 4 0 key key loaded.0.runtime ≡ (
      loaded.0.runtime,
      Call.returns (
          conclude
            (codes "HGET")
            knowdb
            p.command_timeout
            (Outcome.answered (some (codes "HGET")))),
    ))
unfolding init_thread_cloned_from_knowdb over_registry new wp_knowledge.Runtime.State.new
redis_hget-registry_example =
    redis_hget-registry driver always results redis drivers hash conf spec (codes "file:db") new new
      (host new) 3 4 0 key key only_redis refl refl fresh-IsConsistent

timed_out :
    timeout_err (codes "GET") knowdb 2050
    ≡ KnowledgeError.logic (codes "redis command 'GET' on 'knowdb' timed out after 2050ms")
unfolding timeout_err
timed_out = refl

-- Two names share a pool, which is dropped with the last of them.
abbrev shared : RedisRegistry ℕ
shared = (init_with_opts always (codes "second") local_url 20 after_init after_init).0

one_left : resolve (codes "second") (close (some knowdb) shared) ≡ KnowledgeResult.ok pool
unfolding init_with_opts resolve close new Bytes-discrete ℕ_discrete
one_left = refl

none_left : (close (some (codes "second")) (close (some knowdb) shared)).pools ≡ []
unfolding init_with_opts close new Bytes-discrete ℕ_discrete
none_left = refl
