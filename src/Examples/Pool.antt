-- ===== src/Examples/Pool.antt =====
-- The theorems on `src/pool_config.rs` at concrete inputs.
use wp_knowledge.Base.{◌≡◌, refl, List, [], ◌∷◌, some, none, arith}
use wp_knowledge.PoolConfig.{default_pool, effective_min_connections, Setting, configure, IsUsable}

abbrev settings : List Setting
settings =
    Setting.min_connections (some 20)
    ∷ Setting.pool_size (some 2)
    ∷ Setting.idle_timeout_ms (some 0)
    ∷ Setting.acquire_timeout_ms none
    ∷ []

fewer : effective_min_connections (configure settings default_pool) ≡ 2
unfolding effective_min_connections configure
fewer = refl

default-IsUsable : IsUsable default_pool
default-IsUsable = record {
  sized = omega arith;
  within = omega arith;
  waits = omega arith;
  idle = omega arith;
  lives = tt;
}
