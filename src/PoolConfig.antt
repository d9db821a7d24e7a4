-- ===== src/PoolConfig.antt =====
-- `src/pool_config.rs`: the configuration of a connection pool. Times are milliseconds.
use wp_knowledge.Base.{
  ℕ, ◌≤◌, ◌<◌, List, [], ◌∷◌, Option, none, some, arith, sym, subst, inl, inr, ltb, ltb→lt,
  Bool-cases, ◌==◌, if◌then◌else◌, min,
}

pub record CommonPoolConfig : Type 0 where
  pub pool_size : ℕ
  pub min_connections : ℕ
  pub acquire_timeout : ℕ
  pub idle_timeout : Option ℕ
  pub max_lifetime : Option ℕ

abbrev pub default_pool : CommonPoolConfig
default_pool = record {
  pool_size = 8;
  min_connections = 0;
  acquire_timeout = 10_000;
  idle_timeout = some 60_000;
  max_lifetime = none;
}

unfoldable pub effective_min_connections : CommonPoolConfig → ℕ
effective_min_connections self = min self.min_connections self.pool_size

unfoldable pub with_pool_size : Option ℕ → CommonPoolConfig → CommonPoolConfig
with_pool_size none self = self
with_pool_size (some size) self =
    if ltb 0 size
    then record self { pool_size = size; min_connections = min self.min_connections size }
    else self

unfoldable pub with_min_connections : Option ℕ → CommonPoolConfig → CommonPoolConfig
with_min_connections none self = self
with_min_connections (some n) self = record self { min_connections = min n self.pool_size }

unfoldable pub with_acquire_timeout_ms : Option ℕ → CommonPoolConfig → CommonPoolConfig
with_acquire_timeout_ms none self = self
with_acquire_timeout_ms (some ms) self =
    if ltb 0 ms then record self { acquire_timeout = ms } else self

unfoldable pub with_idle_timeout_ms : Option ℕ → CommonPoolConfig → CommonPoolConfig
with_idle_timeout_ms none self = self
with_idle_timeout_ms (some ms) self = record self {
  idle_timeout = if ms == 0 then none else some ms;
}

unfoldable pub with_max_lifetime_ms : Option ℕ → CommonPoolConfig → CommonPoolConfig
with_max_lifetime_ms none self = self
with_max_lifetime_ms (some ms) self = record self {
  max_lifetime = if ms == 0 then none else some ms;
}

-- A call of one of the builders.
pub data Setting : Type 0 where
  pool_size min_connections acquire_timeout_ms idle_timeout_ms max_lifetime_ms : Option ℕ → Setting

unfoldable pub configure : List Setting → CommonPoolConfig → CommonPoolConfig
unfolding with_pool_size with_min_connections with_acquire_timeout_ms with_idle_timeout_ms
    with_max_lifetime_ms
configure [] self = self
configure (Setting.pool_size n ∷ l) self = configure l (with_pool_size n self)
configure (Setting.min_connections n ∷ l) self = configure l (with_min_connections n self)
configure (Setting.acquire_timeout_ms n ∷ l) self = configure l (with_acquire_timeout_ms n self)
configure (Setting.idle_timeout_ms n ∷ l) self = configure l (with_idle_timeout_ms n self)
configure (Setting.max_lifetime_ms n ∷ l) self = configure l (with_max_lifetime_ms n self)

abbrev IsPositive : Option ℕ → Type 0
IsPositive none = Unit
IsPositive (some n) = 0 < n

-- A pool that can serve: it has connections, keeps no more than it has, and no time limit is 0.
pub record IsUsable (c : CommonPoolConfig) : Type 0 where
  pub sized : 0 < c.pool_size
  pub within : c.min_connections ≤ c.pool_size
  pub waits : 0 < c.acquire_timeout
  pub idle : IsPositive c.idle_timeout
  pub lives : IsPositive c.max_lifetime

limit : (ms : ℕ) → IsPositive (if ms == 0 then none else some ms)
limit ms = elim (Bool-cases (ms == 0)) [
  | inl e ↦ subst (λ b. IsPositive (if b then none else some ms)) (sym e) tt
  | inr e ↦ subst (λ b. IsPositive (if b then none else some ms)) (sym e) (ground arith)
]

sized-IsUsable : (n : ℕ) (c : CommonPoolConfig) → IsUsable c → IsUsable (with_pool_size (some n) c)
unfolding with_pool_size
sized-IsUsable n c u = elim (Bool-cases (ltb 0 n)) [
  | inl e ↦
      subst
        (λ b.
          IsUsable (
            if b then record c { pool_size = n; min_connections = min c.min_connections n } else c))
        (sym e)
        (record {
          sized = ltb→lt 0 n e;
          within = omega arith;
          waits = u.waits;
          idle = u.idle;
          lives = u.lives;
        })
  | inr e ↦
      subst
        (λ b.
          IsUsable (
            if b then record c { pool_size = n; min_connections = min c.min_connections n } else c))
        (sym e) u
]

waits-IsUsable :
    (n : ℕ) (c : CommonPoolConfig) → IsUsable c → IsUsable (with_acquire_timeout_ms (some n) c)
unfolding with_acquire_timeout_ms
waits-IsUsable n c u = elim (Bool-cases (ltb 0 n)) [
  | inl e ↦
      subst (λ b. IsUsable (if b then record c { acquire_timeout = n } else c)) (sym e)
        (record {
          sized = u.sized;
          within = u.within;
          waits = ltb→lt 0 n e;
          idle = u.idle;
          lives = u.lives;
        })
  | inr e ↦ subst (λ b. IsUsable (if b then record c { acquire_timeout = n } else c)) (sym e) u
]

-- Whatever is configured, in whatever order and how often, the pool is usable.
pub configure-IsUsable :
    (l : List Setting) (c : CommonPoolConfig) → IsUsable c → IsUsable (configure l c)
unfolding configure
configure-IsUsable [] c u = u
configure-IsUsable (Setting.pool_size none ∷ l) c u = configure-IsUsable l c u
configure-IsUsable (Setting.pool_size (some n) ∷ l) c u =
    configure-IsUsable l (with_pool_size (some n) c) (sized-IsUsable n c u)
configure-IsUsable (Setting.min_connections none ∷ l) c u = configure-IsUsable l c u
configure-IsUsable (Setting.min_connections (some n) ∷ l) c u =
    configure-IsUsable l (with_min_connections (some n) c) (record {
      sized = u.sized;
      within = omega arith;
      waits = u.waits;
      idle = u.idle;
      lives = u.lives;
    })
configure-IsUsable (Setting.acquire_timeout_ms none ∷ l) c u = configure-IsUsable l c u
configure-IsUsable (Setting.acquire_timeout_ms (some n) ∷ l) c u =
    configure-IsUsable l (with_acquire_timeout_ms (some n) c) (waits-IsUsable n c u)
configure-IsUsable (Setting.idle_timeout_ms none ∷ l) c u = configure-IsUsable l c u
configure-IsUsable (Setting.idle_timeout_ms (some n) ∷ l) c u =
    configure-IsUsable l (with_idle_timeout_ms (some n) c) (record {
      sized = u.sized;
      within = u.within;
      waits = u.waits;
      idle = limit n;
      lives = u.lives;
    })
configure-IsUsable (Setting.max_lifetime_ms none ∷ l) c u = configure-IsUsable l c u
configure-IsUsable (Setting.max_lifetime_ms (some n) ∷ l) c u =
    configure-IsUsable l (with_max_lifetime_ms (some n) c) (record {
      sized = u.sized;
      within = u.within;
      waits = u.waits;
      idle = u.idle;
      lives = limit n;
    })
