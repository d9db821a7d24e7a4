-- ===== src/Facade/Install.antt =====
-- `src/runtime.rs`, `src/facade.rs`: the start and the installations leave the caches as they should be.
use wp_knowledge.Base.{
  ℕ, ◌+◌, ◌≡◌, ◌<◌, refl, sym, ◌∙◌, some, none, arith, Bytes, Bool, true, false, find, max,
}
use wp_knowledge.Lru.{Lru}
use wp_knowledge.Runtime.Types.{ProviderKind, ProviderExecutor, KnowledgeResult}
use wp_knowledge.Runtime.State.{
  ResultLru, RedisLru, u64_size, fetch_add_1, new, install_provider_named, installed, register,
  publish,
}
use wp_knowledge.Runtime.Registry.{next_lem, installed-IsConsistent}
use wp_knowledge.Cache.Fields.{with_capacity}
use wp_knowledge.Facade.Queries.{RuntimeOver}
use wp_knowledge.Facade.CacheQuery.{RowLru, LocalCache}
use wp_knowledge.Facade.Fresh.{IsFresh}

module _ {W D : Type 0} (R : ResultLru) (L : RowLru) where
  module _ (name : Bytes) (kind : ProviderKind) (datasource_id : Bytes) (rt : RuntimeOver W D R)
      (c : LocalCache L) where
    installed-IsFresh :
        (d : Bool) (r : KnowledgeResult (ProviderExecutor W))
        → rt.next_generation + 1 < u64_size
        → IsFresh R L rt c
        → IsFresh R L
            (installed name kind datasource_id d
              (record rt { next_generation = fetch_add_1 rt.next_generation })
              r).0
            c
    unfolding installed register publish
    installed-IsFresh d (KnowledgeResult.err e) h f = record {
      past = λ k x p. omega (arith, f.past k x p, next_lem rt.next_generation h);
      consistent =
          installed-IsConsistent name kind datasource_id (λ g. KnowledgeResult.err e) d rt d
            (KnowledgeResult.err e) h f.consistent;
      local_past = λ s g e. omega (arith, f.local_past s g e, next_lem rt.next_generation h);
    }
    installed-IsFresh false (KnowledgeResult.ok x) h f = record {
      past = λ k x p. omega (arith, f.past k x p, next_lem rt.next_generation h);
      consistent =
          installed-IsConsistent name kind datasource_id (λ g. KnowledgeResult.ok x) false rt false
            (KnowledgeResult.ok x) h f.consistent;
      local_past = λ s g e. omega (arith, f.local_past s g e, next_lem rt.next_generation h);
    }
    installed-IsFresh true (KnowledgeResult.ok x) h f = record {
      past = λ k x p. omega (arith, f.past k x p, next_lem rt.next_generation h);
      consistent =
          installed-IsConsistent name kind datasource_id (λ g. KnowledgeResult.ok x) true rt true
            (KnowledgeResult.ok x) h f.consistent;
      local_past = λ s g e. omega (arith, f.local_past s g e, next_lem rt.next_generation h);
    }

  -- An installation, successful or not, of the default provider or by name, keeps the two caches free
  -- of generations that have not been given out, as long as the counter does not wrap.
  pub install_provider_named-IsFresh :
      (name : Bytes) (kind : ProviderKind) (datasource_id : Bytes)
      (build : ℕ → KnowledgeResult (ProviderExecutor W)) (is_default : Bool)
      (rt : RuntimeOver W D R) (c : LocalCache L)
      → rt.next_generation + 1 < u64_size
      → IsFresh R L rt c
      → IsFresh R L (install_provider_named name kind datasource_id build is_default rt).0 c
  unfolding install_provider_named
  install_provider_named-IsFresh name kind datasource_id build is_default rt c h f =
      installed-IsFresh name kind datasource_id rt c is_default
        (build (fetch_add_1 rt.next_generation)) h f

-- A new runtime and a new local cache.
pub new-IsFresh :
    {W : Type 0} (R : ResultLru) (S : RedisLru) (L : RowLru) (capacity size : ℕ)
    → IsFresh R L (new {W = W} R S capacity) (with_capacity L size)
unfolding new with_capacity find
new-IsFresh R S L capacity size = record {
  past = λ k e p.
      let q : none ≡ some e = sym (Lru.peek-new R k (max capacity 1)) ∙ p in absurd (ground arith);
  consistent = record { announced = refl; quiet = refl; issued = tt };
  local_past = λ s g e. absurd (ground arith);
}
