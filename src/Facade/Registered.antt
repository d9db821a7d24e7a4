-- ===== src/Facade/Registered.antt =====
-- `src/facade.rs`: which providers there are after a set-up.
use wp_knowledge.Base.{
  ℕ, ◌≡◌, refl, sym, ap, ◌∙◌, Bool, true, false, ◌&&◌, ◌||◌, List, [], ◌∷◌, arith, ite, Bytes,
  Option-cases, inl, inr, max,
}
use wp_knowledge.Base.Model.{Bytes-discrete}
use wp_knowledge.Lru.{Lru}
use wp_knowledge.Runtime.Types.{ProviderKind, KnowledgeResult}
use wp_knowledge.Runtime.State.{KnowledgeRuntime, ResultLru, RedisLru, provider_exists}
use wp_knowledge.Runtime.Configure.{configure_result_cache}
use wp_knowledge.Facade.Specs.{
  SqlProviderKind, SqlProviderSpec, CacheSpec, effective_name, contains, build_postgres_config,
  build_mysql_config, validate_from, validate_specs,
}
use wp_knowledge.Facade.Setup.{
  Drivers, HostOver, seed_of, choose_default, install_postgres_provider, install_mysql_provider,
  install_kind, install_spec, install_specs, after_specs, init_sqldb,
}
use wp_knowledge.Runtime.Named.{exists-install_provider_named, exists-prune}

-- The names of the specifications.
unfoldable pub has_name : Bytes → List SqlProviderSpec → Bool
has_name name [] = false
has_name name (spec ∷ specs) =
    ite (Bytes-discrete name (effective_name spec)) true (has_name name specs)

validate_step :
    (seen : List Bytes) (spec : SqlProviderSpec) (specs : List SqlProviderSpec)
    (expected : List Bytes)
    → validate_from seen (spec ∷ specs) ≡ KnowledgeResult.ok expected
    → validate_from (effective_name spec ∷ seen) specs ≡ KnowledgeResult.ok expected
unfolding validate_from
validate_step seen spec specs expected e = elim (Option-cases spec.postgres_session) [
  | inl no_session ↦ ground arith
  | inr (session, f) ↦ ground arith
]

contains-validate :
    (name : Bytes) (seen : List Bytes) (specs : List SqlProviderSpec) (expected : List Bytes)
    → validate_from seen specs ≡ KnowledgeResult.ok expected
    → contains name expected ≡ (contains name seen || has_name name specs)
unfolding contains has_name
contains-validate name seen [] expected e =
    let same : seen ≡ expected = unfold validate_from in ground arith in
    ap (contains name) (sym same) ∙ ground arith
contains-validate name seen (spec ∷ specs) expected e =
    contains-validate name (effective_name spec ∷ seen) specs expected
      (validate_step seen spec specs expected e)
    ∙ elim (Bytes-discrete name (effective_name spec)) [
      | yes same ↦ ground arith
      | no other ↦ ground arith
    ]

module _ {W P C D : Type 0} (drivers : Drivers W P) (default_name : Bytes) where
  exists-install_kind :
      (k : SqlProviderKind) (d : Bool) (spec : SqlProviderSpec) (rt : KnowledgeRuntime W C D)
      (g : ℕ) (q : Bytes)
      → (install_kind drivers k d spec rt).1 ≡ KnowledgeResult.ok g
      → provider_exists q (install_kind drivers k d spec rt).0
        ≡ ite (Bytes-discrete q (effective_name spec)) true (provider_exists q rt)
  unfolding install_kind install_postgres_provider install_mysql_provider
  exists-install_kind SqlProviderKind.postgres d spec rt g q h =
      let id = drivers.from_seed ProviderKind.postgres (seed_of spec) in
      exists-install_provider_named (effective_name spec) ProviderKind.postgres id
        (drivers.connect_postgres (effective_name spec) (build_postgres_config spec) id) d rt g q h
  exists-install_kind SqlProviderKind.mysql d spec rt g q h =
      let id = drivers.from_seed ProviderKind.mysql (seed_of spec) in
      exists-install_provider_named (effective_name spec) ProviderKind.mysql id
        (drivers.connect_mysql (build_mysql_config spec) id) d rt g q h

  install_specs_step :
      (spec : SqlProviderSpec) (specs : List SqlProviderSpec) (rt : KnowledgeRuntime W C D)
      (u : Unit {0})
      → (install_specs drivers default_name (spec ∷ specs) rt).1 ≡ KnowledgeResult.ok u
      → (g : ℕ) × ((install_spec drivers default_name spec rt).1 ≡ KnowledgeResult.ok g)
        × (install_specs drivers default_name (spec ∷ specs) rt
            ≡ install_specs drivers default_name specs
                (install_spec drivers default_name spec rt).0)
  unfolding install_specs
  install_specs_step spec specs rt u h = go (install_spec drivers default_name spec rt).1 refl
    where
      go :
          (r : KnowledgeResult ℕ)
          → (install_spec drivers default_name spec rt).1 ≡ r
          → (g : ℕ) × ((install_spec drivers default_name spec rt).1 ≡ KnowledgeResult.ok g)
            × (install_specs drivers default_name (spec ∷ specs) rt
                ≡ install_specs drivers default_name specs
                    (install_spec drivers default_name spec rt).0)
      go (KnowledgeResult.err e) f = absurd (ground arith)
      go (KnowledgeResult.ok g) f = (g, f, ground arith)

  exists-install_specs :
      (specs : List SqlProviderSpec) (rt : KnowledgeRuntime W C D) (u : Unit {0}) (q : Bytes)
      → (install_specs drivers default_name specs rt).1 ≡ KnowledgeResult.ok u
      → provider_exists q (install_specs drivers default_name specs rt).0
        ≡ (has_name q specs || provider_exists q rt)
  unfolding has_name
  exists-install_specs [] rt u q h = unfold install_specs in refl
  exists-install_specs (spec ∷ specs) rt u q h =
      let (g, first, rest) = install_specs_step spec specs rt u h in
      let rt' = (install_spec drivers default_name spec rt).0 in
      let one : provider_exists q rt'
          ≡ ite (Bytes-discrete q (effective_name spec)) true (provider_exists q rt) =
        unfold install_spec in exists-install_kind spec.kind _ spec rt g q first in
      ap (λ x. provider_exists q x.0) rest
      ∙ exists-install_specs specs rt' u q (sym (ap (λ x. x.1) rest) ∙ h)
      ∙ elim (Bytes-discrete q (effective_name spec)) [
        | yes same ↦ ground arith
        | no other ↦ ground arith
      ]

narrowed : {a b : Bool} (p n : Bool) → a ≡ n → b ≡ (n || p) → (a && b) ≡ n
narrowed p true h k = ground arith
narrowed p false h k = ground arith

module _ {W P : Type 0} (drivers : Drivers W P) (R : ResultLru) (S : RedisLru) where
  exists-configure :
      (enabled : Bool) (capacity ttl : ℕ) (rt : KnowledgeRuntime W (Lru.Cache R) (Lru.Cache S))
      (q : Bytes)
      → provider_exists q (configure_result_cache R enabled capacity ttl rt) ≡ provider_exists q rt
  unfolding configure_result_cache provider_exists
  exists-configure enabled capacity ttl rt q = refl

  exists-after_specs :
      (cache : CacheSpec) (expected : List Bytes) (host : HostOver drivers R S)
      (out : KnowledgeRuntime W (Lru.Cache R) (Lru.Cache S) × KnowledgeResult (Unit {0}))
      (u : Unit {0}) (q : Bytes)
      → (after_specs drivers R S cache expected host out).1 ≡ KnowledgeResult.ok u
      → (v : Unit {0}) × (out.1 ≡ KnowledgeResult.ok v)
        × (provider_exists q (after_specs drivers R S cache expected host out).0.runtime
            ≡ (contains q expected && provider_exists q out.0))
  unfolding after_specs
  exists-after_specs cache expected host (rt, KnowledgeResult.err e) u q h = absurd (ground arith)
  exists-after_specs cache expected host (rt, KnowledgeResult.ok v) u q h =
      let set = configure_result_cache R cache.enabled cache.capacity (max cache.ttl_ms 1) rt in
      (
        v,
        refl,
        exists-prune (λ n. contains n expected) q set
            ∙ ap (λ b. contains q expected && b)
                (exists-configure cache.enabled cache.capacity (max cache.ttl_ms 1) rt q),
      )

  -- After a set-up of SQL providers that succeeds, the named providers are those of the configuration:
  -- each of its names has a provider, and no other name has one, whatever was installed before.
  pub provider_exists-init_sqldb :
      (cache : CacheSpec) (first : SqlProviderSpec) (specs : List SqlProviderSpec)
      (host : HostOver drivers R S) (u : Unit {0}) (q : Bytes)
      → (init_sqldb drivers R S cache first specs host).1 ≡ KnowledgeResult.ok u
      → provider_exists q (init_sqldb drivers R S cache first specs host).0.runtime
        ≡ has_name q (first ∷ specs)
  unfolding init_sqldb validate_specs contains
  provider_exists-init_sqldb cache first specs host u q h = go (validate_specs (first ∷ specs)) refl
    where
      go :
          (r : KnowledgeResult (List Bytes))
          → validate_specs (first ∷ specs) ≡ r
          → provider_exists q (init_sqldb drivers R S cache first specs host).0.runtime
            ≡ has_name q (first ∷ specs)
      go (KnowledgeResult.err e) f = absurd (ground arith)
      go (KnowledgeResult.ok expected) f =
          let out =
            install_specs drivers (choose_default expected first) (first ∷ specs) host.runtime in
          let step : init_sqldb drivers R S cache first specs host
              ≡ after_specs drivers R S cache expected host out =
            ground arith in
          let (v, done, found) =
            exists-after_specs cache expected host out u q (sym (ap (λ x. x.1) step) ∙ h) in
          let named = contains-validate q [] (first ∷ specs) expected f in
          let known =
            exists-install_specs drivers (choose_default expected first) (first ∷ specs)
              host.runtime v q done in
          ap
            (λ (x : HostOver drivers R S × KnowledgeResult (Unit {0})).
              provider_exists q x.0.runtime)
            step
          ∙ found
          ∙ narrowed (provider_exists q host.runtime) (has_name q (first ∷ specs)) named known
