-- ===== src/Runtime/Registry.antt =====
-- `src/runtime.rs`: what an installation does to the registry, and the generation that is announced.
use wp_knowledge.Base.{
  ℕ, ◌+◌, ◌%◌, ◌<◌, ◌≤◌, ◌≡◌, ◌≢◌, refl, sym, ap, subst, ◌∙◌, Bool, true, false, Option, none, some,
  arith, if◌then◌else◌, Bytes, find-insert_self, find-insert_ne,
}
use wp_knowledge.Base.Model.{Bytes-discrete}
use wp_knowledge.Runtime.Types.{
  ProviderKind, KnowledgeError, KnowledgeResult, ProviderExecutor, ProviderHandle,
}
use wp_knowledge.Runtime.State.{
  KnowledgeRuntime, u64_size, fetch_add_1, publish, register, installed, install_provider_named,
  current_generation_from_provider, current_generation, provider_by_name, current_handle,
}

abbrev pub generation_of : {W : Type 0} → Option (ProviderHandle W) → ℕ
generation_of none = 0
generation_of (some handle) = handle.generation

-- A handle that a query may hold: its generation has been given out, and is not 0.
abbrev pub IsIssued : {W : Type 0} → ℕ → Option (ProviderHandle W) → Type 0
IsIssued n none = Unit
IsIssued n (some handle) = (0 < handle.generation) × (handle.generation ≤ n)

pub next_lem : (n : ℕ) → n + 1 < u64_size → fetch_add_1 n ≡ n + 1
unfolding fetch_add_1
next_lem n h = omega arith

pub even-fetch_add_1 : (e : ℕ) → e % 2 ≡ 0 → fetch_add_1 (fetch_add_1 e) % 2 ≡ 0
unfolding fetch_add_1
even-fetch_add_1 e h = omega arith

still :
    {W : Type 0} (n m : ℕ) (p : Option (ProviderHandle W)) → m ≡ n + 1 → IsIssued n p → IsIssued m p
still n m none e i = i
still n m (some handle) e i = (i.0, omega (arith, e, i.1))

module _ {W C D : Type 0} where
  -- The announced generation is the default provider's, and no installation is under way.
  pub record IsConsistent (rt : KnowledgeRuntime W C D) : Type 0 where
    pub announced : rt.current_generation_value ≡ generation_of rt.provider
    pub quiet : rt.provider_epoch % 2 ≡ 0
    pub issued : IsIssued rt.next_generation rt.provider

  -- While no installation is under way `current_generation` is the generation of the default provider.
  pub current_generation_lem :
      (rt : KnowledgeRuntime W C D)
      → IsConsistent rt
      → current_generation rt rt rt rt ≡ current_generation_from_provider rt
  unfolding current_generation current_generation_from_provider
  current_generation_lem rt c = go rt.provider refl
    where
      go :
          (p : Option (ProviderHandle W))
          → rt.provider ≡ p
          → current_generation rt rt rt rt ≡ current_generation_from_provider rt
      go none e =
          let a : rt.current_generation_value ≡ 0 = c.announced ∙ ap generation_of e in
          let q = c.quiet in ground arith
      go (some handle) e =
          let a : rt.current_generation_value ≡ handle.generation =
            c.announced ∙ ap generation_of e in
          let i : IsIssued rt.next_generation (some handle) =
            subst (IsIssued rt.next_generation) e c.issued in
          let q = c.quiet in let pos = i.0 in ground arith

  -- What a successful installation leaves.
  abbrev made :
      KnowledgeRuntime W C D → ProviderExecutor W → Bytes → ProviderKind → ProviderHandle W
  made rt executor datasource_id kind = record {
    executor = executor;
    datasource_id = datasource_id;
    generation = fetch_add_1 rt.next_generation;
    kind = kind;
  }

  module _ (name : Bytes) (kind : ProviderKind) (datasource_id : Bytes)
      (build : ℕ → KnowledgeResult (ProviderExecutor W)) (is_default : Bool)
      (rt : KnowledgeRuntime W C D) where
    abbrev done : KnowledgeRuntime W C D
    done = (install_provider_named name kind datasource_id build is_default rt).0

    abbrev taken : KnowledgeRuntime W C D
    taken = record rt { next_generation = fetch_add_1 rt.next_generation }

    -- A provider that cannot be built leaves the registry and the announced generation as they were;
    -- the error is returned.
    pub install_provider_named_err :
        (e : KnowledgeError)
        → build (fetch_add_1 rt.next_generation) ≡ KnowledgeResult.err e
        → ((install_provider_named name kind datasource_id build is_default rt).1
            ≡ KnowledgeResult.err e)
          × (done.provider ≡ rt.provider)
          × (done.named_providers ≡ rt.named_providers)
          × (done.named_provider_epoch ≡ rt.named_provider_epoch)
          × (current_generation done done done done ≡ current_generation rt rt rt rt)
    unfolding install_provider_named installed current_generation current_generation_from_provider
    install_provider_named_err e eq =
        subst
          (λ r.
            let s = installed name kind datasource_id is_default taken r in
            (s.1 ≡ KnowledgeResult.err e)
            × (s.0.provider ≡ rt.provider)
            × (s.0.named_providers ≡ rt.named_providers)
            × (s.0.named_provider_epoch ≡ rt.named_provider_epoch)
            × (current_generation s.0 s.0 s.0 s.0 ≡ current_generation rt rt rt rt))
          (sym eq) (refl, refl, refl, refl, refl)

    named :
        (q : Bytes)
        → name ≢ q
        → (executor : ProviderExecutor W) (d : Bool)
        → provider_by_name q
            (installed name kind datasource_id d taken (KnowledgeResult.ok executor)).0
          ≡ provider_by_name q rt
    unfolding installed register publish provider_by_name
    named q n executor true =
        let m = made rt executor datasource_id kind in
        let other = find-insert_ne Bytes-discrete name q m rt.named_providers n in ground arith
    named q n executor false =
        let m = made rt executor datasource_id kind in
        let other = find-insert_ne Bytes-discrete name q m rt.named_providers n in ground arith

    ok_state :
        (executor : ProviderExecutor W) (d : Bool)
        → let s = installed name kind datasource_id d taken (KnowledgeResult.ok executor) in
          (s.1 ≡ KnowledgeResult.ok (fetch_add_1 rt.next_generation))
          × (provider_by_name name s.0 ≡ KnowledgeResult.ok (made rt executor datasource_id kind))
          × ((q : Bytes) → name ≢ q → provider_by_name q s.0 ≡ provider_by_name q rt)
          × (current_handle s.0 ≡ (
              if d
              then KnowledgeResult.ok (made rt executor datasource_id kind)
              else current_handle rt))
    unfolding installed register publish provider_by_name current_handle
    ok_state executor true =
        let m = made rt executor datasource_id kind in
        let self = find-insert_self Bytes-discrete name m rt.named_providers in
        (refl, ground arith, λ q n. named q n executor true, refl)
    ok_state executor false =
        let m = made rt executor datasource_id kind in
        let self = find-insert_self Bytes-discrete name m rt.named_providers in
        (refl, ground arith, λ q n. named q n executor false, refl)

    -- A provider that is built is found under its name, with a generation of its own, and becomes the
    -- default provider if it is to be; the other names keep their providers.
    pub install_provider_named_ok :
        (executor : ProviderExecutor W)
        → build (fetch_add_1 rt.next_generation) ≡ KnowledgeResult.ok executor
        → ((install_provider_named name kind datasource_id build is_default rt).1
            ≡ KnowledgeResult.ok (fetch_add_1 rt.next_generation))
          × (provider_by_name name done ≡ KnowledgeResult.ok (made rt executor datasource_id kind))
          × ((q : Bytes) → name ≢ q → provider_by_name q done ≡ provider_by_name q rt)
          × (current_handle done ≡ (
              if is_default
              then KnowledgeResult.ok (made rt executor datasource_id kind)
              else current_handle rt))
    unfolding install_provider_named
    install_provider_named_ok executor eq =
        subst
          (λ r.
            let s = installed name kind datasource_id is_default taken r in
            (s.1 ≡ KnowledgeResult.ok (fetch_add_1 rt.next_generation))
            × (provider_by_name name s.0 ≡ KnowledgeResult.ok (made rt executor datasource_id kind))
            × ((q : Bytes) → name ≢ q → provider_by_name q s.0 ≡ provider_by_name q rt)
            × (current_handle s.0 ≡ (
                if is_default
                then KnowledgeResult.ok (made rt executor datasource_id kind)
                else current_handle rt)))
          (sym eq) (ok_state executor is_default)

    pub installed-IsConsistent :
        (d : Bool) (r : KnowledgeResult (ProviderExecutor W))
        → rt.next_generation + 1 < u64_size
        → IsConsistent rt
        → IsConsistent (installed name kind datasource_id d taken r).0
    unfolding installed register publish
    installed-IsConsistent d (KnowledgeResult.err e) h c = record {
      announced = c.announced;
      quiet = c.quiet;
      issued = still _ _ rt.provider (next_lem rt.next_generation h) c.issued;
    }
    installed-IsConsistent false (KnowledgeResult.ok executor) h c = record {
      announced = c.announced;
      quiet = c.quiet;
      issued = still _ _ rt.provider (next_lem rt.next_generation h) c.issued;
    }
    installed-IsConsistent true (KnowledgeResult.ok executor) h c = record {
      announced = refl;
      quiet = even-fetch_add_1 rt.provider_epoch c.quiet;
      issued = (omega (arith, next_lem rt.next_generation h), omega arith);
    }

    -- An installation keeps the registry consistent.
    pub install_provider_named-IsConsistent :
        rt.next_generation + 1 < u64_size → IsConsistent rt → IsConsistent done
    unfolding install_provider_named
    install_provider_named-IsConsistent h c =
        installed-IsConsistent is_default (build (fetch_add_1 rt.next_generation)) h c
