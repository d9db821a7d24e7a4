-- ===== src/SqlRoute/Events.antt =====
-- `src/sql_route.rs`: changes of the registry of `src/runtime.rs` and queries as events, and the routes
-- that are meant.
use wp_knowledge.Base.{
  ℕ, ◌+◌, ◌<◌, ◌≤◌, ◌≡◌, refl, ap, Bool, true, false, inl, inr, Bool-cases, List, [], ◌∷◌, Bytes,
  length, arith, ◌==◌,
}
use wp_knowledge.Runtime.Types.{ProviderKind, KnowledgeResult, ProviderExecutor}
use wp_knowledge.Runtime.State.{
  KnowledgeRuntime, u64_size, fetch_add_1, retain, installed, install_provider_named,
  provider_exists, prune_named_providers_except,
}
use wp_knowledge.SqlRoute.Strip.{compute_route}
use wp_knowledge.SqlRoute.Memo.{Route, Registry}

pub data Event (W : Type 0) : Type 0 where
  install :
      Bytes → ProviderKind → Bytes → (ℕ → KnowledgeResult (ProviderExecutor W)) → Bool → Event W
  prune : (Bytes → Bool) → Event W
  query : Bytes → Event W

-- The queries of a list of events.
unfoldable pub queries : {W : Type 0} → List (Event W) → List Bytes
queries [] = []
queries (Event.install name kind source build is_default ∷ es) = queries es
queries (Event.prune keep ∷ es) = queries es
queries (Event.query sql ∷ es) = sql ∷ queries es

length-retain-le :
    {H : Type 0} (keep : Bytes → Bool) (l : List (Bytes × H)) → length (retain keep l) ≤ length l
unfolding retain
length-retain-le keep [] = omega arith
length-retain-le keep ((name, h) ∷ l) = ground (arith, length-retain-le keep l)

retain-all :
    {H : Type 0} (keep : Bytes → Bool) (l : List (Bytes × H))
    → length (retain keep l) ≡ length l
    → retain keep l ≡ l
unfolding retain
retain-all keep [] e = refl
retain-all keep ((name, h) ∷ l) e = elim (Bool-cases (keep name)) [
  | inl yes_ ↦
      let ih : length (retain keep l) ≡ length l → retain keep l ≡ l = retain-all keep l in
      rw yes_ (ap (λ r. (name, h) ∷ r) (ih (ground arith)))
  | inr no_ ↦ absurd (ground (arith, length-retain-le keep l))
]

module _ {W C D : Type 0} where
  -- What a route reads of the runtime.
  unfoldable pub registry_of : KnowledgeRuntime W C D → Registry
  registry_of rt = record {
    epoch = rt.named_provider_epoch;
    provider_exists = λ name. provider_exists name rt;
  }

  unfoldable pub changed : Event W → KnowledgeRuntime W C D → KnowledgeRuntime W C D
  changed (Event.install name kind source build is_default) rt =
      (install_provider_named name kind source build is_default rt).0
  changed (Event.prune keep) rt = prune_named_providers_except keep rt
  changed (Event.query sql) rt = rt

  -- What the queries ought to return: each its route under the registry of its time.
  unfoldable pub direct_routes : KnowledgeRuntime W C D → List (Event W) → List Route
  direct_routes rt [] = []
  direct_routes rt (Event.install name kind source build is_default ∷ es) =
      direct_routes (changed (Event.install name kind source build is_default) rt) es
  direct_routes rt (Event.prune keep ∷ es) = direct_routes (changed (Event.prune keep) rt) es
  direct_routes rt (Event.query sql ∷ es) =
      compute_route (registry_of rt).provider_exists sql ∷ direct_routes rt es

  -- A registry is left as it is, or its version is raised.
  pub data Change (rt next : KnowledgeRuntime W C D) : Type 0 where
    same : registry_of next ≡ registry_of rt → Change rt next
    raised : next.named_provider_epoch ≡ rt.named_provider_epoch + 1 → Change rt next

  installed-Change :
      (name : Bytes) (kind : ProviderKind) (source : Bytes) (is_default : Bool)
      (rt : KnowledgeRuntime W C D) (r : KnowledgeResult (ProviderExecutor W))
      → rt.named_provider_epoch + 1 < u64_size
      → Change rt (installed name kind source is_default rt r).0
  unfolding installed
  installed-Change name kind source is_default rt (KnowledgeResult.err e) lt =
      Change.same (unfold registry_of provider_exists in refl)
  installed-Change name kind source true rt (KnowledgeResult.ok x) lt = Change.raised (omega arith)
  installed-Change name kind source false rt (KnowledgeResult.ok x) lt = Change.raised (omega arith)

  prune-Change :
      (keep : Bytes → Bool) (rt : KnowledgeRuntime W C D)
      → rt.named_provider_epoch + 1 < u64_size
      → Change rt (prune_named_providers_except keep rt)
  unfolding prune_named_providers_except
  prune-Change keep rt lt =
      let kept = retain keep rt.named_providers in
      elim (Bool-cases (length kept == length rt.named_providers)) [
        | inl all_ ↦
            let e = retain-all keep rt.named_providers (ground arith) in
            rw all_ (
              Change.same (
                unfold registry_of provider_exists in
                ap (λ l. registry_of (record rt { named_providers = l })) e))
        | inr some_ ↦ rw some_ (Change.raised (omega arith))
      ]

  pub changed-Change :
      (e : Event W) (rt : KnowledgeRuntime W C D)
      → rt.named_provider_epoch + 1 < u64_size
      → Change rt (changed e rt)
  unfolding changed
  changed-Change (Event.install name kind source build is_default) rt lt =
      unfold install_provider_named registry_of provider_exists in
      elim (installed-Change name kind source is_default
        (record rt { next_generation = fetch_add_1 rt.next_generation })
        (build (fetch_add_1 rt.next_generation)) lt) [
          | Change.same e ↦ Change.same (e)
          | Change.raised e ↦ Change.raised e
        ]
  changed-Change (Event.prune keep) rt lt = prune-Change keep rt lt
  changed-Change (Event.query sql) rt lt = Change.same refl
