-- ===== src/Runtime/Counters.antt =====
-- `src/runtime.rs`: the counters that other parts report to, and what is read of the providers.
use wp_knowledge.Base.{ℕ, List, [], ◌∷◌, Option, none, some, Bytes}
use wp_knowledge.Base.Text.{codes}
use wp_knowledge.Runtime.Types.{ProviderKind}
use wp_knowledge.Runtime.State.{KnowledgeRuntime, fetch_add_1}

pub record MetadataCacheScope : Type 0 where
  pub datasource_id : Bytes
  pub generation : ℕ

unfoldable pub names : {H : Type 0} → List (Bytes × H) → List Bytes
names [] = []
names ((name, handle) ∷ named) = name ∷ names named

module _ {W C D : Type 0} where
  unfoldable pub record_metadata_cache_hit : KnowledgeRuntime W C D → KnowledgeRuntime W C D
  unfolding fetch_add_1
  record_metadata_cache_hit rt = record rt {
    metadata_cache_hits = fetch_add_1 rt.metadata_cache_hits;
  }

  unfoldable pub record_metadata_cache_miss : KnowledgeRuntime W C D → KnowledgeRuntime W C D
  unfolding fetch_add_1
  record_metadata_cache_miss rt = record rt {
    metadata_cache_misses = fetch_add_1 rt.metadata_cache_misses;
  }

  unfoldable pub record_local_cache_hit : KnowledgeRuntime W C D → KnowledgeRuntime W C D
  unfolding fetch_add_1
  record_local_cache_hit rt = record rt { local_cache_hits = fetch_add_1 rt.local_cache_hits }

  unfoldable pub record_local_cache_miss : KnowledgeRuntime W C D → KnowledgeRuntime W C D
  unfolding fetch_add_1
  record_local_cache_miss rt = record rt { local_cache_misses = fetch_add_1 rt.local_cache_misses }

  unfoldable pub current_metadata_scope : KnowledgeRuntime W C D → MetadataCacheScope
  current_metadata_scope rt = elim rt.provider [
    | none ↦ record { datasource_id = codes "sqlite:standalone"; generation = 0 }
    | some handle ↦ record { datasource_id = handle.datasource_id; generation = handle.generation }
  ]

  unfoldable pub current_provider_kind : KnowledgeRuntime W C D → Option ProviderKind
  current_provider_kind rt = elim rt.provider [ none ↦ none | some handle ↦ some handle.kind ]

  unfoldable pub provider_names : KnowledgeRuntime W C D → List Bytes
  unfolding names
  provider_names rt = names rt.named_providers
