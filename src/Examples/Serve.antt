-- ===== src/Examples/Serve.antt =====
-- The theorems on `src/runtime.rs` at concrete inputs.
use wp_knowledge.Base.{ℕ, ◌+◌, ◌≡◌, ◌≢◌, refl, true, false, List, [], ◌∷◌, some, arith, Bytes}
use wp_knowledge.Base.Model.{ℤ}
use wp_knowledge.Base.Text.{codes}
use wp_knowledge.Runtime.Types.{
  ProviderKind, KnowledgeError, KnowledgeResult, CachePolicy, QueryValue, QueryParam, QueryRequest,
  ProviderExecutor, ProviderHandle,
}
use wp_knowledge.Runtime.Params.{result_cache_key}
use wp_knowledge.Runtime.State.{
  new, install_provider, install_provider_named, current_generation, provider_by_name,
  current_handle, fetch_add_1,
}
use wp_knowledge.Runtime.Execute.{execute, execute_with_handle}
use wp_knowledge.Runtime.Ask.{answer}
use wp_knowledge.Runtime.Registry.{
  IsConsistent, install_provider_named_ok, install_provider_named-IsConsistent,
}
use wp_knowledge.Runtime.Answers.{Outcome, execute_with_handle-Outcome}
use wp_knowledge.Runtime.Race.{
  PublishStep, publish_steps, Interleaved, perform, current_generation_race,
}
use wp_knowledge.Runtime.Reload.{execute-install_provider}
use wp_knowledge.Examples.World.{
  results, finish, provider, State, fresh, build, one, ask_many, handle, one-IsPast, one-IsLogged,
  fresh-IsConsistent,
}

execute_with_handle-Outcome_example :
    Outcome results true [] 10 11
      (result_cache_key finish handle ask_many)
      (answer handle 5 ask_many)
      one
      (execute_with_handle finish results 10 11 5 handle ask_many one)
unfolding wp_knowledge.Runtime.Ask.is_use_global install_provider new
execute_with_handle-Outcome_example =
    execute_with_handle-Outcome results finish [] 10 11 5 handle one ask_many one-IsLogged

abbrev bypassing : QueryRequest
bypassing = record ask_many { cache_policy = CachePolicy.bypass }

execute-install_provider_example :
    (execute finish results 20 21 6 ask_many
      (install_provider ProviderKind.postgres (codes "pg") (build (codes "b")) one).0).1
    ≡ answer
        (record {
          executor = provider (codes "b");
          datasource_id = codes "pg";
          generation = one.next_generation + 1;
          kind = ProviderKind.postgres;
        })
        6
        ask_many
unfolding new install_provider
execute-install_provider_example =
    execute-install_provider results finish 20 21 6 ask_many ProviderKind.postgres (codes "pg")
      (build (codes "b")) (provider (codes "b")) one one-IsPast (omega arith) refl

-- A provider by another name, beside the default one.
abbrev geo : ProviderHandle ℕ
geo = record {
  executor = provider (codes "g");
  datasource_id = codes "my";
  generation = fetch_add_1 one.next_generation;
  kind = ProviderKind.mysql;
}

abbrev two : State × KnowledgeResult ℕ
two =
    install_provider_named (codes "geo") ProviderKind.mysql (codes "my") (build (codes "g")) false
      one

install_provider_named_ok_example :
    (two.1 ≡ KnowledgeResult.ok (fetch_add_1 one.next_generation))
    × (provider_by_name (codes "geo") two.0 ≡ KnowledgeResult.ok geo)
    × ((q : Bytes) → codes "geo" ≢ q → provider_by_name q two.0 ≡ provider_by_name q one)
    × (current_handle two.0 ≡ current_handle one)
install_provider_named_ok_example =
    install_provider_named_ok (codes "geo") ProviderKind.mysql (codes "my") (build (codes "g"))
      false one (provider (codes "g")) refl

abbrev broken : ℕ → KnowledgeResult (ProviderExecutor ℕ)
broken g = KnowledgeResult.err (KnowledgeError.provider 2)

abbrev kept : State × KnowledgeResult ℕ
kept = install_provider_named (codes "geo") ProviderKind.mysql (codes "my") broken true one

install_provider_named-IsConsistent_example :
    IsConsistent
      (install_provider_named
        (codes "geo")
        ProviderKind.mysql
        (codes "my")
        (build (codes "g"))
        true
        fresh).0
unfolding new
install_provider_named-IsConsistent_example =
    install_provider_named-IsConsistent (codes "geo") ProviderKind.mysql (codes "my")
      (build (codes "g")) true fresh (omega arith) fresh-IsConsistent

current_generation_race_example :
    (zs : List (PublishStep ℕ)) × Interleaved (publish_steps handle) (publish_steps geo) zs
    × (current_handle (perform zs fresh) ≡ KnowledgeResult.ok geo)
    × (current_generation
          (perform zs fresh)
          (perform zs fresh)
          (perform zs fresh)
          (perform zs fresh)
        ≡ some 1)
current_generation_race_example =
    current_generation_race fresh handle geo fresh-IsConsistent (omega arith)

abbrev query_params : List QueryParam
query_params =
    record { name = codes "ip"; value = QueryValue.text (codes "x") }
    ∷ record { name = codes "n"; value = QueryValue.int (ℤ.negsuc 2) }
    ∷ []
