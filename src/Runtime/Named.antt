-- ===== src/Runtime/Named.antt =====
-- `src/runtime.rs`: which named providers there are after an installation and a removal.
use wp_knowledge.Base.{
  ℕ, ◌≡◌, sym, ap, subst, Bool, true, false, ◌&&◌, List, [], ◌∷◌, none, some, arith, ◌==◌,
  if◌then◌else◌, ite, Bytes, find, insert, find-insert_self, find-insert_ne, Bool-cases, inl, inr,
  length,
}
use wp_knowledge.Base.Model.{Bytes-discrete}
use wp_knowledge.Runtime.Types.{ProviderKind, ProviderExecutor, ProviderHandle, KnowledgeResult}
use wp_knowledge.Runtime.State.{
  KnowledgeRuntime, fetch_add_1, installed, register, publish, retain, install_provider_named,
  provider_exists, prune_named_providers_except,
}

find-retain :
    {H : Type 0} (keep : Bytes → Bool) (name : Bytes) (named : List (Bytes × H))
    → find Bytes-discrete name (retain keep named)
      ≡ (if keep name then find Bytes-discrete name named else none)
unfolding retain find
find-retain keep name [] = elim (Bool-cases (keep name)) [
  | inl k ↦ ground arith
  | inr k ↦ ground arith
]
find-retain keep name ((n, h) ∷ named) =
    let ih = find-retain keep name named in
    elim (Bytes-discrete n name) [
      | yes same ↦
          let eq = ap keep same in
          elim (Bool-cases (keep name)) [ inl k ↦ ground arith | inr k ↦ ground arith ]
      | no other ↦ elim (Bool-cases (keep n)) [ inl k ↦ ground arith | inr k ↦ ground arith ]
    ]

find-insert :
    {H : Type 0} (name q : Bytes) (h : H) (named : List (Bytes × H))
    → find Bytes-discrete q (insert Bytes-discrete name h named)
      ≡ ite (Bytes-discrete q name) (some h) (find Bytes-discrete q named)
find-insert name q h named = elim (Bytes-discrete q name) [
  | yes same ↦
      let self = find-insert_self Bytes-discrete name h named in
      let here =
        subst (λ x. find Bytes-discrete x (insert Bytes-discrete name h named) ≡ some h) (sym same)
          self in
      ground arith
  | no other ↦
      let kept = find-insert_ne Bytes-discrete name q h named (λ same. other (sym same)) in
      ground arith
]

module _ {W C D : Type 0} where
  pub exists-prune :
      (keep : Bytes → Bool) (name : Bytes) (rt : KnowledgeRuntime W C D)
      → provider_exists name (prune_named_providers_except keep rt)
        ≡ (keep name && provider_exists name rt)
  unfolding prune_named_providers_except provider_exists
  exists-prune keep name rt =
      let found = find-retain keep name rt.named_providers in
      elim (Bool-cases (length (retain keep rt.named_providers) == length rt.named_providers)) [
        | inl same ↦ elim (Bool-cases (keep name)) [ inl k ↦ ground arith | inr k ↦ ground arith ]
        | inr fewer ↦ elim (Bool-cases (keep name)) [ inl k ↦ ground arith | inr k ↦ ground arith ]
      ]

  module _ (name : Bytes) (kind : ProviderKind) (datasource_id : Bytes) where
    exists-installed :
        (d : Bool) (rt : KnowledgeRuntime W C D) (r : KnowledgeResult (ProviderExecutor W)) (g : ℕ)
        (q : Bytes)
        → (installed name kind datasource_id d rt r).1 ≡ KnowledgeResult.ok g
        → provider_exists q (installed name kind datasource_id d rt r).0
          ≡ (ite (Bytes-discrete q name) true (provider_exists q rt))
    unfolding installed register publish provider_exists
    exists-installed d rt (KnowledgeResult.err e) g q h = absurd (ground arith)
    exists-installed true rt (KnowledgeResult.ok x) g q h =
        let handle : ProviderHandle W = record {
          executor = x;
          datasource_id = datasource_id;
          generation = rt.next_generation;
          kind = kind;
        } in
        let found = find-insert name q handle rt.named_providers in
        elim (Bytes-discrete q name) [ yes same ↦ ground arith | no other ↦ ground arith ]
    exists-installed false rt (KnowledgeResult.ok x) g q h =
        let handle : ProviderHandle W = record {
          executor = x;
          datasource_id = datasource_id;
          generation = rt.next_generation;
          kind = kind;
        } in
        let found = find-insert name q handle rt.named_providers in
        elim (Bytes-discrete q name) [ yes same ↦ ground arith | no other ↦ ground arith ]

    pub exists-install_provider_named :
        (build : ℕ → KnowledgeResult (ProviderExecutor W)) (d : Bool) (rt : KnowledgeRuntime W C D)
        (g : ℕ) (q : Bytes)
        → (install_provider_named name kind datasource_id build d rt).1 ≡ KnowledgeResult.ok g
        → provider_exists q (install_provider_named name kind datasource_id build d rt).0
          ≡ ite (Bytes-discrete q name) true (provider_exists q rt)
    unfolding install_provider_named provider_exists
    exists-install_provider_named build d rt g q h =
        exists-installed d (record rt { next_generation = fetch_add_1 rt.next_generation })
          (build (fetch_add_1 rt.next_generation)) g q h
