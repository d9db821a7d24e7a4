-- ===== src/SqlRoute/Fresh.antt =====
-- `src/sql_route.rs`: the routes by way of the memo table against the routes computed directly.
use wp_knowledge.Base.{
  ℕ, suc, ◌+◌, ◌<◌, ◌≤◌, ◌≡◌, refl, sym, ap, subst, ◌∙◌, Bool, List, [], ◌∷◌, Option, none, some,
  arith, Bytes, length, Option-cases, Bool-cases, inl, inr, leb, if◌then◌else◌, ite, if_pos, if_neg,
  find, insert, find-insert_self, find-insert_ne, length-insert-le, ℕ_discrete,
}
use wp_knowledge.Lru.{Member, here, there}
use wp_knowledge.SqlRoute.Strip.{compute_route}
use wp_knowledge.SqlRoute.Memo.{
  route_memo_cap, Route, RouteMemo, new_memo, Registry, remember, recall, route_provider_sql,
}
use wp_knowledge.Runtime.State.{KnowledgeRuntime, u64_size}
use wp_knowledge.SqlRoute.Events.{
  Event, queries, registry_of, changed, direct_routes, Change, changed-Change,
}

module _ {W C D : Type 0} (sql_route_key : Bytes → ℕ) where
  unfoldable pub memo_routes : KnowledgeRuntime W C D → RouteMemo → List (Event W) → List Route
  memo_routes rt memo [] = []
  memo_routes rt memo (Event.install name kind source build is_default ∷ es) =
      memo_routes (changed (Event.install name kind source build is_default) rt) memo es
  memo_routes rt memo (Event.prune keep ∷ es) = memo_routes (changed (Event.prune keep) rt) memo es
  memo_routes rt memo (Event.query sql ∷ es) =
      let (memo', routed) = route_provider_sql sql_route_key (registry_of rt) memo sql in
      routed ∷ memo_routes rt memo' es

module _ (sql_route_key : Bytes → ℕ) where
  -- No two of the texts have one hash.
  abbrev pub IsCollisionFree : List Bytes → Type 0
  IsCollisionFree qs =
      (a b : Bytes) → Member a qs → Member b qs → sql_route_key a ≡ sql_route_key b → a ≡ b

  module _ (qs : List Bytes) (free : IsCollisionFree qs) where
    -- Every entry of the current version is the current route of the text with its hash.
    abbrev Entries : (Bytes → Bool) → List (ℕ × Route) → Type 0
    Entries p m =
        (sql : Bytes) (routed : Route)
        → Member sql qs
        → find ℕ_discrete (sql_route_key sql) m ≡ some routed
        → routed ≡ compute_route p sql

    pub record IsFresh (reg : Registry) (memo : RouteMemo) : Type 0 where
      pub past : memo.epoch ≤ reg.epoch
      pub entries : memo.epoch ≡ reg.epoch → Entries reg.provider_exists memo.map
      pub bounded : length memo.map ≤ route_memo_cap

    Entries-insert :
        (p : Bytes → Bool) (m : List (ℕ × Route)) (sql : Bytes)
        → Member sql qs
        → Entries p m
        → Entries p (insert ℕ_discrete (sql_route_key sql) (compute_route p sql) m)
    Entries-insert p m sql mem old q routed mem' e =
        elim (ℕ_discrete (sql_route_key sql) (sql_route_key q)) [
          | yes same ↦
              let text : sql ≡ q = free sql q mem mem' same in
              let m' = insert ℕ_discrete (sql_route_key sql) (compute_route p sql) m in
              let e' : find ℕ_discrete (sql_route_key sql) m' ≡ some routed =
                subst (λ x. find ℕ_discrete x m' ≡ some routed) (sym same) e in
              let g : some (compute_route p sql) ≡ some routed =
                sym (find-insert_self ℕ_discrete (sql_route_key sql) (compute_route p sql) m)
                ∙ e' in
              let f : compute_route p sql ≡ routed = cc in sym f ∙ ap (compute_route p) text
          | no other ↦ old q routed mem' (
              sym (find-insert_ne ℕ_discrete _ (sql_route_key q) (compute_route p sql) m other) ∙ e)
        ]

    Entries-nil : (p : Bytes → Bool) → Entries p []
    Entries-nil p q routed mem e = absurd (unfold find in ground arith)

    -- The table that `remember` writes into: of the current version, and with room.
    cleared : RouteMemo → ℕ → List (ℕ × Route)
    cleared memo epoch = ite (ℕ_discrete memo.epoch epoch) memo.map []

    roomy : List (ℕ × Route) → List (ℕ × Route)
    roomy m = if leb route_memo_cap (length m) then [] else m

    remember_lem :
        (memo : RouteMemo) (epoch key : ℕ) (routed : Route)
        → remember sql_route_key memo epoch key routed ≡ record {
          epoch = epoch;
          map = insert ℕ_discrete key routed (roomy (cleared memo epoch));
        }
    unfolding remember cleared roomy
    remember_lem memo epoch key routed = ground arith

    roomy_lt : (m : List (ℕ × Route)) → length (roomy m) < route_memo_cap
    unfolding roomy
    roomy_lt m = ground arith

    Entries-roomy : (p : Bytes → Bool) (m : List (ℕ × Route)) → Entries p m → Entries p (roomy m)
    unfolding roomy
    Entries-roomy p m h = elim (Bool-cases (leb route_memo_cap (length m))) [
      | inl e ↦ rw (e, roomy) (Entries-nil p)
      | inr e ↦ rw (e, roomy) h
    ]

    Entries-cleared :
        (reg : Registry) (memo : RouteMemo)
        → IsFresh reg memo
        → Entries reg.provider_exists (cleared memo reg.epoch)
    unfolding cleared
    Entries-cleared reg memo h = elim (ℕ_discrete memo.epoch reg.epoch) [
      | yes e ↦ rw (if_pos (ℕ_discrete memo.epoch reg.epoch) e memo.map []) (h.entries e)
      | no e ↦
          rw (if_neg (ℕ_discrete memo.epoch reg.epoch) e memo.map [])
            (Entries-nil reg.provider_exists)
    ]

    remember-IsFresh :
        (reg : Registry) (memo : RouteMemo) (sql : Bytes)
        → Member sql qs
        → IsFresh reg memo
        → IsFresh reg (
            remember sql_route_key memo reg.epoch
              (sql_route_key sql)
              (compute_route reg.provider_exists sql))
    remember-IsFresh reg memo sql mem h =
        let p = reg.provider_exists in
        let m = roomy (cleared memo reg.epoch) in
        rw (remember_lem memo reg.epoch (sql_route_key sql) (compute_route p sql)) (record {
          past = omega arith;
          entries = λ _.
              Entries-insert p m sql mem
                (Entries-roomy p (cleared memo reg.epoch) (Entries-cleared reg memo h));
          bounded = omega (
            arith,
            roomy_lt (cleared memo reg.epoch),
            length-insert-le ℕ_discrete (sql_route_key sql) (compute_route p sql) m,
          );
        })

    recall-current :
        (reg : Registry) (memo : RouteMemo) (sql : Bytes) (routed : Route)
        → Member sql qs
        → IsFresh reg memo
        → recall sql_route_key memo reg.epoch (sql_route_key sql) ≡ some routed
        → routed ≡ compute_route reg.provider_exists sql
    unfolding recall
    recall-current reg memo sql routed mem h e = elim (ℕ_discrete memo.epoch reg.epoch) [
      | yes same ↦
          h.entries same sql routed mem
            (sym (if_pos (ℕ_discrete memo.epoch reg.epoch) same _ _) ∙ e)
      | no other ↦ absurd (
          ground (
            arith,
            if_neg (ℕ_discrete memo.epoch reg.epoch) other
                (find ℕ_discrete (sql_route_key sql) memo.map) none,
          ))
    ]

    route_lem :
        (reg : Registry) (memo : RouteMemo) (sql : Bytes) (o : Option Route)
        → recall sql_route_key memo reg.epoch (sql_route_key sql) ≡ o
        → route_provider_sql sql_route_key reg memo sql ≡ elim o [
          | some routed ↦ (memo, routed)
          | none ↦ (
            remember sql_route_key memo reg.epoch
                (sql_route_key sql)
                (compute_route reg.provider_exists sql),
            compute_route reg.provider_exists sql,
          )
        ]
    unfolding route_provider_sql
    route_lem reg memo sql o e = rw (← e) refl

    route_miss :
        (reg : Registry) (memo : RouteMemo) (sql : Bytes)
        → recall sql_route_key memo reg.epoch (sql_route_key sql) ≡ none
        → route_provider_sql sql_route_key reg memo sql ≡ (
          remember sql_route_key memo reg.epoch
              (sql_route_key sql)
              (compute_route reg.provider_exists sql),
          compute_route reg.provider_exists sql,
        )
    route_miss reg memo sql e = route_lem reg memo sql _ e

    route_hit :
        (reg : Registry) (memo : RouteMemo) (sql : Bytes) (routed : Route)
        → recall sql_route_key memo reg.epoch (sql_route_key sql) ≡ some routed
        → route_provider_sql sql_route_key reg memo sql ≡ (memo, routed)
    route_hit reg memo sql routed e = route_lem reg memo sql _ e

    route-cases :
        (reg : Registry) (memo : RouteMemo) (sql : Bytes)
        → Member sql qs
        → IsFresh reg memo
        → ((route_provider_sql sql_route_key reg memo sql).1
            ≡ compute_route reg.provider_exists sql)
          × IsFresh reg (route_provider_sql sql_route_key reg memo sql).0
    route-cases reg memo sql mem h =
        elim (Option-cases (recall sql_route_key memo reg.epoch (sql_route_key sql))) [
          | inl e ↦ rw (route_miss reg memo sql e) (refl, remember-IsFresh reg memo sql mem h)
          | inr (routed, e) ↦
              rw (route_hit reg memo sql routed e) (recall-current reg memo sql routed mem h e, h)
        ]

  module _ {W C D : Type 0} (qs : List Bytes) (free : IsCollisionFree qs) where
    abbrev IsFreshAt : KnowledgeRuntime W C D → RouteMemo → Type 0
    IsFreshAt rt memo = IsFresh qs free (registry_of rt) memo

    IsFresh-Change :
        (rt next : KnowledgeRuntime W C D) (memo : RouteMemo)
        → Change rt next
        → IsFreshAt rt memo
        → IsFreshAt next memo
    IsFresh-Change rt next memo (Change.same e) h =
        subst (λ reg. IsFresh qs free reg memo) (sym e) h
    IsFresh-Change rt next memo (Change.raised e) h =
        let past : memo.epoch ≤ rt.named_provider_epoch = unfold registry_of in h.past in
        record {
          past = unfold registry_of in omega arith;
          entries = λ same. absurd (unfold registry_of in omega arith);
          bounded = h.bounded;
        }

    -- A change raises the version at most by one, so it stays below the end of the counter.
    Change-bound :
        (rt next : KnowledgeRuntime W C D) (n : ℕ)
        → Change rt next
        → rt.named_provider_epoch + suc n < u64_size
        → next.named_provider_epoch + n < u64_size
    Change-bound rt next n (Change.same e) lt =
        let same : next.named_provider_epoch ≡ rt.named_provider_epoch =
          unfold registry_of in ap (λ (reg : Registry). reg.epoch) e in
        omega arith
    Change-bound rt next n (Change.raised e) lt = omega arith

    memo_routes-direct_in :
        (es : List (Event W)) (rt : KnowledgeRuntime W C D) (memo : RouteMemo)
        → ((sql : Bytes) → Member sql (queries es) → Member sql qs)
        → rt.named_provider_epoch + length es < u64_size
        → IsFreshAt rt memo
        → memo_routes sql_route_key rt memo es ≡ direct_routes rt es
    unfolding memo_routes direct_routes
    memo_routes-direct_in [] rt memo sub lt h = refl
    memo_routes-direct_in (Event.install name kind source build is_default ∷ es) rt memo sub lt h =
        let e : Event W = Event.install name kind source build is_default in
        let change = changed-Change e rt (omega arith) in
        memo_routes-direct_in es (changed e rt) memo (λ sql m. sub sql (unfold queries in m))
          (Change-bound rt (changed e rt) (length es) change (omega arith))
          (IsFresh-Change rt (changed e rt) memo change h)
    memo_routes-direct_in (Event.prune keep ∷ es) rt memo sub lt h =
        let e : Event W = Event.prune keep in
        let change = changed-Change e rt (omega arith) in
        memo_routes-direct_in es (changed e rt) memo (λ sql m. sub sql (unfold queries in m))
          (Change-bound rt (changed e rt) (length es) change (omega arith))
          (IsFresh-Change rt (changed e rt) memo change h)
    memo_routes-direct_in (Event.query sql ∷ es) rt memo sub lt h =
        let mem : Member sql qs = sub sql (unfold queries in here) in
        let (right, next) = route-cases qs free (registry_of rt) memo sql mem h in
        let memo' = (route_provider_sql sql_route_key (registry_of rt) memo sql).0 in
        ap (λ (r : Route). r ∷ memo_routes sql_route_key rt memo' es) right
        ∙ ap (λ (l : List Route). compute_route (registry_of rt).provider_exists sql ∷ l)
            (memo_routes-direct_in es rt memo' (λ q m. sub q (unfold queries in there m))
              (omega arith) next)

-- As long as no two of the queries have one hash and the events are too few for the version of the
-- registry to wrap, every query gets its route under the registry of its time, as if there were no
-- memo table, however often providers are installed and removed between the queries.
pub memo_routes-direct :
    {W C D : Type 0} (sql_route_key : Bytes → ℕ) (es : List (Event W)) (rt : KnowledgeRuntime W C D)
    → IsCollisionFree sql_route_key (queries es)
    → rt.named_provider_epoch + length es < u64_size
    → memo_routes sql_route_key rt new_memo es ≡ direct_routes rt es
memo_routes-direct sql_route_key es rt free lt =
    memo_routes-direct_in sql_route_key (queries es) free es rt new_memo (λ sql m. m) lt
      (record {
        past = omega arith;
        entries = λ e. Entries-nil sql_route_key (queries es) free (registry_of rt).provider_exists;
        bounded = omega arith;
      })
