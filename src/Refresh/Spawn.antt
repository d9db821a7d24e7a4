-- ===== src/Refresh/Spawn.antt =====
-- `src/refresh.rs`: one task for a table, the first that is asked for.
use wp_knowledge.Base.{
  ◌≡◌, refl, sym, ap, ◌∙◌, true, false, List, [], ◌∷◌, Option, none, some, arith, ite, Bytes,
  Bool-cases, inl, inr,
}
use wp_knowledge.Base.Model.{Bytes-discrete}
use wp_knowledge.Refresh.{
  TableStore, RefreshSpec, Task, start_task, is_seen, start_all, spawn_with_store,
}

-- The first specification of a name.
unfoldable pub first_spec : Bytes → List RefreshSpec → Option RefreshSpec
first_spec name [] = none
first_spec name (spec ∷ specs) =
    ite (Bytes-discrete name spec.name) (some spec) (first_spec name specs)

-- The tasks of a name.
unfoldable pub tasks_of : Bytes → List Task → List Task
tasks_of name [] = []
tasks_of name (t ∷ ts) =
    let others = tasks_of name ts in ite (Bytes-discrete name t.spec.name) (t ∷ others) others

unfoldable pub started : Option RefreshSpec → List Task
unfolding start_task
started none = []
started (some spec) = start_task spec ∷ []

start_all_seen :
    (name : Bytes) (seen : List Bytes) (specs : List RefreshSpec)
    → is_seen name seen ≡ true
    → tasks_of name (start_all seen specs) ≡ []
unfolding start_all tasks_of is_seen start_task
start_all_seen name seen [] h = refl
start_all_seen name seen (spec ∷ specs) h = elim (Bool-cases (is_seen spec.name seen)) [
  | inl old ↦ ground (arith, start_all_seen name seen specs h)
  | inr new ↦ elim (Bytes-discrete name spec.name) [
    | yes same ↦ absurd (ground (arith, ap (λ n. is_seen n seen) same))
    | no other ↦
        let ih = start_all_seen name (spec.name ∷ seen) specs (ground arith) in ground arith
  ]
]

start_all_new :
    (name : Bytes) (seen : List Bytes) (specs : List RefreshSpec)
    → is_seen name seen ≡ false
    → tasks_of name (start_all seen specs) ≡ started (first_spec name specs)
unfolding start_all tasks_of is_seen start_task first_spec started
start_all_new name seen [] h = refl
start_all_new name seen (spec ∷ specs) h = elim (Bytes-discrete name spec.name) [
  | yes same ↦
      let new : is_seen spec.name seen ≡ false = ap (λ n. is_seen n seen) (sym same) ∙ h in
      let gone = start_all_seen name (spec.name ∷ seen) specs (ground arith) in ground arith
  | no other ↦ elim (Bool-cases (is_seen spec.name seen)) [
    | inl old ↦ ground (arith, start_all_new name seen specs h)
    | inr new ↦ ground (arith, start_all_new name (spec.name ∷ seen) specs (ground arith))
  ]
]

-- For each table there is one task, of the first of its specifications, and none if it has no
-- specification; a second specification of a table starts nothing.
pub tasks_of-spawn_with_store :
    (name : Bytes) (specs : List RefreshSpec) (store : TableStore)
    → tasks_of name (spawn_with_store specs store).handles ≡ started (first_spec name specs)
unfolding spawn_with_store is_seen
tasks_of-spawn_with_store name specs store = start_all_new name [] specs refl
