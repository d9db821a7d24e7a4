-- ===== src/Examples/Refreshing.antt =====
-- The theorems on `src/refresh.rs` and on the texts of `src/vel.rs` at concrete inputs.
use wp_knowledge.Base.{
  ℕ, ◌+◌, ◌-◌, ◌/◌, ◌%◌, ◌≡◌, refl, true, List, [], ◌∷◌, ◌++◌, some, arith, Bytes, ltb,
  if◌then◌else◌, length, get_elem?, find, insert, ℕ_discrete,
}
use wp_knowledge.Base.Model.{Bytes-discrete}
use wp_knowledge.Base.Text.{codes}
use wp_knowledge.Runtime.Types.{KnowledgeError, KnowledgeResult}
use wp_knowledge.Vel.Parse.{eval_code, render}
use wp_knowledge.Refresh.{
  RefreshSource, RefreshSpec, RefreshService, Event, spawn_with_store, perform, run,
}
use wp_knowledge.Refresh.Signals.{taken, signal_received}

abbrev decimal : ℕ → Bytes
decimal n = if ltb n 10 then (b'0' + n) ∷ [] else (b'0' + n / 10) ∷ (b'0' + n % 10) ∷ []

abbrev code : Bytes
code =
    codes "# comment"
    ++ 10 ∷ codes "$max_age = \"2 hours\""
    ++ 10 ∷ codes "  $cur  = phase_now(240, 15) # now"
    ++ 13 ∷ 10 ∷ codes "$next = phase_next( 240 , +15, \"s\")"
    ++ 10 ∷ []

evaluated :
    eval_code decimal code 225_000_000_000
    ≡ some (
        (codes "max_age", codes "2 hours")
        ∷ (codes "cur", codes "p15")
        ∷ (codes "next", codes "s0")
        ∷ [])
unfolding eval_code Bytes-discrete ℕ_discrete
evaluated = refl

rendered :
    render decimal (codes "a $cur $cur2 $$next$ '$max_age'") code 225_000_000_000
    ≡ some (codes "a p15 $cur2 $s0$ '2 hours'")
unfolding render Bytes-discrete ℕ_discrete find insert
rendered = refl

abbrev vars : List (Bytes × Bytes)
vars = (codes "cur", codes "p8") ∷ []

abbrev table : Bytes → Bytes → RefreshSpec
table name sql = record {
  name = name;
  interval = 80;
  source = RefreshSource.named_sql (codes "pg") sql [];
}

abbrev specs : List RefreshSpec
specs =
    table (codes "a") (codes "1")
    ∷ table (codes "b") (codes "2")
    ∷ table (codes "a") (codes "3")
    ∷ []

abbrev service : RefreshService
service = spawn_with_store specs []

abbrev sent : RefreshService
sent = perform (Event.tick 0 (KnowledgeResult.ok [])) service

-- A signal waits; while that of the second table does too, the first is taken.
abbrev later : List Event
later =
    Event.tick 0 (KnowledgeResult.err (KnowledgeError.provider 3))
    ∷ Event.receive
    ∷ Event.tick 0 (KnowledgeResult.ok [])
    ∷ []

signal_received_example :
    get_elem?
      (run (Event.tick 1 (KnowledgeResult.ok []) ∷ later) sent).signals
      (length sent.signals - taken later)
    ≡ some (codes "b")
unfolding perform spawn_with_store Bytes-discrete ℕ_discrete taken
signal_received_example =
    signal_received 1 [] (record { spec = table (codes "b") (codes "2"); running = true }) sent
      later refl refl refl (omega arith) (omega arith)
