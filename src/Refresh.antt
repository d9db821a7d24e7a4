-- ===== src/Refresh.antt =====
-- `src/refresh.rs`: the tables that are reloaded from time to time, and the signals to the host.
use wp_knowledge.Base.{
  ℕ, zero, suc, ◌+◌, Bool, true, false, not, List, [], ◌∷◌, ◌++◌, Option, none, some, ◌==◌, ltb,
  if◌then◌else◌, ite, Bytes, RowData, find, insert, length, get_elem?,
}
use wp_knowledge.Base.Model.{Bytes-discrete}
use wp_knowledge.Base.Text.{codes}
use wp_knowledge.Runtime.Types.{KnowledgeError, KnowledgeResult}
use wp_knowledge.Vel.Parse.{render}
pub mod Spawn
pub mod Signals

-- `DEFAULT_SIGNAL_CAPACITY`
abbrev pub default_signal_capacity : ℕ
default_signal_capacity = 1024

pub data RefreshSource : Type 0 where
  -- The root, the configuration, the database and the table.
  authority : Bytes → Bytes → Bytes → Bytes → RefreshSource
  -- The provider, the query and the code of its variables.
  named_sql : Bytes → Bytes → Bytes → RefreshSource

pub record RefreshSpec : Type 0 where
  pub name : Bytes
  pub interval : ℕ
  pub source : RefreshSource

pub record TableData : Type 0 where
  pub name : Bytes
  pub rows : List RowData

abbrev pub TableStore : Type 0
TableStore = List (Bytes × TableData)

unfoldable pub snapshot : Bytes → TableStore → Option TableData
snapshot name current = find Bytes-discrete name current

unfoldable pub insert_table : TableData → TableStore → TableStore
insert_table data_ current = insert Bytes-discrete data_.name data_ current

-- What the reload of a source gives: `load` is the reload of a table from its files, `query` the query
-- of a named provider, and `now_ns` the clock.
unfoldable pub reload :
    (ℕ → Bytes)
    → (Bytes → Bytes → Bytes → Bytes → KnowledgeResult (List RowData))
    → (Bytes → Bytes → KnowledgeResult (List RowData))
    → ℕ
    → RefreshSpec
    → KnowledgeResult (List RowData)
unfolding render
reload decimal_text load query now_ns spec = elim spec.source [
  | RefreshSource.authority root conf authority_uri table ↦ load root conf authority_uri table
  | RefreshSource.named_sql provider sql code ↦ elim (render decimal_text sql code now_ns) [
    | none ↦ KnowledgeResult.err (KnowledgeError.resource (codes "VEL"))
    | some text ↦ query provider text
  ]
]

-- A task of `run_spec`: it is running until it returns or is aborted.
pub record Task : Type 0 where
  pub spec : RefreshSpec
  pub running : Bool

-- The service with its channel: the signals that wait, and whether the receiver is closed.
pub record RefreshService : Type 0 where
  pub store : TableStore
  pub signals : List Bytes
  pub closed : Bool
  pub handles : List Task

-- `run_spec` returns at once if the interval is zero.
unfoldable pub start_task : RefreshSpec → Task
start_task spec = record { spec = spec; running = not (spec.interval == 0) }

unfoldable pub is_seen : Bytes → List Bytes → Bool
is_seen name [] = false
is_seen name (x ∷ seen) = ite (Bytes-discrete name x) true (is_seen name seen)

-- The loop over the specifications.
unfoldable pub start_all : List Bytes → List RefreshSpec → List Task
unfolding is_seen start_task
start_all seen [] = []
start_all seen (spec ∷ specs) =
    let others = start_all seen specs in
    if is_seen spec.name seen then others else start_task spec ∷ start_all (spec.name ∷ seen) specs

unfoldable pub spawn_with_store : List RefreshSpec → TableStore → RefreshService
unfolding start_all
spawn_with_store specs store = record {
  store = store;
  signals = [];
  closed = false;
  handles = start_all [] specs;
}

unfoldable pub stop : ℕ → List Task → List Task
stop i [] = []
stop zero (t ∷ ts) = record t { running = false } ∷ ts
stop (suc i) (t ∷ ts) = t ∷ stop i ts

unfoldable pub stop_all : List Task → List Task
stop_all [] = []
stop_all (t ∷ ts) = record t { running = false } ∷ stop_all ts

-- `try_send`, and what the task does with its result.
unfoldable pub signal : ℕ → Bytes → RefreshService → RefreshService
unfolding stop
signal i name service =
    if service.closed
    then record service { handles = stop i service.handles }
    else if ltb (length service.signals) default_signal_capacity
    then record service { signals = service.signals ++ name ∷ [] }
    else service

-- The rest of the loop, with the result of the reload.
unfoldable pub reloaded :
    ℕ → Bytes → KnowledgeResult (List RowData) → RefreshService → RefreshService
unfolding signal insert_table
reloaded i name (KnowledgeResult.err e) service = service
reloaded i name (KnowledgeResult.ok rows) service =
    signal i name
      (record service { store = insert_table (record { name = name; rows = rows }) service.store })

pub data Event : Type 0 where
  -- The timer of a task, with what its reload gives.
  tick : ℕ → KnowledgeResult (List RowData) → Event
  -- The host takes a signal, drops the receiver, or shuts the service down.
  receive close shutdown : Event

unfoldable pub ticked :
    ℕ → KnowledgeResult (List RowData) → Option Task → RefreshService → RefreshService
unfolding reloaded
ticked i result none service = service
ticked i result (some task) service =
    if task.running then reloaded i task.spec.name result service else service

unfoldable pub rest_of : List Bytes → List Bytes
rest_of [] = []
rest_of (name ∷ names) = names

unfoldable pub perform : Event → RefreshService → RefreshService
unfolding ticked rest_of stop_all
perform (Event.tick i result) service = ticked i result (get_elem? service.handles i) service
perform Event.receive service = record service { signals = rest_of service.signals }
perform Event.close service = record service { closed = true }
perform Event.shutdown service = record service { handles = stop_all service.handles }

unfoldable pub run : List Event → RefreshService → RefreshService
unfolding perform
run [] service = service
run (e ∷ es) service = run es (perform e service)
