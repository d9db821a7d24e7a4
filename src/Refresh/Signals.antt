-- ===== src/Refresh/Signals.antt =====
-- `src/refresh.rs`: a signal that is sent is received.
use wp_knowledge.Base.{
  ℕ, zero, suc, ◌-◌, ◌≤◌, ◌<◌, ◌≡◌, refl, ap, subst, ◌∙◌, true, false, List, [], ◌∷◌, ◌++◌, Option,
  none, some, arith, ltb, Bytes, RowData, length, get_elem?, Bool-cases, inl, inr,
}
use wp_knowledge.Runtime.Types.{KnowledgeResult}
use wp_knowledge.Refresh.{
  default_signal_capacity, Task, RefreshService, Event, signal, reloaded, ticked, rest_of, perform,
  run, insert_table, stop_all,
}

get_elem?-append :
    (o p : List Bytes) (i : ℕ) (f : Bytes) → get_elem? o i ≡ some f → get_elem? (o ++ p) i ≡ some f
get_elem?-append [] p i f e = absurd (ground arith)
get_elem?-append (x ∷ o) p zero f e = e
get_elem?-append (x ∷ o) p (suc i) f e = get_elem?-append o p i f e

get_elem?-append_last : (o : List Bytes) (f : Bytes) → get_elem? (o ++ f ∷ []) (length o) ≡ some f
get_elem?-append_last [] f = refl
get_elem?-append_last (x ∷ o) f = get_elem?-append_last o f

-- How many signals the host takes.
unfoldable pub taken : List Event → ℕ
taken [] = 0
taken (Event.receive ∷ es) = suc (taken es)
taken (Event.tick i r ∷ es) = taken es
taken (Event.close ∷ es) = taken es
taken (Event.shutdown ∷ es) = taken es

signal-keeps :
    (i : ℕ) (other : Bytes) (s : RefreshService) (p : ℕ) (name : Bytes)
    → get_elem? s.signals p ≡ some name
    → get_elem? (signal i other s).signals p ≡ some name
unfolding signal
signal-keeps i other s p name e =
    let more = get_elem?-append s.signals (other ∷ []) p name e in
    elim (Bool-cases s.closed) [
      | inl c ↦ ground arith
      | inr o ↦ elim (Bool-cases (ltb (length s.signals) default_signal_capacity)) [
        | inl room ↦ ground arith
        | inr full ↦ ground arith
      ]
    ]

reloaded-keeps :
    (i : ℕ) (other : Bytes) (r : KnowledgeResult (List RowData)) (s : RefreshService) (p : ℕ)
    (name : Bytes)
    → get_elem? s.signals p ≡ some name
    → get_elem? (reloaded i other r s).signals p ≡ some name
unfolding reloaded
reloaded-keeps i other (KnowledgeResult.err x) s p name e = e
reloaded-keeps i other (KnowledgeResult.ok rows) s p name e =
    signal-keeps i other
      (record s { store = insert_table (record { name = other; rows = rows }) s.store }) p name e

ticked-keeps :
    (i : ℕ) (r : KnowledgeResult (List RowData)) (t : Option Task) (s : RefreshService) (p : ℕ)
    (name : Bytes)
    → get_elem? s.signals p ≡ some name
    → get_elem? (ticked i r t s).signals p ≡ some name
unfolding ticked
ticked-keeps i r none s p name e = e
ticked-keeps i r (some t) s p name e =
    let kept = reloaded-keeps i t.spec.name r s p name e in
    elim (Bool-cases t.running) [ inl on ↦ ground arith | inr off ↦ ground arith ]

get_elem?-rest_of :
    (names : List Bytes) (p : ℕ) (name : Bytes)
    → get_elem? names (suc p) ≡ some name
    → get_elem? (rest_of names) p ≡ some name
unfolding rest_of
get_elem?-rest_of [] p name e = absurd (ground arith)
get_elem?-rest_of (x ∷ names) p name e = e

run-keeps :
    (es : List Event) (s : RefreshService) (p : ℕ) (name : Bytes)
    → get_elem? s.signals p ≡ some name
    → taken es ≤ p
    → get_elem? (run es s).signals (p - taken es) ≡ some name
unfolding run taken perform
run-keeps [] s p name e h =
    let same : p ≡ p - 0 = omega arith in subst (λ k. get_elem? s.signals k ≡ some name) same e
run-keeps (Event.tick i r ∷ es) s p name e h =
    run-keeps es (ticked i r (get_elem? s.handles i) s) p name
      (ticked-keeps i r (get_elem? s.handles i) s p name e) h
run-keeps (Event.receive ∷ es) s zero name e h = absurd (omega arith)
run-keeps (Event.receive ∷ es) s (suc p) name e h =
    let next : RefreshService = record s { signals = rest_of s.signals } in
    let same : p - taken es ≡ suc p - suc (taken es) = omega arith in
    subst (λ k. get_elem? (run es next).signals k ≡ some name) same
      (run-keeps es next p name (get_elem?-rest_of s.signals p name e) (omega arith))
run-keeps (Event.close ∷ es) s p name e h = run-keeps es (record s { closed = true }) p name e h
run-keeps (Event.shutdown ∷ es) s p name e h =
    run-keeps es (record s { handles = stop_all s.handles }) p name e h

tick_sends :
    (i : ℕ) (rows : List RowData) (t : Task) (s : RefreshService)
    → get_elem? s.handles i ≡ some t
    → t.running ≡ true
    → s.closed ≡ false
    → length s.signals < default_signal_capacity
    → (perform (Event.tick i (KnowledgeResult.ok rows)) s).signals ≡ s.signals ++ t.spec.name ∷ []
unfolding perform ticked reloaded signal
tick_sends i rows t s e on open_ room = ground arith

-- When the timer of a running task has reloaded its table, the receiver is open and the channel has
-- room, the host gets the signal: whatever other timers do meanwhile, with or without success, it is
-- taken after the signals that waited before it, and until then each signal taken moves it up by one.
pub signal_received :
    (i : ℕ) (rows : List RowData) (t : Task) (s : RefreshService) (es : List Event)
    → get_elem? s.handles i ≡ some t
    → t.running ≡ true
    → s.closed ≡ false
    → length s.signals < default_signal_capacity
    → taken es ≤ length s.signals
    → get_elem?
        (run (Event.tick i (KnowledgeResult.ok rows) ∷ es) s).signals
        (length s.signals - taken es)
      ≡ some t.spec.name
unfolding run
signal_received i rows t s es e on open_ room h =
    run-keeps es (perform (Event.tick i (KnowledgeResult.ok rows)) s) (length s.signals) t.spec.name
      (ap (λ (q : List Bytes). get_elem? q (length s.signals))
          (tick_sends i rows t s e on open_ room)
        ∙ get_elem?-append_last s.signals t.spec.name)
      h
