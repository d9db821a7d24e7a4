-- ===== src/Rewrite/Numbers.antt =====
-- `src/postgres.rs`: a rewritten query is read as the query that is meant.
use wp_knowledge.Base.{ℕ, zero, suc, ◌<◌, ◌≢◌, List, ◌∷◌, Option, none, Bytes, DataField, get_elem?}
use wp_knowledge.Base.Text.{decimal}
use wp_knowledge.Rewrite.Bind.{Slot, cons_slot}
use wp_knowledge.Rewrite.Alike.{Alike}

-- A byte of ASCII that is no dollar.
abbrev pub IsNoDollar : ℕ → Type 0
IsNoDollar c = (c < 128) × (c ≢ b'$')

abbrev mark : ℕ → Bytes
mark n = b'$' ∷ decimal n

abbrev placed : List DataField → ℕ → Option (List Slot) → Option (List Slot)
placed o zero ss = none
placed o (suc n) ss = cons_slot (get_elem? o n) ss
