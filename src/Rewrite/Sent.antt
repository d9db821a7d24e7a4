-- ===== src/Rewrite/Sent.antt =====
-- `src/postgres.rs`, `src/mysql.rs`: the text of a rewritten query, as a server reads it.
use wp_knowledge.Base.{
  ℕ, zero, suc, ◌+◌, ◌-◌, ◌*◌, true, false, List, [], ◌∷◌, Option, none, some, ◌==◌, if◌then◌else◌,
  Bytes, DataField, get_elem?,
}
use wp_knowledge.Runtime.Types.{KnowledgeResult}
use wp_knowledge.Rewrite.Alike.{is_digit}
use wp_knowledge.Rewrite.Place.{Rewritten}
use wp_knowledge.Rewrite.Bind.{Slot, cons_slot}

abbrev pub cons_text : ℕ → Option (List Slot) → Option (List Slot)
cons_text c none = none
cons_text c (some ss) = some (Slot.text c ∷ ss)

-- MySQL: every question mark is a mark, the values stand for the marks in their order, and there are
-- as many of the ones as of the others.
unfoldable pub read_marks : List DataField → Bytes → Option (List Slot)
read_marks [] [] = some []
read_marks (f ∷ o) [] = none
read_marks [] (c ∷ s) = elim (c == b'?') [ true ↦ none | false ↦ cons_text c (read_marks [] s) ]
read_marks (f ∷ o) (c ∷ s) = elim (c == b'?') [
  | true ↦ cons_slot (some f) (read_marks o s)
  | false ↦ cons_text c (read_marks (f ∷ o) s)
]

-- The digits that a text begins with, and the number that they are, behind digits with the value `n`.
unfoldable pub digits_len : Bytes → ℕ
digits_len [] = 0
digits_len (c ∷ s) = if is_digit c then suc (digits_len s) else 0

unfoldable pub number_of : ℕ → Bytes → ℕ
number_of n [] = n
number_of n (c ∷ s) = let rest = number_of (n * 10 + (c - b'0')) s in if is_digit c then rest else n

-- Postgres: a dollar and a number from 1 on stand for the value with this number. `skip` digits have
-- been read.
unfoldable pub read_numbers : List DataField → ℕ → Bytes → Option (List Slot)
unfolding digits_len number_of
read_numbers o skip [] = some []
read_numbers o (suc skip) (c ∷ s) = read_numbers o skip s
read_numbers o zero (c ∷ s) = elim (c == b'$') [
  | false ↦ cons_text c (read_numbers o 0 s)
  | true ↦ elim (number_of 0 s) [
    | zero ↦ none
    | suc n ↦ cons_slot (get_elem? o n) (read_numbers o (digits_len s) s)
  ]
]

-- What is sent, as the server reads it.
unfoldable pub sent :
    (List DataField → Bytes → Option (List Slot)) → Rewritten → KnowledgeResult (Option (List Slot))
sent read (KnowledgeResult.err e) = KnowledgeResult.err e
sent read (KnowledgeResult.ok (out, ordered)) = KnowledgeResult.ok (read ordered out)
