-- ===== src/SqlRoute/Pairs.antt =====
-- `src/sql_route.rs`: what `matching_paren` finds, said without its scan.
use wp_knowledge.Base.{
  ℕ, zero, suc, ◌+◌, ◌-◌, ◌<◌, ◌≤◌, ◌≡◌, refl, sym, ap, ◌∙◌, ◌&&◌, [], ◌∷◌, none, some, arith, ◌==◌,
  if◌then◌else◌, Bytes, drop, length,
}
use wp_knowledge.SqlRoute.Scan.{block_len, matching_paren_from, matching_paren}
use wp_knowledge.SqlRoute.Lexer.{Lex, is_outside, next_state, skip_of, inside, at_code, Agree-cases}
use wp_knowledge.SqlRoute.Parens.{
  count_top, opens, closes, go_on, stop, fail, head_of, paren_skip, matching_paren_lem, open_counts,
  open_step, matching_paren_balanced,
}

-- How many of the first `j` bytes are `p` and stand outside literals and comments.
unfoldable pub count_outside : ℕ → Lex → Bytes → ℕ → ℕ
unfolding is_outside next_state
count_outside p l s zero = 0
count_outside p l [] (suc j) = 0
count_outside p l (b ∷ r) (suc j) =
    (if is_outside l b r && b == p then 1 else 0) + count_outside p (next_state l b r) r j

abbrev pub opened : Bytes → ℕ → ℕ
opened = count_outside b'(' Lex.code

abbrev pub closed : Bytes → ℕ → ℕ
closed = count_outside b')' Lex.code

count_behind :
    (p : ℕ) (l : Lex) (b : ℕ) (r : Bytes) (j : ℕ)
    → count_top p (skip_of l (b ∷ r)) (b ∷ r) (suc j)
      ≡ (if is_outside l b r && b == p then 1 else 0)
        + count_top p (skip_of (next_state l b r) r) r j
unfolding count_top
count_behind p l b r j = elim (Agree-cases l b r) [
  | inside no_ len ↦ rw (len, no_) (omega arith)
  | at_code none_ same behind ↦
      rw (none_, same)
        (ap (λ k. (if block_len (b ∷ r) == 0 && b == p then 1 else 0) + count_top p k r j) behind)
]

count_lem :
    (p : ℕ) (l : Lex) (s : Bytes) (j : ℕ) → count_top p (skip_of l s) s j ≡ count_outside p l s j
unfolding count_outside
count_lem p l s zero = unfold count_top in refl
count_lem p l [] (suc j) = unfold count_top in refl
count_lem p l (b ∷ r) (suc j) =
    count_behind p l b r j
    ∙ ap (λ n. (if is_outside l b r && b == p then 1 else 0) + n)
        (count_lem p (next_state l b r) r j)

opened_lem : (s : Bytes) (j : ℕ) → opens 0 s j ≡ opened s j
opened_lem s j = unfold skip_of in count_lem b'(' Lex.code s j

closed_lem : (s : Bytes) (j : ℕ) → closes 0 s j ≡ closed s j
closed_lem s j = unfold skip_of in count_lem b')' Lex.code s j

passed :
    (d skip b : ℕ) (r : Bytes) (k : ℕ)
    → closes skip r k < opens skip r k + d
    → closes (suc skip) (b ∷ r) (suc k) < opens (suc skip) (b ∷ r) (suc k) + d
unfolding count_top
passed d skip b r k h = h

paren_none :
    (d idx skip : ℕ) (s : Bytes)
    → 0 < d
    → matching_paren_from d idx skip s ≡ none
    → (k : ℕ) → closes skip s k < opens skip s k + d
paren_none d idx skip s pos e zero = unfold count_top in omega arith
paren_none d idx skip [] pos e (suc k) = unfold count_top in omega arith
paren_none d idx (suc skip) (b ∷ r) pos e (suc k) =
    let ih = paren_none d (idx + 1) skip r pos (sym (paren_skip d idx skip b r) ∙ e) k in
    passed d skip b r k ih
paren_none d idx zero (b ∷ r) pos e (suc k) = elim (head_of d idx b r) [
  | go_on d' o c depth deep os cs eq ↦
      let ih = paren_none d' (idx + 1) (block_len (b ∷ r) - 1) r (deep pos) (sym eq ∙ e) k in
      omega (arith, os k, cs k, ih, depth)
  | stop one os cs eq ↦ absurd (ground arith)
  | fail zero_ eq ↦ absurd (omega (arith, zero_, pos))
]

-- `j` bytes behind the opening parenthesis of the text, its partner stands: for the first time as many
-- parentheses are closed as were opened.
pub record IsPartner (s : Bytes) (j : ℕ) : Type 0 where
  pub later : 0 < j
  pub within : j < length s
  pub balanced : closed s (suc j) ≡ opened s (suc j)
  pub closes_here : closed s (suc j) ≡ closed s j + 1
  pub open_before : (k : ℕ) → 0 < k → k ≤ j → closed s k < opened s k

-- `matching_paren` at an opening parenthesis returns the later position inside the text, of a closing
-- parenthesis outside literals and comments, where for the first time as many parentheses are closed
-- as were opened, those in literals and comments aside; and nothing only if up to every later position
-- more are opened than closed.
pub matching_paren-IsPartner :
    (sql : Bytes) (open_pos : ℕ) (r : Bytes)
    → drop open_pos sql ≡ b'(' ∷ r
    → ((i : ℕ)
        → matching_paren sql open_pos ≡ some i
        → (j : ℕ) × (i ≡ open_pos + j) × IsPartner (b'(' ∷ r) j)
      × (matching_paren sql open_pos ≡ none
          → (k : ℕ) → 0 < k
          → closed (b'(' ∷ r) k < opened (b'(' ∷ r) k)
matching_paren-IsPartner sql open_pos r at_open = (found, missing)
  where
    found :
        (i : ℕ)
        → matching_paren sql open_pos ≡ some i
        → (j : ℕ) × (i ≡ open_pos + j) × IsPartner (b'(' ∷ r) j
    found i e =
        let (j, at, later, lt, eq, last, below) =
          matching_paren_balanced sql open_pos i r at_open e in
        let here_ = b'(' ∷ r in
        (
          j,
          at,
          record {
            later = later;
            within = lt;
            balanced = sym (closed_lem here_ (suc j)) ∙ eq ∙ opened_lem here_ (suc j);
            closes_here =
                sym (closed_lem here_ (suc j)) ∙ last ∙ ap (λ n. n + 1) (closed_lem here_ j);
            open_before =
                λ k pos le. omega (arith, closed_lem here_ k, opened_lem here_ k, below k pos le);
          },
        )

    missing :
        matching_paren sql open_pos ≡ none
        → (k : ℕ) → 0 < k
        → closed (b'(' ∷ r) k < opened (b'(' ∷ r) k
    missing e zero pos = absurd (omega arith)
    missing e (suc k) pos =
        let start : matching_paren_from 0 open_pos 0 (b'(' ∷ r) ≡ none =
          ap (matching_paren_from 0 open_pos 0) (sym at_open)
          ∙ sym (matching_paren_lem sql open_pos)
          ∙ e in
        let inner =
          paren_none 1 (open_pos + 1) 0 r (omega arith) (sym (open_step open_pos r) ∙ start) k in
        omega (
          arith,
          closed_lem (b'(' ∷ r) (suc k),
          opened_lem (b'(' ∷ r) (suc k),
          open_counts r k,
          inner,
        )
