-- ===== src/SqlRoute/Lexer.antt =====
-- `src/sql_route.rs`: what is a literal or a comment, said by an automaton that reads one byte after
-- another, and that the scans of the source agree with it.
use wp_knowledge.Base.{
  ℕ, zero, suc, ◌-◌, ◌≡◌, refl, sym, ap, subst, ◌∙◌, ◌≢◌, ℕ_discrete, Bool, true, false, ◌&&◌, [],
  ◌∷◌, arith, ◌==◌, if◌then◌else◌, Bytes, Bool-cases, inl, inr,
}
use wp_knowledge.SqlRoute.Scan.{block_len, quoted_len, until_len, line_len, comment_len}
use wp_knowledge.SqlRoute.Keyword.{top_level}

-- `quoted` and `until` have a closing byte; `doubled` is before the second of two quotes, `opening`
-- before the second byte of the two that begin a comment, `ending` before the last byte of one.
pub data Lex : Type 0 where
  code : Lex
  quoted doubled until : ℕ → Lex
  line comment ending : Lex
  line_opening comment_opening : Lex

abbrev is_next : ℕ → Bytes → Bool
is_next c [] = false
is_next c (d ∷ r) = d == c

-- A byte of the code, with what follows it: what begins with it.
unfoldable pub begins : ℕ → Bytes → Lex
begins b r =
    if b == b'\''
    then Lex.quoted b'\''
    else if b == b'"'
    then Lex.quoted b'"'
    else if b == b'`'
    then Lex.until b'`'
    else if b == b'['
    then Lex.until b']'
    else if b == b'-' && is_next b'-' r
    then Lex.line_opening
    else if b == b'/' && is_next b'*' r
    then Lex.comment_opening
    else Lex.code

-- The state behind a byte.
unfoldable pub next_state : Lex → ℕ → Bytes → Lex
unfolding begins
next_state Lex.code b r = begins b r
next_state (Lex.quoted q) b r =
    if b == q then if is_next q r then Lex.doubled q else Lex.code else Lex.quoted q
next_state (Lex.doubled q) b r = Lex.quoted q
next_state (Lex.until t) b r = if b == t then Lex.code else Lex.until t
next_state Lex.line b r = if b == b'\n' then Lex.code else Lex.line
next_state Lex.comment b r = if b == b'*' && is_next b'/' r then Lex.ending else Lex.comment
next_state Lex.ending b r = Lex.code
next_state Lex.line_opening b r = Lex.line
next_state Lex.comment_opening b r = Lex.comment

abbrev pub is_code : Lex → Bool
is_code Lex.code = true
is_code _ = false

-- A byte is outside if it is of the code and begins no literal and no comment; the end of a line is
-- not of the comment that it ends.
unfoldable pub is_outside : Lex → ℕ → Bytes → Bool
unfolding begins
is_outside Lex.code b r = is_code (begins b r)
is_outside Lex.line b r = b == b'\n'
is_outside _ b r = false

-- The byte at offset `j` of a text is outside literals and comments.
unfoldable pub outside : Lex → Bytes → ℕ → Bool
unfolding is_outside next_state
outside l [] j = false
outside l (b ∷ r) zero = is_outside l b r
outside l (b ∷ r) (suc j) = outside (next_state l b r) r j

-- How many bytes a scan still passes over in each state.
unfoldable pub skip_of : Lex → Bytes → ℕ
skip_of Lex.code s = 0
skip_of (Lex.quoted q) s = quoted_len q s
skip_of (Lex.doubled q) [] = 0
skip_of (Lex.doubled q) (c ∷ s) = suc (quoted_len q s)
skip_of (Lex.until t) s = until_len t s
skip_of Lex.line s = line_len s
skip_of Lex.comment s = comment_len s
skip_of Lex.ending s = 1
skip_of Lex.line_opening [] = 0
skip_of Lex.line_opening (c ∷ s) = suc (line_len s)
skip_of Lex.comment_opening [] = 0
skip_of Lex.comment_opening (c ∷ s) = suc (comment_len s)

-- At a byte, the scan and the automaton say the same of it, and agree behind it.
pub data Agree (l : Lex) (b : ℕ) (r : Bytes) : Type 0 where
  inside :
      is_outside l b r ≡ false
      → skip_of l (b ∷ r) ≡ suc (skip_of (next_state l b r) r)
      → Agree l b r
  at_code :
      skip_of l (b ∷ r) ≡ 0
      → is_outside l b r ≡ (block_len (b ∷ r) == 0)
      → block_len (b ∷ r) - 1 ≡ skip_of (next_state l b r) r
      → Agree l b r

code_outside : (b : ℕ) (r : Bytes) → is_outside Lex.code b r ≡ (block_len (b ∷ r) == 0)
unfolding is_outside block_len
code_outside b [] = ground arith
code_outside b (c ∷ r) = ground arith

-- The scan and the automaton go on alike behind the byte `b` of the code.
abbrev IsAlikeAt : Bytes → ℕ → Type 0
IsAlikeAt r b = block_len (b ∷ r) - 1 ≡ skip_of (next_state Lex.code b r) r

plain_behind :
    (r : Bytes) → IsAlikeAt r b'\'' × IsAlikeAt r b'"' × IsAlikeAt r b'`' × IsAlikeAt r b'['
unfolding block_len next_state skip_of
plain_behind r = (omega arith, omega arith, omega arith, omega arith)

dash_behind : (r : Bytes) → IsAlikeAt r b'-'
unfolding block_len next_state skip_of
dash_behind [] = refl
dash_behind (c ∷ r) = elim (Bool-cases (c == b'-')) [
  | inl e ↦ rw e (omega arith)
  | inr e ↦ rw e refl
]

slash_behind : (r : Bytes) → IsAlikeAt r b'/'
unfolding block_len next_state skip_of
slash_behind [] = refl
slash_behind (c ∷ r) = elim (Bool-cases (c == b'*')) [
  | inl e ↦ rw e (omega arith)
  | inr e ↦ rw e refl
]

other_behind :
    (b : ℕ) (r : Bytes)
    → b ≢ b'\''
    → b ≢ b'"'
    → b ≢ b'`'
    → b ≢ b'['
    → b ≢ b'-'
    → b ≢ b'/'
    → (block_len (b ∷ r) ≡ 0) × (begins b r ≡ Lex.code)
unfolding block_len begins
other_behind b [] h1 h2 h3 h4 h5 h6 = (ground arith, ground arith)
other_behind b (c ∷ r) h1 h2 h3 h4 h5 h6 = (ground arith, ground arith)

code_behind : (b : ℕ) (r : Bytes) → IsAlikeAt r b
code_behind b r =
    let (quote_, double_, back_, bracket_) = plain_behind r in
    elim (ℕ_discrete b b'\'') [
      | yes e ↦ subst (IsAlikeAt r) (sym e) quote_
      | no h1 ↦ elim (ℕ_discrete b b'"') [
        | yes e ↦ subst (IsAlikeAt r) (sym e) double_
        | no h2 ↦ elim (ℕ_discrete b b'`') [
          | yes e ↦ subst (IsAlikeAt r) (sym e) back_
          | no h3 ↦ elim (ℕ_discrete b b'[') [
            | yes e ↦ subst (IsAlikeAt r) (sym e) bracket_
            | no h4 ↦ elim (ℕ_discrete b b'-') [
              | yes e ↦ subst (IsAlikeAt r) (sym e) (dash_behind r)
              | no h5 ↦ elim (ℕ_discrete b b'/') [
                | yes e ↦ subst (IsAlikeAt r) (sym e) (slash_behind r)
                | no h6 ↦
                    let (len, state) = other_behind b r h1 h2 h3 h4 h5 h6 in
                    ap (λ n. n - 1) len
                    ∙ sym (unfold next_state skip_of in ap (λ l. skip_of l r) state)
              ]
            ]
          ]
        ]
      ]
    ]

pub Agree-cases : (l : Lex) (b : ℕ) (r : Bytes) → Agree l b r
Agree-cases Lex.code b r = at_code (unfold skip_of in refl) (code_outside b r) (code_behind b r)
Agree-cases (Lex.quoted q) b [] =
    inside (unfold is_outside in refl)
      (unfold skip_of next_state quoted_len until_len comment_len line_len in ground arith)
Agree-cases (Lex.quoted q) b (c ∷ r) =
    inside (unfold is_outside in refl)
      (unfold skip_of next_state quoted_len until_len comment_len line_len in ground arith)
Agree-cases (Lex.doubled q) b r =
    inside (unfold is_outside in refl)
      (unfold skip_of next_state quoted_len until_len comment_len line_len in refl)
Agree-cases (Lex.until t) b r =
    inside (unfold is_outside in refl)
      (unfold skip_of next_state quoted_len until_len comment_len line_len in ground arith)
Agree-cases Lex.line b r = elim (Bool-cases (b == b'\n')) [
  | inl end ↦
      at_code (unfold skip_of line_len in ground arith)
        (unfold is_outside block_len in ground arith)
        (unfold skip_of next_state line_len block_len in ground arith)
  | inr more ↦
      inside (unfold is_outside in ground arith)
        (unfold skip_of next_state quoted_len until_len comment_len line_len in ground arith)
]
Agree-cases Lex.comment b [] =
    inside (unfold is_outside in refl)
      (unfold skip_of next_state quoted_len until_len comment_len line_len in ground arith)
Agree-cases Lex.comment b (c ∷ r) =
    inside (unfold is_outside in refl)
      (unfold skip_of next_state quoted_len until_len comment_len line_len in ground arith)
Agree-cases Lex.ending b r =
    inside (unfold is_outside in refl)
      (unfold skip_of next_state quoted_len until_len comment_len line_len in refl)
Agree-cases Lex.line_opening b r =
    inside (unfold is_outside in refl)
      (unfold skip_of next_state quoted_len until_len comment_len line_len in refl)
Agree-cases Lex.comment_opening b r =
    inside (unfold is_outside in refl)
      (unfold skip_of next_state quoted_len until_len comment_len line_len in refl)

head_agrees :
    (l : Lex) (b : ℕ) (r : Bytes) → top_level (skip_of l (b ∷ r)) (b ∷ r) 0 ≡ outside l (b ∷ r) 0
unfolding outside top_level
head_agrees l b r = elim (Agree-cases l b r) [
  | inside no_ len ↦ rw (len, no_) refl
  | at_code none_ same behind ↦ rw (none_, same) refl
]

tail_agrees :
    (l : Lex) (b : ℕ) (r : Bytes) (j : ℕ)
    → top_level (skip_of l (b ∷ r)) (b ∷ r) (suc j) ≡ top_level (skip_of (next_state l b r) r) r j
unfolding top_level
tail_agrees l b r j = elim (Agree-cases l b r) [
  | inside no_ len ↦ rw len refl
  | at_code none_ same behind ↦ rw none_ (ap (λ k. top_level k r j) behind)
]

top_level-outside_in : (l : Lex) (s : Bytes) (j : ℕ) → top_level (skip_of l s) s j ≡ outside l s j
unfolding outside
top_level-outside_in l [] j = unfold top_level in refl
top_level-outside_in l (b ∷ r) zero = head_agrees l b r
top_level-outside_in l (b ∷ r) (suc j) =
    tail_agrees l b r j ∙ top_level-outside_in (next_state l b r) r j

pub top_level-outside : (s : Bytes) (j : ℕ) → top_level 0 s j ≡ outside Lex.code s j
top_level-outside s j = unfold skip_of in top_level-outside_in Lex.code s j
