-- ===== src/SqlRoute/Word.antt =====
-- `src/sql_route.rs`: what `find_keyword` finds, said without its scan.
use wp_knowledge.Base.{
  ℕ, ◌<◌, ◌≡◌, refl, sym, ap, ◌∙◌, Bool, true, false, not, ◌&&◌, ◌||◌, [], ◌∷◌, Option, none, some,
  arith, leb, ◌==◌, Bytes, drop, take, length, map, Option-cases, inl, inr,
}
use wp_knowledge.Base.Text.{to_ascii_lowercase, strip_prefix_ignore_case}
use wp_knowledge.SqlRoute.Scan.{
  is_ident_byte, is_none_or_not_ident, first, keyword_here, find_keyword,
}
use wp_knowledge.SqlRoute.Keyword.{top_level, byte_before, found, find_keyword_first}
use wp_knowledge.SqlRoute.Lexer.{Lex, outside, top_level-outside}

-- Letters, digits and underscores make up words.
abbrev pub is_of_word : ℕ → Bool
is_of_word c =
    (leb b'a' c && leb c b'z')
    || (leb b'A' c && leb c b'Z')
    || (leb b'0' c && leb c b'9')
    || c == b'_'

-- A word can begin behind, and end before, the edge of a text or a byte that is of no word.
abbrev pub is_edge : Option ℕ → Bool
is_edge none = true
is_edge (some c) = not (is_of_word c)

abbrev pub first_byte : Bytes → Option ℕ
first_byte [] = none
first_byte (c ∷ s) = some c

abbrev pub lower : Bytes → Bytes
lower s = map to_ascii_lowercase s

-- At position `i`, outside literals and comments, the keyword stands as a word, in any case.
pub record IsWordAt (keyword sql : Bytes) (i : ℕ) : Type 0 where
  pub is_outside : outside Lex.code sql i ≡ true
  pub reads : lower (take (length keyword) (drop i sql)) ≡ lower keyword
  pub begins : is_edge (byte_before none i sql) ≡ true
  pub ends : is_edge (first_byte (drop (length keyword) (drop i sql))) ≡ true

is_ident_byte_lem : (c : ℕ) → is_ident_byte c ≡ is_of_word c
unfolding is_ident_byte
is_ident_byte_lem c = ground arith

strip_reads :
    (k s next : Bytes)
    → strip_prefix_ignore_case k s ≡ some next
    → (lower (take (length k) s) ≡ lower k) × (drop (length k) s ≡ next)
unfolding strip_prefix_ignore_case
strip_reads [] s next e = (refl, ground arith)
strip_reads (p ∷ ps) [] next e = absurd (ground arith)
strip_reads (p ∷ ps) (b ∷ s) next e =
    let (rest, behind) = strip_reads ps s next (ground arith) in
    let same : to_ascii_lowercase b ≡ to_ascii_lowercase p = ground arith in
    ((λ i. same i ∷ rest i), behind)

reads_strip :
    (k s : Bytes)
    → lower (take (length k) s) ≡ lower k
    → strip_prefix_ignore_case k s ≡ some (drop (length k) s)
unfolding strip_prefix_ignore_case
reads_strip [] s e = refl
reads_strip (p ∷ ps) [] e = absurd (cc)
reads_strip (p ∷ ps) (b ∷ s) e =
    let same : to_ascii_lowercase b ≡ to_ascii_lowercase p = cc in
    let rest : lower (take (length ps) s) ≡ lower ps = cc in
    let ih = reads_strip ps s rest in ground arith

is_edge_lem : (o : Option ℕ) → is_none_or_not_ident o ≡ is_edge o
is_edge_lem none = refl
is_edge_lem (some c) = ap not (is_ident_byte_lem c)

first_lem : (s : Bytes) → first s ≡ first_byte s
first_lem [] = refl
first_lem (c ∷ s) = refl

here_reads :
    (k : Bytes) (prev : Option ℕ) (s : Bytes)
    → keyword_here k prev s ≡ true
    → (lower (take (length k) s) ≡ lower k)
      × (is_edge prev ≡ true)
      × (is_edge (first_byte (drop (length k) s)) ≡ true)
here_reads k prev s e = elim (Option-cases (strip_prefix_ignore_case k s)) [
  | inl none_ ↦ absurd (unfold keyword_here in ground (arith, none_, e))
  | inr (next, found_) ↦
      let (reads, behind) = strip_reads k s next found_ in
      let both : (is_none_or_not_ident prev && is_none_or_not_ident (first next)) ≡ true =
        unfold keyword_here in ground (arith, found_, e) in
      let at : is_none_or_not_ident (first next) ≡ true = ground (arith, both) in
      (
        reads,
        sym (is_edge_lem prev) ∙ ground (arith, both),
        ap (λ x. is_edge (first_byte x)) behind
            ∙ sym (ap is_edge (first_lem next))
            ∙ sym (is_edge_lem (first next))
            ∙ at,
      )
]

reads_here :
    (k : Bytes) (prev : Option ℕ) (s : Bytes)
    → lower (take (length k) s) ≡ lower k
    → is_edge prev ≡ true
    → is_edge (first_byte (drop (length k) s)) ≡ true
    → keyword_here k prev s ≡ true
reads_here k prev s reads begins ends =
    let found_ = reads_strip k s reads in
    let next = drop (length k) s in
    let left_ : is_none_or_not_ident prev ≡ true = is_edge_lem prev ∙ begins in
    let right_ : is_none_or_not_ident (first next) ≡ true =
      is_edge_lem (first next) ∙ ap is_edge (first_lem next) ∙ ends in
    unfold keyword_here in ground (arith, found_, left_, right_)

found-IsWordAt :
    (keyword sql : Bytes) (i : ℕ)
    → top_level 0 sql i ≡ true
    → found keyword none sql i ≡ true
    → IsWordAt keyword sql i
found-IsWordAt keyword sql i top e =
    let (reads, begins, ends) = here_reads keyword (byte_before none i sql) (drop i sql) e in
    record {
      is_outside = sym (top_level-outside sql i) ∙ top;
      reads = reads;
      begins = begins;
      ends = ends;
    }

not-IsWordAt :
    (keyword sql : Bytes) (i : ℕ)
    → (top_level 0 sql i ≡ true → found keyword none sql i ≡ false)
    → IsWordAt keyword sql i
    → ⊥
not-IsWordAt keyword sql i h word =
    let yes_ : found keyword none sql i ≡ true =
      reads_here keyword (byte_before none i sql) (drop i sql) word.reads word.begins word.ends in
    let no_ : found keyword none sql i ≡ false = h (top_level-outside sql i ∙ word.is_outside) in
    absurd (cc)

-- `find_keyword` returns the first position outside literals and comments at which the keyword stands
-- as a word of its own, in any case, and nothing only if there is no such position.
pub find_keyword-IsWordAt :
    (sql keyword : Bytes)
    → ((i : ℕ)
        → find_keyword sql keyword ≡ some i
        → IsWordAt keyword sql i × ((k : ℕ) → k < i → IsWordAt keyword sql k → ⊥))
      × (find_keyword sql keyword ≡ none → (k : ℕ) → IsWordAt keyword sql k → ⊥)
find_keyword-IsWordAt sql keyword = (
  λ i e.
      let (top, hit, before) = (find_keyword_first sql keyword).0 i e in
      (found-IsWordAt keyword sql i top hit, λ k lt. not-IsWordAt keyword sql k (before k lt)),
  λ e k. not-IsWordAt keyword sql k ((find_keyword_first sql keyword).1 e k),
)
