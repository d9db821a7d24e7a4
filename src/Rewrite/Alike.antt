-- ===== src/Rewrite/Alike.antt =====
-- `src/postgres.rs`, `src/mysql.rs`: what the scan says of its tokens, and the pieces that go with them.
use wp_knowledge.Base.{
  ℕ, zero, suc, ◌≡◌, refl, sym, subst, ◌∙◌, Bool, false, List, [], ◌∷◌, leb, ◌&&◌, Bytes, All,
  arith, Bool-cases, inl, inr,
}
use wp_knowledge.Runtime.Types.{KnowledgeResult}
use wp_knowledge.Rewrite.Tokens.{
  Token, Mode, tokens_from, copied_len, param_len, name_len, is_param_continue,
}
use wp_knowledge.Rewrite.Place.{Piece, Placed, add_piece}
use wp_knowledge.Rewrite.Scanned.{scanned, tokens-scanned, tokens-pass_none}

-- A token that copies a byte copies one with the property.
abbrev pub IsToken : (ℕ → Type 0) → Token → Type 0
IsToken P (Token.byte b) = P b
IsToken P (Token.param name) = Unit {0}

scanned-IsToken :
    (P : ℕ → Type 0) (c p b : ℕ) (r : Bytes)
    → P b
    → ((m : Mode) → All (IsToken P) (tokens_from m r))
    → All (IsToken P) (scanned c p b r)
unfolding scanned
scanned-IsToken P (suc n) p b r h ih = (h, ih (Mode.copy n))
scanned-IsToken P zero zero b r h ih = (h, ih (Mode.copy 0))
scanned-IsToken P zero (suc n) b r h ih = (tt, ih (Mode.pass n))

pub tokens-IsToken :
    (P : ℕ → Type 0) (m : Mode) (s : Bytes) → All P s → All (IsToken P) (tokens_from m s)
unfolding tokens_from
tokens-IsToken P (Mode.copy n) [] h = tt
tokens-IsToken P (Mode.pass n) [] h = tt
tokens-IsToken P (Mode.copy (suc n)) (b ∷ r) h = (h.0, tokens-IsToken P (Mode.copy n) r h.1)
tokens-IsToken P (Mode.pass (suc n)) (b ∷ r) h = tokens-IsToken P (Mode.pass n) r h.1
tokens-IsToken P (Mode.copy zero) (b ∷ r) h =
    subst (All (IsToken P))
      (sym (tokens-scanned (copied_len (b ∷ r)) (param_len (b ∷ r)) b r refl refl))
      (scanned-IsToken P _ _ b r h.0 (λ m. tokens-IsToken P m r h.1))
tokens-IsToken P (Mode.pass zero) (b ∷ r) h =
    subst (All (IsToken P))
      (sym (
        tokens-pass_none b r
        ∙ tokens-scanned (copied_len (b ∷ r)) (param_len (b ∷ r)) b r refl refl))
      (scanned-IsToken P _ _ b r h.0 (λ m. tokens-IsToken P m r h.1))

abbrev pub is_digit : ℕ → Bool
is_digit c = leb b'0' c && leb c b'9'

abbrev pub IsNoDigit : List Token → Type 0
IsNoDigit [] = Unit {0}
IsNoDigit (Token.byte b ∷ ts) = is_digit b ≡ false
IsNoDigit (Token.param name ∷ ts) = Unit {0}

-- No digit follows a name.
unfoldable pub IsApart : List Token → Type 0
IsApart [] = Unit {0}
IsApart (Token.byte b ∷ ts) = IsApart ts
IsApart (Token.param name ∷ ts) = IsNoDigit ts × IsApart ts

scanned-IsNoDigit : (c p b : ℕ) (r : Bytes) → is_digit b ≡ false → IsNoDigit (scanned c p b r)
unfolding scanned
scanned-IsNoDigit (suc n) p b r h = h
scanned-IsNoDigit zero zero b r h = h
scanned-IsNoDigit zero (suc n) b r h = tt

name_end_cons :
    (b : ℕ) (s : Bytes)
    → IsNoDigit (tokens_from (Mode.pass (name_len s)) s)
    → IsNoDigit (tokens_from (Mode.pass (name_len (b ∷ s))) (b ∷ s))
unfolding name_len
name_end_cons b s ih = elim (Bool-cases (is_param_continue b)) [
  | inl more ↦ rw more (unfold tokens_from in ih)
  | inr end ↦ rw end (
      subst IsNoDigit
        (sym (
          tokens-pass_none b s
          ∙ tokens-scanned (copied_len (b ∷ s)) (param_len (b ∷ s)) b s refl refl))
        (scanned-IsNoDigit _ _ b s (unfold is_param_continue in ground arith)))
]

name_end : (s : Bytes) → IsNoDigit (tokens_from (Mode.pass (name_len s)) s)
name_end [] = unfold tokens_from name_len in tt
name_end (b ∷ s) = name_end_cons b s (name_end s)

param_end :
    (n b : ℕ) (r : Bytes) → param_len (b ∷ r) ≡ suc n → IsNoDigit (tokens_from (Mode.pass n) r)
unfolding param_len
param_end n b [] e = absurd (ground arith)
param_end n b (c ∷ r) e =
    let at : suc (name_len r) ≡ n = ground arith in
    subst (λ k. IsNoDigit (tokens_from (Mode.pass k) (c ∷ r))) at (unfold tokens_from in name_end r)

scanned-IsApart :
    (c p b : ℕ) (r : Bytes)
    → param_len (b ∷ r) ≡ p
    → ((m : Mode) → IsApart (tokens_from m r))
    → IsApart (scanned c p b r)
unfolding scanned IsApart
scanned-IsApart (suc n) p b r e ih = ih (Mode.copy n)
scanned-IsApart zero zero b r e ih = ih (Mode.copy 0)
scanned-IsApart zero (suc n) b r e ih = (param_end n b r e, ih (Mode.pass n))

pub tokens-IsApart : (m : Mode) (s : Bytes) → IsApart (tokens_from m s)
unfolding tokens_from IsApart
tokens-IsApart (Mode.copy n) [] = tt
tokens-IsApart (Mode.pass n) [] = tt
tokens-IsApart (Mode.copy (suc n)) (b ∷ r) = tokens-IsApart (Mode.copy n) r
tokens-IsApart (Mode.pass (suc n)) (b ∷ r) = tokens-IsApart (Mode.pass n) r
tokens-IsApart (Mode.copy zero) (b ∷ r) =
    subst IsApart (sym (tokens-scanned (copied_len (b ∷ r)) (param_len (b ∷ r)) b r refl refl))
      (scanned-IsApart _ _ b r refl (λ m. tokens-IsApart m r))
tokens-IsApart (Mode.pass zero) (b ∷ r) =
    subst IsApart
      (sym (
        tokens-pass_none b r
        ∙ tokens-scanned (copied_len (b ∷ r)) (param_len (b ∷ r)) b r refl refl))
      (scanned-IsApart _ _ b r refl (λ m. tokens-IsApart m r))

-- A byte goes with the same byte, a parameter with a placeholder.
pub data Alike : List Token → List Piece → Type 0 where
  nil : Alike [] []
  byte :
      (b : ℕ) (ts : List Token) (ps : List Piece)
      → Alike ts ps
      → Alike (Token.byte b ∷ ts) (Piece.byte b ∷ ps)
  param :
      (name : Bytes) (n : ℕ) (ts : List Token) (ps : List Piece)
      → Alike ts ps
      → Alike (Token.param name ∷ ts) (Piece.placeholder n ∷ ps)

abbrev pub IsAlike : List Token → Placed → Type 0
IsAlike ts (KnowledgeResult.err e) = Unit {0}
IsAlike ts (KnowledgeResult.ok (ps, o)) = Alike ts ps

pub add_piece-byte :
    (b : ℕ) (ts : List Token) (r : Placed)
    → IsAlike ts r
    → IsAlike (Token.byte b ∷ ts) (add_piece (Piece.byte b) r)
unfolding add_piece
add_piece-byte b ts (KnowledgeResult.err e) h = tt
add_piece-byte b ts (KnowledgeResult.ok (ps, o)) h = Alike.byte b ts ps h

pub add_piece-param :
    (name : Bytes) (n : ℕ) (ts : List Token) (r : Placed)
    → IsAlike ts r
    → IsAlike (Token.param name ∷ ts) (add_piece (Piece.placeholder n) r)
unfolding add_piece
add_piece-param name n ts (KnowledgeResult.err e) h = tt
add_piece-param name n ts (KnowledgeResult.ok (ps, o)) h = Alike.param name n ts ps h
