-- ===== src/Rewrite/Scanned.antt =====
-- `src/postgres.rs`, `src/mysql.rs`: a step of the scan, by what it finds.
use wp_knowledge.Base.{ℕ, zero, suc, ◌≡◌, refl, List, ◌∷◌, Bytes, take}
use wp_knowledge.Rewrite.Tokens.{Token, Mode, tokens_from, copied_len, param_len}

-- The last clause of the scan, on what it finds.
unfoldable pub scanned : ℕ → ℕ → ℕ → Bytes → List Token
scanned (suc n) p b r = Token.byte b ∷ tokens_from (Mode.copy n) r
scanned zero zero b r = Token.byte b ∷ tokens_from (Mode.copy 0) r
scanned zero (suc n) b r = Token.param (take (suc n) (b ∷ r)) ∷ tokens_from (Mode.pass n) r

pub tokens-scanned :
    (c p b : ℕ) (r : Bytes)
    → copied_len (b ∷ r) ≡ c
    → param_len (b ∷ r) ≡ p
    → tokens_from (Mode.copy 0) (b ∷ r) ≡ scanned c p b r
unfolding tokens_from scanned
tokens-scanned (suc n) p b r e g = rw (e, tokens_from) refl
tokens-scanned zero zero b r e g = rw (e, g, tokens_from) refl
tokens-scanned zero (suc n) b r e g = rw (e, g, tokens_from) refl

pub tokens-pass_none :
    (b : ℕ) (r : Bytes) → tokens_from (Mode.pass 0) (b ∷ r) ≡ tokens_from (Mode.copy 0) (b ∷ r)
unfolding tokens_from
tokens-pass_none b r = refl
