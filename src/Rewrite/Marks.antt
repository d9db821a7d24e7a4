-- ===== src/Rewrite/Marks.antt =====
-- `src/mysql.rs`: a rewritten query is read as the query that is meant.
use wp_knowledge.Base.{ℕ, ◌<◌, ◌≢◌, [], ◌∷◌, Bytes}
use wp_knowledge.Rewrite.Alike.{Alike}

-- A byte of ASCII that is no mark.
abbrev pub IsUnmarked : ℕ → Type 0
IsUnmarked c = (c < 128) × (c ≢ b'?')

abbrev mark : ℕ → Bytes
mark n = b'?' ∷ []
