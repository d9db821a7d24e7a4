-- ===== src/Examples/Phase.antt =====
-- The theorems on `src/vel.rs` at concrete inputs.
use wp_knowledge.Base.{ℕ, ◌+◌, ◌≡◌, refl, [], ◌∷◌, some, Bytes}
use wp_knowledge.Base.Model.{ℤ}
use wp_knowledge.Base.Text.{codes}
use wp_knowledge.Vel.{VarDef, eval}

abbrev digit : ℕ → Bytes
digit n = (n + 48) ∷ []

-- Four minutes in buckets of thirty seconds, at the 475th second.
two :
    eval digit 475_000_000_000 (
      VarDef.literal (codes "a") (codes "x")
      ∷ VarDef.phase_bucket (codes "cur") 240 30 (ℤ.pos 0) (codes "p")
      ∷ [])
    ≡ some ((codes "a", codes "x") ∷ (codes "cur", codes "p7") ∷ [])
unfolding eval
two = refl
