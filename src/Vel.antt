-- ===== src/Vel.antt =====
-- `src/vel.rs`: the evaluation of the variables of a refreshed table, from their parsed definitions.
pub mod Text
pub mod Parse
pub mod Resolve
use Prim.Native.Nat.{ℕ}
use wp_knowledge.Base.{
  suc, ◌+◌, ◌-◌, ◌*◌, ◌/◌, ◌%◌, ◌≤◌, ◌≡◌, ap, ◌||◌, List, [], ◌∷◌, ◌++◌, Option, none, some, arith,
  ltb, ◌==◌, if◌then◌else◌, min, Bytes,
}
use wp_knowledge.Base.Model.{ℤ}

pub data VarDef : Type 0 where
  literal : Bytes → Bytes → VarDef
  -- The name, the period and the bucket in seconds, the offset and the prefix.
  phase_bucket : Bytes → ℕ → ℕ → ℤ → Bytes → VarDef

abbrev pub u64_max : ℕ
u64_max = 18_446_744_073_709_551_615

unfoldable pub saturating_mul : ℕ → ℕ → ℕ
saturating_mul a b = min (a * b) u64_max

unfoldable pub saturating_add : ℕ → ℕ → ℕ
saturating_add a b = min (a + b) u64_max

abbrev pub nanos : ℕ → ℕ
nanos s = saturating_mul s 1_000_000_000

unfoldable pub shifted : ℕ → ℤ → ℕ → ℕ
unfolding saturating_mul saturating_add
shifted now_ns (ℤ.pos n) bucket_ns = saturating_add now_ns (saturating_mul n bucket_ns)
shifted now_ns (ℤ.negsuc n) bucket_ns = now_ns - saturating_mul (suc n) bucket_ns

-- The number of the bucket, or an error.
unfoldable pub phase_index : ℕ → ℕ → ℕ → ℤ → Option ℕ
unfolding shifted saturating_mul
phase_index now_ns period_s bucket_s offset_slots =
    if nanos period_s == 0 || nanos bucket_s == 0 || ltb (nanos period_s) (nanos bucket_s)
    then none
    else some ((shifted now_ns offset_slots (nanos bucket_s) % nanos period_s) / nanos bucket_s)

-- The decimal text of a number is the standard library's.
module _ (decimal_text : ℕ → Bytes) where
  unfoldable pub eval : ℕ → List VarDef → Option (List (Bytes × Bytes))
  unfolding phase_index
  eval now_ns [] = some []
  eval now_ns (VarDef.literal name value ∷ defs) = elim (eval now_ns defs) [
    | none ↦ none
    | some vars ↦ some ((name, value) ∷ vars)
  ]
  eval now_ns (VarDef.phase_bucket name period_s bucket_s offset_slots prefix ∷ defs) =
      elim (phase_index now_ns period_s bucket_s offset_slots) [
        | none ↦ none
        | some idx ↦ elim (eval now_ns defs) [
          | none ↦ none
          | some vars ↦ some ((name, prefix ++ decimal_text idx) ∷ vars)
        ]
      ]

shifted_lem :
    (now b : ℕ) → now + b ≤ u64_max → shifted now (ℤ.pos 1) b ≡ shifted (now + b) (ℤ.pos 0) b
unfolding shifted saturating_mul saturating_add
shifted_lem now b h = omega arith

-- As long as the clock does not saturate, the next phase is the present one a bucket later.
pub phase_next :
    (now_ns period_s bucket_s : ℕ)
    → now_ns + nanos bucket_s ≤ u64_max
    → phase_index now_ns period_s bucket_s (ℤ.pos 1)
      ≡ phase_index (now_ns + nanos bucket_s) period_s bucket_s (ℤ.pos 0)
unfolding phase_index
phase_next now_ns period_s bucket_s h =
    let p = nanos period_s in
    let b = nanos bucket_s in
    ap (λ (t : ℕ). if p == 0 || b == 0 || ltb p b then none else some ((t % p) / b))
      (shifted_lem now_ns b h)
