-- ===== src/Fun.antt =====
-- `src/fun.rs`: the named functions `[fun.<name>]` of the configuration.
use wp_knowledge.Base.{
  ℕ, ◌≡◌, ◌≢◌, refl, ap, sym, ◌∙◌, Bool, true, false, List, ◌++◌, Option, none, some, arith, Bytes,
  find, Option-cases, inl, inr,
}
use wp_knowledge.Base.Model.{Bytes-discrete}
use wp_knowledge.Base.Text.{codes}
use wp_knowledge.Runtime.Types.{KnowledgeError, KnowledgeResult}

pub data FunCall : Type 0 where
  bf_exists sismember h_get get : FunCall

pub record CachedFunSpec : Type 0 where
  pub call : FunCall
  pub key : Option Bytes
  pub cache : Bool
  pub ttl_ms : Option ℕ

abbrev pub FunMap : Type 0
FunMap = List (Bytes × CachedFunSpec)

-- `FUN_MAP` is set once: a later map is dropped.
unfoldable pub register_fun_map : FunMap → Option FunMap → Option FunMap
register_fun_map map none = some map
register_fun_map map (some registered) = some registered

unfoldable pub returns_bool : FunCall → Bool
returns_bool FunCall.bf_exists = true
returns_bool FunCall.sismember = true
returns_bool _ = false

abbrev kind_name : Bool → Bytes
kind_name true = codes "bool"
kind_name false = codes "value"

-- The comparison of the names of what is expected and of what the function returns.
unfoldable pub checked : Bytes → Bool → CachedFunSpec → KnowledgeResult CachedFunSpec
unfolding returns_bool
checked service expected spec =
    elim (Bytes-discrete (kind_name expected) (kind_name (returns_bool spec.call))) [
      | yes same ↦ KnowledgeResult.ok spec
      | no differs ↦ KnowledgeResult.err (
          KnowledgeError.logic (
            codes "external service '"
            ++ service
            ++ codes "' returns "
            ++ kind_name (returns_bool spec.call)
            ++ codes ", not "
            ++ kind_name expected))
    ]

unfoldable pub resolve : Option FunMap → Bytes → Bool → KnowledgeResult CachedFunSpec
unfolding checked
resolve none service expected =
    KnowledgeResult.err (KnowledgeError.logic (codes "external: no [fun] definitions registered"))
resolve (some map) service expected = elim (find Bytes-discrete service map) [
  | none ↦
      KnowledgeResult.err
        (KnowledgeError.logic (codes "external service '" ++ service ++ codes "' not found"))
  | some spec ↦ checked service expected spec
]

abbrev pub unwrap_or : Option Bytes → Bytes → Bytes
unwrap_or none arg = arg
unwrap_or (some key) arg = key

-- The commands of `src/redis.rs` that are called for the server of `knowdb`, in a state of the world.
pub record RedisServer (W : Type 0) : Type 0 where
  pub bf_exists : W → Bytes → Bytes → KnowledgeResult Bool
  pub set_exists : W → Bytes → Bytes → KnowledgeResult Bool
  pub hget : W → Bytes → Bytes → KnowledgeResult (Option Bytes)
  pub get : W → Bytes → KnowledgeResult (Option Bytes)
  pub bf_madd : W → Bytes → List Bytes → W × KnowledgeResult (List Bool)

-- A call returns, or reaches `unreachable!()`.
pub data Call (A : Type 0) : Type 0 where
  returns : KnowledgeResult A → Call A
  unreachable : Call A

module _ {W : Type 0} (redis : RedisServer W) (world : W) where
  unfoldable pub exists_by : CachedFunSpec → Bytes → Call Bool
  exists_by spec arg =
      let redis_key = unwrap_or spec.key arg in
      elim spec.call [
        | FunCall.bf_exists ↦ Call.returns (redis.bf_exists world redis_key arg)
        | FunCall.sismember ↦ Call.returns (redis.set_exists world redis_key arg)
        | _ ↦ Call.unreachable
      ]

  unfoldable pub external_exists : Option FunMap → Bytes → Bytes → Call Bool
  unfolding resolve exists_by
  external_exists funs service arg = elim (resolve funs service true) [
    | KnowledgeResult.err e ↦ Call.returns (KnowledgeResult.err e)
    | KnowledgeResult.ok spec ↦ exists_by spec arg
  ]

  unfoldable pub value_by : CachedFunSpec → Bytes → Call (Option Bytes)
  value_by spec arg =
      let redis_key = unwrap_or spec.key arg in
      elim spec.call [
        | FunCall.h_get ↦ Call.returns (redis.hget world redis_key arg)
        | FunCall.get ↦ Call.returns (redis.get world redis_key)
        | _ ↦ Call.unreachable
      ]

  unfoldable pub external_value : Option FunMap → Bytes → Bytes → Call (Option Bytes)
  unfolding resolve value_by
  external_value funs service arg = elim (resolve funs service false) [
    | KnowledgeResult.err e ↦ Call.returns (KnowledgeResult.err e)
    | KnowledgeResult.ok spec ↦ value_by spec arg
  ]

kind_name-injective : (a b : Bool) → kind_name a ≡ kind_name b → b ≡ a
kind_name-injective true true e = refl
kind_name-injective true false e = absurd (ground arith)
kind_name-injective false true e = absurd (ground arith)
kind_name-injective false false e = refl

checked_ok :
    (service : Bytes) (expected : Bool) (spec found : CachedFunSpec)
    → checked service expected spec ≡ KnowledgeResult.ok found
    → (spec ≡ found) × (returns_bool spec.call ≡ expected)
unfolding checked
checked_ok service expected spec found e =
    elim (Bytes-discrete (kind_name expected) (kind_name (returns_bool spec.call))) [
      | yes same ↦ (ground arith, kind_name-injective expected (returns_bool spec.call) same)
      | no differs ↦ absurd (ground arith)
    ]

-- A function that is found is the registered one of its name, and returns what is expected.
pub resolve_ok :
    (funs : Option FunMap) (service : Bytes) (expected : Bool) (spec : CachedFunSpec)
    → resolve funs service expected ≡ KnowledgeResult.ok spec
    → returns_bool spec.call ≡ expected
unfolding resolve
resolve_ok none service expected spec e = absurd (ground arith)
resolve_ok (some map) service expected spec e =
    elim (Option-cases (find Bytes-discrete service map)) [
      | inl no_fun ↦ absurd (ground arith)
      | inr (found, f) ↦
          let same : checked service expected found ≡ KnowledgeResult.ok spec = ground arith in
          let (eq, kind) = checked_ok service expected found spec same in
          sym (ap (λ (s : CachedFunSpec). returns_bool s.call) eq) ∙ kind
    ]

module _ {W : Type 0} (redis : RedisServer W) (world : W) where
  exists_by_returns :
      (spec : CachedFunSpec) (arg : Bytes)
      → returns_bool spec.call ≡ true
      → exists_by redis world spec arg ≢ Call.unreachable
  unfolding exists_by returns_bool
  exists_by_returns spec arg e = go spec.call refl
    where
      go : (c : FunCall) → spec.call ≡ c → exists_by redis world spec arg ≢ Call.unreachable
      go FunCall.bf_exists f u = absurd (ground arith)
      go FunCall.sismember f u = absurd (ground arith)
      go FunCall.h_get f u = absurd (ground arith)
      go FunCall.get f u = absurd (ground arith)

  value_by_returns :
      (spec : CachedFunSpec) (arg : Bytes)
      → returns_bool spec.call ≡ false
      → value_by redis world spec arg ≢ Call.unreachable
  unfolding value_by returns_bool
  value_by_returns spec arg e = go spec.call refl
    where
      go : (c : FunCall) → spec.call ≡ c → value_by redis world spec arg ≢ Call.unreachable
      go FunCall.bf_exists f u = absurd (ground arith)
      go FunCall.sismember f u = absurd (ground arith)
      go FunCall.h_get f u = absurd (ground arith)
      go FunCall.get f u = absurd (ground arith)

  -- Whatever is registered, and whatever name is asked for, neither kind of call reaches the arm that
  -- is marked as unreachable.
  external_returns :
      (funs : Option FunMap) (service arg : Bytes)
      → (external_exists redis world funs service arg ≢ Call.unreachable)
        × (external_value redis world funs service arg ≢ Call.unreachable)
  unfolding external_exists external_value
  external_returns funs service arg = (exists_returns _ refl, value_returns _ refl)
    where
      exists_returns :
          (r : KnowledgeResult CachedFunSpec)
          → resolve funs service true ≡ r
          → external_exists redis world funs service arg ≢ Call.unreachable
      exists_returns (KnowledgeResult.err e) f u = absurd (ground arith)
      exists_returns (KnowledgeResult.ok spec) f u =
          let never = exists_by_returns spec arg (resolve_ok funs service true spec f) in
          absurd (ground arith)

      value_returns :
          (r : KnowledgeResult CachedFunSpec)
          → resolve funs service false ≡ r
          → external_value redis world funs service arg ≢ Call.unreachable
      value_returns (KnowledgeResult.err e) f u = absurd (ground arith)
      value_returns (KnowledgeResult.ok spec) f u =
          let never = value_by_returns spec arg (resolve_ok funs service false spec f) in
          absurd (ground arith)
