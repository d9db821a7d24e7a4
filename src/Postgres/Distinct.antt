-- ===== src/Postgres/Distinct.antt =====
-- `src/postgres.rs`: no session sets one parameter twice.
use wp_knowledge.Base.{◌≢◌, Bool, true, false, List, [], ◌∷◌, Option, none, some, Bytes, arith, All}
use wp_knowledge.Facade.Specs.{PlanCacheMode, PostgresSessionSpec}
use wp_knowledge.Postgres.{
  PgParam, setting_name, from_spec, push_mode, push_jit, push_name, push_setting,
}

abbrev pub Expectation : Type 0
Expectation = PgParam × Bytes

-- No later setting is of the name.
abbrev pub IsFresh : Bytes → List Expectation → Type 0
IsFresh p es = All (λ (e : Expectation). setting_name e.0 ≢ p) es

unfoldable pub IsDistinct : List Expectation → Type 0
IsDistinct [] = Unit {0}
IsDistinct (e ∷ es) = IsFresh (setting_name e.0) es × IsDistinct es

jit≢mode : setting_name PgParam.jit ≢ setting_name PgParam.plan_cache_mode
unfolding setting_name
jit≢mode e = ground (arith, e)

name≢mode : setting_name PgParam.application_name ≢ setting_name PgParam.plan_cache_mode
unfolding setting_name
name≢mode e = ground (arith, e)

name≢jit : setting_name PgParam.application_name ≢ setting_name PgParam.jit
unfolding setting_name
name≢jit e = ground (arith, e)

expectations_of : Option PlanCacheMode → Option Bool → Option Bytes → List Expectation
unfolding from_spec
expectations_of mode jit app =
    (from_spec (record { plan_cache_mode = mode; jit = jit; application_name = app })).expectations

expectations_of-IsDistinct :
    (mode : Option PlanCacheMode) (jit : Option Bool) (app : Option Bytes)
    → IsDistinct (expectations_of mode jit app)
unfolding expectations_of push_name push_jit push_mode push_setting IsDistinct
expectations_of-IsDistinct none none none = tt
expectations_of-IsDistinct none none (some a) = (tt, tt)
expectations_of-IsDistinct none (some true) none = (tt, tt)
expectations_of-IsDistinct none (some true) (some a) = ((name≢jit, tt), (tt, tt))
expectations_of-IsDistinct none (some false) none = (tt, tt)
expectations_of-IsDistinct none (some false) (some a) = ((name≢jit, tt), (tt, tt))
expectations_of-IsDistinct (some m) none none = (tt, tt)
expectations_of-IsDistinct (some m) none (some a) = ((name≢mode, tt), (tt, tt))
expectations_of-IsDistinct (some m) (some true) none = ((jit≢mode, tt), (tt, tt))
expectations_of-IsDistinct (some m) (some true) (some a) =
    ((jit≢mode, (name≢mode, tt)), ((name≢jit, tt), (tt, tt)))
expectations_of-IsDistinct (some m) (some false) none = ((jit≢mode, tt), (tt, tt))
expectations_of-IsDistinct (some m) (some false) (some a) =
    ((jit≢mode, (name≢mode, tt)), ((name≢jit, tt), (tt, tt)))

pub from_spec-IsDistinct : (spec : PostgresSessionSpec) → IsDistinct (from_spec spec).expectations
unfolding expectations_of
from_spec-IsDistinct spec =
    expectations_of-IsDistinct spec.plan_cache_mode spec.jit spec.application_name
