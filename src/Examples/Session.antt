-- ===== src/Examples/Session.antt =====
-- The theorems on the session of `src/postgres.rs` at concrete inputs.
use wp_knowledge.Base.{
  ℕ, ◌≡◌, ◌≢◌, refl, sym, ap, subst, ◌∙◌, Bool, false, true, List, [], ◌∷◌, ◌++◌, map, Option, none,
  some, leb, ◌&&◌, if◌then◌else◌, ite, if_pos, if_neg, Bytes,
}
use wp_knowledge.Base.Model.{Bytes-discrete}
use wp_knowledge.Base.Text.{codes, strip_prefix}
use wp_knowledge.Facade.Specs.{PlanCacheMode, PostgresSessionSpec}
use wp_knowledge.Postgres.{PgParam, setting_name, Answer, Server, from_spec, mismatch, connect}
use wp_knowledge.Postgres.Statements.{read_word, read_set, map-from_spec}
use wp_knowledge.Postgres.Applied.{Settings}
use wp_knowledge.Postgres.Startup.{Ending, connect_lem}

abbrev State : Type 0
State = Bytes → Bytes

-- A server shows printable characters of ASCII, and a question mark for any other byte.
abbrev printable : Bytes → Bytes
printable v = map (λ c. if leb 32 c && leb c 126 then c else b'?') v

-- A server from before version 12, which does not know `plan_cache_mode`.
abbrev outcome : PgParam → Bytes → Answer Bytes
outcome PgParam.plan_cache_mode v = Answer.failed (codes "unrecognized configuration parameter")
outcome PgParam.jit v = Answer.answered (printable v)
outcome PgParam.application_name v = Answer.answered (printable v)

abbrev set : Option (Bytes × Bytes) → State → State × Answer (Unit {0})
set none w = (w, Answer.answered tt)
set (some (p, v)) w =
    ite (Bytes-discrete p (setting_name PgParam.plan_cache_mode))
      (w, Answer.failed (codes "unrecognized configuration parameter"))
      (λ q. ite (Bytes-discrete p q) (printable v) (w q), Answer.answered tt)

abbrev name_of : Option Bytes → Bytes
name_of none = []
name_of (some s) = (read_word s).0

abbrev connected : State → State × Answer (Unit {0}) → State × Answer (Unit {0})
connected w (w', Answer.failed err) = (w, Answer.failed (codes "pool timed out"))
connected w (w', Answer.answered u) = (w', Answer.answered u)

abbrev printing_server : Server State
printing_server = record {
  connect_pool = λ hook w. connected w (hook w);
  execute = λ stmt w. set (read_set stmt) w;
  query_scalar = λ sql w.
      (w, Answer.answered (w (name_of (strip_prefix (codes "SELECT current_setting('") sql))));
  protocol = λ err. codes "encountered unexpected or invalid data: " ++ err;
  debug = λ s. codes "\"" ++ (s ++ codes "\"");
}

opens : (w : State) (x : State × Answer (Unit {0})) → x.1 ≡ Answer.answered tt → connected w x ≡ x
opens w (w', Answer.failed err) e = absurd (cc)
opens w (w', Answer.answered u) e = refl

gives_up :
    (w : State) (x : State × Answer (Unit {0}))
    → ((err : Bytes) × (x.1 ≡ Answer.failed err))
    → (err : Bytes) × ((connected w x).1 ≡ Answer.failed err)
gives_up w (w', Answer.failed err) e = (codes "pool timed out", refl)
gives_up w (w', Answer.answered u) (err, e) = absurd (cc)

abbrev IsApplied : PgParam → Bytes → Bytes → State → State × Answer (Unit {0}) → Type 0
IsApplied param v kept w x =
    (x.1 ≡ Answer.answered tt)
    × (x.0 (setting_name param) ≡ kept)
    × ((q : Bytes) → setting_name param ≢ q → x.0 q ≡ w q)

sets :
    (w : State) (param : PgParam) (v kept : Bytes)
    → outcome param v ≡ Answer.answered kept
    → IsApplied param v kept w (set (some (setting_name param, v)) w)
unfolding setting_name Bytes-discrete wp_knowledge.Base.ℕ_discrete
sets w PgParam.plan_cache_mode v kept e = absurd (cc)
sets w PgParam.jit v kept e =
    (refl, cc, λ q other. if_neg (Bytes-discrete (codes "jit") q) other (printable v) (w q))
sets w PgParam.application_name v kept e = (
  refl,
  cc,
  λ q other. if_neg (Bytes-discrete (codes "application_name") q) other (printable v) (w q),
)

refuses :
    (w : State) (param : PgParam) (v err : Bytes)
    → outcome param v ≡ Answer.failed err
    → (set (some (setting_name param, v)) w).1 ≡ Answer.failed err
unfolding setting_name Bytes-discrete wp_knowledge.Base.ℕ_discrete
refuses w PgParam.plan_cache_mode v err e = cc
refuses w PgParam.jit v err e = absurd (cc)
refuses w PgParam.application_name v err e = absurd (cc)

printing_current :
    (w : State) (param : PgParam)
    → printing_server.query_scalar
        (codes "SELECT current_setting('" ++ (setting_name param ++ codes "')"))
        w
      ≡ (w, Answer.answered (w (setting_name param)))
unfolding read_word setting_name strip_prefix
printing_current w PgParam.plan_cache_mode = refl
printing_current w PgParam.jit = refl
printing_current w PgParam.application_name = refl

select_lem : (w : State) → set (read_set (codes "SELECT 1")) w ≡ (w, Answer.answered tt)
unfolding read_set
select_lem w = refl

abbrev printing : Settings printing_server
printing = record {
  setting = λ w. w;
  outcome = outcome;
  opened = λ w. w;
  opens = λ hook w e. opens w (hook w) e;
  gives_up = λ hook w e. gives_up w (hook w) (e w);
  selects = λ w. ap (λ (x : State × Answer (Unit {0})). x.1) (select_lem w);
  select_keeps = λ w q. ap (λ (x : State × Answer (Unit {0})). x.0 q) (select_lem w);
  sets = λ w stmt param v kept e g.
      subst (λ x. IsApplied param v kept w (set x w)) (sym e) (sets w param v kept g);
  refuses = λ w stmt param v err e g. ap (λ x. (set x w).1) e ∙ refuses w param v err g;
  current = printing_current;
}

abbrev named : List ℕ → PostgresSessionSpec
named app = record {
  plan_cache_mode = some PlanCacheMode.force_custom_plan;
  jit = some false;
  application_name = some app;
}

map-from_spec_example :
    map read_set (
      codes "SET plan_cache_mode = force_custom_plan"
      ∷ codes "SET jit = off"
      ∷ codes "SET application_name = 'it''s'"
      ∷ [])
    ≡ some (codes "plan_cache_mode", codes "force_custom_plan")
      ∷ some (codes "jit", codes "off")
      ∷ some (codes "application_name", codes "it's")
      ∷ []
unfolding from_spec setting_name
map-from_spec_example = map-from_spec (named (codes "it's"))

-- A name with a letter that is not of ASCII, which no check refuses before.
abbrev coffee : PostgresSessionSpec
coffee = record {
  plan_cache_mode = none;
  jit = some false;
  application_name = some (99 ∷ 97 ∷ 102 ∷ 195 ∷ 169 ∷ []);
}

altered_name :
    (connect printing_server (codes "geo") (some (from_spec coffee)) (λ q. [])).1
    ≡ mismatch printing_server
        (codes "geo")
        (codes "application_name")
        (99 ∷ 97 ∷ 102 ∷ 195 ∷ 169 ∷ [])
        (codes "caf??")
unfolding connect from_spec read_set setting_name Bytes-discrete wp_knowledge.Base.ℕ_discrete
altered_name = refl

connect_lem_example :
    Ending printing_server printing
      (codes "geo")
      (from_spec coffee).expectations
      (connect printing_server (codes "geo") (some (from_spec coffee)) (λ q. [])).1
connect_lem_example = connect_lem printing_server printing (codes "geo") coffee (λ q. [])
