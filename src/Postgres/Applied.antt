-- ===== src/Postgres/Applied.antt =====
-- `src/postgres.rs`: what the hook of a new connection leaves, on a server that keeps to SQL.
use wp_knowledge.Base.{
  ◌≡◌, ◌≢◌, refl, sym, ap, subst, ◌∙◌, List, [], ◌∷◌, ◌++◌, map, Option, some, ◌⊎◌, inl, inr, Bytes,
  arith, All,
}
use wp_knowledge.Lru.{Member, here, there}
use wp_knowledge.Base.Text.{codes}
use wp_knowledge.Postgres.{PgParam, setting_name, Answer, Server, after_connect}
use wp_knowledge.Postgres.Distinct.{Expectation, IsFresh, IsDistinct}
use wp_knowledge.Postgres.Statements.{read_set}

-- A server that can be reached and treats settings as Postgres documents it: a `SET` with a value
-- that it takes, as `outcome` says, changes one setting to the form in which the server keeps the
-- value; one with a setting or a value that it does not take is an error; `current_setting` reads a
-- setting. The pool hands on a connection, `opened`, for which the hook succeeds, and gives up if the
-- hook fails on every connection.
pub record Settings {W : Type 0} (server : Server W) : Type 0 where
  pub setting : W → Bytes → Bytes
  pub outcome : PgParam → Bytes → Answer Bytes
  pub opened : W → W
  pub opens :
      (hook : W → W × Answer (Unit {0})) (w : W)
      → (hook (opened w)).1 ≡ Answer.answered tt
      → server.connect_pool hook w ≡ hook (opened w)
  pub gives_up :
      (hook : W → W × Answer (Unit {0})) (w : W)
      → ((w' : W) → (err : Bytes) × ((hook w').1 ≡ Answer.failed err))
      → (err : Bytes) × ((server.connect_pool hook w).1 ≡ Answer.failed err)
  pub selects : (w : W) → (server.execute (codes "SELECT 1") w).1 ≡ Answer.answered tt
  pub select_keeps :
      (w : W) (q : Bytes) → setting (server.execute (codes "SELECT 1") w).0 q ≡ setting w q
  pub sets :
      (w : W) (stmt : Bytes) (param : PgParam) (v kept : Bytes)
      → read_set stmt ≡ some (setting_name param, v)
      → outcome param v ≡ Answer.answered kept
      → ((server.execute stmt w).1 ≡ Answer.answered tt)
        × (setting (server.execute stmt w).0 (setting_name param) ≡ kept)
        × ((q : Bytes) → setting_name param ≢ q → setting (server.execute stmt w).0 q ≡ setting w q)
  pub refuses :
      (w : W) (stmt : Bytes) (param : PgParam) (v err : Bytes)
      → read_set stmt ≡ some (setting_name param, v)
      → outcome param v ≡ Answer.failed err
      → (server.execute stmt w).1 ≡ Answer.failed err
  pub current :
      (w : W) (param : PgParam)
      → server.query_scalar
          (codes "SELECT current_setting('" ++ (setting_name param ++ codes "')"))
          w
        ≡ (w, Answer.answered (setting w (setting_name param)))

abbrev pub expected : Expectation → Option (Bytes × Bytes)
expected e = some (setting_name e.0, e.1)

module _ {W : Type 0} (server : Server W) (honest : Settings server) where
  open honest use {setting, outcome}

  -- The server takes the setting, and keeps the value in this form.
  abbrev pub IsTaken : Expectation → Type 0
  IsTaken e = (kept : Bytes) × (outcome e.0 e.1 ≡ Answer.answered kept)

  abbrev pub IsRefused : Expectation → Type 0
  IsRefused e = (err : Bytes) × (outcome e.0 e.1 ≡ Answer.failed err)

  outcome-cases :
      (e : Expectation) (x : Answer Bytes) → outcome e.0 e.1 ≡ x → IsTaken e ⊎ IsRefused e
  outcome-cases e (Answer.answered kept) g = inl (kept, g)
  outcome-cases e (Answer.failed err) g = inr (err, g)

  pub outcomes-cases :
      (es : List Expectation) → All IsTaken es ⊎ ((e : Expectation) × Member e es × IsRefused e)
  outcomes-cases [] = inl tt
  outcomes-cases (e ∷ es) = elim (outcome-cases e (outcome e.0 e.1) refl) [
    | inr refused ↦ inr (e, here, refused)
    | inl taken ↦ elim (outcomes-cases es) [
      | inl rest ↦ inl (taken, rest)
      | inr (x, at, refused) ↦ inr (x, there at, refused)
    ]
  ]

  after_connect-cons :
      (stmt : Bytes) (stmts : List Bytes) (w : W)
      → (server.execute stmt w).1 ≡ Answer.answered tt
      → after_connect server (stmt ∷ stmts) w ≡ after_connect server stmts (server.execute stmt w).0
  unfolding after_connect
  after_connect-cons stmt stmts w e = ground (arith, e)

  after_connect-failed :
      (stmt : Bytes) (stmts : List Bytes) (w : W) (err : Bytes)
      → (server.execute stmt w).1 ≡ Answer.failed err
      → (after_connect server (stmt ∷ stmts) w).1
        ≡ Answer.failed (
            server.protocol
              (codes "apply postgres session SET '" ++ (stmt ++ (codes "' failed: " ++ err))))
  unfolding after_connect
  after_connect-failed stmt stmts w err e = rw (e, after_connect) refl

  -- A setting that no statement names stays as it is.
  after_connect-other :
      (stmts : List Bytes) (es : List Expectation) (w : W) (q : Bytes)
      → map read_set stmts ≡ map expected es
      → All IsTaken es
      → IsFresh q es
      → setting (after_connect server stmts w).0 q ≡ setting w q
  after_connect-other [] [] w q m t f = unfold after_connect in refl
  after_connect-other [] (e ∷ es) w q m t f = absurd (cc)
  after_connect-other (s ∷ ss) [] w q m t f = absurd (cc)
  after_connect-other (s ∷ ss) (e ∷ es) w q m t f =
      let one : read_set s ≡ some (setting_name e.0, e.1) = cc in
      let rest : map read_set ss ≡ map expected es = cc in
      let (done, self, others) = honest.sets w s e.0 e.1 t.0.0 one t.0.1 in
      ap (λ (x : W × Answer (Unit {0})). setting x.0 q) (after_connect-cons s ss w done)
      ∙ after_connect-other ss es (server.execute s w).0 q rest t.1 f.1
      ∙ others q f.0

  pub after_connect-answered :
      (stmts : List Bytes) (es : List Expectation) (w : W)
      → map read_set stmts ≡ map expected es
      → All IsTaken es
      → (after_connect server stmts w).1 ≡ Answer.answered tt
  after_connect-answered [] [] w m t = unfold after_connect in refl
  after_connect-answered [] (e ∷ es) w m t = absurd (cc)
  after_connect-answered (s ∷ ss) [] w m t = absurd (cc)
  after_connect-answered (s ∷ ss) (e ∷ es) w m t =
      let one : read_set s ≡ some (setting_name e.0, e.1) = cc in
      let rest : map read_set ss ≡ map expected es = cc in
      let (done, self, others) = honest.sets w s e.0 e.1 t.0.0 one t.0.1 in
      ap (λ (x : W × Answer (Unit {0})). x.1) (after_connect-cons s ss w done)
      ∙ after_connect-answered ss es (server.execute s w).0 rest t.1

  -- The form in which the server keeps a value that it takes.
  unfoldable pub shown : PgParam → Bytes → Bytes
  shown param v = elim (outcome param v) [ Answer.failed err ↦ [] | Answer.answered kept ↦ kept ]

  shown_taken : (e : Expectation) (t : IsTaken e) → shown e.0 e.1 ≡ t.0
  unfolding shown
  shown_taken e (kept, g) = ground (arith, g)

  abbrev pub IsApplied : W → List Expectation → Type 0
  IsApplied w es = All (λ (e : Expectation). setting w (setting_name e.0) ≡ shown e.0 e.1) es

  pub after_connect-IsApplied :
      (stmts : List Bytes) (es : List Expectation) (w : W)
      → map read_set stmts ≡ map expected es
      → All IsTaken es
      → IsDistinct es
      → IsApplied (after_connect server stmts w).0 es
  unfolding IsDistinct
  after_connect-IsApplied [] [] w m t d = tt
  after_connect-IsApplied [] (e ∷ es) w m t d = absurd (cc)
  after_connect-IsApplied (s ∷ ss) [] w m t d = absurd (cc)
  after_connect-IsApplied (s ∷ ss) (e ∷ es) w m t d =
      let one : read_set s ≡ some (setting_name e.0, e.1) = cc in
      let rest : map read_set ss ≡ map expected es = cc in
      let (done, self, others) = honest.sets w s e.0 e.1 t.0.0 one t.0.1 in
      subst (λ (x : W × Answer (Unit {0})). IsApplied x.0 (e ∷ es))
        (sym (after_connect-cons s ss w done))
        (
          after_connect-other ss es (server.execute s w).0 (setting_name e.0) rest t.1 d.0
              ∙ self
              ∙ sym (shown_taken e t.0),
          after_connect-IsApplied ss es (server.execute s w).0 rest t.1 d.1,
        )

  later :
      (x e : Expectation) (es : List Expectation) (kept : Bytes)
      → Member e (x ∷ es)
      → IsRefused e
      → outcome x.0 x.1 ≡ Answer.answered kept
      → Member e es
  later x e es kept here (err, r) g = absurd (ground (arith, r, g))
  later x e es kept (there at) r g = at

  pub after_connect-refused :
      (stmts : List Bytes) (es : List Expectation) (e : Expectation) (w : W)
      → map read_set stmts ≡ map expected es
      → Member e es
      → IsRefused e
      → (err : Bytes) × ((after_connect server stmts w).1 ≡ Answer.failed err)
  after_connect-refused [] (x ∷ es) e w m at refused = absurd (cc)
  after_connect-refused [] [] e w m at refused = elim at [ ]
  after_connect-refused (s ∷ ss) [] e w m at refused = absurd (cc)
  after_connect-refused (s ∷ ss) (x ∷ es) e w m at refused =
      let one : read_set s ≡ some (setting_name x.0, x.1) = cc in
      let rest : map read_set ss ≡ map expected es = cc in
      elim (outcome-cases x (outcome x.0 x.1) refl) [
        | inr (err, g) ↦
            let stopped = honest.refuses w s x.0 x.1 err one g in
            (
              server.protocol
                  (codes "apply postgres session SET '" ++ (s ++ (codes "' failed: " ++ err))),
              after_connect-failed s ss w err stopped,
            )
        | inl (kept, g) ↦
            let (done, self, others) = honest.sets w s x.0 x.1 kept one g in
            let at' : Member e es = later x e es kept at refused g in
            let (err, h) = after_connect-refused ss es e (server.execute s w).0 rest at' refused in
            (err, ap (λ (y : W × Answer (Unit {0})). y.1) (after_connect-cons s ss w done) ∙ h)
      ]
