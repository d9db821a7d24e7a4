-- ===== src/SqlRoute/Memo.antt =====
-- `src/sql_route.rs`: `route_provider_sql`, the route by way of the memo table.
use wp_knowledge.Base.{
  ℕ, Bool, List, [], Option, none, some, Bytes, length, leb, if◌then◌else◌, ite, find, insert,
  ℕ_discrete,
}
use wp_knowledge.SqlRoute.Strip.{compute_route}

-- `ROUTE_MEMO_CAP`
abbrev pub route_memo_cap : ℕ
route_memo_cap = 1024

abbrev pub Route : Type 0
Route = Option (Bytes × Bytes)

pub record RouteMemo : Type 0 where
  pub epoch : ℕ
  pub map : List (ℕ × Route)

abbrev pub new_memo : RouteMemo
new_memo = record { epoch = 0; map = [] }

-- What the route reads of the runtime: the version of the registry, and the names in it.
pub record Registry : Type 0 where
  pub epoch : ℕ
  pub provider_exists : Bytes → Bool

-- `sql_route_key` is the standard library's hash, an argument here.
module _ (sql_route_key : Bytes → ℕ) where
  -- The part under the write lock.
  unfoldable pub remember : RouteMemo → ℕ → ℕ → Route → RouteMemo
  remember memo epoch key routed =
      let fresh : RouteMemo =
        ite (ℕ_discrete memo.epoch epoch) memo (record { epoch = epoch; map = [] }) in
      let roomy : RouteMemo =
        if leb route_memo_cap (length fresh.map) then record fresh { map = [] } else fresh in
      record roomy { map = insert ℕ_discrete key routed roomy.map }

  -- The part under the read lock.
  unfoldable pub recall : RouteMemo → ℕ → ℕ → Option Route
  recall memo epoch key = ite (ℕ_discrete memo.epoch epoch) (find ℕ_discrete key memo.map) none

  unfoldable pub route_provider_sql : Registry → RouteMemo → Bytes → RouteMemo × Route
  route_provider_sql reg memo sql = elim (recall memo reg.epoch (sql_route_key sql)) [
    | some routed ↦ (memo, routed)
    | none ↦
        let routed = compute_route reg.provider_exists sql in
        (remember memo reg.epoch (sql_route_key sql) routed, routed)
  ]
