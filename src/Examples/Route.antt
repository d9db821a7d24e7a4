-- ===== src/Examples/Route.antt =====
-- The tests of `src/sql_route.rs`, and its theorems at concrete inputs.
use wp_knowledge.Base.{
  ℕ, suc, ◌+◌, ◌*◌, ◌<◌, ◌≤◌, ◌≡◌, refl, sym, ◌∙◌, Bool, true, false, List, [], ◌∷◌, ◌++◌, none,
  some, Bytes, length, arith,
}
use wp_knowledge.Base.Text.{codes}
use wp_knowledge.Lru.{Member, here, there}
use wp_knowledge.SqlRoute.Scan.{find_keyword, matching_paren}
use wp_knowledge.SqlRoute.Strip.{compute_route, strip_provider_prefix, copied_len, prefix_here}
use wp_knowledge.SqlRoute.Table.{first_table_name}
use wp_knowledge.SqlRoute.Word.{IsWordAt, find_keyword-IsWordAt}
use wp_knowledge.SqlRoute.Pairs.{opened, closed, IsPartner, matching_paren-IsPartner}
use wp_knowledge.SqlRoute.Encoding.{wide, length-strip_provider_prefix}
use wp_knowledge.SqlRoute.Memo.{new_memo}
use wp_knowledge.Base.Model.{Bytes-discrete}
use wp_knowledge.Runtime.Types.{ProviderKind}
use wp_knowledge.Runtime.State.{
  new, provider_exists, install_provider_named, prune_named_providers_except,
}
use wp_knowledge.Examples.World.{build, fresh}
use wp_knowledge.SqlRoute.Events.{Event, queries, registry_of, changed, direct_routes}
use wp_knowledge.SqlRoute.Fresh.{memo_routes, IsCollisionFree, memo_routes-direct}

is_geo : Bytes → Bool
is_geo name = true

routed :
    compute_route is_geo
      (codes "select country_name from geo.public.ip_geo_city where ip_num = :ip")
    ≡ some (codes "geo", codes "select country_name from public.ip_geo_city where ip_num = :ip")
unfolding compute_route is_geo
routed = refl

subquery :
    first_table_name (codes "select a from (select a from geo.public.t where x = 1) sub")
    ≡ some (codes "geo.public.t")
unfolding first_table_name
subquery = refl

literals :
    strip_provider_prefix
      (codes "select geo.a from geo.public.t where name = 'geo.x' -- geo.y")
      (codes "geo")
    ≡ codes "select a from public.t where name = 'geo.x' -- geo.y"
unfolding strip_provider_prefix
literals = refl

middle :
    strip_provider_prefix (codes "select a.geo.country from geography.x, geo.t") (codes "geo")
    ≡ codes "select a.geo.country from geography.x, t"
unfolding strip_provider_prefix
middle = refl

abbrev keyword : Bytes
keyword = codes "from"

abbrev text : Bytes
text = codes "select 'from' FROM t"

find_keyword-IsWordAt_example :
    ((i : ℕ)
      → find_keyword text keyword ≡ some i
      → IsWordAt keyword text i × ((k : ℕ) → k < i → IsWordAt keyword text k → ⊥))
    × (find_keyword text keyword ≡ none → (k : ℕ) → IsWordAt keyword text k → ⊥)
find_keyword-IsWordAt_example = find_keyword-IsWordAt text keyword

abbrev parens : Bytes
parens = codes "f(a, ')', (b))c"

abbrev behind : Bytes
behind = codes "a, ')', (b))c"

matching_paren-IsPartner_example :
    ((i : ℕ)
      → matching_paren parens 1 ≡ some i
      → (j : ℕ) × (i ≡ 1 + j) × IsPartner (b'(' ∷ behind) j)
    × (matching_paren parens 1 ≡ none
        → (k : ℕ) → 0 < k
        → closed (b'(' ∷ behind) k < opened (b'(' ∷ behind) k)
matching_paren-IsPartner_example = matching_paren-IsPartner parens 1 behind refl

abbrev geo : Bytes
geo = codes "geo"

-- The letter é, outside literals, is two bytes, and becomes four.
abbrev accent : Bytes
accent = b'a' ∷ 0xC3 ∷ 0xA9 ∷ []

length-strip_provider_prefix_example :
    length (strip_provider_prefix accent geo) ≡ length accent + wide 0 accent
unfolding copied_len prefix_here
length-strip_provider_prefix_example =
    length-strip_provider_prefix accent b'g' (codes "eo") (λ e. refl, (λ e. refl, (λ e. refl, tt)))

abbrev hash : Bytes → ℕ
hash [] = 0
hash (b ∷ s) = b + 256 * hash s

-- The provider of the query is installed, and then removed.
abbrev events : List (Event ℕ)
events =
    Event.query (codes "select a from geo.t")
    ∷ Event.install (codes "geo") ProviderKind.postgres (codes "pg") (build (codes "b")) false
    ∷ Event.query (codes "select a from geo.t")
    ∷ Event.prune (λ name. false)
    ∷ Event.query (codes "select a from geo.t")
    ∷ []

only : {A : Type 0} (a x : A) → Member a (x ∷ x ∷ x ∷ []) → a ≡ x
only a x here = refl
only a x (there here) = refl
only a x (there (there here)) = refl
only a x (there (there (there m))) = elim m [ ]

no_collision : IsCollisionFree hash (queries events)
unfolding queries
no_collision a b m n e = only a _ m ∙ sym (only b _ n)

memo_routes-direct_example :
    memo_routes hash fresh new_memo events
    ≡ none ∷ some (codes "geo", codes "select a from t") ∷ none ∷ []
unfolding direct_routes registry_of changed provider_exists compute_route new Bytes-discrete
    wp_knowledge.Base.ℕ_discrete install_provider_named prune_named_providers_except
    wp_knowledge.Base.find wp_knowledge.Base.insert
memo_routes-direct_example =
    memo_routes-direct hash events fresh no_collision (unfold new in omega arith)
