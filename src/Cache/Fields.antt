-- ===== src/Cache/Fields.antt =====
-- `src/cache.rs`: the tables, the index allocation, and the methods of `CacheAble`.
use wp_knowledge.Base.{
  ℕ, ◌+◌, Bool, List, [], ◌∷◌, Option, none, some, ite, leb, if◌then◌else◌, Bytes, find, insert,
  ℕ_discrete, max,
}
use wp_knowledge.Base.Model.{
  ℤ, IpAddr, Value, Bytes-discrete, ℤ-discrete, IpAddr-discrete, Bool-discrete,
}
use wp_knowledge.Lru.{Lru}

-- `MAX_LOCAL_IDX`
abbrev pub max_local_idx : ℕ
max_local_idx = 100_000

pub data EnumSizeIndex : Type 0 where
  idx1 : ℕ → EnumSizeIndex
  idx2 : ℕ → ℕ → EnumSizeIndex
  idx3 : ℕ → ℕ → ℕ → EnumSizeIndex
  idx4 : ℕ → ℕ → ℕ → ℕ → EnumSizeIndex
  idx5 : ℕ → ℕ → ℕ → ℕ → ℕ → EnumSizeIndex
  idx6 : ℕ → ℕ → ℕ → ℕ → ℕ → ℕ → EnumSizeIndex

pub record LocalCacheKey : Type 0 where
  pub scope_hash : ℕ
  pub idxs : EnumSizeIndex

-- The six `impl` blocks are one definition over the list of the parameters: an array of `n`
-- parameters is stored under the constructor for `n`, and there is no block for other sizes.
unfoldable pub size_index : List ℕ → Option EnumSizeIndex
size_index (a ∷ []) = some (EnumSizeIndex.idx1 a)
size_index (a ∷ b ∷ []) = some (EnumSizeIndex.idx2 a b)
size_index (a ∷ b ∷ c ∷ []) = some (EnumSizeIndex.idx3 a b c)
size_index (a ∷ b ∷ c ∷ d ∷ []) = some (EnumSizeIndex.idx4 a b c d)
size_index (a ∷ b ∷ c ∷ d ∷ e ∷ []) = some (EnumSizeIndex.idx5 a b c d e)
size_index (a ∷ b ∷ c ∷ d ∷ e ∷ f ∷ []) = some (EnumSizeIndex.idx6 a b c d e f)
size_index _ = none

pub record FieldQueryCache (C : Type 0) : Type 0 where
  pub str_idx : List (Bytes × ℕ)
  pub i64_idx : List (ℤ × ℕ)
  pub ip_idx : List (IpAddr × ℕ)
  pub biguint_idx : List (ℕ × ℕ)
  pub bool_idx : List (Bool × ℕ)
  pub float_idx : List (ℕ × ℕ)
  pub text_idx : List (Bytes × ℕ)
  pub cache_data : C
  pub idx_num : ℕ
  pub generations : List (ℕ × ℕ)

-- The block that each arm of `try_up_idx` holds: the index of `k`, or the next number.
unfoldable pub up_table : {K : Type 0} → Discrete K → K → List (K × ℕ) → ℕ → List (K × ℕ) × ℕ × ℕ
up_table dec k table n = elim (find dec k table) [
  | some idx ↦ (table, n, idx)
  | none ↦ (insert dec k (n + 1) table, n + 1, n + 1)
]

module _ {C : Type 0} where
  unfoldable pub get_idx : FieldQueryCache C → Value → Option ℕ
  get_idx self (Value.chars v) = find Bytes-discrete v self.str_idx
  get_idx self (Value.int v) = find ℤ-discrete v self.i64_idx
  get_idx self (Value.ip_addr v) = find IpAddr-discrete v self.ip_idx
  get_idx self (Value.big_uint v) = find ℕ_discrete v self.biguint_idx
  get_idx self (Value.bool v) = find Bool-discrete v self.bool_idx
  get_idx self (Value.float v) = find ℕ_discrete v self.float_idx
  get_idx self (Value.symbol v) = find Bytes-discrete v self.text_idx
  get_idx self (Value.time v) = find Bytes-discrete v self.text_idx
  get_idx self (Value.hex v) = find Bytes-discrete v self.text_idx
  get_idx self (Value.ip_net v) = find Bytes-discrete v self.text_idx
  get_idx self (Value.domain v) = find Bytes-discrete v self.text_idx
  get_idx self (Value.url v) = find Bytes-discrete v self.text_idx
  get_idx self (Value.email v) = find Bytes-discrete v self.text_idx
  get_idx self (Value.id_card v) = find Bytes-discrete v self.text_idx
  get_idx self (Value.mobile_phone v) = find Bytes-discrete v self.text_idx
  get_idx self _ = none

  unfoldable pub up_text_idx : FieldQueryCache C → Bytes → FieldQueryCache C × Option ℕ
  unfolding up_table
  up_text_idx self key =
      let (table, n, idx) = up_table Bytes-discrete key self.text_idx self.idx_num in
      (record self { text_idx = table; idx_num = n }, some idx)

  -- The `match` of `try_up_idx`.
  unfoldable pub up_value : FieldQueryCache C → Value → FieldQueryCache C × Option ℕ
  unfolding up_table up_text_idx
  up_value self (Value.chars v) =
      let (table, n, idx) = up_table Bytes-discrete v self.str_idx self.idx_num in
      (record self { str_idx = table; idx_num = n }, some idx)
  up_value self (Value.int v) =
      let (table, n, idx) = up_table ℤ-discrete v self.i64_idx self.idx_num in
      (record self { i64_idx = table; idx_num = n }, some idx)
  up_value self (Value.ip_addr v) =
      let (table, n, idx) = up_table IpAddr-discrete v self.ip_idx self.idx_num in
      (record self { ip_idx = table; idx_num = n }, some idx)
  up_value self (Value.big_uint v) =
      let (table, n, idx) = up_table ℕ_discrete v self.biguint_idx self.idx_num in
      (record self { biguint_idx = table; idx_num = n }, some idx)
  up_value self (Value.bool v) =
      let (table, n, idx) = up_table Bool-discrete v self.bool_idx self.idx_num in
      (record self { bool_idx = table; idx_num = n }, some idx)
  up_value self (Value.float v) =
      let (table, n, idx) = up_table ℕ_discrete v self.float_idx self.idx_num in
      (record self { float_idx = table; idx_num = n }, some idx)
  up_value self (Value.symbol v) = up_text_idx self v
  up_value self (Value.time v) = up_text_idx self v
  up_value self (Value.hex v) = up_text_idx self v
  up_value self (Value.ip_net v) = up_text_idx self v
  up_value self (Value.domain v) = up_text_idx self v
  up_value self (Value.url v) = up_text_idx self v
  up_value self (Value.email v) = up_text_idx self v
  up_value self (Value.id_card v) = up_text_idx self v
  up_value self (Value.mobile_phone v) = up_text_idx self v
  up_value self _ = (self, none)

-- The tuple pattern `(Some(i0), Some(i1), …)`.
abbrev pub cons_some : Option ℕ → Option (List ℕ) → Option (List ℕ)
cons_some none is = none
cons_some (some i) none = none
cons_some (some i) (some is) = some (i ∷ is)

module _ {T : Type 0} (L : Lru LocalCacheKey T) where
  open L use {Cache, new, peek, put, pop, clear, keys}

  unfoldable pub with_capacity : ℕ → FieldQueryCache Cache
  with_capacity size = record {
    str_idx = [];
    i64_idx = [];
    ip_idx = [];
    biguint_idx = [];
    bool_idx = [];
    float_idx = [];
    text_idx = [];
    cache_data = new (max size 1);
    idx_num = 0;
    generations = [];
  }

  -- The reset at the head of `try_up_idx`.
  unfoldable pub reset : FieldQueryCache Cache → FieldQueryCache Cache
  reset self = record {
    str_idx = [];
    i64_idx = [];
    ip_idx = [];
    biguint_idx = [];
    bool_idx = [];
    float_idx = [];
    text_idx = [];
    cache_data = clear self.cache_data;
    idx_num = 0;
    generations = [];
  }

  unfoldable pub try_up_idx : FieldQueryCache Cache → Value → FieldQueryCache Cache × Option ℕ
  unfolding reset up_value
  try_up_idx self param =
      up_value (if leb max_local_idx self.idx_num then reset self else self) param

  -- The tuple of calls in `save_scoped`: all are made, from left to right.
  unfoldable pub try_up_all :
      FieldQueryCache Cache → List Value → FieldQueryCache Cache × Option (List ℕ)
  unfolding try_up_idx
  try_up_all self [] = (self, some [])
  try_up_all self (p ∷ params) =
      let (self', i) = try_up_idx self p in
      let (self'', is) = try_up_all self' params in (self'', cons_some i is)

  -- The tuple of calls in `fetch_scoped`.
  unfoldable pub get_all : FieldQueryCache Cache → List Value → Option (List ℕ)
  unfolding get_idx
  get_all self [] = some []
  get_all self (p ∷ params) = cons_some (get_idx self p) (get_all self params)

  unfoldable pub save_at : FieldQueryCache Cache → ℕ → Option (List ℕ) → T → FieldQueryCache Cache
  unfolding size_index
  save_at self scope none result = self
  save_at self scope (some is) result = elim (size_index is) [
    | none ↦ self
    | some ix ↦ record self {
      cache_data = put (record { scope_hash = scope; idxs = ix }) result self.cache_data;
    }
  ]

  unfoldable pub save_scoped : FieldQueryCache Cache → ℕ → List Value → T → FieldQueryCache Cache
  unfolding try_up_all save_at
  save_scoped self scope params result =
      let (self', is) = try_up_all self params in save_at self' scope is result

  unfoldable pub fetch_at : FieldQueryCache Cache → ℕ → Option (List ℕ) → Option T
  unfolding size_index
  fetch_at self scope none = none
  fetch_at self scope (some is) = elim (size_index is) [
    | none ↦ none
    | some ix ↦ peek (record { scope_hash = scope; idxs = ix }) self.cache_data
  ]

  unfoldable pub fetch_scoped : FieldQueryCache Cache → ℕ → List Value → Option T
  unfolding get_all fetch_at
  fetch_scoped self scope params = fetch_at self scope (get_all self params)

  unfoldable pub save : FieldQueryCache Cache → List Value → T → FieldQueryCache Cache
  unfolding save_scoped
  save self params result = save_scoped self 0 params result

  unfoldable pub fetch : FieldQueryCache Cache → List Value → Option T
  unfolding fetch_scoped
  fetch self params = fetch_scoped self 0 params

  -- The `for` over the stale keys.
  unfoldable pub pop_scope : ℕ → List LocalCacheKey → Cache → Cache
  pop_scope scope [] data_ = data_
  pop_scope scope (k ∷ ks) data_ =
      pop_scope scope ks (ite (ℕ_discrete k.scope_hash scope) (pop k data_) data_)

  unfoldable pub prepare_generation : FieldQueryCache Cache → ℕ → ℕ → FieldQueryCache Cache
  unfolding pop_scope
  prepare_generation self scope generation =
      let next = record self {
        cache_data = pop_scope scope (keys self.cache_data) self.cache_data;
        generations = insert ℕ_discrete scope generation self.generations;
      } in
      elim (find ℕ_discrete scope self.generations) [
        | none ↦ next
        | some g ↦ ite (ℕ_discrete g generation) self next
      ]
