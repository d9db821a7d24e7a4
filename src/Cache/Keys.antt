-- ===== src/Cache/Keys.antt =====
-- `src/cache.rs`: the seven tables of `FieldQueryCache` seen as one, by a common type of keys.
use wp_knowledge.Base.{
  ℕ, ◌+◌, ◌≡◌, ◌≢◌, refl, ap, Bool, Option, none, some, arith, Bytes, find, insert,
  find-insert_self, find-insert_ne, ℕ_discrete,
}
use wp_knowledge.Base.Model.{
  ℤ, IpAddr, Value, Bytes-discrete, ℤ-discrete, IpAddr-discrete, Bool-discrete,
}
use wp_knowledge.Cache.Fields.{FieldQueryCache, up_table, up_value, get_idx}

-- A parameter as the cache tells it apart: its table, and its key there.
pub data Key : Type 0 where
  str : Bytes → Key
  i64 : ℤ → Key
  ip : IpAddr → Key
  biguint : ℕ → Key
  bool : Bool → Key
  float : ℕ → Key
  text : Bytes → Key

unfoldable pub Key-discrete : Discrete Key
Key-discrete = hlevel ℕ_discrete

-- `none` is a parameter that the cache does not take.
unfoldable pub key_of : Value → Option Key
key_of (Value.chars v) = some (Key.str v)
key_of (Value.int v) = some (Key.i64 v)
key_of (Value.ip_addr v) = some (Key.ip v)
key_of (Value.big_uint v) = some (Key.biguint v)
key_of (Value.bool v) = some (Key.bool v)
key_of (Value.float v) = some (Key.float v)
key_of (Value.symbol v) = some (Key.text v)
key_of (Value.time v) = some (Key.text v)
key_of (Value.hex v) = some (Key.text v)
key_of (Value.ip_net v) = some (Key.text v)
key_of (Value.domain v) = some (Key.text v)
key_of (Value.url v) = some (Key.text v)
key_of (Value.email v) = some (Key.text v)
key_of (Value.id_card v) = some (Key.text v)
key_of (Value.mobile_phone v) = some (Key.text v)
key_of _ = none

module _ {C : Type 0} where
  unfoldable pub index_of : FieldQueryCache C → Key → Option ℕ
  index_of c (Key.str v) = find Bytes-discrete v c.str_idx
  index_of c (Key.i64 v) = find ℤ-discrete v c.i64_idx
  index_of c (Key.ip v) = find IpAddr-discrete v c.ip_idx
  index_of c (Key.biguint v) = find ℕ_discrete v c.biguint_idx
  index_of c (Key.bool v) = find Bool-discrete v c.bool_idx
  index_of c (Key.float v) = find ℕ_discrete v c.float_idx
  index_of c (Key.text v) = find Bytes-discrete v c.text_idx

  -- The cache with the next number under the key.
  unfoldable pub add_key : FieldQueryCache C → Key → FieldQueryCache C
  add_key c (Key.str v) = record c {
    str_idx = insert Bytes-discrete v (c.idx_num + 1) c.str_idx;
    idx_num = c.idx_num + 1;
  }
  add_key c (Key.i64 v) = record c {
    i64_idx = insert ℤ-discrete v (c.idx_num + 1) c.i64_idx;
    idx_num = c.idx_num + 1;
  }
  add_key c (Key.ip v) = record c {
    ip_idx = insert IpAddr-discrete v (c.idx_num + 1) c.ip_idx;
    idx_num = c.idx_num + 1;
  }
  add_key c (Key.biguint v) = record c {
    biguint_idx = insert ℕ_discrete v (c.idx_num + 1) c.biguint_idx;
    idx_num = c.idx_num + 1;
  }
  add_key c (Key.bool v) = record c {
    bool_idx = insert Bool-discrete v (c.idx_num + 1) c.bool_idx;
    idx_num = c.idx_num + 1;
  }
  add_key c (Key.float v) = record c {
    float_idx = insert ℕ_discrete v (c.idx_num + 1) c.float_idx;
    idx_num = c.idx_num + 1;
  }
  add_key c (Key.text v) = record c {
    text_idx = insert Bytes-discrete v (c.idx_num + 1) c.text_idx;
    idx_num = c.idx_num + 1;
  }

  -- What one call does to a key: it finds the number, or gives the next one.
  unfoldable pub up_key : FieldQueryCache C → Key → FieldQueryCache C × ℕ
  up_key c k = elim (index_of c k) [ some i ↦ (c, i) | none ↦ (add_key c k, c.idx_num + 1) ]

  pub get_idx-none : (c : FieldQueryCache C) (v : Value) → key_of v ≡ none → get_idx c v ≡ none
  unfolding get_idx key_of
  get_idx-none c Value.null h = refl
  get_idx-none c _ h = ground arith

  pub get_idx-some :
      (c : FieldQueryCache C) (v : Value) (k : Key) → key_of v ≡ some k → get_idx c v ≡ index_of c k
  unfolding get_idx key_of index_of
  get_idx-some c Value.null k h = cc
  get_idx-some c _ k h = ground arith

  pub up_value-none :
      (c : FieldQueryCache C) (v : Value) → key_of v ≡ none → up_value c v ≡ (c, none)
  unfolding up_value key_of
  up_value-none c Value.null h = refl
  up_value-none c _ h = ground arith

  up_value-key_of :
      (c : FieldQueryCache C) (v : Value)
      → up_value c v
        ≡ elim (key_of v) [ none ↦ (c, none) | some k ↦ ((up_key c k).0, some (up_key c k).1) ]
  unfolding up_value key_of up_key up_table index_of add_key
  up_value-key_of c (Value.chars v) = ground arith
  up_value-key_of c _ = ground arith

  pub add_key_self :
      (c : FieldQueryCache C) (k : Key) → index_of (add_key c k) k ≡ some (c.idx_num + 1)
  unfolding add_key index_of
  add_key_self c (Key.str v) = find-insert_self _ v _ _
  add_key_self c (Key.i64 v) = find-insert_self _ v _ _
  add_key_self c (Key.ip v) = find-insert_self _ v _ _
  add_key_self c (Key.biguint v) = find-insert_self _ v _ _
  add_key_self c (Key.bool v) = find-insert_self _ v _ _
  add_key_self c (Key.float v) = find-insert_self _ v _ _
  add_key_self c (Key.text v) = find-insert_self _ v _ _

  pub add_key_ne :
      (c : FieldQueryCache C) (k q : Key) → k ≢ q → index_of (add_key c k) q ≡ index_of c q
  unfolding add_key index_of
  add_key_ne c (Key.str v) (Key.str w) h = find-insert_ne _ v w _ _ (λ e. h (ap Key.str e))
  add_key_ne c (Key.i64 v) (Key.i64 w) h = find-insert_ne _ v w _ _ (λ e. h (ap Key.i64 e))
  add_key_ne c (Key.ip v) (Key.ip w) h = find-insert_ne _ v w _ _ (λ e. h (ap Key.ip e))
  add_key_ne c (Key.biguint v) (Key.biguint w) h =
      find-insert_ne _ v w _ _ (λ e. h (ap Key.biguint e))
  add_key_ne c (Key.bool v) (Key.bool w) h = find-insert_ne _ v w _ _ (λ e. h (ap Key.bool e))
  add_key_ne c (Key.float v) (Key.float w) h = find-insert_ne _ v w _ _ (λ e. h (ap Key.float e))
  add_key_ne c (Key.text v) (Key.text w) h = find-insert_ne _ v w _ _ (λ e. h (ap Key.text e))
  add_key_ne c _ _ h = refl

  pub add_key_rest :
      (c : FieldQueryCache C) (k : Key)
      → ((add_key c k).idx_num ≡ c.idx_num + 1)
        × ((add_key c k).cache_data ≡ c.cache_data)
        × ((add_key c k).generations ≡ c.generations)
  unfolding add_key
  add_key_rest c (Key.str v) = (refl, refl, refl)
  add_key_rest c _ = (refl, refl, refl)

  -- A taken parameter: the cache is unchanged if the key has its number, else the key is added.
  pub up_value-some :
      (c : FieldQueryCache C) (v : Value) (k : Key)
      → key_of v ≡ some k
      → up_value c v ≡ ((up_key c k).0, some (up_key c k).1)
  up_value-some c v k h = rw (up_value-key_of c v, h) refl
