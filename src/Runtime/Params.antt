-- ===== src/Runtime/Params.antt =====
-- `src/runtime.rs`: the parameters of a query as fields, and the keys of the result cache.
use wp_knowledge.Base.{ℕ, ◌≡◌, refl, Bool, List, [], ◌∷◌, ◌++◌, map, Bytes, DataField}
use wp_knowledge.Base.Model.{ℤ, IpAddr, Value}
use wp_knowledge.Runtime.Types.{
  QueryMode, QueryModeTag, QueryValue, QueryParam, QueryRequest, CachePolicy, ProviderHandle,
  ResultCacheKey, query_mode_tag,
}

-- What is written to a hasher, by the type it is written at.
pub data HashWrite : Type 0 where
  u8 u64 : ℕ → HashWrite
  i64 : ℤ → HashWrite
  boolean : Bool → HashWrite
  ip : IpAddr → HashWrite
  decimal : ℕ → HashWrite
  str : Bytes → HashWrite

unfoldable pub hash_query_value : QueryValue → List HashWrite
hash_query_value QueryValue.null = HashWrite.u8 0 ∷ []
hash_query_value (QueryValue.bool v) = HashWrite.u8 1 ∷ HashWrite.boolean v ∷ []
hash_query_value (QueryValue.int v) = HashWrite.u8 2 ∷ HashWrite.i64 v ∷ []
hash_query_value (QueryValue.float v) = HashWrite.u8 3 ∷ HashWrite.u64 v ∷ []
hash_query_value (QueryValue.text v) = HashWrite.u8 4 ∷ HashWrite.str v ∷ []

unfoldable pub hash_field_value : Value → List HashWrite
hash_field_value Value.null = HashWrite.u8 0 ∷ []
hash_field_value Value.ignore = HashWrite.u8 0 ∷ []
hash_field_value (Value.bool v) = HashWrite.u8 1 ∷ HashWrite.boolean v ∷ []
hash_field_value (Value.int v) = HashWrite.u8 2 ∷ HashWrite.i64 v ∷ []
hash_field_value (Value.float v) = HashWrite.u8 3 ∷ HashWrite.u64 v ∷ []
hash_field_value (Value.chars v) = HashWrite.u8 4 ∷ HashWrite.str v ∷ []
hash_field_value (Value.symbol v) = HashWrite.u8 5 ∷ HashWrite.str v ∷ []
hash_field_value (Value.time v) = HashWrite.u8 6 ∷ HashWrite.str v ∷ []
hash_field_value (Value.hex v) = HashWrite.u8 7 ∷ HashWrite.str v ∷ []
hash_field_value (Value.ip_net v) = HashWrite.u8 8 ∷ HashWrite.str v ∷ []
hash_field_value (Value.ip_addr v) = HashWrite.u8 9 ∷ HashWrite.ip v ∷ []
hash_field_value (Value.obj v) = HashWrite.u8 10 ∷ HashWrite.str v ∷ []
hash_field_value (Value.array v) = HashWrite.u8 11 ∷ HashWrite.str v ∷ []
hash_field_value (Value.domain v) = HashWrite.u8 12 ∷ HashWrite.str v ∷ []
hash_field_value (Value.url v) = HashWrite.u8 13 ∷ HashWrite.str v ∷ []
hash_field_value (Value.email v) = HashWrite.u8 14 ∷ HashWrite.str v ∷ []
hash_field_value (Value.id_card v) = HashWrite.u8 15 ∷ HashWrite.str v ∷ []
hash_field_value (Value.mobile_phone v) = HashWrite.u8 16 ∷ HashWrite.str v ∷ []
hash_field_value (Value.big_uint v) = HashWrite.u8 17 ∷ HashWrite.decimal v ∷ []

-- The writes of the loop over the parameters.
unfoldable pub params_writes : List QueryParam → List HashWrite
unfolding hash_query_value
params_writes [] = []
params_writes (p ∷ ps) = HashWrite.str p.name ∷ hash_query_value p.value ++ params_writes ps

unfoldable pub field_params_writes : List DataField → List HashWrite
unfolding hash_field_value
field_params_writes [] = []
field_params_writes (f ∷ fs) =
    HashWrite.str f.name ∷ hash_field_value f.value ++ field_params_writes fs

unfoldable pub value_of_param : QueryValue → Value
value_of_param QueryValue.null = Value.null
value_of_param (QueryValue.bool v) = Value.bool v
value_of_param (QueryValue.int v) = Value.int v
value_of_param (QueryValue.float v) = Value.float v
value_of_param (QueryValue.text v) = Value.chars v

unfoldable pub params_to_fields : List QueryParam → List DataField
unfolding value_of_param
params_to_fields = map (λ p. record { name = p.name; value = value_of_param p.value })

-- The texts of an address and of a big number are the libraries'.
module _ (ip_text : IpAddr → Bytes) (decimal_text : ℕ → Bytes) where
  unfoldable pub param_value : Value → QueryValue
  param_value Value.null = QueryValue.null
  param_value Value.ignore = QueryValue.null
  param_value (Value.bool v) = QueryValue.bool v
  param_value (Value.int v) = QueryValue.int v
  param_value (Value.float v) = QueryValue.float v
  param_value (Value.chars v) = QueryValue.text v
  param_value (Value.symbol v) = QueryValue.text v
  param_value (Value.time v) = QueryValue.text v
  param_value (Value.hex v) = QueryValue.text v
  param_value (Value.ip_net v) = QueryValue.text v
  param_value (Value.ip_addr v) = QueryValue.text (ip_text v)
  param_value (Value.obj v) = QueryValue.text v
  param_value (Value.array v) = QueryValue.text v
  param_value (Value.domain v) = QueryValue.text v
  param_value (Value.url v) = QueryValue.text v
  param_value (Value.email v) = QueryValue.text v
  param_value (Value.id_card v) = QueryValue.text v
  param_value (Value.mobile_phone v) = QueryValue.text v
  param_value (Value.big_uint v) = QueryValue.text (decimal_text v)

  unfoldable pub fields_to_params : List DataField → List QueryParam
  unfolding param_value
  fields_to_params = map (λ f. record { name = f.name; value = param_value f.value })

-- `DefaultHasher` is a function of what is written to it.
module _ (finish : List HashWrite → ℕ) where
  unfoldable pub stable_hash : Bytes → ℕ
  stable_hash value = finish (HashWrite.str value ∷ [])

  unfoldable pub stable_params_hash : List QueryParam → ℕ
  unfolding params_writes
  stable_params_hash params = finish (params_writes params)

  unfoldable pub stable_field_params_hash : List DataField → ℕ
  unfolding field_params_writes
  stable_field_params_hash params = finish (field_params_writes params)

  unfoldable pub result_cache_key : {W : Type 0} → ProviderHandle W → QueryRequest → ResultCacheKey
  unfolding stable_hash stable_params_hash query_mode_tag
  result_cache_key handle req = record {
    datasource_id = handle.datasource_id;
    generation = handle.generation;
    query_hash = stable_hash req.sql;
    params_hash = stable_params_hash req.params;
    mode = query_mode_tag req.mode;
  }

  unfoldable pub result_cache_key_fields :
      {W : Type 0} → ProviderHandle W → Bytes → List DataField → QueryModeTag → ResultCacheKey
  unfolding stable_hash stable_field_params_hash
  result_cache_key_fields handle sql params mode = record {
    datasource_id = handle.datasource_id;
    generation = handle.generation;
    query_hash = stable_hash sql;
    params_hash = stable_field_params_hash params;
    mode = mode;
  }

hash-value_of_param : (v : QueryValue) → hash_field_value (value_of_param v) ≡ hash_query_value v
unfolding value_of_param hash_field_value hash_query_value
hash-value_of_param QueryValue.null = refl
hash-value_of_param (QueryValue.bool v) = refl
hash-value_of_param (QueryValue.int v) = refl
hash-value_of_param (QueryValue.float v) = refl
hash-value_of_param (QueryValue.text v) = refl

writes-params_to_fields :
    (ps : List QueryParam) → field_params_writes (params_to_fields ps) ≡ params_writes ps
unfolding params_to_fields field_params_writes params_writes
writes-params_to_fields [] = refl
writes-params_to_fields (p ∷ ps) = rw (hash-value_of_param p.value, writes-params_to_fields ps) refl

-- A first-row request and the query with its parameters made fields have one cache key, so each
-- finds what the other stored.
pub result_cache_key-fields :
    {W : Type 0} (finish : List HashWrite → ℕ) (handle : ProviderHandle W) (sql : Bytes)
    (ps : List QueryParam) (policy : CachePolicy)
    → result_cache_key finish handle
        (record { sql = sql; params = ps; mode = QueryMode.first_row; cache_policy = policy })
      ≡ result_cache_key_fields finish handle sql (params_to_fields ps) QueryModeTag.first_row
result_cache_key-fields finish handle sql ps policy =
    unfold result_cache_key result_cache_key_fields query_mode_tag stable_params_hash
      stable_field_params_hash in
    rw (writes-params_to_fields ps) refl

value-round :
    (ip_text : IpAddr → Bytes) (decimal_text : ℕ → Bytes) (v : QueryValue)
    → param_value ip_text decimal_text (value_of_param v) ≡ v
unfolding param_value value_of_param
value-round ip_text decimal_text QueryValue.null = refl
value-round ip_text decimal_text (QueryValue.bool v) = refl
value-round ip_text decimal_text (QueryValue.int v) = refl
value-round ip_text decimal_text (QueryValue.float v) = refl
value-round ip_text decimal_text (QueryValue.text v) = refl

-- Parameters that are made fields are the same parameters when they are read back.
pub fields_to_params-params_to_fields :
    (ip_text : IpAddr → Bytes) (decimal_text : ℕ → Bytes) (ps : List QueryParam)
    → fields_to_params ip_text decimal_text (params_to_fields ps) ≡ ps
unfolding fields_to_params params_to_fields
fields_to_params-params_to_fields ip_text decimal_text [] = refl
fields_to_params-params_to_fields ip_text decimal_text (p ∷ ps) =
    rw
      (
        value-round ip_text decimal_text p.value,
        fields_to_params-params_to_fields ip_text decimal_text ps,
      )
      refl
