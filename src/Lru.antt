-- ===== src/Lru.antt =====
-- The `lru` crate's `LruCache`, as the repository calls it: an interface, since the crate is not
-- part of the repository. `iter` is listed by its keys. `peek` leaves the order of use alone, and
-- the code calls nothing else to read.
pub mod Bounded
use wp_knowledge.Base.{ℕ, ◌≡◌, ◌≢◌, ◌⊎◌, List, Option, none, some}

pub data Member {A : Type 0} (a : A) : List A → Type 0 where
  here : {xs : List A} → Member a (List.◌∷◌ a xs)
  there : {x : A} {xs : List A} → Member a xs → Member a (List.◌∷◌ x xs)

pub record Lru (K V : Type 0) : Type 1 where
  pub Cache : Type 0
  pub new : ℕ → Cache
  pub peek : K → Cache → Option V
  pub put : K → V → Cache → Cache
  pub pop : K → Cache → Cache
  pub clear : Cache → Cache
  pub keys : Cache → List K
  pub peek-new : (k : K) (n : ℕ) → peek k (new n) ≡ none
  pub peek-put_self : (k : K) (v : V) (c : Cache) → peek k (put k v c) ≡ some v
  -- A `put` may evict another entry.
  pub peek-put_ne :
      (k q : K) (v : V) (c : Cache)
      → k ≢ q
      → (peek q (put k v c) ≡ peek q c) ⊎ (peek q (put k v c) ≡ none)
  pub peek-pop_self : (k : K) (c : Cache) → peek k (pop k c) ≡ none
  pub peek-pop_ne : (k q : K) (c : Cache) → k ≢ q → peek q (pop k c) ≡ peek q c
  pub peek-clear : (k : K) (c : Cache) → peek k (clear c) ≡ none
  pub mem-keys : (k : K) (v : V) (c : Cache) → peek k c ≡ some v → Member k (keys c)
