-- ===== src/Cache.antt =====
-- pkg/cache/cache.go: the cache whose items expire, by text keys, and the two caches over it. A method holds the
-- lock, so it runs alone; the deletion that a `Get` of an expired item starts is a step of its own. Times are in
-- nanoseconds and not negative.
pub mod Expiry
pub mod Tests
use upcow.Base.{
  ℕ, String, Bool, true, false, ◌+◌, ◌*◌, ◌==◌, List, [], ◌∷◌, Option, none, some, if◌then◌else◌,
  ltb, length,
}
use upcow.Base.Dict.{Dict, lookup, insert, delete}

module _ {ℓ} (V : Type ℓ) where
  pub record CacheItem : Type ℓ where
    pub value : V
    pub expires_at : ℕ

  pub record InMemoryCache : Type ℓ where
    pub items : Dict CacheItem
    pub default_ttl : ℕ

module _ {ℓ} {V : Type ℓ} where
  unfoldable pub new_in_memory_cache : ℕ → InMemoryCache V
  new_in_memory_cache default_ttl = record { items = []; default_ttl = default_ttl }

  abbrev read_item : ℕ → Option (CacheItem V) → Option V × Bool
  read_item now none = (none, false)
  read_item now (some i) = if ltb i.expires_at now then (none, true) else (some i.value, false)

  -- The value, and whether a deletion of the key is started.
  unfoldable pub get : ℕ → String → InMemoryCache V → Option V × Bool
  get now key c = read_item now (lookup key c.items)

  unfoldable pub set : ℕ → String → V → ℕ → InMemoryCache V → InMemoryCache V
  set now key value ttl c = record c {
    items =
        insert key
          (record { value = value; expires_at = now + (if ttl == 0 then c.default_ttl else ttl) })
          c.items;
  }

  unfoldable pub delete_key : String → InMemoryCache V → InMemoryCache V
  delete_key key c = record c { items = delete key c.items }

  unfoldable pub clear : InMemoryCache V → InMemoryCache V
  clear c = record c { items = [] }

  unfoldable pub size : InMemoryCache V → ℕ
  size c = length c.items

  unfoldable pub unexpired : ℕ → Dict (CacheItem V) → Dict (CacheItem V)
  unexpired now [] = []
  unexpired now ((k, i) ∷ m) =
      let rest = unexpired now m in if ltb i.expires_at now then rest else (k, i) ∷ rest

  unfoldable pub cleanup : ℕ → InMemoryCache V → InMemoryCache V
  unfolding unexpired
  cleanup now c = record c { items = unexpired now c.items }

-- The two caches of the package, by their times to live.
unfoldable pub new_price_cache {ℓ} : {V : Type ℓ} → InMemoryCache V
unfolding new_in_memory_cache
new_price_cache = new_in_memory_cache 300_000_000_000

unfoldable pub set_price {ℓ} : {V : Type ℓ} → ℕ → String → V → InMemoryCache V → InMemoryCache V
unfolding set
set_price now asset_id price c = set now asset_id price 300_000_000_000 c

unfoldable pub new_order_status_cache : InMemoryCache Bool
unfolding new_in_memory_cache
new_order_status_cache = new_in_memory_cache 30_000_000_000

unfoldable pub set_order_status : ℕ → String → Bool → InMemoryCache Bool → InMemoryCache Bool
unfolding set
set_order_status now order_id is_open c = set now order_id is_open 30_000_000_000 c
