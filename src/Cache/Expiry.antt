-- ===== src/Cache/Expiry.antt =====
-- pkg/cache/cache.go: a value that is set is found until it expires.
use upcow.Base.{
  ℕ, String, true, false, ◌+◌, ◌≤◌, ◌==◌, ◌≢◌, if◌then◌else◌, List, [], ◌∷◌, some, ◌≡◌, refl, ◌∙◌,
  arith, if_pos, if_neg,
}
use upcow.Base.Text.{String_discrete}
use upcow.Base.Dict.{Dict, lookup, lookup-insert, lookup-delete}
use upcow.Cache.{CacheItem, InMemoryCache, get, set, delete_key, clear, unexpired, cleanup}

module _ {ℓ} (V : Type ℓ) where
  -- What is done to a cache; a `Get` changes nothing itself.
  pub data Op : Type ℓ where
    sets : ℕ → String → V → ℕ → Op
    deletes : String → Op
    clears : Op
    cleans : ℕ → Op

module _ {ℓ} {V : Type ℓ} where
  abbrev pub apply : Op V → InMemoryCache V → InMemoryCache V
  apply (sets now key value ttl) c = set now key value ttl c
  apply (deletes key) c = delete_key key c
  apply clears c = clear c
  apply (cleans now) c = cleanup now c

  unfoldable pub apply_all : List (Op V) → InMemoryCache V → InMemoryCache V
  unfolding set delete_key clear cleanup
  apply_all [] c = c
  apply_all (x ∷ xs) c = apply_all xs (apply x c)

  -- The step leaves the key alone, and the clock is not past `exp`.
  abbrev pub Spares : String → ℕ → Op V → Type 0
  Spares key exp (sets now other value ttl) = other ≢ key
  Spares key exp (deletes other) = other ≢ key
  Spares key exp clears = true ≡ false
  Spares key exp (cleans now) = now ≤ exp

  abbrev pub SpareAll : String → ℕ → List (Op V) → Type 0
  SpareAll key exp [] = Unit
  SpareAll key exp (x ∷ xs) = Spares key exp x × SpareAll key exp xs

  lookup-unexpired :
      (now : ℕ) (key : String) (i : CacheItem V) (m : Dict (CacheItem V))
      → now ≤ i.expires_at
      → lookup key m ≡ some i
      → lookup key (unexpired now m) ≡ some i
  unfolding lookup unexpired
  lookup-unexpired now key i [] h e = absurd (cc)
  lookup-unexpired now key i ((k, j) ∷ m) h e = ground (arith, h, e, lookup-unexpired now key i m h)

  apply-lookup :
      (x : Op V) (key : String) (i : CacheItem V) (c : InMemoryCache V)
      → Spares key i.expires_at x
      → lookup key c.items ≡ some i
      → lookup key (apply x c).items ≡ some i
  unfolding set delete_key clear cleanup
  apply-lookup (sets now other value ttl) key i c s e =
      lookup-insert key other _ c.items ∙ if_neg (String_discrete other key) s _ _ ∙ e
  apply-lookup (deletes other) key i c s e =
      lookup-delete key other c.items ∙ if_neg (String_discrete other key) s _ _ ∙ e
  apply-lookup clears key i c s e = absurd (cc)
  apply-lookup (cleans now) key i c s e = lookup-unexpired now key i c.items s e

  apply_all-lookup :
      (xs : List (Op V)) (key : String) (i : CacheItem V) (c : InMemoryCache V)
      → SpareAll key i.expires_at xs
      → lookup key c.items ≡ some i
      → lookup key (apply_all xs c).items ≡ some i
  unfolding apply_all
  apply_all-lookup [] key i c s e = e
  apply_all-lookup (x ∷ xs) key i c s e =
      apply_all-lookup xs key i (apply x c) s.1 (apply-lookup x key i c s.0 e)

  -- A value that is set at `now` is what Get finds up to the time to live after that, which is the
  -- cache's own where it is given as 0, whatever is set, deleted or cleaned up in between, if no
  -- step sets or deletes the key or clears the cache, and no cleanup comes after that time.
  pub get-set :
      (now later ttl : ℕ) (key : String) (value : V) (xs : List (Op V)) (c : InMemoryCache V)
      → SpareAll key (now + (if ttl == 0 then c.default_ttl else ttl)) xs
      → later ≤ now + (if ttl == 0 then c.default_ttl else ttl)
      → get later key (apply_all xs (set now key value ttl c)) ≡ (some value, false)
  unfolding get set
  get-set now later ttl key value xs c s h =
      let i : CacheItem V = record {
        value = value;
        expires_at = now + (if ttl == 0 then c.default_ttl else ttl);
      } in
      let e =
        apply_all-lookup xs key i (set now key value ttl c) s
          (lookup-insert key key i c.items ∙ if_pos (String_discrete key key) refl _ _) in
      ground (arith, h, e)
