-- ===== src/Cache/Tests.antt =====
-- pkg/cache/cache.go: a price that is set, the cleanup, and another key.
use upcow.Base.{ℕ, String, false, [], ◌∷◌, none, some, ◌≡◌, refl, arith, List}
use upcow.Base.Text.{String_discrete}
use upcow.Base.Dict.{lookup, insert, delete}
use upcow.Cache.{
  InMemoryCache, get, set, delete_key, new_in_memory_cache, new_price_cache, set_price,
}
use upcow.Cache.Expiry.{Op, sets, deletes, cleans, apply_all, get-set}

abbrev prices : InMemoryCache ℕ
prices = set_price 1000 "yes" 44 new_price_cache

abbrev between : List (Op ℕ)
between = sets 1500 "no" 56 0 ∷ cleans 2000 ∷ deletes "no" ∷ []

get-set_example : get 3000 "yes" (apply_all between prices) ≡ (some 44, false)
unfolding new_price_cache new_in_memory_cache set_price set
get-set_example =
    get-set 1000 3000 300_000_000_000 "yes" 44 between new_price_cache
      ((λ e. other e), (omega arith, ((λ e. other e), tt))) (omega arith)
  where
    other : ◌≡◌ {A = String} "no" "yes" → ⊥
    other e = absurd (cc)

-- The deletion that a `Get` of an expired value starts comes after the value is set again.
fresh_value_deleted :
    get {V = ℕ} 2000 "yes"
      (delete_key "yes" (set 1500 "yes" 45 1000 (set 0 "yes" 44 1000 (new_in_memory_cache 1000))))
    ≡ (none, false)
unfolding get set delete_key new_in_memory_cache lookup insert delete String_discrete
fresh_value_deleted = refl
