-- ===== src/Engine/Money.antt =====
-- internal/services/order_engine.go: the balance and the admission of orders.
use upcow.Base.{
  ℕ, String, true, false, none, some, [], ◌∷◌, ◌≡◌, refl, arith, Bool-cases, Option-cases, ◌⊎◌, inl,
  inr,
}
use upcow.Base.Int.{ℤ, eq_int}
use upcow.Base.Dict.{lookup, lookup-insert}
use upcow.Base.Float.{Float}
use upcow.Engine.State.{
  Engine, Env, Outcome, place_order, update_order, reply, start_place, EngineError, stale,
  insufficient_balance, count_error,
}
use upcow.Engine.Place.{order_amount, validate_place_order, lacks_balance, reserved, as_pending}
use upcow.Engine.Dispatch.{handle_command}
use upcow.Engine.Update.{handle_update_order, update_current}
use upcow.Engine.Code.{place_code, failure_code}

eq_int_refl : (a : ℤ) → eq_int a a ≡ true
eq_int_refl a = ground arith

module _ ⦃fl : Float⦄ where
  open fl use {F, add_f, sub_f, lt_f}

  -- An order that passes the checks.
  abbrev pub IsAdmissible : Engine → ℕ → Type 0
  IsAdmissible e r =
      (validate_place_order e (some (e.heap r)) ≡ none) × (lacks_balance e (e.heap r) ≡ false)

  -- No map, balance or order changed, nothing was started, and the caller was told an error.
  abbrev pub IsRefused : Engine → Outcome → Type 0
  IsRefused e (e', out) =
      ((e' ≡ e) ⊎ (e' ≡ count_error e)) × ((err : EngineError) × (out ≡ reply (some err) ∷ []))

  -- The order is pending, both maps hold it under its id, its cost is set aside, and exactly one
  -- operation was started.
  abbrev pub IsAccepted : Env → Engine → ℤ → ℕ → Outcome → Type 0
  IsAccepted env e gen r (e', out) =
      (gen ≡ e.generation)
      × IsAdmissible e r
      × (e'.heap r ≡ as_pending env (e.heap r))
      × (lookup (e'.heap r).order_id e'.open_orders ≡ some r)
      × (lookup (e'.heap r).order_id e'.order_store ≡ some r)
      × (e'.balance ≡ reserved e (e.heap r))
      × (out ≡ start_place r gen ∷ [])

  eq_int-true : (a b : ℤ) → eq_int a b ≡ true → a ≡ b
  eq_int-true a b h = ground arith

  accepted :
      (env : Env) (e : Engine) (gen : ℤ) (r : ℕ)
      → eq_int gen e.generation ≡ true
      → IsAdmissible e r
      → IsAccepted env e gen r (handle_command env e (place_order gen (some r)))
  unfolding handle_command place_code
  accepted env e gen r h a = ground (
    arith,
    lookup-insert (as_pending env (e.heap r)).order_id (as_pending env (e.heap r)).order_id r
        e.open_orders,
    lookup-insert (as_pending env (e.heap r)).order_id (as_pending env (e.heap r)).order_id r
        e.order_store,
    eq_int-true gen e.generation,
  )

  IsRefused-stale :
      (env : Env) (e : Engine) (gen : ℤ) (r : ℕ)
      → eq_int gen e.generation ≡ false
      → IsRefused e (handle_command env e (place_order gen (some r)))
  unfolding handle_command place_code
  IsRefused-stale env e gen r h = rw h (inr refl, (stale gen e.generation, refl))

  IsRefused-invalid :
      (env : Env) (e : Engine) (gen : ℤ) (r : ℕ) (err : EngineError)
      → eq_int gen e.generation ≡ true
      → validate_place_order e (some (e.heap r)) ≡ some err
      → IsRefused e (handle_command env e (place_order gen (some r)))
  unfolding handle_command place_code
  IsRefused-invalid env e gen r err h v = rw (h, v, place_code) (inl refl, (err, refl))

  IsRefused-poor :
      (env : Env) (e : Engine) (gen : ℤ) (r : ℕ)
      → eq_int gen e.generation ≡ true
      → validate_place_order e (some (e.heap r)) ≡ none
      → lacks_balance e (e.heap r) ≡ true
      → IsRefused e (handle_command env e (place_order gen (some r)))
  unfolding handle_command place_code
  IsRefused-poor env e gen r h v l = rw (h, v, l) (inl refl, (insufficient_balance, refl))

  -- A command to place an order, not nil, is refused with an error and changes nothing but the
  -- count of errors, or it has the engine's generation and passes every check, and then the order
  -- is pending and stands in both maps under its id, the balance is what the reserve leaves, and
  -- one operation is started.
  pub place_order_cases :
      (env : Env) (e : Engine) (gen : ℤ) (r : ℕ)
      → IsRefused e (handle_command env e (place_order gen (some r)))
        ⊎ IsAccepted env e gen r (handle_command env e (place_order gen (some r)))
  place_order_cases env e gen r = elim (Bool-cases (eq_int gen e.generation)) [
    | inr old ↦ inl (IsRefused-stale env e gen r old)
    | inl now ↦ elim (Option-cases (validate_place_order e (some (e.heap r)))) [
      | inr (err, bad) ↦ inl (IsRefused-invalid env e gen r err now bad)
      | inl good ↦ elim (Bool-cases (lacks_balance e (e.heap r))) [
        | inl poor ↦ inl (IsRefused-poor env e gen r now good poor)
        | inr rich ↦ inr (accepted env e gen r now (good, rich))
      ]
    ]
  ]

  -- The engine once the order `r` was accepted, and once the operation came back with an error.
  abbrev pub placed : Env → Engine → ℕ → Engine
  placed env e r = (handle_command env e (place_order e.generation (some r))).0

  abbrev pub failed_after : Env → Env → Engine → ℕ → String → String → String → Engine
  failed_after env later e r id msg original =
      (handle_command later (placed env e r)
        (update_order id e.generation (some r) (some msg) original)).0

  -- When an order that passes every check is placed and the next command says that its operation
  -- failed, the balance is then what the reserve left and the order's whole amount, on every side
  -- and in either mode.
  pub failure_credits :
      (env later : Env) (e : Engine) (r : ℕ) (id msg original : String)
      → IsAdmissible e r
      → (failed_after env later e r id msg original).balance
        ≡ add_f (reserved e (e.heap r)) (order_amount (e.heap r))
  unfolding handle_command place_code failure_code handle_update_order update_current order_amount
  failure_credits env later e r id msg original a = ground (
    arith,
    eq_int_refl e.generation,
    lookup-insert (as_pending env (e.heap r)).order_id (as_pending env (e.heap r)).order_id r
        e.open_orders,
  )
