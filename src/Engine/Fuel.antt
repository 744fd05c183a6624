-- ===== src/Engine/Fuel.antt =====
-- internal/services/order_engine.go: the calls that handleProcessTrade makes of itself.
use upcow.Base.{
  length, ℕ, zero, suc, true, is_some, List, [], ◌∷◌, ◌++◌, ◌≡◌, ◌<◌, ◌≤◌, refl, arith, ◌∙◌, ap,
  sym, inl, inr, Bool-cases, String,
}
use upcow.Base.Int.{ℤ, eq_int}
use upcow.Base.Dict.{Dict, lookup, delete, AllIn, AllIn-map, AllIn-delete}
use upcow.Base.Float.{Float}
use upcow.Domain.Trade.{Trade}
use upcow.Engine.State.{Engine, Env, Outcome}
use upcow.Engine.Match.{match_trade}
use upcow.Engine.Trades.{
  process_fuel, process_pending_trades, ready_trades, replay, finish_trade, is_seen, mark_seen,
}
use upcow.Engine.Frame.{booked, booked-pending, process_fuel-now}
use upcow.Engine.Pending.{finish_trade-pending}

pub eq_int_refl : (a : ℤ) → eq_int a a ≡ true
eq_int_refl a = ground arith

module _ {ℓ} {V : Type ℓ} where
  length-delete : (k : String) (m : Dict V) → length (delete k m) ≤ length m
  unfolding delete
  length-delete k [] = omega arith
  length-delete k ((j, v) ∷ m) = ground (arith, length-delete k m)

  length-delete_found :
      (k : String) (m : Dict V) → is_some (lookup k m) ≡ true → length (delete k m) < length m
  unfolding delete lookup
  length-delete_found k [] h = absurd (cc)
  length-delete_found k ((j, v) ∷ m) h = ground (arith, length-delete k m, length-delete_found k m)

module _ ⦃fl : Float⦄ where
  -- The map holds each trade under its id.
  abbrev pub IsKeyed : Dict Trade → Type 0
  IsKeyed m = AllIn (λ k t. t.id ≡ k) m

  -- No more than `n` trades, each under its id.
  pub record Few (n : ℕ) (m : Dict Trade) : Type 0 where
    pub keyed : IsKeyed m
    pub few : length m ≤ n

  abbrev pub Within : ℕ → Engine → Type 0
  Within n e = Few n e.pending_trades

  abbrev pub without : Engine → Trade → Engine
  without e t = record e { pending_trades = delete t.id e.pending_trades }

  IsKeyed-delete : (k : String) (m : Dict Trade) → IsKeyed m → IsKeyed (delete k m)
  IsKeyed-delete k m a = AllIn-delete _ k m (AllIn-map _ _ (λ j t p n. p) m a)

  delete-Few : (n : ℕ) (k : String) (m : Dict Trade) → Few n m → Few n (delete k m)
  delete-Few n k m w = record {
    keyed = IsKeyed-delete k m w.keyed;
    few = omega (arith, w.few, length-delete k m);
  }

  pub finish_trade-same :
      (r : ℕ) (o : Outcome) → (finish_trade r o).0.pending_trades ≡ o.0.pending_trades
  finish_trade-same r (e, out) = finish_trade-pending r e out

  -- What holds of the pending trades, and of them with one deleted, holds after a trade is handled.
  module _ (P : Dict Trade → Type 0)
      (closed : (k : String) (m : Dict Trade) → P m → P (delete k m)) where
    pub replay-keeps :
        (h : Engine → Trade → Outcome)
        → ((e : Engine) (t : Trade) → P e.pending_trades → P (h e t).0.pending_trades)
        → (ts : List Trade) (e : Engine) → P e.pending_trades
        → P (replay h e ts).0.pending_trades
    unfolding replay
    replay-keeps h keeps [] e p = p
    replay-keeps h keeps (t ∷ ts) e p =
        replay-keeps h keeps ts (h (without e t) t).0
          (keeps (without e t) t (closed t.id e.pending_trades p))

    pub process_fuel-keeps :
        (f : ℕ) (env : Env) (e : Engine) (t : Trade)
        → P e.pending_trades
        → P (process_fuel f env e t).0.pending_trades
    unfolding process_fuel process_pending_trades
    process_fuel-keeps zero env e t p = p
    process_fuel-keeps (suc f) env e t p = elim (Bool-cases (is_seen e t)) [
      | inl seen ↦ rw seen p
      | inr fresh ↦
          rw (fresh, finish_trade-same)
            (replay-keeps (λ e' t'. process_fuel f env e' t') (process_fuel-keeps f env) _
              (booked env e t) (rw (booked-pending env e t) p))
    ]

  -- A handler that never adds a pending trade, and two that agree on few pending ones.
  abbrev Keeps : ℕ → (Engine → Trade → Outcome) → Type 0
  Keeps n h = (e : Engine) (t : Trade) → Within n e → Within n (h e t).0

  abbrev Agree : ℕ → (Engine → Trade → Outcome) → (Engine → Trade → Outcome) → Type 0
  Agree n h h' = (e : Engine) (t : Trade) → Within n e → h e t ≡ h' e t

  module _ (n : ℕ) (h h' : Engine → Trade → Outcome) (keeps : Keeps n h) where
    replay-Agree :
        Agree n h h' → (ts : List Trade) (e : Engine) → Within n e → replay h e ts ≡ replay h' e ts
    unfolding replay
    replay-Agree same [] e w = refl
    replay-Agree same (t ∷ ts) e w =
        let inside : Within n (without e t) = delete-Few n t.id e.pending_trades w in
        let o : Outcome = h (without e t) t in
        ap (λ (q : Outcome). (q.0, o.1 ++ q.1))
          (replay-Agree same ts o.0 (keeps (without e t) t inside))
        ∙ ap (λ (q : Outcome). ((replay h' q.0 ts).0, q.1 ++ (replay h' q.0 ts).1))
            (same (without e t) t inside)

  the_head : (x t : Trade) (xs ts : List Trade) → x ∷ xs ≡ t ∷ ts → x ≡ t
  the_head x t xs ts p = cc

  ready_trades-found :
      (e : Engine) (m : Dict Trade) (t : Trade) (ts : List Trade)
      → IsKeyed m
      → ready_trades e m ≡ t ∷ ts
      → is_some (lookup t.id m) ≡ true
  unfolding ready_trades lookup
  ready_trades-found e [] t ts a p = absurd (cc)
  ready_trades-found e ((k, x) ∷ m) t ts a p =
      elim (Bool-cases (is_some (lookup x.order_id e.order_store))) [
        | inl ready ↦ ground (arith, a.0, the_head x t _ ts (rw ready at p))
        | inr waits ↦ ground (arith, ready_trades-found e m t ts a.1 (rw waits at p))
      ]

  -- A pending trade that is replayed leaves one fewer.
  first-Within :
      (n : ℕ) (e : Engine) (t : Trade)
      → Within (suc n) e
      → is_some (lookup t.id e.pending_trades) ≡ true
      → Within n (without e t)
  first-Within n e t w h = record {
    keyed = IsKeyed-delete t.id e.pending_trades w.keyed;
    few = omega (arith, w.few, length-delete_found t.id e.pending_trades h);
  }

  -- So the calls that replay makes need to agree on one fewer only.
  replay_ready-Agree :
      (n : ℕ) (h h' : Engine → Trade → Outcome) (e : Engine) (ts : List Trade)
      → Keeps n h
      → Agree n h h'
      → Within (suc n) e
      → ready_trades e e.pending_trades ≡ ts
      → replay h e ts ≡ replay h' e ts
  unfolding replay
  replay_ready-Agree n h h' e [] keeps same w p = refl
  replay_ready-Agree n h h' e (t ∷ ts) keeps same w p =
      let inside : Within n (without e t) =
        first-Within n e t w (ready_trades-found e e.pending_trades t ts w.keyed p) in
      let o : Outcome = h (without e t) t in
      ap (λ (q : Outcome). (q.0, o.1 ++ q.1))
        (replay-Agree n h h' keeps same ts o.0 (keeps (without e t) t inside))
      ∙ ap (λ (q : Outcome). ((replay h' q.0 ts).0, q.1 ++ (replay h' q.0 ts).1))
          (same (without e t) t inside)

  booked-Within :
      (n : ℕ) (env : Env) (e : Engine) (t : Trade) → Within n e → Within n (booked env e t)
  booked-Within n env e t w = record {
    keyed = rw (booked-pending env e t) w.keyed;
    few = rw (booked-pending env e t) w.few;
  }

  process_fuel-Keeps : (f n : ℕ) (env : Env) → Keeps n (λ e t. process_fuel f env e t)
  process_fuel-Keeps f n env e t w = process_fuel-keeps (Few n) (delete-Few n) f env e t w

  none_pending : (e : Engine) → Within 0 e → e.pending_trades ≡ []
  none_pending e w = no_entries e.pending_trades w.few
    where
      no_entries : (m : Dict Trade) → length m ≤ 0 → m ≡ []
      no_entries [] h = refl
      no_entries (x ∷ m) h = absurd (omega (arith, h))

  pub fuel_apart :
      (n f g : ℕ) (env : Env)
      → n ≤ f
      → n ≤ g
      → Agree n (λ e t. process_fuel (suc f) env e t) (λ e t. process_fuel (suc g) env e t)
  unfolding process_fuel process_pending_trades
  fuel_apart zero f g env b d e t w =
      process_fuel-now f env e t (none_pending e w)
      ∙ sym (process_fuel-now g env e t (none_pending e w))
  fuel_apart (suc n) zero g env b d e t w = absurd (omega (arith, b))
  fuel_apart (suc n) (suc f) zero env b d e t w = absurd (omega (arith, d))
  fuel_apart (suc n) (suc f) (suc g) env b d e t w = elim (Bool-cases (is_seen e t)) [
    | inl seen ↦ rw seen refl
    | inr fresh ↦ rw fresh (
        ap (finish_trade (match_trade (mark_seen e t) t).order) (
          replay_ready-Agree n (λ e' t'. process_fuel (suc f) env e' t')
            (λ e' t'. process_fuel (suc g) env e' t') (booked env e t) _
            (process_fuel-Keeps (suc f) n env)
            (fuel_apart n f g env (omega (arith, b)) (omega (arith, d)))
            (booked-Within (suc n) env e t w) refl))
  ]
