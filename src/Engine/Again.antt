-- ===== src/Engine/Again.antt =====
-- internal/services/order_engine.go: the fields of an order under mergeOrderInPlace with the same news again.
use upcow.Base.{
  Bool, true, false, not, ◌&&◌, ◌≡◌, refl, arith, inl, inr, Bool-cases, Option, some, none, or_else,
  if◌then◌else◌,
}
use upcow.Base.Int.{pos, eq_int}
use upcow.Base.Float.{Float, IsOrdered}
use upcow.Domain.Market.{no_token, no_side, eq_token, eq_side, is_empty}
use upcow.Domain.Order.{Order, OrderStatus, Time, is_final_status}
use upcow.Engine.Merge.{
  merge_into_final, merge_fields, stronger, partial_status, converge, merge_order, raise_to,
}

module _ ⦃fl : Float⦄ where
  open fl use {F, zero_f, lt_f, le_f}

  pub raise_to_twice : (d s : F) → raise_to (raise_to d s) s ≡ raise_to d s
  raise_to_twice d s = ground arith

  pub or_else_twice {ℓ} : {A : Type ℓ} (a b : Option A) → or_else (or_else a b) b ≡ or_else a b
  or_else_twice none none = refl
  or_else_twice none (some b) = refl
  or_else_twice (some a) b = refl

  or_else_repeat {ℓ} : {A : Type ℓ} (a b : Option A) → or_else a (or_else a b) ≡ or_else a b
  or_else_repeat none b = refl
  or_else_repeat (some a) b = refl

  -- Where more was ordered than the news has executed, this stays so.
  pub raise_to_capped : IsOrdered fl → (d s x : F) → le_f x s ≡ true → lt_f (raise_to d s) x ≡ false
  raise_to_capped o d s x h = ground (arith, o.le_not_lt x s, o.lt_le_trans d x s)

  merge_into_final_twice :
      (dst src : Order) → merge_into_final (merge_into_final dst src) src ≡ merge_into_final dst src
  unfolding merge_into_final
  merge_into_final_twice dst src =
      rw (raise_to_twice dst.filled_size src.filled_size, or_else_twice dst.filled_at src.filled_at)
        refl

  pub or_else_later {ℓ} :
      {A : Type ℓ} (a b c : Option A)
      → or_else (or_else (or_else a b) c) b ≡ or_else (or_else a b) c
  or_else_later none none none = refl
  or_else_later none none (some c) = refl
  or_else_later none (some b) c = refl
  or_else_later (some a) b c = refl

  pick_twice {ℓ} :
      {A : Type ℓ} (t : A → Bool) (d s : A)
      → (if t (if t d then s else d) then s else (if t d then s else d)) ≡ (if t d then s else d)
  pick_twice t d s = elim (Bool-cases (t d)) [
    | inl holds ↦
        rw holds (elim (Bool-cases (t s)) [ inl again ↦ rw again refl | inr other ↦ rw other refl ])
    | inr fails ↦ rw (fails, fails) refl
  ]

  -- The merged order with another status, other times and another executed size.
  abbrev pub settled : Order → OrderStatus → Option Time → Option Time → F → Order
  settled f s at ct z = record f { status = s; filled_at = at; canceled_at = ct; filled_size = z }

  merge_fields_again :
      (dst src : Order) (s : OrderStatus) (at ct : Option Time) (z : F)
      → or_else at src.filled_at ≡ at
      → or_else ct src.canceled_at ≡ ct
      → raise_to z src.filled_size ≡ z
      → merge_fields (settled (merge_fields dst src) s at ct z) src
        ≡ settled (merge_fields dst src) s at ct z
  unfolding merge_fields
  merge_fields_again dst src s at ct z h k l =
      rw
        (
          pick_twice is_empty dst.market_slug src.market_slug,
          pick_twice is_empty dst.asset_id src.asset_id,
          pick_twice (λ t. eq_token t no_token) dst.token_type src.token_type,
          pick_twice (λ t. eq_side t no_side) dst.side src.side,
          pick_twice (λ p. eq_int p.pips (pos 0)) dst.price src.price,
          raise_to_twice dst.size src.size,
          or_else_repeat src.filled_price dst.filled_price,
          h,
          k,
          l,
        )
        refl

  pub stronger_twice : (a b : OrderStatus) → stronger (stronger a b) b ≡ stronger a b
  unfolding stronger
  stronger_twice a b = ground arith

  pub partial_status_twice :
      (a : OrderStatus) → partial_status (partial_status a) ≡ partial_status a
  unfolding partial_status
  partial_status_twice a = ground arith

  -- The same news merged into what came out, where the status is settled.
  pub merge_order_again :
      (now : Time) (dst src : Order) (s : OrderStatus) (at ct : Option Time) (z : F)
      → or_else at src.filled_at ≡ at
      → or_else ct src.canceled_at ≡ ct
      → raise_to z src.filled_size ≡ z
      → let m = settled (merge_fields dst src) s at ct z in
        converge now m src.status ≡ m → merge_order now m src ≡ m
  unfolding merge_order merge_into_final merge_fields
  merge_order_again now dst src s at ct z h k l c =
      elim (Bool-cases (is_final_status m && not (is_final_status src))) [
        | inl final ↦ rw (final, h, l) refl
        | inr live ↦ rw (live, merge_fields_again dst src s at ct z h k l) c
      ]
    where
      m : Order
      m = settled (merge_fields dst src) s at ct z
