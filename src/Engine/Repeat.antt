-- ===== src/Engine/Repeat.antt =====
-- internal/services/order_engine.go: news that mergeOrderInPlace gets a second time.
use upcow.Base.{
  Bool, true, false, not, ◌&&◌, ◌≡◌, refl, arith, inl, inr, Bool-cases, Option, some, none, or_else,
}
use upcow.Base.Float.{Float, IsOrdered}
use upcow.Domain.Order.{Order, OrderStatus, Time, filled, canceled, eq_status, is_final_status}
use upcow.Engine.Merge.{
  merge_into_final, merge_fields, stronger, partial_status, is_fully_executed, converge,
  merge_order, raise_to, stamp_canceled,
}
use upcow.Engine.MergeLaws.{IsCapped}
use upcow.Engine.Again.{
  raise_to_twice, or_else_twice, raise_to_capped, or_else_later, settled, stronger_twice,
  partial_status_twice, merge_order_again,
}

module _ ⦃fl : Float⦄ where
  open fl use {F, zero_f, lt_f, le_f}

  filled_at_twice :
      (dst src : Order)
      → or_else (merge_fields dst src).filled_at src.filled_at ≡ (merge_fields dst src).filled_at
  unfolding merge_fields
  filled_at_twice dst src = or_else_twice dst.filled_at src.filled_at

  filled_at_later :
      (dst src : Order) (x : Option Time)
      → or_else (or_else (merge_fields dst src).filled_at x) src.filled_at
        ≡ or_else (merge_fields dst src).filled_at x
  unfolding merge_fields
  filled_at_later dst src x = or_else_later dst.filled_at src.filled_at x

  canceled_at_twice :
      (dst src : Order)
      → or_else (merge_fields dst src).canceled_at src.canceled_at
        ≡ (merge_fields dst src).canceled_at
  unfolding merge_fields
  canceled_at_twice dst src = or_else_twice dst.canceled_at src.canceled_at

  canceled_at_stamped :
      (now : Time) (dst src : Order) (s : OrderStatus)
      → or_else (stamp_canceled now s (merge_fields dst src).canceled_at) src.canceled_at
        ≡ stamp_canceled now s (merge_fields dst src).canceled_at
  unfolding merge_fields stamp_canceled
  canceled_at_stamped now dst src s = elim (Bool-cases (eq_status s canceled)) [
    | inl over ↦ rw over (or_else_later dst.canceled_at src.canceled_at (some now))
    | inr open_still ↦ rw open_still (or_else_twice dst.canceled_at src.canceled_at)
  ]

  filled_size_twice :
      (dst src : Order)
      → raise_to (merge_fields dst src).filled_size src.filled_size
        ≡ (merge_fields dst src).filled_size
  unfolding merge_fields
  filled_size_twice dst src = raise_to_twice dst.filled_size src.filled_size

  size_capped :
      IsOrdered fl
      → (dst src : Order) → IsCapped src
      → raise_to (merge_fields dst src).size src.filled_size ≡ (merge_fields dst src).size
  unfolding merge_fields
  size_capped o dst src c = rw (raise_to_capped o dst.size src.size src.filled_size c) refl

  stamp_twice :
      (now later : Time) (s : OrderStatus) (at : Option Time)
      → stamp_canceled later s (stamp_canceled now s at) ≡ stamp_canceled now s at
  unfolding stamp_canceled
  stamp_twice now later s none = ground arith
  stamp_twice now later s (some t) = ground arith

  both_hold : (a b : Bool) → (a && b) ≡ true → (a ≡ true) × (b ≡ true)
  both_hold true b h = (refl, h)
  both_hold false b h = absurd (cc)

  or_else_kept :
      (at : Option Time) (now later : Time)
      → or_else (or_else at (some now)) (some later) ≡ or_else at (some now)
  or_else_kept none now later = refl
  or_else_kept (some t) now later = refl

  -- The three results of `converge`, each with the news once more.
  full_stable :
      IsOrdered fl
      → (now later : Time) (f : Order) (inc : OrderStatus) → is_fully_executed f ≡ true
      → let m = settled f filled (or_else f.filled_at (some now)) f.canceled_at f.size in
        (converge now f inc ≡ m) × (converge later m inc ≡ m)
  unfolding converge is_fully_executed
  full_stable o now later f inc h = (
    rw h refl,
    rw (sized.0, o.le_refl_left f.size f.filled_size sized.1, or_else_kept f.filled_at now later)
        refl,
  )
    where
      sized : (lt_f zero_f f.size ≡ true) × (le_f f.size f.filled_size ≡ true)
      sized = both_hold (lt_f zero_f f.size) (le_f f.size f.filled_size) h

  partial_stable :
      (now later : Time) (f : Order) (inc : OrderStatus)
      → is_fully_executed f ≡ false
      → lt_f zero_f f.filled_size ≡ true
      → let m = settled f (partial_status f.status) f.filled_at f.canceled_at f.filled_size in
        (converge now f inc ≡ m) × (converge later m inc ≡ m)
  unfolding converge is_fully_executed
  partial_stable now later f inc h k =
      (rw (h, k) refl, rw (h, k, partial_status_twice f.status) refl)

  open_stable :
      (now later : Time) (f : Order) (inc : OrderStatus)
      → is_fully_executed f ≡ false
      → lt_f zero_f f.filled_size ≡ false
      → let s = stronger f.status inc in
        let m = settled f s f.filled_at (stamp_canceled now s f.canceled_at) f.filled_size in
        (converge now f inc ≡ m) × (converge later m inc ≡ m)
  unfolding converge is_fully_executed
  open_stable now later f inc h k = (
    rw (h, k) refl,
    rw
        (
          h,
          k,
          stronger_twice f.status inc,
          stamp_twice now later (stronger f.status inc) f.canceled_at,
        )
        refl,
  )

  -- The first merge where it converges, and the second.
  converged_twice :
      IsOrdered fl
      → (now later : Time) (dst src : Order) → IsCapped src
      → let m = converge now (merge_fields dst src) src.status in merge_order later m src ≡ m
  converged_twice o now later dst src c = elim (Bool-cases (is_fully_executed f)) [
    | inl full ↦
        let p = full_stable o now later f src.status full in
        rw p.0 (
          merge_order_again later dst src filled (or_else f.filled_at (some now)) f.canceled_at
            f.size (filled_at_later dst src (some now)) (canceled_at_twice dst src)
            (size_capped o dst src c) p.1)
    | inr part ↦ elim (Bool-cases (lt_f zero_f f.filled_size)) [
      | inl some_part ↦
          let p = partial_stable now later f src.status part some_part in
          rw p.0 (
            merge_order_again later dst src (partial_status f.status) f.filled_at f.canceled_at
              f.filled_size (filled_at_twice dst src) (canceled_at_twice dst src)
              (filled_size_twice dst src) p.1)
      | inr nothing ↦
          let p = open_stable now later f src.status part nothing in
          rw p.0 (
            merge_order_again later dst src (stronger f.status src.status) f.filled_at
              (stamp_canceled now (stronger f.status src.status) f.canceled_at) f.filled_size
              (filled_at_twice dst src)
              (canceled_at_stamped now dst src (stronger f.status src.status))
              (filled_size_twice dst src) p.1)
    ]
  ]
    where
      f : Order
      f = merge_fields dst src

  final_twice :
      (later : Time) (dst src : Order)
      → (is_final_status dst && not (is_final_status src)) ≡ true
      → merge_order later (merge_into_final dst src) src ≡ merge_into_final dst src
  unfolding merge_order merge_into_final is_final_status
  final_twice later dst src h =
      rw
        (
          h,
          raise_to_twice dst.filled_size src.filled_size,
          or_else_twice dst.filled_at src.filled_at,
        )
        refl

  merge_order-final :
      (now : Time) (dst src : Order)
      → (is_final_status dst && not (is_final_status src)) ≡ true
      → merge_order now dst src ≡ merge_into_final dst src
  unfolding merge_order
  merge_order-final now dst src h = rw h refl

  merge_order-live :
      (now : Time) (dst src : Order)
      → (is_final_status dst && not (is_final_status src)) ≡ false
      → merge_order now dst src ≡ converge now (merge_fields dst src) src.status
  unfolding merge_order
  merge_order-live now dst src h = rw h refl

  -- News that an order gets a second time, at any later time, changes nothing, if it says that no
  -- more is executed than was ordered. The tests on floats are ordered as IEEE 754 says.
  pub merge_order_twice :
      IsOrdered fl
      → (now later : Time) (dst src : Order) → IsCapped src
      → merge_order later (merge_order now dst src) src ≡ merge_order now dst src
  merge_order_twice o now later dst src c =
      elim (Bool-cases (is_final_status dst && not (is_final_status src))) [
        | inl final ↦ rw (merge_order-final now dst src final) (final_twice later dst src final)
        | inr live ↦ rw (merge_order-live now dst src live) (converged_twice o now later dst src c)
      ]
