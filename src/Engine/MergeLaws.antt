-- ===== src/Engine/MergeLaws.antt =====
-- internal/services/order_engine.go: what mergeOrderInPlace keeps.
use upcow.Base.{true, ◌≡◌, arith}
use upcow.Base.Float.{Float, IsOrdered}
use upcow.Domain.Order.{Order, Time, filled, is_final_status}
use upcow.Engine.Merge.{
  merge_into_final, merge_fields, stronger, partial_status, is_fully_executed, converge,
  merge_order, raise_to,
}

module _ ⦃fl : Float⦄ where
  open fl use {F, zero_f, lt_f, le_f}

  -- A filled order is filled after a merge with any news.
  pub merge_order_keeps_filled :
      (now : Time) (dst src : Order)
      → dst.status ≡ filled
      → (merge_order now dst src).status ≡ filled
  unfolding merge_order merge_into_final is_final_status converge merge_fields partial_status
      stronger
  merge_order_keeps_filled now dst src h = ground arith

  le-raise_to : IsOrdered fl → (d s : F) → le_f d d ≡ true → le_f d (raise_to d s) ≡ true
  le-raise_to o d s h = ground (arith, o.lt_le d s)

  -- No more is executed than was ordered.
  abbrev pub IsCapped : Order → Type 0
  IsCapped o = le_f o.filled_size o.size ≡ true

  -- A merge into an order of which no more is executed than was ordered leaves the executed size
  -- the same or larger. The tests on floats are ordered as IEEE 754 says.
  pub merge_order_grows :
      IsOrdered fl
      → (now : Time) (dst src : Order) → IsCapped dst
      → le_f dst.filled_size (merge_order now dst src).filled_size ≡ true
  unfolding merge_order merge_into_final is_final_status converge merge_fields is_fully_executed
  merge_order_grows o now dst src h = ground (
    arith,
    le-raise_to o dst.filled_size src.filled_size,
    o.le_refl_left dst.filled_size dst.size,
    o.le_refl_right dst.filled_size dst.size,
    le-raise_to o dst.size src.size,
    o.le_trans dst.filled_size dst.size (raise_to dst.size src.size),
  )
