-- ===== src/PairLock/Pricer.antt =====
-- velocitypairlock/pricer.go: the hedge's price from the first leg's, and what it means for a validated setting.
use mathlib.Core.Path.{subst}
use upcow.Base.{
  ◌⊎◌, inl, inr, sym, Bool-cases, ◌-◌, ℕ, Bool, true, false, ◌||◌, ◌+◌, ◌<◌, ◌^◌, none, ◌≡◌, refl,
  arith, if◌then◌else◌,
}
use upcow.Base.Int.{ℤ, pos, negsuc, lt_int, le_int, sub64, ◌-ℤ◌, pos_part}
use upcow.Base.Float.{Float}
use upcow.PairLock.Config.{Config, validate, not_cents, validate-cents}

pub record PairPrices : Type 0 where
  pub primary_cents : ℤ
  pub hedge_cents : ℤ

pub data PriceError : Type 0 where
  profit_invalid min_over_max primary_out_of_range hedge_out_of_range : PriceError

pub data Priced : Type 0 where
  priced : PairPrices → Priced
  refused : PriceError → Priced

abbrev pub outside : ℤ → ℤ → ℤ → Bool
outside least most v = lt_int v least || lt_int most v

abbrev price_within : ℤ → ℤ → ℤ → ℤ → Priced
price_within primary profit least most =
    if lt_int most least
    then refused min_over_max
    else if outside least most primary
    then refused primary_out_of_range
    else if outside least most hedge
    then refused hedge_out_of_range
    else priced (record { primary_cents = primary; hedge_cents = hedge })
  where
    hedge : ℤ
    hedge = sub64 (sub64 (pos 100) profit) primary

-- The bounds are 1 and 99 where they are not set.
abbrev pub or_bound : ℕ → ℤ → ℤ
or_bound d v = if le_int v (pos 0) then pos d else v

unfoldable pub price_pair_lock : ℤ → ℤ → ℤ → ℤ → Priced
price_pair_lock primary profit least most =
    if not_cents profit
    then refused profit_invalid
    else price_within primary profit (or_bound 1 least) (or_bound 99 most)

all_pass :
    (a b c : Bool) (e f g : PriceError) (q p : PairPrices)
    → (if a then refused e else if b then refused f else if c then refused g else priced q)
      ≡ priced p
    → (a ≡ false) × (b ≡ false) × (c ≡ false) × (q ≡ p)
all_pass a b c e f g q p h = ground arith

-- The first difference is exact, and the second where it is not below the least price.
first_difference : (n : ℕ) → 0 < n → n < 100 → sub64 (pos 100) (pos n) ≡ pos (100 - n)
unfolding sub64 ◌-ℤ◌
first_difference n h k = ground arith

second_difference :
    (m a : ℕ)
    → m < 100
    → a < 2 ^ 63
    → lt_int (sub64 (pos m) (pos a)) (pos 1) ≡ false
    → pos_part (sub64 (pos m) (pos a)) + a ≡ m
unfolding sub64 ◌-ℤ◌
second_difference m a h k e = ground arith

hedge_sum :
    (n a : ℕ)
    → 0 < n
    → n < 100
    → a < 2 ^ 63
    → lt_int (sub64 (sub64 (pos 100) (pos n)) (pos a)) (pos 1) ≡ false
    → a + pos_part (sub64 (sub64 (pos 100) (pos n)) (pos a)) + n ≡ 100
hedge_sum n a h k l e =
    let f : sub64 (pos 100) (pos n) ≡ pos (100 - n) = first_difference n h k in
    let low : lt_int (sub64 (pos (100 - n)) (pos a)) (pos 1) ≡ false =
      subst (λ (x : ℤ). lt_int (sub64 x (pos a)) (pos 1) ≡ false) f e in
    let sum = second_difference (100 - n) a (omega arith) l low in
    subst (λ (x : ℤ). a + pos_part (sub64 x (pos a)) + n ≡ 100) (sym f) (omega (arith, sum, h, k))

-- A bound that is not set is 1 at least.
bound-positive :
    (v least most : ℤ) → outside (or_bound 1 least) most v ≡ false → lt_int v (pos 1) ≡ false
bound-positive v least most h = ground arith

refused_priced : {e : PriceError} {p : PairPrices} → refused e ≡ priced p → ⊥
refused_priced h = absurd (cc)

priced_inv :
    (primary profit least most : ℤ) (p : PairPrices)
    → price_pair_lock primary profit least most ≡ priced p
    → (not_cents profit ≡ false)
      × (outside (or_bound 1 least) (or_bound 99 most) primary ≡ false)
      × (outside (or_bound 1 least) (or_bound 99 most) (sub64 (sub64 (pos 100) profit) primary)
          ≡ false)
      × (record { primary_cents = primary; hedge_cents = sub64 (sub64 (pos 100) profit) primary }
          ≡ p)
unfolding price_pair_lock
priced_inv primary profit least most p e = elim (Bool-cases (not_cents profit)) [
  | inl bad ↦ absurd (refused_priced (rw bad at e))
  | inr good ↦ let (a, b, c, d) = all_pass _ _ _ _ _ _ _ p (rw good at e) in (good, b, c, d)
]

-- Where PricePairLock gives two prices, the first is the one asked for, they and the profit come to
-- 100 cents, the hedge's is not 0, and both lie within the bounds, which are 1 and 99 where they
-- are not positive. The first price is less than 2 ^ 63.
price_pair_lock_lem :
    (primary profit least most : ℤ) (p : PairPrices)
    → pos_part primary < 2 ^ 63
    → price_pair_lock primary profit least most ≡ priced p
    → (pos_part p.primary_cents + pos_part p.hedge_cents + pos_part profit ≡ 100)
      × (p.primary_cents ≡ primary)
      × (0 < pos_part p.hedge_cents)
      × (outside (or_bound 1 least) (or_bound 99 most) p.primary_cents ≡ false)
      × (outside (or_bound 1 least) (or_bound 99 most) p.hedge_cents ≡ false)
price_pair_lock_lem primary profit least most p h e =
    let hedge : ℤ = sub64 (sub64 (pos 100) profit) primary in
    let (good, first, second, same) = priced_inv primary profit least most p e in
    let low : lt_int hedge (pos 1) ≡ false = bound-positive hedge least (or_bound 99 most) second in
    subst
      (λ (q : PairPrices).
        (pos_part q.primary_cents + pos_part q.hedge_cents + pos_part profit ≡ 100)
        × (q.primary_cents ≡ primary)
        × (0 < pos_part q.hedge_cents)
        × (outside (or_bound 1 least) (or_bound 99 most) q.primary_cents ≡ false)
        × (outside (or_bound 1 least) (or_bound 99 most) q.hedge_cents ≡ false))
      same
      (
        sum primary profit h good (bound-positive primary least (or_bound 99 most) first) low,
        refl,
        positive hedge low,
        first,
        second,
      )
  where
    sum :
        (a n : ℤ)
        → pos_part a < 2 ^ 63
        → not_cents n ≡ false
        → lt_int a (pos 1) ≡ false
        → lt_int (sub64 (sub64 (pos 100) n) a) (pos 1) ≡ false
        → pos_part a + pos_part (sub64 (sub64 (pos 100) n) a) + pos_part n ≡ 100
    sum (pos a) (pos n) l good first second = hedge_sum n a (ground arith) (ground arith) l second
    sum (negsuc a) n l good first second = absurd (ground arith)
    sum (pos a) (negsuc n) l good first second = absurd (ground arith)

    positive : (v : ℤ) → lt_int v (pos 1) ≡ false → 0 < pos_part v
    positive v k = ground arith

priced_or_refused :
    (r : Priced) → ((p : PairPrices) × (r ≡ priced p)) ⊎ ((e : PriceError) × (r ≡ refused e))
priced_or_refused (priced p) = inl (p, refl)
priced_or_refused (refused e) = inr (e, refl)

module _ ⦃fl : Float⦄ where
  refused-range :
      (c : Config) (primary : ℤ) (e : PriceError)
      → c.enabled ≡ true
      → validate c ≡ none
      → price_pair_lock primary c.profit_cents c.min_entry_price_cents c.max_entry_price_cents
        ≡ refused e
      → (e ≡ primary_out_of_range) ⊎ (e ≡ hedge_out_of_range)
  unfolding price_pair_lock
  refused-range c primary e on ok h =
      let v = validate-cents c on ok in ground (arith, v.0, v.1, v.2, v.3)

  set_bound : (d : ℕ) (v : ℤ) → not_cents v ≡ false → or_bound d v ≡ v
  set_bound d v h = ground arith

  -- With the profit and the bounds of an enabled configuration that Validate accepts, PricePairLock
  -- gives the price asked for and a hedge's price, both within the bounds, that come to 100 cents
  -- with the profit, or it refuses because the price or its hedge is out of range. The price is
  -- less than 2 ^ 63.
  pub validate-price :
      (c : Config) (primary : ℤ)
      → pos_part primary < 2 ^ 63
      → c.enabled ≡ true
      → validate c ≡ none
      → ((p : PairPrices) × (price_pair_lock primary c.profit_cents c.min_entry_price_cents
              c.max_entry_price_cents
            ≡ priced p)
          × (pos_part p.primary_cents + pos_part p.hedge_cents + pos_part c.profit_cents ≡ 100)
          × (p.primary_cents ≡ primary)
          × (outside c.min_entry_price_cents c.max_entry_price_cents p.primary_cents ≡ false)
          × (outside c.min_entry_price_cents c.max_entry_price_cents p.hedge_cents ≡ false))
        ⊎ ((e : PriceError) × (price_pair_lock primary c.profit_cents c.min_entry_price_cents
                c.max_entry_price_cents
              ≡ refused e)
            × ((e ≡ primary_out_of_range) ⊎ (e ≡ hedge_out_of_range)))
  validate-price c primary small on ok =
      let v = validate-cents c on ok in
      elim (priced_or_refused
        (price_pair_lock primary c.profit_cents c.min_entry_price_cents c.max_entry_price_cents)) [
          | inl (p, e) ↦
              let f =
                price_pair_lock_lem primary c.profit_cents c.min_entry_price_cents
                  c.max_entry_price_cents p small e in
              inl (
                p,
                e,
                f.0,
                f.1,
                in_bounds p.primary_cents v.1 v.2 f.3,
                in_bounds p.hedge_cents v.1 v.2 f.4,
              )
          | inr (r, e) ↦ inr (r, e, refused-range c primary r on ok e)
        ]
    where
      in_bounds :
          (x : ℤ)
          → not_cents c.min_entry_price_cents ≡ false
          → not_cents c.max_entry_price_cents ≡ false
          → outside (or_bound 1 c.min_entry_price_cents) (or_bound 99 c.max_entry_price_cents) x
            ≡ false
          → outside c.min_entry_price_cents c.max_entry_price_cents x ≡ false
      in_bounds x low high h = rw (set_bound 1 _ low, set_bound 99 _ high) at h
