-- ===== src/Quality/Gate.antt =====
-- internal/services/market_quality.go: what `Tradable` lets through.
use mathlib.Core.Path.{subst}
use upcow.Base.{
  ℕ, Bool, true, false, ◌&&◌, ◌||◌, ◌-◌, ◌≤◌, Option, none, some, ◌≡◌, refl, ◌∙◌, sym, ap, arith,
  if◌then◌else◌, leb,
}
use upcow.Base.Int.{ℤ, pos, lt_int, sub64}
use upcow.Domain.Market.{Market}
use upcow.BestBook.{BestBookSnapshot}
use upcow.MarketMath.{TopOfBook}
use upcow.Quality.{
  MarketQuality, MarketQualityOptions, Problem, flag, flag_if, tradable, is_complete, is_recent,
  is_rest, assess_book, yes_spread, no_spread, yes_gap, no_gap, price_arbitrage, with_effective,
  assess, get_market_quality, choose_ws, choose_rest, with_rest, normalized, assessed, ws_top,
  ws_updated_at, start_quality, slug_of, is_market,
}

-- A later stage keeps the book, its source and what was said of them, and never raises the score.
record Kept (a b : MarketQuality) : Type 0 where
  top_eq : b.top ≡ a.top
  source_eq : b.source ≡ a.source
  updated_eq : b.book_updated_at ≡ a.book_updated_at
  observed_eq : b.observed_at ≡ a.observed_at
  complete_eq : b.complete ≡ a.complete
  fresh_eq : b.fresh ≡ a.fresh
  score_le : b.score ≤ a.score

trans : (a b c : MarketQuality) → Kept a b → Kept b c → Kept a c
trans a b c p q = record {
  top_eq = q.top_eq ∙ p.top_eq;
  source_eq = q.source_eq ∙ p.source_eq;
  updated_eq = q.updated_eq ∙ p.updated_eq;
  observed_eq = q.observed_eq ∙ p.observed_eq;
  complete_eq = q.complete_eq ∙ p.complete_eq;
  fresh_eq = q.fresh_eq ∙ p.fresh_eq;
  score_le = omega (arith, p.score_le, q.score_le);
}

flag_if-Kept : (t : Bool) (p : Problem) (n : ℕ) (mq : MarketQuality) → Kept mq (flag_if t p n mq)
unfolding flag_if flag
flag_if-Kept true p n mq = ground arith
flag_if-Kept false p n mq = ground arith

-- What is taken off where the YES quotes are crossed.
yes_spread-Kept : (o : MarketQualityOptions) (mq : MarketQuality) → Kept mq (yes_spread o mq)
unfolding yes_spread flag_if flag
yes_spread-Kept o mq = ground arith

no_spread-Kept : (o : MarketQualityOptions) (mq : MarketQuality) → Kept mq (no_spread o mq)
unfolding no_spread flag_if flag
no_spread-Kept o mq = ground arith

yes_gap-Kept : (mq : MarketQuality) → Kept mq (yes_gap mq)
unfolding yes_gap flag_if flag
yes_gap-Kept mq = ground arith

no_gap-Kept : (mq : MarketQuality) → Kept mq (no_gap mq)
unfolding no_gap flag_if flag
no_gap-Kept mq = ground arith

price_arbitrage-Kept : (mq : MarketQuality) → Kept mq (price_arbitrage mq)
unfolding price_arbitrage with_effective flag
price_arbitrage-Kept mq = ground arith

-- Whether a bid lies above its ask.
abbrev pub is_crossed : ℤ → ℤ → Bool
is_crossed bid ask = lt_int (pos 0) bid && lt_int (pos 0) ask && lt_int (sub64 ask bid) (pos 0)

yes_spread-crossed :
    (o : MarketQualityOptions) (mq : MarketQuality)
    → is_crossed mq.top.yes_bid_pips mq.top.yes_ask_pips ≡ true
    → (yes_spread o mq).score ≤ mq.score - 40
unfolding yes_spread flag_if flag
yes_spread-crossed o mq h = ground arith

no_spread-crossed :
    (o : MarketQualityOptions) (mq : MarketQuality)
    → is_crossed mq.top.no_bid_pips mq.top.no_ask_pips ≡ true
    → (no_spread o mq).score ≤ mq.score - 40
unfolding no_spread flag_if flag
no_spread-crossed o mq h = ground arith

-- What the first stage says of the book.
record Assessed (o : MarketQualityOptions) (a b : MarketQuality) : Type 0 where
  top_eq : b.top ≡ a.top
  source_eq : b.source ≡ a.source
  updated_eq : b.book_updated_at ≡ a.book_updated_at
  observed_eq : b.observed_at ≡ a.observed_at
  complete_eq : b.complete ≡ is_complete a.top
  fresh_eq : b.fresh ≡ is_rest a.source || is_recent a.observed_at o.max_book_age a.book_updated_at
  score_le : b.score ≤ a.score

assess_book-Assessed :
    (o : MarketQualityOptions) (mq : MarketQuality) → Assessed o mq (assess_book o mq)
unfolding assess_book flag_if flag
assess_book-Assessed o mq = ground arith

-- The stages after the spreads.
rest-Kept : (mq : MarketQuality) → Kept mq (price_arbitrage (no_gap (yes_gap mq)))
rest-Kept mq = trans mq (yes_gap mq) _ (yes_gap-Kept mq) (
    trans (yes_gap mq) (no_gap (yes_gap mq)) _ (no_gap-Kept (yes_gap mq))
      (price_arbitrage-Kept (no_gap (yes_gap mq))))

assess-Assessed : (o : MarketQualityOptions) (mq : MarketQuality) → Assessed o mq (assess o mq)
unfolding assess
assess-Assessed o mq =
    let b : MarketQuality = assess_book o mq in
    let f : Assessed o mq b = assess_book-Assessed o mq in
    let k : Kept b (assess o mq) = trans b (yes_spread o b) _ (yes_spread-Kept o b) (
      trans (yes_spread o b) (no_spread o (yes_spread o b)) _ (no_spread-Kept o (yes_spread o b))
        (rest-Kept (no_spread o (yes_spread o b)))) in
    record {
      top_eq = k.top_eq ∙ f.top_eq;
      source_eq = k.source_eq ∙ f.source_eq;
      updated_eq = k.updated_eq ∙ f.updated_eq;
      observed_eq = k.observed_eq ∙ f.observed_eq;
      complete_eq = k.complete_eq ∙ f.complete_eq;
      fresh_eq = k.fresh_eq ∙ f.fresh_eq;
      score_le = omega (arith, k.score_le, f.score_le);
    }

assess-crossed :
    (o : MarketQualityOptions) (mq : MarketQuality)
    → is_crossed mq.top.yes_bid_pips mq.top.yes_ask_pips ≡ true
    → is_crossed mq.top.no_bid_pips mq.top.no_ask_pips ≡ true
    → (assess o mq).score ≤ mq.score - 80
unfolding assess
assess-crossed o mq y n =
    let b : MarketQuality = assess_book o mq in
    let f : Assessed o mq b = assess_book-Assessed o mq in
    let s : MarketQuality = yes_spread o b in
    let k : Kept b s = yes_spread-Kept o b in
    omega (
      arith,
      f.score_le,
      yes_spread-crossed o b (rw f.top_eq y),
      no_spread-crossed o s (rw (k.top_eq, f.top_eq) n),
      (rest-Kept (no_spread o s)).score_le,
    )

choose_ws-score :
    (o : MarketQualityOptions) (t : TopOfBook) (updated : Option ℕ) (mq : MarketQuality)
    → ((choose_ws o t updated mq).score ≤ mq.score)
      × ((choose_ws o t updated mq).observed_at ≡ mq.observed_at)
unfolding choose_ws flag_if flag
choose_ws-score o t updated mq = ground arith

choose_rest-score :
    (o : MarketQualityOptions) (good : Bool) (rest : Option TopOfBook) (mq q : MarketQuality)
    → choose_rest o good rest mq ≡ some q
    → (q.score ≤ mq.score) × (q.observed_at ≡ mq.observed_at)
unfolding choose_rest with_rest flag
choose_rest-score o good rest mq q e = ground arith

assessed-inv :
    (b : Bool) (o : MarketQualityOptions) (x : Option MarketQuality) (q : MarketQuality)
    → (if b then assessed o x else none) ≡ some q
    → (mq : MarketQuality) × (x ≡ some mq) × (q ≡ assess o mq)
unfolding assessed
assessed-inv true o (some mq) q e = (mq, refl, cc)
assessed-inv true o none q e = absurd (cc)
assessed-inv false o x q e = absurd (cc)

-- What is returned was assessed, from a score of at most 100.
get-assess :
    (now : ℕ) (market : Option Market) (opt : MarketQualityOptions) (ws : Option BestBookSnapshot)
    (rest : Option TopOfBook) (q : MarketQuality)
    → get_market_quality now market opt ws rest ≡ some q
    → (mq : MarketQuality) × (q ≡ assess (normalized opt) mq)
      × (mq.score ≤ 100)
      × (mq.observed_at ≡ now)
unfolding get_market_quality
get-assess now market opt ws rest q e =
    let o : MarketQualityOptions = normalized opt in
    let book : Option BestBookSnapshot = if o.prefer_ws then ws else none in
    let t : TopOfBook = ws_top book in
    let updated : Option ℕ = ws_updated_at book in
    let fresh : MarketQuality = start_quality now (slug_of market) in
    let first : MarketQuality = choose_ws o t updated fresh in
    let good : Bool = is_recent now o.max_book_age updated && is_complete t in
    let (mq, chosen, final) =
      assessed-inv (is_market market) o (choose_rest o good rest first) q e in
    let s = choose_ws-score o t updated fresh in
    let c = choose_rest-score o good rest first mq chosen in
    (mq, final, omega (arith, c.0, s.0), c.1 ∙ s.1)

and-true : (a b c : Bool) → a && b && c ≡ true → (a ≡ true) × (b ≡ true) × (c ≡ true)
and-true a b c h = ground arith

not-true : (b : Bool) → ¬ (b ≡ true) → b ≡ false
not-true true f = absurd (f refl)
not-true false f = refl

-- Both tokens' quotes are crossed.
abbrev pub crossed_twice : TopOfBook → Bool
crossed_twice t = is_crossed t.yes_bid_pips t.yes_ask_pips && is_crossed t.no_bid_pips t.no_ask_pips

twice_crossed :
    (o : MarketQualityOptions) (mq : MarketQuality)
    → mq.score ≤ 100
    → crossed_twice mq.top ≡ true
    → (assess o mq).score ≤ 20
twice_crossed o mq most y =
    let both : (is_crossed mq.top.yes_bid_pips mq.top.yes_ask_pips ≡ true)
        × (is_crossed mq.top.no_bid_pips mq.top.no_ask_pips ≡ true) =
      and_parts _ _ y in
    omega (arith, assess-crossed o mq both.0 both.1, most)
  where
    and_parts : (a b : Bool) → a && b ≡ true → (a ≡ true) × (b ≡ true)
    and_parts a b h = ground arith

-- A quality that GetMarketQuality returns and Tradable accepts has a book with all four quotes,
-- which comes from the exchange or is no older than the largest age allowed, and of which not both
-- tokens are crossed.
pub tradable_lem :
    (now : ℕ) (market : Option Market) (opt : MarketQualityOptions) (ws : Option BestBookSnapshot)
    (rest : Option TopOfBook) (q : MarketQuality)
    → get_market_quality now market opt ws rest ≡ some q
    → tradable (some q) ≡ true
    → (is_complete q.top ≡ true)
      × (is_rest q.source || is_recent now (normalized opt).max_book_age q.book_updated_at ≡ true)
      × (crossed_twice q.top ≡ false)
unfolding tradable
tradable_lem now market opt ws rest q e h =
    let (mq, final, most, at_now) = get-assess now market opt ws rest q e in
    let o : MarketQualityOptions = normalized opt in
    let f : Assessed o mq q = subst (Assessed o mq) (sym final) (assess-Assessed o mq) in
    let (whole, recent, good) = and-true q.complete q.fresh (leb 60 q.score) h in
    (
      ap is_complete f.top_eq ∙ sym f.complete_eq ∙ whole,
      ap (λ s. is_rest s || is_recent now o.max_book_age q.book_updated_at) f.source_eq
          ∙ ap (λ u. is_rest mq.source || is_recent now o.max_book_age u) f.updated_eq
          ∙ ap (λ (n : ℕ). is_rest mq.source || is_recent n o.max_book_age mq.book_updated_at)
              (sym at_now)
          ∙ sym f.fresh_eq
          ∙ recent,
      ap crossed_twice f.top_eq
          ∙ not-true (crossed_twice mq.top)
              (λ y. high (subst (λ r. r.score ≤ 20) (sym final) (twice_crossed o mq most y)) good),
    )
  where
    high : q.score ≤ 20 → leb 60 q.score ≡ true → ⊥
    high l g = ground arith
