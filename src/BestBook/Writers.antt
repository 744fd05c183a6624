-- ===== src/BestBook/Writers.antt =====
-- internal/marketstate/atomic_bestbook.go: the compare-and-swap loop of UpdateToken over the prices, with two
-- goroutines whose atomic steps come in any order.
use mathlib.Core.Path.{subst}
use upcow.Base.{
  ◌⊎◌, inl, inr, is_some, Bool-cases, ℕ, Bool, true, false, ◌<◌, ◌^◌, List, [], ◌∷◌, Option, none,
  some, ◌≡◌, refl, ◌∙◌, arith, if◌then◌else◌, ◌==◌,
}
use upcow.Domain.Market.{TokenType, no_token, up, down}
use upcow.BestBook.{price_field, or_old, next_prices}
use upcow.BestBook.Fields.{HasPrices, pack_prices-HasPrices, or_old-lt, price_field-lt}

-- Where a goroutine stands: before `Load`, before `CompareAndSwap` with what it loaded, or past the loop.
pub data Phase : Type 0 where
  loads : Phase
  swaps : ℕ → Phase
  wrote : Phase

pub record Writer : Type 0 where
  pub token : TokenType
  pub bid : ℕ
  pub ask : ℕ
  pub phase : Phase

-- The swap stores the next word if the word is still the one that was loaded.
abbrev swap_if : Writer → ℕ → ℕ → Option ℕ → ℕ × Writer
swap_if w word cur none = (word, record w { phase = wrote })
swap_if w word cur (some next) =
    if word == cur then (next, record w { phase = wrote }) else (word, record w { phase = loads })

abbrev advance_at : Phase → ℕ → Writer → ℕ × Writer
advance_at loads word w = (word, record w { phase = swaps word })
advance_at (swaps cur) word w = swap_if w word cur (next_prices w.token w.bid w.ask cur)
advance_at wrote word w = (word, w)

-- One atomic step of a writer.
unfoldable pub advance : ℕ → Writer → ℕ × Writer
advance word w = advance_at w.phase word w

-- The word and the two writers.
pub record Race : Type 0 where
  pub word : ℕ
  pub first : Writer
  pub second : Writer

unfoldable pub turn : Bool → Race → Race
turn true r = let (word, w) = advance r.word r.first in record r { word = word; first = w }
turn false r = let (word, w) = advance r.word r.second in record r { word = word; second = w }

-- The writers' turns in the order of the list: `true` is a turn of the first.
unfoldable pub run_race : List Bool → Race → Race
run_race [] r = r
run_race (b ∷ bs) r = run_race bs (turn b r)

abbrev has_written : Phase → Bool
has_written wrote = true
has_written loads = false
has_written (swaps cur) = false

-- A quote after the writer's update, if it has written.
abbrev pub quote_of : Writer → ℕ → ℕ → ℕ
quote_of w new old = if has_written w.phase then or_old new old else old

abbrev InRange : Writer → Type 0
InRange w = (w.bid < 2 ^ 16) × (w.ask < 2 ^ 16)

-- The first writes YES and the second NO, to a word that had the quotes of `start`.
pub record IsRace (start : ℕ) (yes_bid yes_ask no_bid no_ask : ℕ) (r : Race) : Type 0 where
  pub first_token : r.first.token ≡ up
  pub second_token : r.second.token ≡ down
  pub first_bid : r.first.bid ≡ yes_bid
  pub first_ask : r.first.ask ≡ yes_ask
  pub second_bid : r.second.bid ≡ no_bid
  pub second_ask : r.second.ask ≡ no_ask
  pub quotes :
      HasPrices r.word
        (quote_of r.first yes_bid (price_field start 3))
        (quote_of r.first yes_ask (price_field start 2))
        (quote_of r.second no_bid (price_field start 1))
        (quote_of r.second no_ask (price_field start 0))

-- A step of a writer leaves the word and writes later, or writes the next word.
pub record Waits (word : ℕ) (w : Writer) (word' : ℕ) (w' : Writer) : Type 0 where
  pub same_token : w'.token ≡ w.token
  pub same_bid : w'.bid ≡ w.bid
  pub same_ask : w'.ask ≡ w.ask
  pub same_word : word' ≡ word
  pub as_before : has_written w'.phase ≡ has_written w.phase

pub record Writes (word : ℕ) (w : Writer) (word' : ℕ) (w' : Writer) : Type 0 where
  pub same_token : w'.token ≡ w.token
  pub same_bid : w'.bid ≡ w.bid
  pub same_ask : w'.ask ≡ w.ask
  pub next_word : next_prices w.token w.bid w.ask word ≡ some word'
  pub before : has_written w.phase ≡ false
  pub after : has_written w'.phase ≡ true

writer : TokenType → ℕ → ℕ → Phase → Writer
writer t b a ph = record { token = t; bid = b; ask = a; phase = ph }

swap-cases :
    (word cur b a : ℕ) (t : TokenType) (next : Option ℕ)
    → is_some next ≡ true
    → next_prices t b a cur ≡ next
    → Waits word
        (writer t b a (swaps cur))
        (swap_if (writer t b a (swaps cur)) word cur next).0
        (swap_if (writer t b a (swaps cur)) word cur next).1
      ⊎ Writes word
          (writer t b a (swaps cur))
          (swap_if (writer t b a (swaps cur)) word cur next).0
          (swap_if (writer t b a (swaps cur)) word cur next).1
unfolding writer
swap-cases word cur b a t none h e = absurd (cc)
swap-cases word cur b a t (some next) h e = elim (Bool-cases (word == cur)) [
  | inl same ↦ inr (ground arith)
  | inr other ↦ inl (ground arith)
]

advance-cases :
    (word b a : ℕ) (t : TokenType) (ph : Phase)
    → ((cur : ℕ) → is_some (next_prices t b a cur) ≡ true)
    → Waits word
        (writer t b a ph)
        (advance word (writer t b a ph)).0
        (advance word (writer t b a ph)).1
      ⊎ Writes word
          (writer t b a ph)
          (advance word (writer t b a ph)).0
          (advance word (writer t b a ph)).1
unfolding advance writer
advance-cases word b a t loads known = inl (ground arith)
advance-cases word b a t wrote known = inl (ground arith)
advance-cases word b a t (swaps cur) known =
    swap-cases word cur b a t (next_prices t b a cur) (known cur) refl

module _ (a b : ℕ) (ha : a < 2 ^ 16) (hb : b < 2 ^ 16) where
  written-up :
      (word word' : ℕ)
      → next_prices up a b word ≡ some word'
      → HasPrices word'
          (or_old a (price_field word 3))
          (or_old b (price_field word 2))
          (price_field word 1)
          (price_field word 0)
  unfolding next_prices
  written-up word word' e =
      subst
        (λ w.
          HasPrices w (or_old a (price_field word 3)) (or_old b (price_field word 2))
            (price_field word 1) (price_field word 0))
        (cc)
        (pack_prices-HasPrices (or_old a (price_field word 3)) (or_old b (price_field word 2))
          (price_field word 1) (price_field word 0)
          (or_old-lt (2 ^ 16) a _ ha (price_field-lt word 3))
          (or_old-lt (2 ^ 16) b _ hb (price_field-lt word 2)) (price_field-lt word 1)
          (price_field-lt word 0))

  written-down :
      (word word' : ℕ)
      → next_prices down a b word ≡ some word'
      → HasPrices word'
          (price_field word 3)
          (price_field word 2)
          (or_old a (price_field word 1))
          (or_old b (price_field word 0))
  unfolding next_prices
  written-down word word' e =
      subst
        (λ w.
          HasPrices w (price_field word 3) (price_field word 2) (or_old a (price_field word 1))
            (or_old b (price_field word 0)))
        (cc)
        (pack_prices-HasPrices (price_field word 3) (price_field word 2)
          (or_old a (price_field word 1)) (or_old b (price_field word 0)) (price_field-lt word 3)
          (price_field-lt word 2) (or_old-lt (2 ^ 16) a _ ha (price_field-lt word 1))
          (or_old-lt (2 ^ 16) b _ hb (price_field-lt word 0)))

-- The two writers at their start, for the quotes of YES and those of NO.
abbrev pub at_start : ℕ → ℕ → ℕ → ℕ → ℕ → Race
at_start start a b c d = record {
  word = start;
  first = record { token = up; bid = a; ask = b; phase = loads };
  second = record { token = down; bid = c; ask = d; phase = loads };
}

same_next :
    (t t' : TokenType) (x x' y y' cur : ℕ)
    → t ≡ t'
    → x ≡ x'
    → y ≡ y'
    → next_prices t' x' y' cur ≡ next_prices t x y cur
same_next t t' x x' y y' cur e f g = cc

module _ (start a b c d : ℕ) (ha : a < 2 ^ 16) (hb : b < 2 ^ 16) (hc : c < 2 ^ 16)
    (hd : d < 2 ^ 16) where
  -- The quotes that the invariant speaks of.
  abbrev Quotes : Writer → Writer → ℕ → Type 0
  Quotes w u word =
      HasPrices word (quote_of w a (price_field start 3)) (quote_of w b (price_field start 2))
        (quote_of u c (price_field start 1)) (quote_of u d (price_field start 0))

  Quotes-wait :
      (w w' u u' : Writer) (word : ℕ)
      → has_written w'.phase ≡ has_written w.phase
      → has_written u'.phase ≡ has_written u.phase
      → Quotes w u word
      → Quotes w' u' word
  Quotes-wait w w' u u' word e f q = rw (e, f) q

  Quotes-first :
      (w w' u : Writer) (word word' : ℕ)
      → has_written w.phase ≡ false
      → has_written w'.phase ≡ true
      → Quotes w u word
      → HasPrices word'
          (or_old a (price_field word 3))
          (or_old b (price_field word 2))
          (price_field word 1)
          (price_field word 0)
      → Quotes w' u word'
  Quotes-first w w' u word word' e f q n = record {
    yes_bid = ground (arith, n.yes_bid, q.yes_bid);
    yes_ask = ground (arith, n.yes_ask, q.yes_ask);
    no_bid = n.no_bid ∙ q.no_bid;
    no_ask = n.no_ask ∙ q.no_ask;
  }

  Quotes-second :
      (w u u' : Writer) (word word' : ℕ)
      → has_written u.phase ≡ false
      → has_written u'.phase ≡ true
      → Quotes w u word
      → HasPrices word'
          (price_field word 3)
          (price_field word 2)
          (or_old c (price_field word 1))
          (or_old d (price_field word 0))
      → Quotes w u' word'
  Quotes-second w u u' word word' e f q n = record {
    yes_bid = n.yes_bid ∙ q.yes_bid;
    yes_ask = n.yes_ask ∙ q.yes_ask;
    no_bid = ground (arith, n.no_bid, q.no_bid);
    no_ask = ground (arith, n.no_ask, q.no_ask);
  }

  known-up : (t : TokenType) (x y cur : ℕ) → t ≡ up → is_some (next_prices t x y cur) ≡ true
  unfolding next_prices
  known-up up x y cur e = refl
  known-up down x y cur e = refl
  known-up no_token x y cur e = absurd (cc)

  turn-first : (r : Race) → IsRace start a b c d r → IsRace start a b c d (turn true r)
  unfolding turn writer
  turn-first r v =
      elim (advance-cases r.word r.first.bid r.first.ask r.first.token r.first.phase
        (λ cur. known-up r.first.token r.first.bid r.first.ask cur v.first_token)) [
          | inl w ↦ record {
            first_token = w.same_token ∙ v.first_token;
            second_token = v.second_token;
            first_bid = w.same_bid ∙ v.first_bid;
            first_ask = w.same_ask ∙ v.first_ask;
            second_bid = v.second_bid;
            second_ask = v.second_ask;
            quotes = rw w.same_word (
                Quotes-wait r.first (advance r.word r.first).1 r.second r.second r.word w.as_before
                  refl v.quotes);
          }
          | inr w ↦ record {
            first_token = w.same_token ∙ v.first_token;
            second_token = v.second_token;
            first_bid = w.same_bid ∙ v.first_bid;
            first_ask = w.same_ask ∙ v.first_ask;
            second_bid = v.second_bid;
            second_ask = v.second_ask;
            quotes =
                Quotes-first r.first (advance r.word r.first).1 r.second r.word
                  (advance r.word r.first).0 w.before w.after v.quotes
                  (written-up a b ha hb r.word (advance r.word r.first).0 (
                    same_next _ _ _ _ _ _ r.word v.first_token v.first_bid v.first_ask
                    ∙ w.next_word));
          }
        ]

  known-down : (t : TokenType) (x y cur : ℕ) → t ≡ down → is_some (next_prices t x y cur) ≡ true
  unfolding next_prices
  known-down up x y cur e = refl
  known-down down x y cur e = refl
  known-down no_token x y cur e = absurd (cc)

  turn-second : (r : Race) → IsRace start a b c d r → IsRace start a b c d (turn false r)
  unfolding turn writer
  turn-second r v =
      elim (advance-cases r.word r.second.bid r.second.ask r.second.token r.second.phase
        (λ cur. known-down r.second.token r.second.bid r.second.ask cur v.second_token)) [
          | inl w ↦ record {
            first_token = v.first_token;
            second_token = w.same_token ∙ v.second_token;
            first_bid = v.first_bid;
            first_ask = v.first_ask;
            second_bid = w.same_bid ∙ v.second_bid;
            second_ask = w.same_ask ∙ v.second_ask;
            quotes = rw w.same_word (
                Quotes-wait r.first r.first r.second (advance r.word r.second).1 r.word refl
                  w.as_before v.quotes);
          }
          | inr w ↦ record {
            first_token = v.first_token;
            second_token = w.same_token ∙ v.second_token;
            first_bid = v.first_bid;
            first_ask = v.first_ask;
            second_bid = w.same_bid ∙ v.second_bid;
            second_ask = w.same_ask ∙ v.second_ask;
            quotes =
                Quotes-second r.first r.second (advance r.word r.second).1 r.word
                  (advance r.word r.second).0 w.before w.after v.quotes
                  (written-down c d hc hd r.word (advance r.word r.second).0 (
                    same_next _ _ _ _ _ _ r.word v.second_token v.second_bid v.second_ask
                    ∙ w.next_word));
          }
        ]

  run_race-IsRace :
      (bs : List Bool) (r : Race) → IsRace start a b c d r → IsRace start a b c d (run_race bs r)
  unfolding run_race
  run_race-IsRace [] r v = v
  run_race-IsRace (true ∷ bs) r v = run_race-IsRace bs (turn true r) (turn-first r v)
  run_race-IsRace (false ∷ bs) r v = run_race-IsRace bs (turn false r) (turn-second r v)

  -- Two goroutines, one that updates YES by `a` and `b` and one that updates NO by `c` and `d`,
  -- take their atomic steps in any order, and both get past the loop over the prices. Then the word
  -- holds both updates, where 0 keeps what was at the start. The four are less than 2 ^ 16.
  pub run_race-HasPrices :
      (turns : List Bool)
      → (run_race turns (at_start start a b c d)).first.phase ≡ wrote
      → (run_race turns (at_start start a b c d)).second.phase ≡ wrote
      → HasPrices
          (run_race turns (at_start start a b c d)).word
          (or_old a (price_field start 3))
          (or_old b (price_field start 2))
          (or_old c (price_field start 1))
          (or_old d (price_field start 0))
  run_race-HasPrices turns e f =
      let v : IsRace start a b c d (run_race turns (at_start start a b c d)) =
        run_race-IsRace turns (at_start start a b c d) (record {
          first_token = refl;
          second_token = refl;
          first_bid = refl;
          first_ask = refl;
          second_bid = refl;
          second_ask = refl;
          quotes = record { yes_bid = refl; yes_ask = refl; no_bid = refl; no_ask = refl };
        }) in
      rw (e, f) at v.quotes
