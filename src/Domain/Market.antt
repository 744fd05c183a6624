-- ===== src/Domain/Market.antt =====
-- internal/domain/market.go, and the order side of clob/types.
use upcow.Base.{ℕ, String, Bool, false, true, not, ite, ◌&&◌, ◌==◌}
use upcow.Base.Int.{ℤ, pos, lt_int}
use upcow.Base.Text.{String_discrete}

pub data TokenType : Type 0 where
  no_token up down : TokenType

pub data Side : Type 0 where
  no_side buy sell : Side

abbrev pub token_code : TokenType → ℕ
token_code no_token = 0
token_code up = 1
token_code down = 2

abbrev pub eq_token : TokenType → TokenType → Bool
eq_token s t = token_code s == token_code t

abbrev pub side_code : Side → ℕ
side_code no_side = 0
side_code buy = 1
side_code sell = 2

abbrev pub eq_side : Side → Side → Bool
eq_side s t = side_code s == side_code t

-- `s != ""` and `s == t` on texts.
abbrev pub eq_text : String → String → Bool
eq_text s t = ite (String_discrete s t) true false

abbrev pub is_empty : String → Bool
is_empty s = eq_text s ""

pub record Market : Type 0 where
  pub slug : String
  pub yes_asset_id : String
  pub no_asset_id : String
  pub condition_id : String
  pub question : String
  pub timestamp : ℤ

unfoldable pub is_valid : Market → Bool
is_valid m =
    not (is_empty m.slug)
    && not (is_empty m.yes_asset_id)
    && not (is_empty m.no_asset_id)
    && lt_int (pos 0) m.timestamp

unfoldable pub get_asset_id : Market → TokenType → String
get_asset_id m up = m.yes_asset_id
get_asset_id m no_token = m.no_asset_id
get_asset_id m down = m.no_asset_id
