-- ===== src/Market.antt =====
-- The records that several components read: src/feelies/core/events.py (`Side`, `SignalDirection`,
-- `Signal`) and src/feelies/core/position.py (`Position`). Money is an integer number of the
-- smallest unit of the `Decimal`s in play.
use feelies.Kit.{String}
use feelies.Kit.Int.{ℤ, pos}

pub data Side : Type 0 where
  buy sell : Side

pub data SignalDirection : Type 0 where
  long short flat : SignalDirection

-- The fields that the modelled code reads or passes on; `R` is the type of floats.
pub record Signal (R : Type 0) : Type 0 where
  pub symbol : String
  pub strategy_id : String
  pub direction : SignalDirection
  pub strength : R
  pub edge_estimate_bps : R

pub record Position : Type 0 where
  pub symbol : String
  pub quantity : ℤ
  pub avg_entry_price : ℤ
  pub realized_pnl : ℤ
  pub unrealized_pnl : ℤ
  pub cumulative_fees : ℤ

-- `Position(symbol=symbol)`
abbrev pub blank : String → Position
blank symbol = record {
  symbol = symbol;
  quantity = pos 0;
  avg_entry_price = pos 0;
  realized_pnl = pos 0;
  unrealized_pnl = pos 0;
  cumulative_fees = pos 0;
}
