-- ===== src/Intent.antt =====
-- src/feelies/core/intent.py: `TradingIntent`, `OrderIntent` and `SignalPositionTranslator`.
-- A signal's direction is one of three, so the last `return` of `translate` is never reached.
use feelies.Kit.{String, Option, none, some, Result, ok, err, if◌then◌else◌}
use feelies.Kit.Int.{ℤ, pos, ◌+ℤ◌, ◌-ℤ◌, negℤ, is_pos, is_neg, is_zero, leb_ℤ, abs}
use feelies.Market.{SignalDirection, long, short, flat, Signal, Position}

pub data TradingIntent : Type 0 where
  entry_long entry_short exit reverse_long_to_short reverse_short_to_long scale_up no_action :
      TradingIntent

pub record OrderIntent (R : Type 0) : Type 0 where
  pub intent : TradingIntent
  pub symbol : String
  pub strategy_id : String
  pub target_quantity : ℤ
  pub current_quantity : ℤ
  pub signal : Signal R

-- `ValueError(f"target_quantity must be non-negative, got {tgt}")`
pub data ValueError : Type 0 where
  negative_target : ℤ → ValueError

-- `target_quantity if target_quantity is not None else default`
abbrev pub or_default : Option ℤ → ℤ → ℤ
or_default none default = default
or_default (some tgt) default = tgt

module _ {R : Type 0} where
  abbrev pub order_intent : Signal R → ℤ → TradingIntent → ℤ → OrderIntent R
  order_intent signal qty intent target = record {
    intent = intent;
    symbol = signal.symbol;
    strategy_id = signal.strategy_id;
    target_quantity = target;
    current_quantity = qty;
    signal = signal;
  }

  unfoldable pub handle_flat : Signal R → ℤ → ℤ → OrderIntent R
  handle_flat signal qty tgt =
      if is_zero qty
      then order_intent signal qty no_action (pos 0)
      else order_intent signal qty exit (abs qty)

  unfoldable pub handle_long : Signal R → ℤ → ℤ → OrderIntent R
  handle_long signal qty tgt =
      if is_neg qty
      then order_intent signal qty reverse_short_to_long (abs qty +ℤ tgt)
      else if leb_ℤ tgt qty
      then order_intent signal qty no_action (pos 0)
      else if is_pos qty
      then order_intent signal qty scale_up (tgt -ℤ qty)
      else order_intent signal qty entry_long tgt

  unfoldable pub handle_short : Signal R → ℤ → ℤ → OrderIntent R
  handle_short signal qty tgt =
      if is_pos qty
      then order_intent signal qty reverse_long_to_short (qty +ℤ tgt)
      else if leb_ℤ qty (negℤ tgt)
      then order_intent signal qty no_action (pos 0)
      else if is_neg qty
      then order_intent signal qty scale_up (tgt -ℤ abs qty)
      else order_intent signal qty entry_short tgt

  -- The dispatch on the direction.
  unfoldable pub by_direction : SignalDirection → Signal R → ℤ → ℤ → OrderIntent R
  unfolding handle_flat handle_long handle_short
  by_direction flat = handle_flat
  by_direction long = handle_long
  by_direction short = handle_short

  unfoldable pub translate : ℤ → Signal R → Position → Option ℤ → Result ValueError (OrderIntent R)
  unfolding by_direction
  translate default_target signal position target_quantity =
      let tgt = or_default target_quantity default_target in
      if is_neg tgt
      then err (negative_target tgt)
      else ok (by_direction signal.direction signal position.quantity tgt)
