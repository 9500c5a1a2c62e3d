-- ===== src/Exits/Stop.antt =====
-- src/feelies/risk/stop_exit.py: `StopExitController`, which closes a position on a stop loss, on a
-- trailing stop, or before the session ends.
use feelies.Kit.{
  ℕ, ◌*◌, String, Bool, true, false, not, ◌&&◌, ◌||◌, Option, none, some, List, [], ◌∷◌,
  if◌then◌else◌, string_Eq,
}
use Prim.Native.String.{◌++◌ as append}
use feelies.Kit.Int.{ℤ, pos, negsuc, ◌+ℤ◌, ◌-ℤ◌, is_zero, is_pos, abs, leb_ℤ}
use feelies.Kit.Dict.{Dict, lookup, insert, erase}
use feelies.Kit.Floats.{Floats}
use feelies.Market.{Position}
use feelies.Sequence
use feelies.Sequence.{SequenceGenerator, next, decimal, derive_order_id}
use feelies.Exits.{DeRiskRequirement, Holdings, closing_side, Episode, is_pending, same_time}

pub data StopReason : Type 0 where
  stop session_flat : StopReason

abbrev pub reason_name : StopReason → String
reason_name stop = "STOP_EXIT"
reason_name session_flat = "SESSION_FLAT"

pub record StopExitPolicy (R : Type 0) : Type 0 where
  pub stop_loss_per_share : R
  pub trail_activate_per_share : R
  pub stop_loss_pct : R
  pub trail_activate_pct : R
  pub trail_pct : R
  pub session_flatten_enabled : Bool
  pub session_flatten_seconds_before_close : ℕ

-- The fields of an `NBBOQuote` that the controller reads.
pub record Quote : Type 0 where
  pub timestamp_ns : ℕ
  pub exchange_timestamp_ns : ℕ
  pub correlation_id : String
  pub symbol : String
  pub bid : ℤ
  pub ask : ℤ

pub record StopExits (R : Type 0) : Type 0 where
  pub policy : StopExitPolicy R
  pub seq : SequenceGenerator
  pub attached : Bool
  pub peak_pnl_per_share : Dict String (Option ℕ × R)
  pub pending_exit_symbols : Dict String Episode

module _ {R : Type 0} where
  unfoldable pub create : StopExitPolicy R → SequenceGenerator → StopExits R
  create policy seq = record {
    policy = policy;
    seq = seq;
    attached = false;
    peak_pnl_per_share = [];
    pending_exit_symbols = [];
  }

  unfoldable pub reset : StopExits R → StopExits R
  reset c = record c {
    peak_pnl_per_share = [];
    pending_exit_symbols = [];
    seq = Sequence.reset c.seq;
  }

-- `bounds` is `resolve_for_timestamp(at).rth_close_ns` of the session's bounds, if there are any.
abbrev pub past_deadline : Option (ℕ → ℤ) → Bool → ℕ → ℕ → Bool
past_deadline none enabled seconds at = false
past_deadline (some rth_close_ns) enabled seconds at =
    enabled && leb_ℤ (rth_close_ns at -ℤ pos (seconds * 1_000_000_000)) (pos at)

-- `to_float` is `float` on a `Decimal`, and `half` the `Decimal` quotient by two.
module _ (fl : Floats) (to_float : ℤ → fl.Float) (half : ℤ → ℤ) where
  open fl use {Float, of_int, minus, times, neg, less, less_eq}

  abbrev positive : Float → Bool
  positive x = less (of_int (pos 0)) x

  unfoldable pub stop_enabled : StopExitPolicy Float → Bool
  stop_enabled p =
      positive p.stop_loss_per_share
      || (positive p.trail_activate_per_share
          || (positive p.stop_loss_pct || positive p.trail_activate_pct))

  unfoldable pub any_enabled : StopExitPolicy Float → Bool
  unfolding stop_enabled
  any_enabled p = stop_enabled p || p.session_flatten_enabled

  unfoldable pub attach : StopExits Float → StopExits Float × List String
  unfolding any_enabled
  attach c =
      if c.attached
      then (c, [])
      else if any_enabled c.policy
      then (record c { attached = true }, "NBBOQuote" ∷ [])
      else (c, [])

  abbrev unrealized_per_share : ℤ → Quote → Float → Float
  unrealized_per_share quantity q entry =
      times (minus (to_float (half (q.bid +ℤ q.ask))) entry)
        (if is_pos quantity then of_int (pos 1) else of_int (negsuc 0))

  -- The peak of the episode: `max` keeps its first argument unless the second is greater.
  abbrev peak_of : Option (Option ℕ × Float) → Option ℕ → Float → Float
  peak_of none opened x = x
  peak_of (some (at, peak)) opened x =
      if same_time at opened then (if less peak x then x else peak) else x

  abbrev threshold : Float → Float → Float → Float
  threshold entry pct per_share = if positive pct then times entry pct else per_share

  unfoldable pub fires : StopExitPolicy Float → Float → Float → Float → Bool
  fires p entry x peak =
      let stop_threshold = threshold entry p.stop_loss_pct p.stop_loss_per_share in
      let trail = threshold entry p.trail_activate_pct p.trail_activate_per_share in
      (positive stop_threshold && less x (neg stop_threshold))
      || (positive trail && (less_eq trail peak && less x (times peak p.trail_pct)))

  -- Whether a stop is triggered, and the peaks.
  unfoldable pub stop_triggered :
      StopExits Float → Quote → Position → Option ℕ → Bool × Dict String (Option ℕ × Float)
  unfolding stop_enabled fires
  stop_triggered c q position opened =
      let entry = to_float position.avg_entry_price in
      let x = unrealized_per_share position.quantity q entry in
      let peak = peak_of (lookup q.symbol c.peak_pnl_per_share) opened x in
      if not (stop_enabled c.policy) || less_eq entry (of_int (pos 0))
      then (false, c.peak_pnl_per_share)
      else (fires c.policy entry x peak, insert q.symbol (opened, peak) c.peak_pnl_per_share)

  abbrev pub reason_of : Bool → Bool → Option StopReason
  reason_of true late = some stop
  reason_of false true = some session_flat
  reason_of false false = none

  module _ {W : Type 0} (view : W → Holdings String) (publish : DeRiskRequirement → W → W)
      (hexdigest : String → String) (bounds : Option (ℕ → ℤ)) where
    abbrev seed_of : Quote → StopReason → String
    seed_of q reason = append q.correlation_id (
        append ":" (
          append (decimal q.timestamp_ns)
            (append ":" (append q.symbol (append ":" (reason_name reason))))))

    abbrev pub requirement : StopExits Float → Quote → ℤ → StopReason → DeRiskRequirement
    requirement c q quantity reason = record {
      timestamp_ns = q.timestamp_ns;
      correlation_id = q.correlation_id;
      sequence = (next c.seq).1;
      source_layer = "RISK";
      order_id = derive_order_id hexdigest (seed_of q reason);
      symbol = q.symbol;
      side = closing_side quantity;
      quantity = abs quantity;
      strategy_id = "";
      reason = reason_name reason;
    }

    abbrev pub emit_exit :
        StopExits Float
        → Quote
        → ℤ
        → Option ℕ
        → Option StopReason
        → W
        → StopExits Float × W × Option DeRiskRequirement
    emit_exit c q quantity opened none w = (c, w, none)
    emit_exit c q quantity opened (some reason) w =
        let r = requirement c q quantity reason in
        if is_pending (lookup q.symbol c.pending_exit_symbols) opened quantity
        then (c, w, none)
        else (
          record c {
            seq = (next c.seq).0;
            pending_exit_symbols =
                insert q.symbol (opened, quantity) (erase q.symbol c.pending_exit_symbols);
          },
          publish r w,
          some r,
        )

    unfoldable pub on_quote :
        Quote → StopExits Float → W → StopExits Float × W × Option DeRiskRequirement
    unfolding stop_triggered derive_order_id
    on_quote q c w =
        let store = view w in
        let position = store.get q.symbol in
        let opened = store.opened_at_ns q.symbol in
        let (stopped, peaks) = stop_triggered c q position opened in
        let late =
          past_deadline bounds c.policy.session_flatten_enabled
            c.policy.session_flatten_seconds_before_close q.exchange_timestamp_ns in
        if is_zero position.quantity
        then (
          record c {
            peak_pnl_per_share = erase q.symbol c.peak_pnl_per_share;
            pending_exit_symbols = erase q.symbol c.pending_exit_symbols;
          },
          w,
          none,
        )
        else emit_exit (record c { peak_pnl_per_share = peaks }) q position.quantity opened
            (reason_of stopped late) w
