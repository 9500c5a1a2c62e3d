-- ===== src/Examples/Exiting.antt =====
-- Exits of src/feelies/risk/stop_exit.py, src/feelies/risk/hazard_exit.py and
-- src/feelies/risk/deferral_cap.py at concrete inputs.
use feelies.Kit.{ℕ, String, ◌≡◌, refl, true, false, none, some, List, [], ◌∷◌}
use feelies.Kit.Int.{ℤ, pos, negsuc, ◌+ℤ◌, ◌-ℤ◌, ◌*ℤ◌, negℤ}
use feelies.Market.{blank}
use feelies.Sequence.{SequenceGenerator, create_sequence}
use feelies.Exits.{DeRiskRequirement, Holdings}
use feelies.Exits.Stop
use feelies.Exits.Stop.{
  Quote, StopExits, StopExitPolicy, on_quote, stop_triggered, stop_enabled, fires,
}
use feelies.Exits.Deferral
use feelies.Exits.Deferral.{DeferralPolicy, DeferralCaps, Slice, maybe_emit_exit, episode_deadline}
use feelies.Exits.Closes.{Closes, on_quote-Closes, deferral-Closes}
use feelies.Exits.Deadline.{is_some, is_due, emitted-eq-is_due}
use feelies.Exits.Once.{Attempt, exits_of, maybe_emit_exit-once}
use feelies.Sequence
use feelies.Examples.Toy.{toy}

abbrev Log : Type 0
Log = List DeRiskRequirement

abbrev published : DeRiskRequirement → Log → Log
published r log = r ∷ log

abbrev hex : String → String
hex s = s

-- Ten shares bought at 100, open since 5.
abbrev book : Log → Holdings String
book log = record {
  get = λ symbol. record (blank symbol) { quantity = pos 10; avg_entry_price = pos 100 };
  opened_at_ns = λ symbol. some 5;
}

abbrev slices : Log → Holdings Slice
slices log = record {
  get = λ key. record (blank key.1) { quantity = negsuc 3; avg_entry_price = pos 100 };
  opened_at_ns = λ key. some 5;
}

abbrev stops : StopExits ℤ
stops = record {
  policy = record {
    stop_loss_per_share = pos 4000;
    trail_activate_per_share = pos 0;
    stop_loss_pct = pos 0;
    trail_activate_pct = pos 0;
    trail_pct = pos 500;
    session_flatten_enabled = false;
    session_flatten_seconds_before_close = 0;
  };
  seq = create_sequence 0;
  attached = true;
  peak_pnl_per_share = [];
  pending_exit_symbols = [];
}

abbrev half : ℤ → ℤ
half (pos n) = pos 94
half n = n

abbrev quote : Quote
quote = record {
  timestamp_ns = 9;
  exchange_timestamp_ns = 8;
  correlation_id = "c";
  symbol = "AAPL";
  bid = pos 93;
  ask = pos 95;
}

abbrev dollars : ℤ → ℤ
dollars x = x *ℤ pos 1000

abbrev stop_order : DeRiskRequirement
stop_order =
    Stop.requirement toy dollars half book published hex none stops quote (pos 10) Stop.stop

on_quote-Closes_example : Closes "" "AAPL" (pos 10) stop_order
unfolding on_quote stop_triggered stop_enabled fires ◌+ℤ◌ ◌-ℤ◌ ◌*ℤ◌ negℤ Sequence.derive_order_id
on_quote-Closes_example =
    on_quote-Closes published hex toy dollars half book none quote stops [] refl

abbrev policy : DeferralPolicy
policy = record {
  strategy_id = "s";
  max_hold_after_safe_off_seconds = 1;
  hard_exit_age_seconds = 100;
  universe = [];
}

abbrev caps : DeferralCaps
caps = record {
  policies = ("s", policy) ∷ [];
  seq = create_sequence 0;
  attached = true;
  session_flatten_enabled = false;
  session_flatten_buffer_ns = 0;
  first_safe_off_ns = (("s", "AAPL"), (5, 7)) ∷ [];
  pending_exit = [];
}

abbrev close_at : ℕ → ℤ
close_at n = pos 10_000_000_000

abbrev cover : DeRiskRequirement
cover =
    Deferral.requirement close_at slices published hex
      (Deferral.refreshed close_at slices published hex caps ("s", "AAPL") (some 5) (negsuc 3))
      ("s", "AAPL") (negsuc 3) 1_000_000_007 "c" Deferral.max_hold

cover_run :
    (maybe_emit_exit close_at slices published hex policy ("s", "AAPL") 1_000_000_007 "c" caps []).2
    ≡ some cover
unfolding maybe_emit_exit episode_deadline
cover_run = refl

deferral-Closes_example : Closes "s" "AAPL" (negsuc 3) cover
deferral-Closes_example =
    deferral-Closes published hex close_at slices policy ("s", "AAPL") 1_000_000_007 "c" caps []
      cover_run

emitted-eq-is_due_example :
    is_some
      (maybe_emit_exit close_at slices published hex policy
        ("s", "AAPL")
        1_000_000_006
        "c"
        caps
        []).2
    ≡ is_due close_at caps policy 5 7 1_000_000_006
emitted-eq-is_due_example =
    emitted-eq-is_due close_at slices published hex policy ("s", "AAPL") 1_000_000_006 "c" caps [] 7
      5 refl refl refl refl

-- Two more trades, one of them at another slice of the same symbol.
abbrev attempts : List (Attempt close_at slices published hex)
attempts =
    record {
      policy = policy;
      slice = ("t", "AAPL");
      now = 1_000_000_008;
      correlation_id = "d";
      world = cover ∷ [];
    }
    ∷ record {
      policy = policy;
      slice = ("s", "AAPL");
      now = 2_000_000_000;
      correlation_id = "e";
      world = cover ∷ [];
    }
    ∷ []

maybe_emit_exit-once_example :
    exits_of close_at slices published hex
      ("s", "AAPL")
      attempts
      (maybe_emit_exit close_at slices published hex policy
        ("s", "AAPL")
        1_000_000_007
        "c"
        caps
        []).0
    ≡ []
maybe_emit_exit-once_example =
    maybe_emit_exit-once close_at slices published hex policy ("s", "AAPL") 1_000_000_007 "c" caps
      [] attempts cover_run ((refl, refl), ((refl, refl), tt))
