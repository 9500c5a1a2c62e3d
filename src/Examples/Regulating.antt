-- ===== src/Examples/Regulating.antt =====
-- Day trades, regimes and the exit table at concrete inputs
-- (src/feelies/execution/regulatory/pdt_constraint.py,
-- src/feelies/services/regime_hazard_detector.py, src/feelies/risk/exit_composer.py).
use feelies.Kit.{
  ℕ, suc, arith, string_Eq, pair_Eq, ◌-◌, ◌/◌, ◌≡◌, refl, true, false, not, ◌&&◌, ◌||◌, none, some,
  [], ◌∷◌, ok, ltb, if◌then◌else◌,
}
use feelies.Kit.Int.{ℤ, pos, ◌+ℤ◌, ◌-ℤ◌, ◌*ℤ◌, negℤ}
use feelies.Kit.Dict.{lookup}
use feelies.DayTrades.{
  PdtConstraint, margin_25k, business_days_between, record_fill, round_trip_count, is_day,
}
use feelies.DayTrades.Weeks.{weekdays_after, business_days_between-weekdays}
use feelies.DayTrades.Pruning.{shrinks, record_fill-count}
use feelies.Exits.Composer.{
  BookState, SafetyPermission, StoryPermission, compose_exit, is_exit, is_flat, is_off,
}
use feelies.Exits.Composed.{is_story_off, is_unknown, compose_exit-conditions}
use feelies.Regimes.{RegimeState, RegimeHazardSpike, detect, key_of, spike_of}
use feelies.Regimes.Episodes.{observe, unresolved, none_for, detect-once}
use feelies.Examples.Toy.{toy}

business_days_between-weekdays_example :
    business_days_between 739000 739011 ≡ weekdays_after 739000 (739011 - 739000)
business_days_between-weekdays_example = business_days_between-weekdays 739000 739011

-- One trip of today, and a position that was opened today.
abbrev account : PdtConstraint
account = record {
  config = record {
    account_type = margin_25k;
    account_id = "default";
    min_equity = pos 25000;
    flag_round_trip_threshold = 4;
    window_business_days = 5;
  };
  open_trade_date = (("default", "AAPL"), 739000) ∷ [];
  round_trips = ("default", 738950 ∷ 739000 ∷ []) ∷ [];
}

abbrev days : ℕ → ℕ
days t = t / 86400

record_fill-count_example :
    round_trip_count days "default" 63849686400
      (record_fill days "default" "AAPL" (pos 100) (pos 0) 63849600000 account)
    ≡ (if (shrinks (pos 100) (pos 0)
            && is_day (lookup ("default", "AAPL") account.open_trade_date) 739000)
          && ltb (business_days_between 739000 739001) 5
        then suc (round_trip_count days "default" 63849686400 account)
        else round_trip_count days "default" 63849686400 account)
record_fill-count_example =
    record_fill-count days "default" "AAPL" (pos 100) (pos 0) 63849600000 63849686400 account
      (omega arith) (omega arith)

compose_exit-conditions_example :
    is_exit
      (compose_exit BookState.long SafetyPermission.off StoryPermission.story_on false true false)
    ≡ not (is_flat BookState.long)
      && (false
          || (is_story_off StoryPermission.story_on
              || is_off SafetyPermission.off
                && (false || is_unknown StoryPermission.story_on && true)))
compose_exit-conditions_example =
    compose_exit-conditions BookState.long SafetyPermission.off StoryPermission.story_on false true
      false

abbrev calm : RegimeState ℤ
calm = record {
  timestamp_ns = 1;
  correlation_id = "c";
  sequence = 1;
  symbol = "AAPL";
  engine_name = "hmm";
  state_names = "calm" ∷ "wild" ∷ [];
  posteriors = pos 900 ∷ pos 100 ∷ [];
  dominant_state = pos 0;
  dominant_name = "calm";
}

abbrev decaying : RegimeState ℤ
decaying = record calm { sequence = 2; posteriors = pos 600 ∷ pos 400 ∷ [] }

abbrev decayed : RegimeState ℤ
decayed = record calm { sequence = 3; posteriors = pos 550 ∷ pos 450 ∷ [] }

abbrev spike : RegimeHazardSpike ℤ
spike = spike_of toy decaying 0 "calm" (pos 900) (pos 600)

detect_spikes :
    detect toy (pos 300) (some calm) decaying [] ≡ ok (key_of toy spike ∷ [], some spike)
unfolding detect ◌-ℤ◌ ◌+ℤ◌ negℤ ◌*ℤ◌
detect_spikes = refl

observe-none :
    observe toy (pos 300) decaying (decayed ∷ []) (key_of toy spike ∷ []) ≡ ok (none ∷ [])
unfolding observe ◌-ℤ◌ ◌+ℤ◌ negℤ ◌*ℤ◌
observe-none = refl

still_open : unresolved toy (pos 300) (key_of toy spike) decaying (decayed ∷ []) ≡ true
unfolding spike_of ◌-ℤ◌
still_open = refl

detect-once_example : none_for toy (pos 300) (key_of toy spike) (none ∷ []) ≡ true
detect-once_example =
    detect-once toy (pos 300) calm decaying (decayed ∷ []) [] detect_spikes still_open observe-none
