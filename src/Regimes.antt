-- ===== src/Regimes.antt =====
-- src/feelies/services/regime_hazard_detector.py: the detector of a decay of the dominant regime,
-- with the records of src/feelies/core/events.py that it reads and emits. A set of keys is a list;
-- `at` has a default that no index reaches once a pair of states is validated.
pub mod Episodes
use feelies.Kit.{
  ℕ, zero, suc, ◌+◌, String, Bool, true, false, not, ◌&&◌, ◌||◌, Option, none, some, List, [], ◌∷◌,
  Result, ok, err, Eq, ltb, leb, nat_eq, if◌then◌else◌, string_Eq, pair_Eq, length,
}
use feelies.Kit.Int.{ℤ, pos, negsuc, pos_part, is_neg, leb_ℤ, eqb_ℤ}
use feelies.Kit.Floats.{Floats}
use feelies.Exits.{listed}

pub record RegimeState (R : Type 0) : Type 0 where
  pub timestamp_ns : ℕ
  pub correlation_id : String
  pub sequence : ℕ
  pub symbol : String
  pub engine_name : String
  pub state_names : List String
  pub posteriors : List R
  pub dominant_state : ℤ
  pub dominant_name : String

pub record RegimeHazardSpike (R : Type 0) : Type 0 where
  pub timestamp_ns : ℕ
  pub correlation_id : String
  pub sequence : ℕ
  pub symbol : String
  pub engine_name : String
  pub departing_state : String
  pub departing_posterior_prev : R
  pub departing_posterior_now : R
  pub incoming_state : Option String
  pub hazard_score : R

pub data ContractError : Type 0 where
  other_symbol other_engine other_names other_length posteriors_length : ContractError
  dominant_out_of_range dominant_name_differs : String → ContractError

-- `(symbol, engine_name, departing_state)`, as a pair of pairs
abbrev pub Key : Type 0
Key = (String × String) × String

abbrev pub at : {A : Type 0} → A → List A → ℕ → A
at d [] i = d
at d (x ∷ xs) zero = x
at d (x ∷ xs) (suc i) = at d xs i

abbrev same_names : List String → List String → Bool
same_names [] [] = true
same_names [] (y ∷ ys) = false
same_names (x ∷ xs) [] = false
same_names (x ∷ xs) (y ∷ ys) = string_Eq.eqb x y && same_names xs ys

abbrev or_index : Option ℕ → Option ℕ → Option ℕ
or_index none found = found
or_index (some i) found = some i

-- `index_by_name.get(name)`: of equal names the last one counts.
abbrev index_from : ℕ → String → List String → Option ℕ
index_from i name [] = none
index_from i name (x ∷ xs) =
    or_index (index_from (suc i) name xs) (if string_Eq.eqb x name then some i else none)

module _ {K : Type 0} ⦃e : Eq K⦄ where
  abbrev pub discard : K → List K → List K
  discard k [] = []
  discard k (x ∷ xs) = let rest = discard k xs in if e.eqb x k then rest else x ∷ rest

  abbrev pub discard_each : List K → List K → List K
  discard_each [] suppressed = suppressed
  discard_each (k ∷ ks) suppressed = discard_each ks (discard k suppressed)

module _ (fl : Floats) where
  open fl use {Float, literal, minus, over, less, less_eq}

  -- `_validate_dominant_consistency`
  unfoldable pub validate_dominant : String → RegimeState Float → Option ContractError
  validate_dominant label s =
      if is_neg s.dominant_state || leb_ℤ (pos (length s.state_names)) s.dominant_state
      then some (dominant_out_of_range label)
      else if string_Eq.eqb s.dominant_name (at "" s.state_names (pos_part s.dominant_state))
      then none
      else some (dominant_name_differs label)

  abbrev or_error : Option ContractError → Option ContractError → Option ContractError
  or_error (some e) later = some e
  or_error none later = later

  -- `_validate_pair`
  unfoldable pub validate_pair : RegimeState Float → RegimeState Float → Option ContractError
  unfolding validate_dominant
  validate_pair prev curr =
      if not (string_Eq.eqb prev.symbol curr.symbol)
      then some other_symbol
      else if not (string_Eq.eqb prev.engine_name curr.engine_name)
      then some other_engine
      else if not (same_names prev.state_names curr.state_names)
      then some other_names
      else if not (nat_eq (length prev.posteriors) (length curr.posteriors))
      then some other_length
      else if not (nat_eq (length prev.posteriors) (length prev.state_names))
      then some posteriors_length
      else or_error (validate_dominant "prev" prev) (validate_dominant "curr" curr)

  abbrev pub floor_of : Float → Float
  floor_of threshold = minus (literal 10 1) threshold

  abbrev has_recovered : Float → List Float → Option ℕ → Bool
  has_recovered floor posteriors none = false
  has_recovered floor posteriors (some i) =
      ltb i (length posteriors) && less_eq floor (at floor posteriors i)

  -- The episode of a key is over: its state is dominant again, or its posterior recovered.
  abbrev pub resolves : Float → RegimeState Float → RegimeState Float → Key → Bool
  resolves threshold prev curr ((symbol, engine), state) =
      string_Eq.eqb symbol curr.symbol
      && (string_Eq.eqb engine curr.engine_name
          && (not (string_Eq.eqb prev.dominant_name curr.dominant_name)
                && string_Eq.eqb state curr.dominant_name
              || has_recovered (floor_of threshold) curr.posteriors
                  (index_from 0 state curr.state_names)))

  abbrev stale : Float → RegimeState Float → RegimeState Float → List Key → List Key
  stale threshold prev curr [] = []
  stale threshold prev curr (k ∷ ks) =
      let rest = stale threshold prev curr ks in
      if resolves threshold prev curr k then k ∷ rest else rest

  unfoldable pub rearm_suppression :
      Float → RegimeState Float → RegimeState Float → List Key → List Key
  rearm_suppression threshold prev curr suppressed =
      discard_each (stale threshold prev curr suppressed) suppressed

  -- The best of the other posteriors: its index and value, and whether it is tied.
  abbrev best_of : ℕ → ℕ → List Float → Option ℕ → Float → Bool → Option ℕ × Bool
  best_of departing i [] best value tie = (best, tie)
  best_of departing i (p ∷ ps) best value tie =
      let better = not (nat_eq i departing) && less value p in
      let equal =
        not (nat_eq i departing) && (not (less value p) && (less_eq value p && less_eq p value)) in
      best_of departing (suc i) ps (if better then some i else best) (if better then p else value)
        (if better then false else if equal then true else tie)

  abbrev incoming_of : List String → Option ℕ × Bool → Option String
  incoming_of names (none, tie) = none
  incoming_of names (some i, tie) = if tie then none else some (at "" names i)

  unfoldable pub resolve_incoming : RegimeState Float → ℕ → Option String
  resolve_incoming curr departing =
      incoming_of curr.state_names
        (best_of departing 0 curr.posteriors none (fl.neg (literal 10 1)) false)

  -- `max(0.0, min(1.0, raw))`
  abbrev unit_clip : Float → Float
  unit_clip raw =
      let low = if less raw (literal 10 1) then raw else literal 10 1 in
      if less (literal 0 1) low then low else literal 0 1

  unfoldable pub spike_of : RegimeState Float → ℕ → String → Float → Float → RegimeHazardSpike Float
  unfolding resolve_incoming
  spike_of curr departing state p_prev p_now =
      let eps = literal 1 12 in
      let denom = if less p_prev eps then eps else p_prev in
      record {
        timestamp_ns = curr.timestamp_ns;
        correlation_id = curr.correlation_id;
        sequence = curr.sequence;
        symbol = curr.symbol;
        engine_name = curr.engine_name;
        departing_state = state;
        departing_posterior_prev = p_prev;
        departing_posterior_now = p_now;
        incoming_state = resolve_incoming curr departing;
        hazard_score = unit_clip (over (minus p_prev p_now) denom);
      }

  abbrev pub key_of : RegimeHazardSpike Float → Key
  key_of s = ((s.symbol, s.engine_name), s.departing_state)

  -- The suppressed keys and the spike of a pair that is validated and re-armed.
  unfoldable pub decide :
      Float
      → RegimeState Float
      → RegimeState Float
      → List Key
      → List Key × Option (RegimeHazardSpike Float)
  unfolding spike_of
  decide threshold prev curr suppressed =
      let departing = pos_part prev.dominant_state in
      let state = at "" prev.state_names departing in
      let p_prev = at (literal 0 0) prev.posteriors departing in
      let p_now = at (literal 0 0) curr.posteriors departing in
      let flipped = not (eqb_ℤ curr.dominant_state prev.dominant_state) in
      let spike = spike_of curr departing state p_prev p_now in
      if less_eq p_prev p_now
      then (suppressed, none)
      else if not (flipped || less p_now (floor_of threshold))
      then (suppressed, none)
      else if listed (key_of spike) suppressed
      then (suppressed, none)
      else (key_of spike ∷ suppressed, some spike)

  abbrev pub Detected : Type 0
  Detected = Result ContractError (List Key × Option (RegimeHazardSpike Float))

  abbrev when_valid : Option ContractError → List Key × Option (RegimeHazardSpike Float) → Detected
  when_valid (some e) decided = err e
  when_valid none decided = ok decided

  unfoldable pub detect :
      Float → Option (RegimeState Float) → RegimeState Float → List Key → Detected
  unfolding validate_pair rearm_suppression decide
  detect threshold none curr suppressed = ok (suppressed, none)
  detect threshold (some prev) curr suppressed =
      when_valid (validate_pair prev curr)
        (decide threshold prev curr (rearm_suppression threshold prev curr suppressed))
