-- ===== src/Exits/Hazard.antt =====
-- src/feelies/risk/hazard_exit.py: `HazardExitController`, which closes a position on a regime
-- hazard spike, or when it is too old.
use feelies.Kit.{
  ℕ, ◌*◌, String, Bool, true, false, not, ◌&&◌, ◌||◌, Option, none, some, List, [], ◌∷◌,
  if◌then◌else◌, string_Eq, pair_Eq,
}
use Prim.Native.String.{◌++◌ as append}
use feelies.Kit.Int.{ℤ, pos, ◌-ℤ◌, is_zero, abs, ltb_ℤ}
use feelies.Kit.Dict.{Dict, lookup, insert, erase}
use feelies.Kit.Sort.{sorted, str_ltb}
use feelies.Sequence
use feelies.Sequence.{SequenceGenerator, next, decimal, derive_order_id}
use feelies.Exits.{DeRiskRequirement, Holdings, closing_side, Episode, is_pending, covers, listed}

pub data HazardReason : Type 0 where
  spike hard_age : HazardReason

abbrev pub reason_name : HazardReason → String
reason_name spike = "HAZARD_SPIKE"
reason_name hard_age = "HARD_EXIT_AGE"

abbrev pub is_spike : HazardReason → Bool
is_spike spike = true
is_spike hard_age = false

pub record HazardPolicy (R : Type 0) : Type 0 where
  pub strategy_id : String
  pub hazard_score_threshold : R
  pub min_age_seconds : ℕ
  pub hard_exit_age_seconds : Option ℕ
  pub universe : List String
  pub applies_to_regimes : List String

-- The fields of a `RegimeHazardSpike` that the controller reads.
pub record Spike (R : Type 0) : Type 0 where
  pub timestamp_ns : ℕ
  pub correlation_id : String
  pub symbol : String
  pub departing_state : String
  pub incoming_state : Option String
  pub hazard_score : R

-- `(strategy_id, symbol, reason)`
abbrev pub EpisodeKey : Type 0
EpisodeKey = String × (String × String)

pub record HazardExits (R : Type 0) : Type 0 where
  pub policies : Dict String (HazardPolicy R)
  pub seq : SequenceGenerator
  pub attached : Bool
  pub emitted_for_episode : List EpisodeKey
  pub pending_exit_symbols : Dict String Episode

abbrev pub discard : EpisodeKey → List EpisodeKey → List EpisodeKey
discard k [] = []
discard k (x ∷ xs) = let rest = discard k xs in if pair_Eq.eqb x k then rest else x ∷ rest

abbrev candidates : String → Option String → List String
candidates departing none = departing ∷ []
candidates departing (some incoming) = departing ∷ append departing (append " -> " incoming) ∷ []

abbrev any_in : List String → List String → Bool
any_in [] names = false
any_in (x ∷ xs) names = listed x names || any_in xs names

unfoldable pub spike_matches_regimes : String → Option String → List String → Bool
spike_matches_regimes departing incoming [] = true
spike_matches_regimes departing incoming (r ∷ rs) = any_in (r ∷ rs) (candidates departing incoming)

module _ {R : Type 0} where
  unfoldable pub create : Dict String (HazardPolicy R) → SequenceGenerator → HazardExits R
  create policies seq = record {
    policies = policies;
    seq = seq;
    attached = false;
    emitted_for_episode = [];
    pending_exit_symbols = [];
  }

  unfoldable pub reset : HazardExits R → HazardExits R
  reset c = record c {
    emitted_for_episode = [];
    pending_exit_symbols = [];
    seq = Sequence.reset c.seq;
  }

  unfoldable pub register_policy : HazardPolicy R → HazardExits R → HazardExits R
  register_policy p c = record c { policies = insert p.strategy_id p c.policies }

  -- `attach`, and the types of events that it subscribes to.
  abbrev attach_to : Dict String (HazardPolicy R) → HazardExits R → HazardExits R × List String
  attach_to [] c = (c, [])
  attach_to (p ∷ ps) c = (record c { attached = true }, "RegimeHazardSpike" ∷ "Trade" ∷ [])

  unfoldable pub attach : HazardExits R → HazardExits R × List String
  attach c = if c.attached then (c, []) else attach_to c.policies c

abbrev pub ns_per_second : ℕ
ns_per_second = 1_000_000_000

-- `age_ns < int(seconds) * 1_000_000_000`, where the age is known.
abbrev pub younger : ℕ → Option ℕ → ℕ → Bool
younger now none seconds = false
younger now (some opened) seconds = ltb_ℤ (pos now -ℤ pos opened) (pos (seconds * ns_per_second))

abbrev pub seed_of : String → ℕ → String → HazardReason → String
seed_of correlation_id now symbol reason = append correlation_id (
    append ":"
      (append (decimal now) (append ":" (append symbol (append ":" (reason_name reason))))))

abbrev pub key_of : String → String → HazardReason → EpisodeKey
key_of sid symbol reason = (sid, (symbol, reason_name reason))

abbrev pub too_old : Option ℕ → ℕ → Option ℕ → Bool
too_old none now opened = false
too_old (some seconds) now none = false
too_old (some seconds) now (some opened) = not (younger now (some opened) seconds)

module _ {R W : Type 0} (view : W → Holdings String) (publish : DeRiskRequirement → W → W)
    (hexdigest : String → String) where
  abbrev pub requirement :
      HazardExits R → String → String → ℤ → ℕ → String → HazardReason → DeRiskRequirement
  requirement c sid symbol quantity now correlation_id reason = record {
    timestamp_ns = now;
    correlation_id = correlation_id;
    sequence = (next c.seq).1;
    source_layer = "RISK";
    order_id = derive_order_id hexdigest (seed_of correlation_id now symbol reason);
    symbol = symbol;
    side = closing_side quantity;
    quantity = abs quantity;
    strategy_id = sid;
    reason = reason_name reason;
  }

  -- A flat position ends the episode.
  abbrev pub cleared : HazardExits R → String → String → HazardReason → HazardExits R
  cleared c sid symbol reason = record c {
    emitted_for_episode = discard (key_of sid symbol reason) c.emitted_for_episode;
    pending_exit_symbols = erase symbol c.pending_exit_symbols;
  }

  unfoldable pub maybe_emit_exit :
      HazardPolicy R
      → String
      → String
      → ℕ
      → String
      → HazardReason
      → HazardExits R
      → W
      → HazardExits R × W × Option DeRiskRequirement
  unfolding derive_order_id
  maybe_emit_exit p sid symbol now correlation_id reason c w =
      let store = view w in
      let quantity = (store.get symbol).quantity in
      let opened = store.opened_at_ns symbol in
      let key = key_of sid symbol reason in
      let dropped = record c { pending_exit_symbols = erase symbol c.pending_exit_symbols } in
      let r = requirement c sid symbol quantity now correlation_id reason in
      if is_zero quantity
      then (cleared c sid symbol reason, w, none)
      else if listed key c.emitted_for_episode
      then (c, w, none)
      else if is_pending (lookup symbol c.pending_exit_symbols) opened quantity
      then (c, w, none)
      else if is_spike reason && younger now opened p.min_age_seconds
      then (dropped, w, none)
      else (
        record c {
          seq = (next c.seq).0;
          emitted_for_episode = key ∷ c.emitted_for_episode;
          pending_exit_symbols =
              insert symbol (opened, quantity) (erase symbol c.pending_exit_symbols);
        },
        publish r w,
        some r,
      )

  abbrev pub entries : HazardExits R → List (String × HazardPolicy R)
  entries c = sorted (λ a b. str_ltb a.0 b.0) c.policies

  unfoldable pub spike_each :
      (R → R → Bool)
      → List (String × HazardPolicy R)
      → Spike R
      → HazardExits R
      → W
      → HazardExits R × W
  unfolding spike_matches_regimes
  spike_each less [] s c w = (c, w)
  spike_each less ((sid, p) ∷ rest) s c w =
      let (c', w', emitted) =
        maybe_emit_exit p sid s.symbol s.timestamp_ns s.correlation_id spike c w in
      let applies =
        covers p.universe s.symbol
        && (not (less s.hazard_score p.hazard_score_threshold)
            && spike_matches_regimes s.departing_state s.incoming_state p.applies_to_regimes) in
      spike_each less rest s (if applies then c' else c) (if applies then w' else w)

  -- `less` is `<` on floats.
  unfoldable pub on_spike : (R → R → Bool) → Spike R → HazardExits R → W → HazardExits R × W
  unfolding spike_each
  on_spike less s c w = spike_each less (entries c) s c w

  unfoldable pub trade_each :
      List (String × HazardPolicy R) → String → ℕ → String → HazardExits R → W → HazardExits R × W
  trade_each [] symbol now correlation_id c w = (c, w)
  trade_each ((sid, p) ∷ rest) symbol now correlation_id c w =
      let (c', w', emitted) = maybe_emit_exit p sid symbol now correlation_id hard_age c w in
      let applies =
        covers p.universe symbol
        && too_old p.hard_exit_age_seconds now ((view w).opened_at_ns symbol) in
      trade_each rest symbol now correlation_id (if applies then c' else c)
        (if applies then w' else w)

  unfoldable pub on_trade : String → ℕ → String → HazardExits R → W → HazardExits R × W
  unfolding trade_each
  on_trade symbol now correlation_id c w = trade_each (entries c) symbol now correlation_id c w
