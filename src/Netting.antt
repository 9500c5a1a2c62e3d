-- ===== src/Netting.antt =====
-- src/feelies/core/portfolio_netter.py: the book of standing targets, and the net of the targets
-- of all strategies for a symbol. Times are natural numbers.
use feelies.Kit.{
  ℕ, ◌+◌, String, Bool, true, false, not, ◌&&◌, Option, none, some, List, [], ◌∷◌, map, ltb, leb,
  nat_eq, if◌then◌else◌, string_Eq, pair_Eq,
}
use feelies.Kit.Int.{ℤ, pos, negsuc, ◌+ℤ◌, negℤ, is_pos, is_zero, abs, minℤ, maxℤ, ltb_ℤ}
use feelies.Kit.Floats.{Floats}
use feelies.Kit.Dict.{Dict, lookup, insert, erase}
use feelies.Kit.Sort.{sorted, str_ltb}
use feelies.Plan.{DesiredPosition}
use feelies.Planner.{sign}
pub mod Totals

pub record StandingTarget (R : Type 0) : Type 0 where
  pub strategy_id : String
  pub symbol : String
  pub target_qty : ℤ
  pub edge_bps : R
  pub urgency : R
  pub max_abs_qty : Option ℤ
  pub expiry_ns : Option ℤ

unfoldable pub standing_target_from_desired :
    (fl : Floats)
    → DesiredPosition fl.Float
    → String
    → ℕ
    → ℤ
    → fl.Float
    → Option ℤ
    → StandingTarget fl.Float
standing_target_from_desired fl desired strategy_id signal_ts horizon staleness_k max_abs =
    let life =
      fl.trunc
        (fl.times (fl.times staleness_k (fl.of_int horizon)) (fl.of_int (pos 1_000_000_000))) in
    record {
      strategy_id = strategy_id;
      symbol = desired.symbol;
      target_qty = desired.target_qty;
      edge_bps = desired.edge_bps;
      urgency = desired.urgency;
      max_abs_qty = max_abs;
      expiry_ns =
          if is_pos horizon && fl.less (fl.literal 0 0) staleness_k
          then some (pos signal_ts +ℤ life)
          else none;
    }

abbrev pub clamp : ℤ → ℤ → ℤ
clamp x limit = maxℤ (negℤ limit) (minℤ limit x)

-- `x if limit is None else _clamp(x, limit)`
abbrev pub capped : Option ℤ → ℤ → ℤ
capped none x = x
capped (some limit) x = clamp x limit

abbrev pub past : Option ℤ → ℕ → Bool
past none now = false
past (some expiry) now = ltb_ℤ expiry (pos now)

abbrev pub Key : Type 0
Key = String × String

-- `DesiredTargetBook`
abbrev pub TargetBook : Type 0 → Type 0
TargetBook R = Dict Key (StandingTarget R)

-- `clamped`: each target with its quantity within its budget.
abbrev pub Clamped : Type 0 → Type 0
Clamped R = List (ℤ × StandingTarget R)

abbrev same_sign : ℤ → ℤ → Bool
same_sign a b = if is_pos a then is_pos b else not (is_pos b)

module _ {R : Type 0} where
  abbrev pub is_stale : StandingTarget R → ℕ → Bool
  is_stale t now = past t.expiry_ns now

  unfoldable pub put : StandingTarget R → TargetBook R → TargetBook R
  put t book = insert (t.strategy_id, t.symbol) t book

  unfoldable pub clear : String → String → TargetBook R → TargetBook R
  clear strategy_id symbol book = erase (strategy_id, symbol) book

  unfoldable pub get : String → String → TargetBook R → Option (StandingTarget R)
  get strategy_id symbol book = lookup (strategy_id, symbol) book

  abbrev pub is_live : String → ℕ → Key → StandingTarget R → Bool
  is_live symbol now key t = string_Eq.eqb key.1 symbol && not (is_stale t now)

  abbrev pub live : String → ℕ → TargetBook R → List (StandingTarget R)
  live symbol now [] = []
  live symbol now ((key, t) ∷ book) =
      let rest = live symbol now book in if is_live symbol now key t then t ∷ rest else rest

  abbrev pub by_strategy : StandingTarget R → StandingTarget R → Bool
  by_strategy a b = str_ltb a.strategy_id b.strategy_id

  unfoldable pub live_targets : String → ℕ → TargetBook R → List (StandingTarget R)
  live_targets symbol now book = sorted by_strategy (live symbol now book)

  -- `symbols`, a set, as a list
  abbrev pub symbols : TargetBook R → List String
  symbols book = map (λ entry. entry.0.1) book

  abbrev pub clamp_all : List (StandingTarget R) → Clamped R
  clamp_all ts = map (λ t. (capped t.max_abs_qty t.target_qty, t)) ts

  abbrev pub total_of : Clamped R → ℤ
  total_of [] = pos 0
  total_of ((q, t) ∷ rest) = q +ℤ total_of rest

  abbrev pub aligned : ℤ → Clamped R → Clamped R
  aligned total [] = []
  aligned total ((q, t) ∷ rest) =
      let others = aligned total rest in
      if not (is_zero q) && same_sign q total && not (is_zero (sign total))
      then (q, t) ∷ others
      else others

  abbrev pub weight_of : Clamped R → ℤ
  weight_of [] = pos 0
  weight_of ((q, t) ∷ rest) = abs q +ℤ weight_of rest

module _ (fl : Floats) where
  open fl use {Float}

  abbrev weighted : Clamped Float → List Float
  weighted xs = map (λ x. fl.times x.1.edge_bps (fl.of_int (abs x.0))) xs

  abbrev most : Float → List Float → Float
  most best [] = best
  most best (x ∷ xs) = most (if fl.less best x then x else best) xs

  abbrev most_urgent : Clamped Float → Float
  most_urgent [] = fl.literal 5 1
  most_urgent ((q, t) ∷ rest) = most t.urgency (map (λ x. x.1.urgency) rest)

  unfoldable pub net : TargetBook Float → Option ℤ → String → ℕ → DesiredPosition Float
  unfolding live_targets
  net book portfolio_max symbol now =
      let clamped = clamp_all (live_targets symbol now book) in
      let total = capped portfolio_max (total_of clamped) in
      let supporters = aligned total clamped in
      let weight = weight_of supporters in
      record {
        symbol = symbol;
        target_qty = total;
        direction = sign total;
        edge_bps =
            if is_pos weight
            then fl.over (fl.sum (weighted supporters)) (fl.of_int weight)
            else fl.literal 0 0;
        urgency = most_urgent supporters;
        source = "portfolio_net";
        reason = "netted";
      }
