-- ===== src/Exits.antt =====
-- The controllers of the risk layer that ask for a position to be closed:
-- src/feelies/risk/stop_exit.py, src/feelies/risk/hazard_exit.py,
-- src/feelies/risk/deferral_cap.py and src/feelies/risk/exit_composer.py. They share the
-- requirement that they publish (`DeRiskRequirement` of src/feelies/core/events.py) and the way
-- they tell that one is pending. A controller is called on the bus, and what it publishes is
-- handled before it goes on. So the world is passed along: `view` is the position store as the
-- protocols show it, and `publish` is all that the subscribers do.
pub mod Stop
pub mod Hazard
pub mod Deferral
pub mod Composer
pub mod Composed
pub mod Closes
pub mod Once
pub mod Deadline
use feelies.Kit.{
  ℕ, String, Bool, true, false, not, ◌&&◌, Option, none, some, List, [], ◌∷◌, Eq, nat_eq,
  if◌then◌else◌, string_Eq,
}
use feelies.Kit.Int.{ℤ, pos, is_pos, is_zero, eqb_ℤ, abs}
use feelies.Kit.Dict.{Dict, lookup, insert, erase}
use feelies.Market.{Side, buy, sell, Position}

pub record DeRiskRequirement : Type 0 where
  pub timestamp_ns : ℕ
  pub correlation_id : String
  pub sequence : ℕ
  pub source_layer : String
  pub order_id : String
  pub symbol : String
  pub side : Side
  pub quantity : ℤ
  pub strategy_id : String
  pub reason : String

-- The part of a position store's protocol that the controllers call, for keys `K`.
pub record Holdings (K : Type 0) : Type 0 where
  pub get : K → Position
  pub opened_at_ns : K → Option ℕ

-- `Side.SELL if quantity > 0 else Side.BUY`
abbrev pub closing_side : ℤ → Side
closing_side quantity = if is_pos quantity then sell else buy

-- `(opened, quantity)`, the episode that an exit was asked for.
abbrev pub Episode : Type 0
Episode = Option ℕ × ℤ

abbrev pub same_time : Option ℕ → Option ℕ → Bool
same_time none none = true
same_time (some a) (some b) = nat_eq a b
same_time none (some b) = false
same_time (some a) none = false

-- `pending is not None and pending == (opened, quantity)`
abbrev pub is_pending : Option Episode → Option ℕ → ℤ → Bool
is_pending none opened quantity = false
is_pending (some (at, held)) opened quantity = same_time at opened && eqb_ℤ held quantity

-- `not universe or symbol in universe`
abbrev pub listed : {K : Type 0} → ⦃e : Eq K⦄ → K → List K → Bool
listed ⦃e⦄ k [] = false
listed ⦃e⦄ k (x ∷ xs) = if e.eqb x k then true else listed k xs

abbrev pub covers : List String → String → Bool
covers [] symbol = true
covers (s ∷ ss) symbol = listed symbol (s ∷ ss)
