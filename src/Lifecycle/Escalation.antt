-- ===== src/Lifecycle/Escalation.antt =====
-- src/feelies/core/escalation.py: the levels of risk escalation.
use feelies.Kit.{ℕ, String, ◌≡◌, refl, none, some, List, [], ◌∷◌, Eq}
use feelies.Kit.Dict.{Dict}
use feelies.Kit.Members.{get_elem?, by_value}
use feelies.Machine.{Enum, StateMachine, Fault, Result, create}

pub data RiskLevel : Type 0 where
  normal warning breach_detected forced_flatten locked : RiskLevel

abbrev pub members : List RiskLevel
members = normal ∷ warning ∷ breach_detected ∷ forced_flatten ∷ locked ∷ []

abbrev pub name : RiskLevel → String
name normal = "NORMAL"
name warning = "WARNING"
name breach_detected = "BREACH_DETECTED"
name forced_flatten = "FORCED_FLATTEN"
name locked = "LOCKED"

-- The value that `auto()` gives, less one.
abbrev pub value : RiskLevel → ℕ
value normal = 0
value warning = 1
value breach_detected = 2
value forced_flatten = 3
value locked = 4

pub found : (s : RiskLevel) → get_elem? members (value s) ≡ some s
found normal = refl
found warning = refl
found breach_detected = refl
found forced_flatten = refl
found locked = refl

instance abbrev pub RiskLevel_Eq : Eq RiskLevel
RiskLevel_Eq = by_value members value found

abbrev pub enum : Enum RiskLevel
enum = record { members = members; name = name }

abbrev pub transitions : Dict RiskLevel (List RiskLevel)
transitions =
    (normal, warning ∷ [])
    ∷ (warning, breach_detected ∷ [])
    ∷ (breach_detected, forced_flatten ∷ [])
    ∷ (forced_flatten, locked ∷ [])
    ∷ (locked, normal ∷ [])
    ∷ []

module _ {W E : Type 0} where
  -- `create_risk_escalation_machine`
  unfoldable pub create_risk_escalation_machine :
      Result (Fault RiskLevel E) (StateMachine RiskLevel W E)
  create_risk_escalation_machine = create enum "risk_escalation" normal transitions none none
