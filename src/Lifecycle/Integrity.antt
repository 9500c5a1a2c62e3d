-- ===== src/Lifecycle/Integrity.antt =====
-- src/feelies/core/data_health.py (`DataHealth`) and src/feelies/ingestion/data_integrity.py: the
-- health of a stream.
use feelies.Kit.{
  ℕ, String, ◌≡◌, refl, Option, none, some, List, [], ◌∷◌, Eq, string_Eq, if◌then◌else◌,
}
use feelies.Kit.Dict.{Dict}
use feelies.Kit.Members.{get_elem?, by_value}
use feelies.Machine.{Enum, StateMachine, Fault, Result, create}
use Prim.Native.String.{◌++◌ as append}

pub data DataHealth : Type 0 where
  healthy gap_detected halted corrupted : DataHealth

abbrev pub members : List DataHealth
members = healthy ∷ gap_detected ∷ halted ∷ corrupted ∷ []

abbrev pub name : DataHealth → String
name healthy = "HEALTHY"
name gap_detected = "GAP_DETECTED"
name halted = "HALTED"
name corrupted = "CORRUPTED"

-- The value that `auto()` gives, less one.
abbrev pub value : DataHealth → ℕ
value healthy = 0
value gap_detected = 1
value halted = 2
value corrupted = 3

pub found : (s : DataHealth) → get_elem? members (value s) ≡ some s
found healthy = refl
found gap_detected = refl
found halted = refl
found corrupted = refl

instance abbrev pub DataHealth_Eq : Eq DataHealth
DataHealth_Eq = by_value members value found

abbrev pub enum : Enum DataHealth
enum = record { members = members; name = name }

abbrev pub transitions : Dict DataHealth (List DataHealth)
transitions =
    (healthy, gap_detected ∷ halted ∷ corrupted ∷ [])
    ∷ (gap_detected, healthy ∷ halted ∷ corrupted ∷ [])
    ∷ (halted, healthy ∷ corrupted ∷ [])
    ∷ (corrupted, [])
    ∷ []

-- `f"{symbol}:{channel}" if channel else symbol`; an empty text counts as false.
abbrev label : String → Option String → String
label symbol none = symbol
label symbol (some channel) =
    if string_Eq.eqb channel "" then symbol else append symbol (append ":" channel)

module _ {W E : Type 0} where
  -- `create_data_integrity_machine`
  unfoldable pub create_data_integrity_machine :
      String → Option String → Result (Fault DataHealth E) (StateMachine DataHealth W E)
  create_data_integrity_machine symbol channel =
      create enum (append "data_integrity:" (label symbol channel)) healthy transitions none none
