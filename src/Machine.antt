-- ===== src/Machine.antt =====
-- src/feelies/core/state_machine.py: `TransitionRecord`, `IllegalTransition` and `StateMachine`.
-- A method that mutates the machine returns the new record. The clock, the performance counter
-- and the objects that callbacks write to are outside of the class: the time of a call and the
-- time that it took are fields of `Call`, and the callbacks act on a world `W`, from which they
-- may raise an exception of type `E`. A callback gets the record and not the machine.
pub mod Laws
pub mod Trail
pub mod Trace
pub use feelies.Kit.{Result, ok, err}
use feelies.Kit.{
  ℕ, ◌+◌, ◌-◌, String, Bool, true, false, not, Option, none, some, List, [], ◌∷◌, ◌++◌, map,
  if◌then◌else◌, Eq, string_Eq, leb, length, drop,
}
use feelies.Kit.Dict.{Dict, lookup, insert}

-- What `type(initial_state)` gives: the members of the enum, in order, and their names.
pub record Enum (S : Type 0) : Type 0 where
  pub members : List S
  pub name : S → String

-- `metadata` holds texts here; the class stores it and never reads it.
pub record TransitionRecord : Type 0 where
  pub machine_name : String
  pub from_state : String
  pub to_state : String
  pub trigger : String
  pub timestamp_ns : ℕ
  pub correlation_id : String
  pub metadata : Dict String String

pub data Fault (S E : Type 0) : Type 0 where
  illegal_transition : String → S → S → String → Fault S E
  raised : E → Fault S E
  bad_history_limit : ℕ → Fault S E
  incomplete_table : List S → Fault S E
  unexpected_state : S → S → Fault S E

abbrev pub Callback : Type 0 → Type 0 → Type 0
Callback W E = TransitionRecord → W → W × Option E

pub record StateMachine (S W E : Type 0) : Type 0 where
  pub name : String
  pub initial_state : S
  pub state : S
  pub transitions : Dict S (List S)
  pub history_limit : Option ℕ
  pub history : List TransitionRecord
  pub callbacks : List (Callback W E)
  pub timing_sink : Option (Dict String ℕ)
  pub timing_key : Option String

-- One call: the keyword arguments, `self._clock.now_ns()`, and the nanoseconds that the call
-- takes by `time.perf_counter_ns()`.
pub record Call : Type 0 where
  pub trigger : String
  pub correlation_id : String
  pub metadata : Option (Dict String String)
  pub now_ns : ℕ
  pub elapsed_ns : ℕ

module _ {S : Type 0} ⦃eq : Eq S⦄ where
  -- `target in targets`
  abbrev pub contains : S → List S → Bool
  contains t [] = false
  contains t (x ∷ xs) = if eq.eqb x t then true else contains t xs

  -- `self._transitions.get(state, frozenset())`
  abbrev targets_of : Option (List S) → List S
  targets_of none = []
  targets_of (some ts) = ts

  -- Whether the table has the edge.
  abbrev pub allowed : Dict S (List S) → S → S → Bool
  allowed table s t = contains t (targets_of (lookup s table))

  -- `{m for m in enum_cls} - set(table.keys())`
  abbrev has_entry : Option (List S) → Bool
  has_entry none = false
  has_entry (some _) = true

  abbrev pub missing : Dict S (List S) → List S → List S
  missing table [] = []
  missing table (m ∷ ms) =
      let rest = missing table ms in if has_entry (lookup m table) then rest else m ∷ rest

-- `deque(maxlen=limit)` drops from the left; a list has no limit.
abbrev pub push : Option ℕ → List TransitionRecord → TransitionRecord → List TransitionRecord
push none hs r = hs ++ (r ∷ [])
push (some limit) hs r = drop (length hs + 1 - limit) (hs ++ (r ∷ []))

abbrev or_zero : Option ℕ → ℕ
or_zero none = 0
or_zero (some n) = n

abbrev or_empty : Option (Dict String String) → Dict String String
or_empty none = []
or_empty (some d) = d

abbrev timed : Option (Dict String ℕ) → Option String → ℕ → Option (Dict String ℕ)
timed none key elapsed = none
timed (some sink) none elapsed = some sink
timed (some sink) (some key) elapsed = some (insert key (or_zero (lookup key sink) + elapsed) sink)

module _ {W E : Type 0} where
  -- The callbacks run in the order of registration; an exception stops the rest of them.
  unfoldable pub notify : List (Callback W E) → TransitionRecord → W → W × Option E
  notify [] r w = (w, none)
  notify (callback ∷ rest) r w =
      let (w', failed) = callback r w in
      elim failed [ none ↦ notify rest r w' | some e ↦ (w', some e) ]

module _ {S W E : Type 0} where
  abbrev complete_or_err : List S → StateMachine S W E → Result (Fault S E) (StateMachine S W E)
  complete_or_err [] m = ok m
  complete_or_err (s ∷ ss) m = err (incomplete_table (s ∷ ss))

  abbrev checked_limit :
      Option ℕ → Result (Fault S E) (StateMachine S W E) → Result (Fault S E) (StateMachine S W E)
  checked_limit none r = r
  checked_limit (some limit) r = if leb 1 limit then r else err (bad_history_limit limit)

  unfoldable pub on_transition : Callback W E → StateMachine S W E → StateMachine S W E
  on_transition callback m = record m { callbacks = m.callbacks ++ (callback ∷ []) }

  unfoldable pub bind_timing_sink : Option (Dict String ℕ) → StateMachine S W E → StateMachine S W E
  bind_timing_sink sink m = record m { timing_sink = sink }

  -- Append the record and move the state pointer, unless a callback raised.
  commit :
      StateMachine S W E
      → S
      → Option (Dict String ℕ)
      → TransitionRecord
      → W × Option E
      → StateMachine S W E × W × Result (Fault S E) TransitionRecord
  commit m target sink r (w, none) = (
    record m { history = push m.history_limit m.history r; state = target; timing_sink = sink },
    w,
    ok r,
  )
  commit m target sink r (w, some e) = (m, w, err (raised e))

module _ {S W E : Type 0} ⦃eq : Eq S⦄ where
  abbrev pub can_transition : StateMachine S W E → S → Bool
  can_transition m target = allowed m.transitions m.state target

  unfoldable pub assert_state : StateMachine S W E → S → Result (Fault S E) (Unit {0})
  assert_state m expected =
      if eq.eqb m.state expected then ok tt else err (unexpected_state expected m.state)

module _ {S W E : Type 0} ⦃eq : Eq S⦄ (enum : Enum S) where
  -- `StateMachine.__init__`
  unfoldable pub create :
      String
      → S
      → Dict S (List S)
      → Option ℕ
      → Option String
      → Result (Fault S E) (StateMachine S W E)
  create name initial table limit key = checked_limit limit (
      complete_or_err (missing table enum.members) (record {
        name = name;
        initial_state = initial;
        state = initial;
        transitions = table;
        history_limit = limit;
        history = [];
        callbacks = [];
        timing_sink = none;
        timing_key = key;
      }))

  abbrev pub new_record : StateMachine S W E → Call → S → Dict String String → TransitionRecord
  new_record m c target metadata = record {
    machine_name = m.name;
    from_state = enum.name m.state;
    to_state = enum.name target;
    trigger = c.trigger;
    timestamp_ns = c.now_ns;
    correlation_id = c.correlation_id;
    metadata = metadata;
  }

  unfoldable pub transition :
      StateMachine S W E
      → Call
      → S
      → W
      → StateMachine S W E × W × Result (Fault S E) TransitionRecord
  unfolding commit
  transition m c target w =
      let r = new_record m c target (or_empty c.metadata) in
      if can_transition m target
      then commit m target (timed m.timing_sink m.timing_key c.elapsed_ns) r
          (notify m.callbacks r w)
      else (m, w, err (illegal_transition m.name m.state target c.trigger))

  -- `reset` takes no metadata and no time: it writes its own and leaves the sink alone.
  unfoldable pub reset :
      StateMachine S W E → Call → W → StateMachine S W E × W × Result (Fault S E) TransitionRecord
  unfolding commit
  reset m c w =
      let r = new_record m c m.initial_state (("type", "reset") ∷ []) in
      commit m m.initial_state m.timing_sink r (notify m.callbacks r w)
