-- ===== src/Scheduler.antt =====
-- src/feelies/sensors/horizon_scheduler.py: `HorizonGrid` and `HorizonScheduler`, which turns the
-- times of events into ticks at the boundaries of each horizon. Horizons and times are natural
-- numbers; `anchor` is the optional function that gives the session's open for a first event.
pub mod Rising
use feelies.Kit.{
  ℕ, zero, suc, ◌+◌, ◌-◌, ◌*◌, ◌/◌, String, Bool, true, false, Option, none, some, List, [], ◌∷◌,
  ◌++◌, Result, ok, err, ltb, leb, nat_eq, nat_Eq, if◌then◌else◌, string_Eq, pair_Eq,
}
use Prim.Native.String.{◌++◌ as append}
use feelies.Kit.Dict.{Dict, lookup, insert}
use feelies.Kit.Sort.{sorted, str_ltb}
use feelies.Sequence
use feelies.Sequence.{SequenceGenerator, next, decimal, make_correlation_id}

pub data Scope : Type 0 where
  symbol_scope universe_scope : Scope

pub record HorizonTick : Type 0 where
  pub timestamp_ns : ℕ
  pub correlation_id : String
  pub sequence : ℕ
  pub horizon_seconds : ℕ
  pub boundary_index : ℕ
  pub boundary_ts_ns : ℕ
  pub session_id : String
  pub scope : Scope
  pub symbol : Option String

pub data SchedulerError : Type 0 where
  bad_horizon : ℕ → SchedulerError
  already_bound : Option ℕ → ℕ → SchedulerError

-- A `frozenset`, sorted: each member once.
abbrev add_member : ℕ → List ℕ → List ℕ
add_member h [] = h ∷ []
add_member h (x ∷ xs) =
    let rest = add_member h xs in
    if ltb h x then h ∷ x ∷ xs else if nat_eq h x then x ∷ xs else x ∷ rest

abbrev members : List ℕ → List ℕ
members [] = []
members (h ∷ hs) = add_member h (members hs)

abbrev first_zero : List ℕ → Bool
first_zero [] = false
first_zero (h ∷ hs) = if nat_eq h 0 then true else first_zero hs

-- `HorizonGrid(horizons)`
unfoldable pub create_grid : List ℕ → Result SchedulerError (List ℕ)
create_grid horizons = if first_zero horizons then err (bad_horizon 0) else ok (members horizons)

abbrev pub SymbolKey : Type 0
SymbolKey = ℕ × String

pub record HorizonScheduler : Type 0 where
  pub grid : List ℕ
  pub session_id : String
  pub symbols_sorted : List String
  pub session_open_ns : Option ℕ
  pub session_open_locked : Bool
  pub session_open_ns_init : Option ℕ
  pub session_open_locked_init : Bool
  pub sequence_generator : SequenceGenerator
  pub last_boundary_symbol : Dict SymbolKey ℕ
  pub last_boundary_universe : Dict ℕ ℕ
  pub anchor : Option (ℕ → ℕ)

abbrev is_some : Option ℕ → Bool
is_some none = false
is_some (some n) = true

unfoldable pub create :
    List ℕ → String → List String → Option ℕ → SequenceGenerator → Option (ℕ → ℕ) → HorizonScheduler
create grid session_id symbols open_ns seq anchor = record {
  grid = grid;
  session_id = session_id;
  symbols_sorted = sorted str_ltb symbols;
  session_open_ns = open_ns;
  session_open_locked = is_some open_ns;
  session_open_ns_init = open_ns;
  session_open_locked_init = is_some open_ns;
  sequence_generator = seq;
  last_boundary_symbol = [];
  last_boundary_universe = [];
  anchor = anchor;
}

unfoldable pub reset : HorizonScheduler → HorizonScheduler
reset s = record s {
  session_open_ns = s.session_open_ns_init;
  session_open_locked = s.session_open_locked_init;
  last_boundary_symbol = [];
  last_boundary_universe = [];
  sequence_generator = Sequence.reset s.sequence_generator;
}

unfoldable pub bind_session_open : ℕ → HorizonScheduler → Result SchedulerError HorizonScheduler
bind_session_open ts s =
    if s.session_open_locked
    then err (already_bound s.session_open_ns ts)
    else ok (record s { session_open_ns = some ts; session_open_locked = true })

abbrev ns_per_second : ℕ
ns_per_second = 1_000_000_000

abbrev scope_name : Scope → String
scope_name symbol_scope = "SYMBOL"
scope_name universe_scope = "UNIVERSE"

abbrev suffixed : String → Option String → String
suffixed prefix none = prefix
suffixed prefix (some symbol) = append prefix (append "-" symbol)

-- `self._session_open_ns or 0`
abbrev pub or_zero : Option ℕ → ℕ
or_zero none = 0
or_zero (some n) = n

abbrev pub make_tick : HorizonScheduler → ℕ → ℕ → ℕ → Scope → Option String → HorizonTick
make_tick s horizon index ts scope symbol =
    let boundary_ts = or_zero s.session_open_ns + index * horizon * ns_per_second in
    let prefix =
      suffixed (append "htick-" (append (decimal horizon) (append "-" (scope_name scope))))
        symbol in
    record {
      timestamp_ns = ts;
      correlation_id = make_correlation_id prefix boundary_ts index;
      sequence = (next s.sequence_generator).1;
      horizon_seconds = horizon;
      boundary_index = index;
      boundary_ts_ns = boundary_ts;
      session_id = s.session_id;
      scope = scope;
      symbol = symbol;
    }

-- `last is not None and current_boundary <= last`
abbrev pub is_done : Option ℕ → ℕ → Bool
is_done none current = false
is_done (some last) current = leb current last

abbrev pub Emission : Type 0
Emission = HorizonScheduler × List HorizonTick

abbrev pub emit_for_symbol : ℕ → ℕ → ℕ → String → HorizonScheduler → Emission
emit_for_symbol horizon current ts symbol s =
    if is_done (lookup (horizon, symbol) s.last_boundary_symbol) current then (s, []) else (
      record s {
        last_boundary_symbol = insert (horizon, symbol) current s.last_boundary_symbol;
        sequence_generator = (next s.sequence_generator).0;
      },
      make_tick s horizon current ts symbol_scope (some symbol) ∷ [],
    )

unfoldable pub emit_for_symbols : ℕ → ℕ → ℕ → List String → HorizonScheduler → Emission
emit_for_symbols horizon current ts [] s = (s, [])
emit_for_symbols horizon current ts (symbol ∷ rest) s =
    let (s', ticks) = emit_for_symbol horizon current ts symbol s in
    let (s'', more) = emit_for_symbols horizon current ts rest s' in (s'', ticks ++ more)

abbrev pub emit_for_universe : ℕ → ℕ → ℕ → HorizonScheduler → Emission
emit_for_universe horizon current ts s =
    if is_done (lookup horizon s.last_boundary_universe) current then (s, []) else (
      record s {
        last_boundary_universe = insert horizon current s.last_boundary_universe;
        sequence_generator = (next s.sequence_generator).0;
      },
      make_tick s horizon current ts universe_scope none ∷ [],
    )

abbrev pub boundary : ℕ → ℕ → ℕ → ℕ
boundary horizon opened ts = (ts - opened) / (horizon * ns_per_second)

unfoldable pub emit_for_horizon : ℕ → ℕ → ℕ → HorizonScheduler → Emission
unfolding emit_for_symbols
emit_for_horizon opened ts horizon s =
    let current = boundary horizon opened ts in
    let (s', ticks) = emit_for_symbols horizon current ts s.symbols_sorted s in
    let (s'', more) = emit_for_universe horizon current ts s' in
    if ltb ts opened then (s, []) else (s'', ticks ++ more)

unfoldable pub emit_for_horizons : ℕ → ℕ → List ℕ → HorizonScheduler → Emission
unfolding emit_for_horizon
emit_for_horizons opened ts [] s = (s, [])
emit_for_horizons opened ts (horizon ∷ rest) s =
    let (s', ticks) = emit_for_horizon opened ts horizon s in
    let (s'', more) = emit_for_horizons opened ts rest s' in (s'', ticks ++ more)

abbrev anchored : Option (ℕ → ℕ) → ℕ → ℕ
anchored none ts = ts
anchored (some f) ts = f ts

-- The first event binds the session's open, if it is not bound yet.
abbrev pub bound : ℕ → HorizonScheduler → HorizonScheduler
bound ts s =
    if s.session_open_locked
    then s
    else record s { session_open_ns = some (anchored s.anchor ts); session_open_locked = true }

abbrev pub is_empty : List ℕ → Bool
is_empty [] = true
is_empty (x ∷ xs) = false

unfoldable pub on_event : ℕ → HorizonScheduler → Emission
unfolding emit_for_horizons
on_event ts s =
    let s' = bound ts s in
    let (s'', ticks) = emit_for_horizons (or_zero s'.session_open_ns) ts s'.grid s' in
    if is_empty s.grid then (s, []) else (s'', ticks)
