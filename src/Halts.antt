-- ===== src/Halts.antt =====
-- src/feelies/core/data_health.py: halts of trading in a symbol, `_HaltTradeability` and the health
-- machine of its trade feed, which `_sync_halt_store_and_health` moves together.
-- A set is a list; condition codes are natural numbers. The machine is the one that
-- `_bound_trade_feed_health_sm` finds, if any.
pub mod Sync
use feelies.Kit.{
  ℕ, ◌+◌, ◌<◌, String, ◌≡◌, Bool, true, false, not, ◌&&◌, ◌||◌, Option, none, some, List, [], ◌∷◌,
  Result, ok, err, ltb, nat_eq, if◌then◌else◌, string_Eq,
}
use feelies.Kit.Dict.{Dict, lookup, insert, erase}
use feelies.Machine.{StateMachine, Fault, Call, can_transition, transition, TransitionRecord}
use feelies.Lifecycle.Integrity.{DataHealth, enum, healthy, halted, DataHealth_Eq}

pub data HaltSignal : Type 0 where
  halt_on halt_off : HaltSignal

-- The arguments of `record_verdict`.
pub record Verdict : Type 0 where
  pub gate_id : String
  pub outcome : String
  pub detail : String

abbrev pub has_code : ℕ → List ℕ → Bool
has_code c [] = false
has_code c (d ∷ ds) = nat_eq c d || has_code c ds

-- `present & codes` is not empty.
abbrev pub meets : List ℕ → List ℕ → Bool
meets [] codes = false
meets (c ∷ cs) codes = has_code c codes || meets cs codes

abbrev is_empty : List ℕ → Bool
is_empty [] = true
is_empty (c ∷ cs) = false

abbrev verdict : String → String → Option Verdict
verdict outcome detail =
    some (record { gate_id = "RT.DATA_HEALTH"; outcome = outcome; detail = detail })

-- The verdict that is recorded, and the classification.
unfoldable pub classify_halt_status : List ℕ → List ℕ → List ℕ → Option Verdict × Option HaltSignal
classify_halt_status conditions on_codes off_codes =
    if is_empty on_codes && is_empty off_codes
    then (none, none)
    else if meets conditions on_codes
    then (verdict "FAIL" "HALT_ON", some halt_on)
    else if meets conditions off_codes
    then (verdict "PASS" "HALT_OFF", some halt_off)
    else (verdict "PASS" "", none)

pub record HaltTradeability : Type 0 where
  pub halted_symbols : List String
  pub blackout_until_ns : Dict String ℕ
  pub on_codes : List ℕ
  pub off_codes : List ℕ
  pub blackout_ns : ℕ
  pub forensic_open : List String

abbrev pub create_halts : HaltTradeability
create_halts = record {
  halted_symbols = [];
  blackout_until_ns = [];
  on_codes = [];
  off_codes = [];
  blackout_ns = 0;
  forensic_open = [];
}

-- `KernelFault("halt codebook conflict …", kind=SESSION_HALT)`
pub data KernelFault : Type 0 where
  session_halt : KernelFault

abbrev within : List ℕ → List ℕ → Bool
within [] ys = true
within (x ∷ xs) ys = has_code x ys && within xs ys

-- `==` on two sets of codes.
abbrev same_codes : List ℕ → List ℕ → Bool
same_codes xs ys = within xs ys && within ys xs

abbrev conflict : Option (List ℕ) → Option (List ℕ) → List ℕ → List ℕ → Bool
conflict (some peer_on) (some peer_off) on_codes off_codes =
    not (same_codes peer_on on_codes && same_codes peer_off off_codes)
conflict _ _ on_codes off_codes = false

unfoldable pub configure :
    HaltTradeability
    → List ℕ
    → List ℕ
    → ℕ
    → Option (List ℕ)
    → Option (List ℕ)
    → Result KernelFault HaltTradeability
configure a on_codes off_codes blackout_ns peer_on peer_off =
    if conflict peer_on peer_off on_codes off_codes
    then err session_halt
    else ok (record a { on_codes = on_codes; off_codes = off_codes; blackout_ns = blackout_ns })

unfoldable pub reset : HaltTradeability → HaltTradeability
reset a = record a { halted_symbols = []; blackout_until_ns = []; forensic_open = [] }

abbrev before_deadline : Option ℕ → ℕ → Bool
before_deadline none now = false
before_deadline (some deadline) now = ltb now deadline

unfoldable pub in_blackout : HaltTradeability → String → ℕ → Bool
in_blackout a symbol now = before_deadline (lookup symbol a.blackout_until_ns) now

abbrev pub has_symbol : String → List String → Bool
has_symbol s [] = false
has_symbol s (t ∷ ts) = string_Eq.eqb t s || has_symbol s ts

-- `set.discard`
abbrev pub discard : String → List String → List String
discard s [] = []
discard s (t ∷ ts) = let rest = discard s ts in if string_Eq.eqb t s then rest else t ∷ rest

-- The store at a halt, and at the end of one.
abbrev pub enter : String → HaltTradeability → HaltTradeability
enter symbol a = if has_symbol symbol a.halted_symbols then a else record a {
  halted_symbols = symbol ∷ a.halted_symbols;
  blackout_until_ns = erase symbol a.blackout_until_ns;
}

abbrev blackout : Bool → Option ℕ → String → ℕ → Dict String ℕ → Dict String ℕ
blackout ended none symbol ns d = d
blackout ended (some ts) symbol ns d = if ended then insert symbol (ts + ns) d else d

abbrev pub leave : String → Bool → Option ℕ → HaltTradeability → HaltTradeability
leave symbol health_was_halted ts a = record a {
  halted_symbols = discard symbol a.halted_symbols;
  blackout_until_ns =
      blackout (has_symbol symbol a.halted_symbols || health_was_halted) ts symbol a.blackout_ns
        a.blackout_until_ns;
}

-- What a move of the machine leaves: the machine, the world and an exception, if any.
abbrev pub Moved : Type 0 → Type 0 → Type 0
Moved W E = Option (StateMachine DataHealth W E) × W × Option (Fault DataHealth E)

abbrev pub fault_of :
    {E : Type 0} → Result (Fault DataHealth E) TransitionRecord → Option (Fault DataHealth E)
fault_of (ok r) = none
fault_of (err e) = some e

-- The arguments of `sm.transition`, with the clock's reading and the time that it takes.
abbrev pub luld : String → ℕ × ℕ → Call
luld trigger (now, elapsed) = record {
  trigger = trigger;
  correlation_id = "";
  metadata = none;
  now_ns = now;
  elapsed_ns = elapsed;
}

module _ {W E : Type 0} where
  abbrev pub in_state : DataHealth → Option (StateMachine DataHealth W E) → Bool
  in_state s none = false
  in_state s (some m) = DataHealth_Eq.eqb m.state s

  -- `if sm is not None and go and sm.can_transition(target): sm.transition(target, ...)`
  unfoldable pub move :
      Option (StateMachine DataHealth W E) → Bool → DataHealth → Call → W → Moved W E
  move none go target c w = (none, w, none)
  move (some m) go target c w =
      let (m', w', result) = transition enum m c target w in
      if go && can_transition m target then (some m', w', fault_of result) else (some m, w, none)

  -- The store, what became of the machine, and the status if there is no exception.
  abbrev pub respond :
      Option HaltSignal
      → HaltTradeability
      → Option (StateMachine DataHealth W E)
      → W
      → String
      → Option ℕ
      → ℕ × ℕ
      → HaltTradeability × Moved W E × Option HaltSignal
  respond none a sm w symbol ts clock = (a, (sm, w, none), none)
  respond (some halt_on) a sm w symbol ts clock = (
    enter symbol a,
    move sm (not (in_state halted sm)) halted (luld "luld_halt_on" clock) w,
    some halt_on,
  )
  respond (some halt_off) a sm w symbol ts clock = (
    leave symbol (in_state halted sm) ts a,
    move sm (in_state halted sm) healthy (luld "luld_halt_off" clock) w,
    some halt_off,
  )

  -- The verdict recorded, and what the event leaves.
  unfoldable pub sync_halt_store_and_health :
      HaltTradeability
      → Option (StateMachine DataHealth W E)
      → W
      → String
      → List ℕ
      → Option ℕ
      → ℕ × ℕ
      → Option Verdict × HaltTradeability × Moved W E × Option HaltSignal
  unfolding classify_halt_status move
  sync_halt_store_and_health a sm w symbol conditions ts clock =
      let (v, status) = classify_halt_status conditions a.on_codes a.off_codes in
      let (a', moved, result) = respond status a sm w symbol ts clock in (v, a', moved, result)
