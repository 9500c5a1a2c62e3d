-- ===== src/Exits/Composer.antt =====
-- src/feelies/risk/exit_composer.py: the table that decides between holding and closing a book,
-- and `ExitComposer`, which closes a slice on a safety change that failed closed, or on a
-- revocation.
use feelies.Kit.{
  ℕ, String, Bool, true, false, not, ◌&&◌, ◌||◌, Option, none, some, List, [], ◌∷◌, if◌then◌else◌,
  string_Eq, pair_Eq,
}
use Prim.Native.String.{◌++◌ as append}
use feelies.Kit.Int.{ℤ, is_pos, is_zero, abs}
use feelies.Kit.Dict.{Dict, lookup, insert, erase}
use feelies.Kit.Sort.{sorted, str_ltb}
use feelies.Market.{Position}
use feelies.Sequence
use feelies.Sequence.{SequenceGenerator, next, decimal, derive_order_id}
use feelies.Exits.{DeRiskRequirement, closing_side, Episode, is_pending, covers}
use feelies.Exits.Deferral.{Slice}

pub data BookState : Type 0 where
  flat long short : BookState

pub data SafetyPermission : Type 0 where
  on off : SafetyPermission

pub data StoryPermission : Type 0 where
  story_on story_off unknown : StoryPermission

pub data ExitDecision : Type 0 where
  hold exit : ExitDecision

abbrev pub is_flat : BookState → Bool
is_flat flat = true
is_flat long = false
is_flat short = false

abbrev pub is_off : SafetyPermission → Bool
is_off off = true
is_off on = false

abbrev when : Bool → ExitDecision
when b = if b then exit else hold

-- The open book, where no cap was hit and safety did not fail closed.
abbrev by_permissions : SafetyPermission → StoryPermission → Bool → ExitDecision
by_permissions on story_off configured = exit
by_permissions on story_on configured = hold
by_permissions on unknown configured = hold
by_permissions off story_on configured = hold
by_permissions off story_off configured = exit
by_permissions off unknown configured = when configured

unfoldable pub compose_exit :
    BookState → SafetyPermission → StoryPermission → Bool → Bool → Bool → ExitDecision
compose_exit book safe story caps_hit configured fail_closed =
    if is_flat book
    then hold
    else if caps_hit
    then exit
    else if is_off safe && fail_closed
    then exit
    else by_permissions safe story configured

pub record ComposerPolicy : Type 0 where
  pub strategy_id : String
  pub universe : List String
  pub story_configured : Bool

pub record ExitComposer : Type 0 where
  pub seq : SequenceGenerator
  pub policies : Dict String ComposerPolicy
  pub attached : Bool
  pub pending_exit : Dict Slice Episode

-- The position store as the composer's protocol shows it.
pub record Slices : Type 0 where
  pub get : Slice → Position
  pub opened_at_ns : Slice → Option ℕ
  pub open_positions : String → Dict String Position

-- The fields of a `SafetyStateChange` that the composer reads.
pub record SafetyChange : Type 0 where
  pub timestamp_ns : ℕ
  pub correlation_id : String
  pub symbol : String
  pub strategy_id : String
  pub safe : Bool
  pub reason : String

unfoldable pub create : SequenceGenerator → Dict String ComposerPolicy → ExitComposer
create seq policies = record { seq = seq; policies = policies; attached = false; pending_exit = [] }

unfoldable pub reset : ExitComposer → ExitComposer
reset c = record c { pending_exit = []; seq = Sequence.reset c.seq }

unfoldable pub register_policy : ComposerPolicy → ExitComposer → ExitComposer
register_policy p c = record c { policies = insert p.strategy_id p c.policies }

abbrev attach_to : Dict String ComposerPolicy → ExitComposer → ExitComposer × List String
attach_to [] c = (c, [])
attach_to (p ∷ ps) c = (record c { attached = true }, "SafetyStateChange" ∷ [])

unfoldable pub attach : ExitComposer → ExitComposer × List String
attach c = if c.attached then (c, []) else attach_to c.policies c

-- `_FAIL_CLOSED_SAFETY_REASONS`
abbrev fails_closed : String → Bool
fails_closed reason =
    string_Eq.eqb reason "missing_binding"
    || (string_Eq.eqb reason "gate_error" || string_Eq.eqb reason "arithmetic_error")

abbrev pub is_exit : ExitDecision → Bool
is_exit exit = true
is_exit hold = false

module _ {W : Type 0} (view : W → Slices) (publish : DeRiskRequirement → W → W)
    (hexdigest : String → String) where
  abbrev pub Emitted : Type 0
  Emitted = ExitComposer × W × Option DeRiskRequirement

  abbrev requirement : ExitComposer → Slice → ℤ → ℕ → String → String → String → DeRiskRequirement
  requirement c key quantity now correlation_id reason seed = record {
    timestamp_ns = now;
    correlation_id = correlation_id;
    sequence = (next c.seq).1;
    source_layer = "RISK";
    order_id = derive_order_id hexdigest seed;
    symbol = key.1;
    side = closing_side quantity;
    quantity = abs quantity;
    strategy_id = key.0;
    reason = reason;
  }

  -- A pending exit of another episode is dropped, and the new one takes its place.
  unfoldable pub emit_flatten_order :
      Slice → ℤ → Option ℕ → ℕ → String → String → String → ExitComposer → W → Emitted
  unfolding derive_order_id
  emit_flatten_order key quantity opened now correlation_id reason seed c w =
      let r = requirement c key quantity now correlation_id reason seed in
      if is_pending (lookup key c.pending_exit) opened quantity then (c, w, none) else (
        record c {
          seq = (next c.seq).0;
          pending_exit = insert key (opened, quantity) (erase key c.pending_exit);
        },
        publish r w,
        some r,
      )

  abbrev joined : List String → String
  joined [] = ""
  joined (s ∷ []) = s
  joined (s ∷ t ∷ rest) = append s (append ":" (joined (t ∷ rest)))

  abbrev on_policy : Option ComposerPolicy → SafetyChange → ExitComposer → W → Emitted
  unfolding emit_flatten_order
  on_policy none e c w = (c, w, none)
  on_policy (some p) e c w =
      let key : Slice = (e.strategy_id, e.symbol) in
      let quantity = ((view w).get key).quantity in
      let book = if is_pos quantity then long else short in
      let decision =
        compose_exit book off unknown false p.story_configured (fails_closed e.reason) in
      let reason : String = "SAFETY_FAIL_CLOSED" in
      let seed = joined (
        e.correlation_id
        ∷ decimal e.timestamp_ns
        ∷ e.symbol
        ∷ e.strategy_id
        ∷ reason
        ∷ e.reason
        ∷ []) in
      if not (covers p.universe e.symbol) || e.safe
      then (c, w, none)
      else if is_zero quantity
      then (record c { pending_exit = erase key c.pending_exit }, w, none)
      else if is_exit decision
      then emit_flatten_order key quantity ((view w).opened_at_ns key) e.timestamp_ns
          e.correlation_id reason seed c w
      else (c, w, none)

  unfoldable pub on_safety_state_change : SafetyChange → ExitComposer → W → Emitted
  unfolding on_policy compose_exit
  on_safety_state_change e c w = on_policy (lookup e.strategy_id c.policies) e c w

  abbrev with_emitted : Option DeRiskRequirement → List DeRiskRequirement → List DeRiskRequirement
  with_emitted none rs = rs
  with_emitted (some r) rs = r ∷ rs

  abbrev pub Revoked : Type 0
  Revoked = ExitComposer × W × List DeRiskRequirement

  -- The positions are those at the start; the opening times are read as the loop goes.
  unfoldable pub flatten_each :
      String → List String → ℕ → String → List (String × Position) → ExitComposer → W → Revoked
  unfolding emit_flatten_order
  flatten_each sid universe now correlation_id [] c w = (c, w, [])
  flatten_each sid universe now correlation_id ((symbol, position) ∷ rest) c w =
      let key : Slice = (sid, symbol) in
      let reason : String = "DECOUPLING_REVOKED" in
      let seed = joined (correlation_id ∷ decimal now ∷ symbol ∷ sid ∷ reason ∷ []) in
      let (c', w', emitted) =
        emit_flatten_order key position.quantity ((view w).opened_at_ns key) now correlation_id
          reason seed c w in
      let open_here = covers universe symbol in
      let (c'', w'', more) =
        flatten_each sid universe now correlation_id rest (if open_here then c' else c)
          (if open_here then w' else w) in
      (c'', w'', if open_here then with_emitted emitted more else more)

  abbrev revoke_policy : Option ComposerPolicy → String → ℕ → String → ExitComposer → W → Revoked
  unfolding flatten_each
  revoke_policy none sid now correlation_id c w = (c, w, [])
  revoke_policy (some p) sid now correlation_id c w =
      flatten_each sid p.universe now correlation_id
        (sorted (λ a b. str_ltb a.0 b.0) ((view w).open_positions sid)) c w

  unfoldable pub revoke_and_flatten : String → ℕ → String → ExitComposer → W → Revoked
  unfolding flatten_each
  revoke_and_flatten sid now correlation_id c w =
      revoke_policy (lookup sid c.policies) sid now correlation_id c w
