-- ===== src/Exits/Deferral.antt =====
-- src/feelies/risk/deferral_cap.py: `DeferralCapController`, which closes a strategy's slice at
-- the earliest of three deadlines once its market became unsafe.
use feelies.Kit.{
  ℕ, ◌+◌, ◌*◌, String, Bool, true, false, not, ◌&&◌, ◌||◌, Option, none, some, List, [], ◌∷◌,
  Result, ok, err, ltb, nat_eq, if◌then◌else◌, string_Eq, pair_Eq,
}
use Prim.Native.String.{◌++◌ as append}
use feelies.Kit.Int.{ℤ, pos, ◌-ℤ◌, is_zero, abs, ltb_ℤ, eqb_ℤ}
use feelies.Kit.Dict.{Dict, lookup, insert, erase}
use feelies.Kit.Sort.{sorted, str_ltb}
use feelies.Sequence
use feelies.Sequence.{SequenceGenerator, next, decimal, derive_order_id}
use feelies.Exits.{DeRiskRequirement, Holdings, closing_side, Episode, is_pending, covers}

-- The reasons, in the order that breaks ties.
pub data DeferralReason : Type 0 where
  hard_age max_hold session_flatten : DeferralReason

abbrev pub reason_name : DeferralReason → String
reason_name hard_age = "HARD_EXIT_AGE"
reason_name max_hold = "MAX_HOLD_AFTER_SAFE_OFF"
reason_name session_flatten = "SESSION_FLATTEN"

-- `_REASON_TIE_BREAK`
abbrev pub tie_break : DeferralReason → ℕ
tie_break hard_age = 0
tie_break max_hold = 1
tie_break session_flatten = 2

pub record DeferralPolicy : Type 0 where
  pub strategy_id : String
  pub max_hold_after_safe_off_seconds : ℕ
  pub hard_exit_age_seconds : ℕ
  pub universe : List String

pub data PolicyError : Type 0 where
  no_max_hold no_hard_age : PolicyError

-- `DeferralPolicy.__post_init__`; the seconds are not negative here.
unfoldable pub checked : DeferralPolicy → Result PolicyError DeferralPolicy
checked p =
    if nat_eq p.max_hold_after_safe_off_seconds 0
    then err no_max_hold
    else if nat_eq p.hard_exit_age_seconds 0
    then err no_hard_age
    else ok p

abbrev pub Slice : Type 0
Slice = String × String

pub record DeferralCaps : Type 0 where
  pub policies : Dict String DeferralPolicy
  pub seq : SequenceGenerator
  pub attached : Bool
  pub session_flatten_enabled : Bool
  pub session_flatten_buffer_ns : ℕ
  pub first_safe_off_ns : Dict Slice (ℕ × ℕ)
  pub pending_exit : Dict Slice Episode

abbrev pub ns_per_second : ℕ
ns_per_second = 1_000_000_000

unfoldable pub create : Dict String DeferralPolicy → SequenceGenerator → Bool → ℕ → DeferralCaps
create policies seq enabled seconds = record {
  policies = policies;
  seq = seq;
  attached = false;
  session_flatten_enabled = enabled;
  session_flatten_buffer_ns = seconds * ns_per_second;
  first_safe_off_ns = [];
  pending_exit = [];
}

unfoldable pub reset : DeferralCaps → DeferralCaps
reset c = record c { first_safe_off_ns = []; pending_exit = []; seq = Sequence.reset c.seq }

-- `attach`, and the types of events that it subscribes to.
abbrev attach_to : Dict String DeferralPolicy → DeferralCaps → DeferralCaps × List String
attach_to [] c = (c, [])
attach_to (p ∷ ps) c = (record c { attached = true }, "SafetyStateChange" ∷ "Trade" ∷ [])

unfoldable pub attach : DeferralCaps → DeferralCaps × List String
attach c = if c.attached then (c, []) else attach_to c.policies c

unfoldable pub register_policy : DeferralPolicy → DeferralCaps → DeferralCaps
register_policy p c = record c { policies = insert p.strategy_id p c.policies }

abbrev pub without : {V : Type 0} → String → Dict Slice V → Dict Slice V
without sid [] = []
without sid ((k, v) ∷ d) =
    let rest = without sid d in if string_Eq.eqb k.0 sid then rest else (k, v) ∷ rest

unfoldable pub revoke : String → DeferralCaps → DeferralCaps
revoke sid c = record c {
  policies = erase sid c.policies;
  first_safe_off_ns = without sid c.first_safe_off_ns;
  pending_exit = without sid c.pending_exit;
}

-- The anchor after a change of safety: the first unsafe time of the open episode.
abbrev pub anchored :
    Option ℕ → Option (ℕ × ℕ) → Slice → ℕ → Dict Slice (ℕ × ℕ) → Dict Slice (ℕ × ℕ)
anchored none found key now d = erase key d
anchored (some opened) none key now d = insert key (opened, now) d
anchored (some opened) (some (at, off)) key now d =
    if nat_eq at opened then d else insert key (opened, now) d

abbrev on_policy : Option DeferralPolicy → Slice → Bool → ℕ → Option ℕ → DeferralCaps → DeferralCaps
on_policy none key safe now opened c = c
on_policy (some p) key safe now opened c =
    if not (covers p.universe key.1) || safe then c else record c {
      first_safe_off_ns =
          anchored opened (lookup key c.first_safe_off_ns) key now c.first_safe_off_ns;
    }

unfoldable pub on_safety_state_change :
    Holdings Slice → String → String → Bool → ℕ → DeferralCaps → DeferralCaps
on_safety_state_change store sid symbol safe now c =
    on_policy (lookup sid c.policies) (sid, symbol) safe now (store.opened_at_ns (sid, symbol)) c

-- `min(candidates, key=...)`: the first of the least by deadline, then by reason.
abbrev pub Candidate : Type 0
Candidate = ℤ × DeferralReason

abbrev pub sooner : Candidate → Candidate → Bool
sooner (a, r) (b, s) = ltb_ℤ a b || (eqb_ℤ a b && ltb (tie_break r) (tie_break s))

abbrev pub least : Candidate → List Candidate → Candidate
least c [] = c
least c (d ∷ ds) = least (if sooner d c then d else c) ds

abbrev pub max_hold_candidate : DeferralPolicy → ℕ → Candidate
max_hold_candidate p off = (pos (off + p.max_hold_after_safe_off_seconds * ns_per_second), max_hold)

-- The anchor's time, if the anchor is of the open episode.
abbrev pub first_safe_off : Option (ℕ × ℕ) → Option ℕ → Option (ℕ × ℕ)
first_safe_off none opened = none
first_safe_off (some (at, off)) none = none
first_safe_off (some (at, off)) (some opened) =
    if nat_eq at opened then some (opened, off) else none

-- The carry at a sign flip, `if anchor is not None and opened is not None and anchor[0] != opened`:
-- an anchor of another opening time is given the open one, and keeps its first unsafe time.
abbrev pub moved_anchor :
    Option (ℕ × ℕ) → Option ℕ → Slice → Dict Slice (ℕ × ℕ) → Dict Slice (ℕ × ℕ)
moved_anchor (some (at, off)) (some opened) key d =
    if nat_eq at opened then d else insert key (opened, off) d
moved_anchor _ _ key d = d

module _ (rth_close_ns : ℕ → ℤ) where
  abbrev pub later_candidates : DeferralCaps → DeferralPolicy → ℕ → ℕ → List Candidate
  later_candidates c p opened off =
      (pos (opened + p.hard_exit_age_seconds * ns_per_second), hard_age)
      ∷ (if c.session_flatten_enabled
          then (rth_close_ns off -ℤ pos c.session_flatten_buffer_ns, session_flatten) ∷ []
          else [])

  abbrev pub deadline_from : DeferralCaps → DeferralPolicy → Option (ℕ × ℕ) → Option Candidate
  deadline_from c p none = none
  deadline_from c p (some (opened, off)) =
      some (least (max_hold_candidate p off) (later_candidates c p opened off))

  unfoldable pub episode_deadline :
      DeferralCaps → DeferralPolicy → Slice → Option ℕ → Option Candidate
  episode_deadline c p key opened =
      deadline_from c p (first_safe_off (lookup key c.first_safe_off_ns) opened)

  module _ {W : Type 0} (view : W → Holdings Slice) (publish : DeRiskRequirement → W → W)
      (hexdigest : String → String) where
    abbrev pub Emitted : Type 0
    Emitted = DeferralCaps × W × Option DeRiskRequirement

    abbrev pub seed_of : String → ℕ → Slice → DeferralReason → String
    seed_of correlation_id now key reason = append correlation_id (
        append ":" (
          append (decimal now) (
            append ":"
              (append key.1 (append ":" (append key.0 (append ":" (reason_name reason))))))))

    abbrev pub requirement :
        DeferralCaps → Slice → ℤ → ℕ → String → DeferralReason → DeRiskRequirement
    requirement c key quantity now correlation_id reason = record {
      timestamp_ns = now;
      correlation_id = correlation_id;
      sequence = (next c.seq).1;
      source_layer = "RISK";
      order_id = derive_order_id hexdigest (seed_of correlation_id now key reason);
      symbol = key.1;
      side = closing_side quantity;
      quantity = abs quantity;
      strategy_id = key.0;
      reason = reason_name reason;
    }

    abbrev pub emit :
        DeferralCaps → W → Slice → Option ℕ → ℤ → ℕ → String → Option Candidate → Emitted
    emit c w key opened quantity now correlation_id none = (c, w, none)
    emit c w key opened quantity now correlation_id (some (deadline, reason)) =
        let r = requirement c key quantity now correlation_id reason in
        if ltb_ℤ (pos now) deadline then (c, w, none) else (
          record c {
            seq = (next c.seq).0;
            pending_exit = insert key (opened, quantity) c.pending_exit;
          },
          publish r w,
          some r,
        )

    -- The anchor is moved to the open episode, and a pending exit of another episode is dropped.
    abbrev pub refreshed : DeferralCaps → Slice → Option ℕ → ℤ → DeferralCaps
    refreshed c key opened quantity = record c {
      first_safe_off_ns =
          moved_anchor (lookup key c.first_safe_off_ns) opened key c.first_safe_off_ns;
      pending_exit =
          if is_pending (lookup key c.pending_exit) opened quantity
          then c.pending_exit
          else erase key c.pending_exit;
    }

    unfoldable pub maybe_emit_exit :
        DeferralPolicy → Slice → ℕ → String → DeferralCaps → W → Emitted
    unfolding derive_order_id episode_deadline
    maybe_emit_exit p key now correlation_id c w =
        let store = view w in
        let quantity = (store.get key).quantity in
        let opened = store.opened_at_ns key in
        let c' = refreshed c key opened quantity in
        if is_zero quantity
        then (
          record c {
            first_safe_off_ns = erase key c.first_safe_off_ns;
            pending_exit = erase key c.pending_exit;
          },
          w,
          none,
        )
        else if is_pending (lookup key c.pending_exit) opened quantity
        then (c', w, none)
        else emit c' w key opened quantity now correlation_id (episode_deadline c' p key opened)

    abbrev pub entries : DeferralCaps → List (String × DeferralPolicy)
    entries c = sorted (λ a b. str_ltb a.0 b.0) c.policies

    unfoldable pub exit_each :
        List (String × DeferralPolicy) → String → ℕ → String → DeferralCaps → W → DeferralCaps × W
    exit_each [] symbol now correlation_id c w = (c, w)
    exit_each ((sid, p) ∷ rest) symbol now correlation_id c w =
        let (c', w', emitted) = maybe_emit_exit p (sid, symbol) now correlation_id c w in
        exit_each rest symbol now correlation_id (if covers p.universe symbol then c' else c)
          (if covers p.universe symbol then w' else w)

    unfoldable pub on_trade : String → ℕ → String → DeferralCaps → W → DeferralCaps × W
    unfolding exit_each
    on_trade symbol now correlation_id c w = exit_each (entries c) symbol now correlation_id c w
