-- ===== src/EventLog.antt =====
-- The log of events: src/feelies/storage/event_resequence.py and
-- src/feelies/storage/memory_event_log.py. An event that is not of the market, and what a market
-- event carries besides the fields below, is of the type `P`. Times and sequence numbers are
-- natural numbers. The lock is taken for a whole operation and does not show.
pub mod Order
pub mod Batches
mod Search
pub mod Replay
use feelies.Kit.{
  ℕ, zero, suc, ◌+◌, ◌-◌, ◌/◌, String, Bool, true, false, not, ◌&&◌, ◌||◌, Option, none, some, List,
  [], ◌∷◌, ◌++◌, ltb, leb, nat_eq, if◌then◌else◌, string_Eq, length, drop,
}
use feelies.Kit.Int.{ℤ, pos, negsuc}
use feelies.Kit.Sort.{sorted, str_ltb}
use feelies.Sequence.{make_correlation_id}

pub data Kind : Type 0 where
  nbbo_quote trade : Kind

-- `_TYPE_RANK`
abbrev pub type_rank : Kind → ℕ
type_rank nbbo_quote = 0
type_rank trade = 1

pub record MarketEvent (P : Type 0) : Type 0 where
  pub kind : Kind
  pub exchange_timestamp_ns : ℕ
  pub symbol : String
  pub sequence : ℕ
  pub correlation_id : String
  pub payload : P

pub data Event (P : Type 0) : Type 0 where
  market : MarketEvent P → Event P
  other : ℕ → P → Event P

-- `(exchange_timestamp_ns, symbol, type_rank, sequence)`
abbrev pub Key : Type 0
Key = ℕ × String × ℕ × ℕ

-- `a < b` on the tuples
abbrev pub key_ltb : Key → Key → Bool
key_ltb (t, s, r, n) (t', s', r', n') =
    ltb t t'
    || nat_eq t t' && (str_ltb s s' || string_Eq.eqb s s' && (ltb r r' || nat_eq r r' && ltb n n'))

pub data CausalityViolation : Type 0 where
  out_of_order : ℕ → Key → Key → CausalityViolation

module _ {P : Type 0} where
  abbrev pub event_merge_sort_key : MarketEvent P → Key
  event_merge_sort_key e = (e.exchange_timestamp_ns, e.symbol, type_rank e.kind, e.sequence)

  abbrev pub merges_before : MarketEvent P → MarketEvent P → Bool
  merges_before a b = key_ltb (event_merge_sort_key a) (event_merge_sort_key b)

  -- `enumerate`, from a number on.
  abbrev pub numbered : ℕ → List (MarketEvent P) → List (MarketEvent P)
  numbered n [] = []
  numbered n (e ∷ es) =
      record e {
        sequence = n;
        correlation_id = make_correlation_id e.symbol e.exchange_timestamp_ns n;
      }
      ∷ numbered (suc n) es

  unfoldable pub resequence_event_list : List (MarketEvent P) → List (MarketEvent P)
  resequence_event_list events = numbered 0 (sorted merges_before events)

pub record EventLog (P : Type 0) : Type 0 where
  pub events : List (Event P)
  pub last_market_key : Option Key
  pub enforce_market_order_enabled : Bool

-- `self._last_market_key is not None and key < self._last_market_key`
abbrev pub behind : Key → Option Key → Bool
behind key none = false
behind key (some last) = key_ltb key last

abbrev pub or_key : Key → Option Key → Key
or_key key none = key
or_key key (some last) = last

abbrev pub Appended : Type 0 → Type 0
Appended P = Option CausalityViolation × EventLog P

module _ {P : Type 0} where
  unfoldable pub create : Bool → EventLog P
  create enabled = record {
    events = [];
    last_market_key = none;
    enforce_market_order_enabled = enabled;
  }

  unfoldable pub reset : EventLog P → EventLog P
  reset log = record log { last_market_key = none }

  -- `_enforce_market_order`: what is raised, and the key remembered.
  abbrev pub enforce_market_order :
      Bool → Event P → Option Key → Option CausalityViolation × Option Key
  enforce_market_order enabled (other n p) last = (none, last)
  enforce_market_order enabled (market e) last =
      let key = event_merge_sort_key e in
      if enabled && behind key last
      then (some (out_of_order e.sequence key (or_key key last)), last)
      else (none, some key)

  -- The loop over a batch, which stops where it raises.
  abbrev pub enforce_each :
      Bool → List (Event P) → Option Key → Option CausalityViolation × Option Key
  enforce_each enabled [] last = (none, last)
  enforce_each enabled (e ∷ es) last =
      let (raised, last') = enforce_market_order enabled e last in
      let rest = enforce_each enabled es last' in
      elim raised [ none ↦ rest | some error ↦ (some error, last') ]

  abbrev pub kept :
      EventLog P → Option CausalityViolation × Option Key → List (Event P) → Appended P
  kept log (some error, last) events = (some error, record log { last_market_key = last })
  kept log (none, last) events = (none, record log { events = events; last_market_key = last })

  unfoldable pub append : Event P → EventLog P → Appended P
  append e log =
      kept log (enforce_market_order log.enforce_market_order_enabled e log.last_market_key)
        (log.events ++ (e ∷ []))

  abbrev pub market_of : List (Event P) → List (MarketEvent P)
  market_of [] = []
  market_of (market e ∷ es) = e ∷ market_of es
  market_of (other n p ∷ es) = market_of es

  -- `for i, e in zip(idxs, market): events[i] = e`
  abbrev pub refill : List (Event P) → List (MarketEvent P) → List (Event P)
  refill [] ms = []
  refill (other n p ∷ es) ms = other n p ∷ refill es ms
  refill (market e ∷ es) [] = market e ∷ refill es []
  refill (market e ∷ es) (m ∷ ms) = market m ∷ refill es ms

  unfoldable pub stabilize_market_slice : List (Event P) → List (Event P)
  stabilize_market_slice es = refill es (sorted merges_before (market_of es))

  unfoldable pub append_batch : List (Event P) → EventLog P → Appended P
  unfolding stabilize_market_slice
  append_batch es log =
      let ev = stabilize_market_slice es in
      kept log (enforce_each log.enforce_market_order_enabled ev log.last_market_key)
        (log.events ++ ev)

  unfoldable pub replace_events : List (Event P) → EventLog P → Appended P
  unfolding stabilize_market_slice
  replace_events es log =
      let ev = stabilize_market_slice es in
      kept log (enforce_each log.enforce_market_order_enabled ev none) ev

  abbrev pub sequence_of : Event P → ℕ
  sequence_of (market e) = e.sequence
  sequence_of (other n p) = n

  abbrev pub last_from : ℤ → List (Event P) → ℤ
  last_from n [] = n
  last_from n (e ∷ es) = last_from (pos (sequence_of e)) es

  -- `-1` for an empty log
  unfoldable pub last_sequence : EventLog P → ℤ
  last_sequence log = last_from (negsuc 0) log.events

  abbrev pub sequence_at : List (Event P) → ℕ → ℕ
  sequence_at [] n = 0
  sequence_at (e ∷ es) zero = sequence_of e
  sequence_at (e ∷ es) (suc n) = sequence_at es n

  -- `bisect.bisect_left` and `bisect.bisect_right` over the sequence numbers: the loop halves the
  -- range from `lo` to `hi`, so as many rounds as there are events are enough.
  abbrev pub bisect : (ℕ → Bool) → List (Event P) → ℕ → ℕ → ℕ → ℕ
  bisect left es zero lo hi = lo
  bisect left es (suc fuel) lo hi =
      let mid = (lo + hi) / 2 in
      let up = left (sequence_at es mid) in
      let found = bisect left es fuel (if up then suc mid else lo) (if up then hi else mid) in
      if ltb lo hi then found else lo

  abbrev pub take : ℕ → List (Event P) → List (Event P)
  take zero es = []
  take (suc n) [] = []
  take (suc n) (e ∷ es) = e ∷ take n es

  abbrev pub start_index : List (Event P) → ℕ → ℕ
  start_index es start = bisect (λ n. ltb n start) es (length es) 0 (length es)

  abbrev pub end_index : List (Event P) → Option ℕ → ℕ
  end_index es none = length es
  end_index es (some end) = bisect (λ n. leb n end) es (length es) 0 (length es)

  unfoldable pub replay : ℕ → Option ℕ → EventLog P → List (Event P)
  replay start end log =
      drop (start_index log.events start) (take (end_index log.events end) log.events)
