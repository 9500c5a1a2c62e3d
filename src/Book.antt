-- ===== src/Book.antt =====
-- src/feelies/portfolio/memory_position_store.py: `MemoryPositionStore`, the average-cost book.
-- Money is an integer number of the smallest `Decimal` unit in play. An average price is a quotient
-- of two such numbers, which `Decimal` rounds to its context's precision: `div` is that quotient, a
-- parameter of the store.
pub mod Carried
pub mod Episodes
pub mod Match
use feelies.Kit.{
  ℕ, String, Bool, true, false, not, ◌&&◌, ◌||◌, Option, none, some, List, [], ◌∷◌, if◌then◌else◌,
  string_Eq,
}
use feelies.Kit.Int.{ℤ, pos, ◌+ℤ◌, ◌-ℤ◌, ◌*ℤ◌, is_pos, is_neg, is_zero, abs, minℤ, ltb_ℤ}
use feelies.Kit.Dict.{Dict, lookup, insert, erase}
use feelies.Market.{Position, blank}

pub record PositionStore : Type 0 where
  pub positions : Dict String Position
  pub marks : Dict String ℤ
  pub bids : Dict String ℤ
  pub asks : Dict String ℤ
  pub opened_at : Dict String ℕ

-- `__init__`, and what `reset` leaves.
abbrev pub empty : PositionStore
empty = record { positions = []; marks = []; bids = []; asks = []; opened_at = [] }

unfoldable pub reset : PositionStore → PositionStore
reset s = empty

abbrev pub or_blank : Option Position → String → Position
or_blank none symbol = blank symbol
or_blank (some p) symbol = p

unfoldable pub get : PositionStore → String → Position
get s symbol = or_blank (lookup symbol s.positions) symbol

abbrev pub same_sign : ℤ → ℤ → Bool
same_sign a b = (is_pos a && is_pos b) || (is_neg a && is_neg b)

-- `a or b` on an optional `Decimal`: zero counts as false.
abbrev or_else : Option ℤ → Option ℤ → Option ℤ
or_else none b = b
or_else (some a) b = if is_zero a then b else some a

abbrev at_mark : Option ℤ → Position → ℤ
at_mark none p = pos 0
at_mark (some mark) p = (mark -ℤ p.avg_entry_price) *ℤ p.quantity

-- A long position is marked at the bid and a short one at the ask, or else at the mid.
unfoldable pub unrealized : PositionStore → Position → ℤ
unrealized s p =
    if is_zero p.quantity
    then pos 0
    else if is_pos p.quantity
    then at_mark (or_else (lookup p.symbol s.bids) (lookup p.symbol s.marks)) p
    else at_mark (or_else (lookup p.symbol s.asks) (lookup p.symbol s.marks)) p

unfoldable pub recompute_unrealized : PositionStore → Position → Position
recompute_unrealized s p = record p { unrealized_pnl = unrealized s p }

-- The start of the open episode, for a fill that comes with a time.
abbrev pub episode : String → ℤ → ℤ → Option ℕ → Dict String ℕ → Dict String ℕ
episode symbol old new none opened = opened
episode symbol old new (some t) opened =
    if is_zero new
    then erase symbol opened
    else if is_zero old || not (same_sign old new)
    then insert symbol t opened
    else opened

-- The profit of closing shares against the average price.
unfoldable pub closing : Position → ℤ → ℤ → ℤ
closing p delta price =
    let closed = minℤ (abs delta) (abs p.quantity) in
    if is_pos p.quantity
    then (price -ℤ p.avg_entry_price) *ℤ closed
    else (p.avg_entry_price -ℤ price) *ℤ closed

abbrev pub pnl : Position → ℤ → ℤ → ℤ
pnl p delta price =
    if is_zero p.quantity
    then pos 0
    else if same_sign p.quantity delta
    then pos 0
    else closing p delta price

module _ (div : ℤ → ℤ → ℤ) where
  -- The average price before the test for a flat position.
  abbrev pub average : Position → ℤ → ℤ → ℤ
  average p delta price =
      let new = p.quantity +ℤ delta in
      let total = p.avg_entry_price *ℤ abs p.quantity +ℤ price *ℤ abs delta in
      if is_zero p.quantity
      then price
      else if same_sign p.quantity delta
      then (if is_zero new then pos 0 else div total (abs new))
      else if ltb_ℤ (abs p.quantity) (abs delta)
      then price
      else p.avg_entry_price

  unfoldable pub filled : Position → ℤ → ℤ → ℤ → Position
  filled p delta price fees =
      let new = p.quantity +ℤ delta in
      record p {
        quantity = new;
        avg_entry_price = if is_zero new then pos 0 else average p delta price;
        realized_pnl = p.realized_pnl +ℤ pnl p delta price;
        cumulative_fees = p.cumulative_fees +ℤ fees;
      }

  unfoldable pub update : PositionStore → String → ℤ → ℤ → ℤ → Option ℕ → PositionStore × Position
  unfolding get filled recompute_unrealized
  update s symbol delta price fees timestamp =
      let old = get s symbol in
      let p = recompute_unrealized s (filled old delta price fees) in
      (
        record s {
          positions = insert symbol p s.positions;
          opened_at = episode symbol old.quantity (old.quantity +ℤ delta) timestamp s.opened_at;
        },
        p,
      )

-- `if x is not None and x > 0: d[symbol] = x` or else `d.pop(symbol, None)`
abbrev quote : String → Option ℤ → Dict String ℤ → Dict String ℤ
quote symbol none d = erase symbol d
quote symbol (some x) d = if is_pos x then insert symbol x d else erase symbol d

abbrev refreshed : PositionStore → String → Option Position → Dict String Position
refreshed s symbol none = s.positions
refreshed s symbol (some p) = insert symbol (recompute_unrealized s p) s.positions

unfoldable pub update_mark : PositionStore → String → ℤ → Option ℤ → Option ℤ → PositionStore
unfolding recompute_unrealized
update_mark s symbol mark bid ask =
    let s' = record s {
      marks = insert symbol mark s.marks;
      bids = quote symbol bid s.bids;
      asks = quote symbol ask s.asks;
    } in
    if is_pos mark
    then record s' { positions = refreshed s' symbol (lookup symbol s.positions) }
    else s

unfoldable pub debit_fees : PositionStore → String → ℤ → PositionStore
unfolding get
debit_fees s symbol fees =
    let p = get s symbol in
    if is_zero fees then s else record s {
      positions =
          insert symbol (record p { cumulative_fees = p.cumulative_fees +ℤ fees }) s.positions;
    }

abbrev if_open : Option Position → ℕ → Option ℕ
if_open none ts = none
if_open (some p) ts = if is_zero p.quantity then none else some ts

abbrev still_open : Option ℕ → Option Position → Option ℕ
still_open none p = none
still_open (some ts) p = if_open p ts

unfoldable pub opened_at_ns : PositionStore → String → Option ℕ
opened_at_ns s symbol = still_open (lookup symbol s.opened_at) (lookup symbol s.positions)

unfoldable pub latest_mark : PositionStore → String → Option ℤ
latest_mark s symbol = lookup symbol s.marks

abbrev price_of : Option ℤ → Position → ℤ
price_of none p = p.avg_entry_price
price_of (some mark) p = mark

unfoldable pub exposure_of : Dict String ℤ → Dict String Position → ℤ
exposure_of marks [] = pos 0
exposure_of marks ((symbol, p) ∷ rest) =
    (if is_zero p.quantity then pos 0 else abs p.quantity *ℤ price_of (lookup p.symbol marks) p)
    +ℤ exposure_of marks rest

unfoldable pub total_exposure : PositionStore → ℤ
unfolding exposure_of
total_exposure s = exposure_of s.marks s.positions
