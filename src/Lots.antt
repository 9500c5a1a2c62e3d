-- ===== src/Lots.antt =====
-- src/feelies/core/lot_ledger.py: `Lot` and `LotLedger`, a FIFO book of open lots for each symbol.
-- A `Decimal` price or profit is an integer number of the smallest price unit: the ledger only
-- adds, subtracts, compares with zero and multiplies by share counts, which `Decimal` does exactly
-- at that scale. Times are natural numbers of nanoseconds.
pub mod Conserve
pub mod Accounts
pub mod Sides
pub mod Runs
use feelies.Kit.{
  ℕ, String, Bool, true, false, not, ◌&&◌, ◌||◌, Option, none, some, List, [], ◌∷◌, ◌++◌,
  if◌then◌else◌, Eq, string_Eq, length,
}
use feelies.Kit.Int.{ℤ, pos, ◌+ℤ◌, ◌-ℤ◌, ◌*ℤ◌, is_pos, is_neg, is_zero, abs, minℤ, leb_ℤ}
use feelies.Kit.Dict.{Dict, lookup, insert}

pub record Lot : Type 0 where
  pub quantity : ℤ
  pub price : ℤ
  pub opened_at_ns : ℕ
  pub strategy_id : String
  pub intent : String

pub record LotLedger : Type 0 where
  pub book : Dict String (List Lot)
  pub realized_fifo : Dict String ℤ

-- The arguments of a fill that its new lot keeps.
pub record Fill : Type 0 where
  pub symbol : String
  pub signed_qty : ℤ
  pub price : ℤ
  pub timestamp_ns : ℕ
  pub strategy_id : String
  pub intent : String

abbrev pub empty : LotLedger
empty = record { book = []; realized_fifo = [] }

abbrev pub same_sign : ℤ → ℤ → Bool
same_sign a b = (is_pos a && is_pos b) || (is_neg a && is_neg b)

-- `sum(lot.quantity for lot in lots)`
unfoldable pub net : List Lot → ℤ
net [] = pos 0
net (lot ∷ lots) = lot.quantity +ℤ net lots

abbrev pub lots_or_empty : Option (List Lot) → List Lot
lots_or_empty none = []
lots_or_empty (some lots) = lots

abbrev pub or_zero : Option ℤ → ℤ
or_zero none = pos 0
or_zero (some x) = x

abbrev pub opened : Fill → ℤ → Lot
opened f quantity = record {
  quantity = quantity;
  price = f.price;
  opened_at_ns = f.timestamp_ns;
  strategy_id = f.strategy_id;
  intent = f.intent;
}

-- What the `while` loop leaves: the lots, what is still to reduce, and the profit realized.
pub record Matched : Type 0 where
  pub lots : List Lot
  pub to_reduce : ℤ
  pub realized : ℤ

-- The profit of one match against the front lot.
abbrev pub gain : Lot → ℤ → ℤ → ℤ
gain front price matched =
    if is_pos front.quantity
    then (price -ℤ front.price) *ℤ matched
    else (front.price -ℤ price) *ℤ matched

-- The loop's test on a non-empty list, negated.
abbrev pub stops : ℤ → ℤ → Bool
stops quantity to_reduce = is_zero to_reduce || same_sign quantity to_reduce

-- `abs(front.quantity) <= abs(to_reduce)`: the fill takes all of the front lot.
abbrev pub takes_all : ℤ → ℤ → Bool
takes_all quantity to_reduce = leb_ℤ (abs quantity) (abs to_reduce)

-- The `while` loop, which pops the front lot or reduces `to_reduce` to zero in each round.
unfoldable pub reduce : List Lot → ℤ → ℤ → ℤ → Matched
reduce [] to_reduce price realized = record {
  lots = [];
  to_reduce = to_reduce;
  realized = realized;
}
reduce (front ∷ rest) to_reduce price realized =
    let matched = minℤ (abs front.quantity) (abs to_reduce) in
    let profit = realized +ℤ gain front price matched in
    let next = reduce rest (to_reduce +ℤ front.quantity) price profit in
    if stops front.quantity to_reduce
    then record { lots = front ∷ rest; to_reduce = to_reduce; realized = realized }
    else if takes_all front.quantity to_reduce
    then next
    else record {
      lots = record front { quantity = front.quantity +ℤ to_reduce } ∷ rest;
      to_reduce = pos 0;
      realized = profit;
    }

-- `if to_reduce != 0: lots.append(...)`
abbrev pub with_residual : Fill → Matched → List Lot
with_residual f m = if is_zero m.to_reduce then m.lots else m.lots ++ (opened f m.to_reduce ∷ [])

-- `net == 0 or _same_sign(net, signed_qty)`
abbrev pub extends : ℤ → ℤ → Bool
extends held signed_qty = is_zero held || same_sign held signed_qty

-- What a fill does to the lots of its symbol, and the profit that it realizes.
unfoldable pub fill_lots : Fill → List Lot → List Lot × ℤ
fill_lots f lots =
    if extends (net lots) f.signed_qty
    then (lots ++ (opened f f.signed_qty ∷ []), pos 0)
    else let m = reduce lots f.signed_qty f.price (pos 0) in (with_residual f m, m.realized)

-- `if realized != 0: self._realized_fifo[symbol] = ...`
abbrev pub booked : String → ℤ → Dict String ℤ → Dict String ℤ
booked symbol realized d =
    if is_zero realized then d else insert symbol (or_zero (lookup symbol d) +ℤ realized) d

unfoldable pub apply_fill : Fill → LotLedger → LotLedger
apply_fill f l =
    let (lots, realized) = fill_lots f (lots_or_empty (lookup f.symbol l.book)) in
    if is_zero f.signed_qty then l else record {
      book = insert f.symbol lots l.book;
      realized_fifo = booked f.symbol realized l.realized_fifo;
    }

unfoldable pub lots_of : LotLedger → String → List Lot
lots_of l symbol = lots_or_empty (lookup symbol l.book)

unfoldable pub open_lot_count : LotLedger → String → ℕ
unfolding lots_of
open_lot_count l symbol = length (lots_of l symbol)

unfoldable pub net_quantity : LotLedger → String → ℤ
unfolding lots_of
net_quantity l symbol = net (lots_of l symbol)

oldest : List Lot → ℕ → Option ℤ
oldest [] now_ns = none
oldest (front ∷ rest) now_ns = some (pos now_ns -ℤ pos front.opened_at_ns)

unfoldable pub oldest_open_age_ns : LotLedger → String → ℕ → Option ℤ
unfolding lots_of oldest
oldest_open_age_ns l symbol now_ns = oldest (lots_of l symbol) now_ns

unfoldable pub realized_pnl_fifo : LotLedger → String → ℤ
realized_pnl_fifo l symbol = or_zero (lookup symbol l.realized_fifo)

-- The symbols with an open lot, in the order of their first fill.
unfoldable pub symbols : Dict String (List Lot) → List String
symbols [] = []
symbols ((s, []) ∷ d) = symbols d
symbols ((s, x ∷ xs) ∷ d) = s ∷ symbols d
