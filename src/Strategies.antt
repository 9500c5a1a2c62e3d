-- ===== src/Strategies.antt =====
-- src/feelies/portfolio/strategy_position_store.py: `StrategyPositionStore`, a book for each
-- strategy, and `_AggregateView`, the sum over them. `div` is the `Decimal` quotient.
pub mod Aggregate
use feelies.Kit.{ℕ, String, Option, none, some, [], ◌∷◌, if◌then◌else◌, string_Eq}
use feelies.Kit.Int.{ℤ, pos, ◌+ℤ◌, ◌*ℤ◌, is_pos, is_zero}
use feelies.Kit.Dict.{Dict, lookup, insert}
use feelies.Market.{Position}
use feelies.Book
use feelies.Book.{PositionStore}

pub record StrategyPositionStore : Type 0 where
  pub stores : Dict String PositionStore

abbrev pub empty : StrategyPositionStore
empty = record { stores = [] }

unfoldable pub reset : StrategyPositionStore → StrategyPositionStore
reset s = empty

abbrev pub or_new : Option PositionStore → PositionStore
or_new none = Book.empty
or_new (some store) = store

-- `_get_store` makes the book of a strategy that it sees first.
unfoldable pub get_store : StrategyPositionStore → String → StrategyPositionStore × PositionStore
get_store s strategy_id =
    let store = or_new (lookup strategy_id s.stores) in
    (record s { stores = insert strategy_id store s.stores }, store)

abbrev pub put_store : StrategyPositionStore → String → PositionStore → StrategyPositionStore
put_store s strategy_id store = record s { stores = insert strategy_id store s.stores }

unfoldable pub get : StrategyPositionStore → String → String → StrategyPositionStore × Position
unfolding get_store
get s strategy_id symbol = let (s', store) = get_store s strategy_id in (s', Book.get store symbol)

abbrev pub opened_in : Option PositionStore → String → Option ℕ
opened_in none symbol = none
opened_in (some store) symbol = Book.opened_at_ns store symbol

unfoldable pub opened_at_ns : StrategyPositionStore → String → String → Option ℕ
opened_at_ns s strategy_id symbol = opened_in (lookup strategy_id s.stores) symbol

unfoldable pub debit_fees : StrategyPositionStore → String → String → ℤ → StrategyPositionStore
unfolding get_store
debit_fees s strategy_id symbol fees =
    let (s', store) = get_store s strategy_id in
    put_store s' strategy_id (Book.debit_fees store symbol fees)

abbrev pub mark_all :
    Dict String PositionStore → String → ℤ → Option ℤ → Option ℤ → Dict String PositionStore
mark_all [] symbol mark bid ask = []
mark_all ((strategy_id, store) ∷ rest) symbol mark bid ask =
    (strategy_id, Book.update_mark store symbol mark bid ask) ∷ mark_all rest symbol mark bid ask

unfoldable pub update_mark :
    StrategyPositionStore → String → ℤ → Option ℤ → Option ℤ → StrategyPositionStore
update_mark s symbol mark bid ask =
    if is_pos mark then record s { stores = mark_all s.stores symbol mark bid ask } else s

-- The total of a figure of the books.
unfoldable pub total_of : (PositionStore → ℤ) → Dict String PositionStore → ℤ
total_of figure [] = pos 0
total_of figure ((strategy_id, store) ∷ rest) = figure store +ℤ total_of figure rest

-- What a book adds to `total_qty` and to `total_signed_cost`.
abbrev pub held_qty : String → PositionStore → ℤ
held_qty symbol store =
    let p = Book.get store symbol in if is_zero p.quantity then pos 0 else p.quantity

abbrev pub held_cost : String → PositionStore → ℤ
held_cost symbol store =
    let p = Book.get store symbol in
    if is_zero p.quantity then pos 0 else p.avg_entry_price *ℤ p.quantity

unfoldable pub total_exposure : StrategyPositionStore → ℤ
unfolding total_of
total_exposure s = total_of Book.total_exposure s.stores

abbrev pub figure_or_zero : (PositionStore → ℤ) → Option PositionStore → ℤ
figure_or_zero figure none = pos 0
figure_or_zero figure (some store) = figure store

unfoldable pub get_strategy_exposure : StrategyPositionStore → String → ℤ
get_strategy_exposure s strategy_id =
    figure_or_zero Book.total_exposure (lookup strategy_id s.stores)

unfoldable pub sum_positions : (Position → ℤ) → Dict String Position → ℤ
sum_positions figure [] = pos 0
sum_positions figure ((symbol, p) ∷ rest) = figure p +ℤ sum_positions figure rest

-- `get_strategy_realized_pnl`, `get_strategy_cumulative_fees` and `get_strategy_unrealized_pnl`
abbrev pub strategy_total : (Position → ℤ) → StrategyPositionStore → String → ℤ
strategy_total figure s strategy_id =
    figure_or_zero (λ store. sum_positions figure store.positions) (lookup strategy_id s.stores)

unfoldable pub get_strategy_realized_pnl : StrategyPositionStore → String → ℤ
unfolding sum_positions
get_strategy_realized_pnl = strategy_total (λ p. p.realized_pnl)

unfoldable pub get_strategy_cumulative_fees : StrategyPositionStore → String → ℤ
unfolding sum_positions
get_strategy_cumulative_fees = strategy_total (λ p. p.cumulative_fees)

unfoldable pub get_strategy_unrealized_pnl : StrategyPositionStore → String → ℤ
unfolding sum_positions
get_strategy_unrealized_pnl = strategy_total (λ p. p.unrealized_pnl)

abbrev pub open_in : Dict String Position → Dict String Position
open_in [] = []
open_in ((symbol, p) ∷ rest) =
    let others = open_in rest in if is_zero p.quantity then others else (symbol, p) ∷ others

abbrev pub open_or_none : Option PositionStore → Dict String Position
open_or_none none = []
open_or_none (some store) = open_in store.positions

unfoldable pub open_positions : StrategyPositionStore → String → Dict String Position
open_positions s strategy_id = open_or_none (lookup strategy_id s.stores)

module _ (div : ℤ → ℤ → ℤ) where
  unfoldable pub update :
      StrategyPositionStore
      → String
      → String
      → ℤ
      → ℤ
      → ℤ
      → Option ℕ
      → StrategyPositionStore × Position
  unfolding get_store
  update s strategy_id symbol delta price fees timestamp =
      let (s', store) = get_store s strategy_id in
      let (store', p) = Book.update div store symbol delta price fees timestamp in
      (put_store s' strategy_id store', p)

  unfoldable pub get_aggregate : StrategyPositionStore → String → Position
  unfolding total_of
  get_aggregate s symbol =
      let qty = total_of (held_qty symbol) s.stores in
      record {
        symbol = symbol;
        quantity = qty;
        avg_entry_price =
            if is_zero qty then pos 0 else div (total_of (held_cost symbol) s.stores) qty;
        realized_pnl = total_of (λ store. (Book.get store symbol).realized_pnl) s.stores;
        unrealized_pnl = total_of (λ store. (Book.get store symbol).unrealized_pnl) s.stores;
        cumulative_fees = total_of (λ store. (Book.get store symbol).cumulative_fees) s.stores;
      }
