-- ===== src/Examples/Positions.antt =====
-- The average-cost book of src/feelies/portfolio/memory_position_store.py at concrete inputs.
use feelies.Kit.{some, ℕ, ◌≡◌, ◌⊎◌, refl, true, false, none, List, [], ◌∷◌, ◌/◌}
use feelies.Kit.Int.{ℤ, pos, negsuc, ◌+ℤ◌, ◌-ℤ◌, ◌*ℤ◌, is_zero}
use feelies.Market.{Position, blank}
use feelies.Lots
use feelies.Lots.{Fill, net_quantity, realized_pnl_fifo}
use feelies.Lots.Accounts
use feelies.Book
use feelies.Book.{
  PositionStore, get, filled, update, recompute_unrealized, unrealized, opened_at_ns, closing,
}
use feelies.Book.Carried.{carried, carried-filled}
use feelies.Book.Match.{run, quantity-eq-net_quantity, realized_pnl-eq-fifo}
use feelies.Book.Episodes.{Began, opened_at_ns-run}
use feelies.Strategies
use feelies.Strategies.{get_aggregate, total_of, get_store}
use feelies.Strategies.Aggregate
use feelies.Strategies.Aggregate.{get_aggregate-eq-net_quantity, update-isolates}

abbrev divide : ℤ → ℤ → ℤ
divide (pos a) (pos b) = pos (a / b)
divide (pos a) (negsuc b) = pos 0
divide (negsuc a) b = pos 0

abbrev no_fees : Fill → ℤ
no_fees f = pos 0

abbrev fill : ℤ → ℤ → ℕ → Fill
fill q p t = record {
  symbol = "AAPL";
  signed_qty = q;
  price = p;
  timestamp_ns = t;
  strategy_id = "s";
  intent = "";
}

-- Buy 10 at 100, buy 10 at 110, sell 25 at 120, buy 5 at 115: flat in the end.
abbrev fills : List Fill
fills =
    fill (pos 10) (pos 100) 1
    ∷ fill (pos 10) (pos 110) 2
    ∷ fill (negsuc 24) (pos 120) 3
    ∷ fill (pos 5) (pos 115) 4
    ∷ []

fills-run : (get (run divide no_fees fills Book.empty) "AAPL").realized_pnl ≡ pos 325
unfolding get update filled recompute_unrealized unrealized closing ◌+ℤ◌ ◌-ℤ◌ ◌*ℤ◌
fills-run = refl

quantity-eq-net_quantity_example :
    (get (run divide no_fees fills Book.empty) "AAPL").quantity
    ≡ net_quantity (Accounts.run fills Lots.empty) "AAPL"
quantity-eq-net_quantity_example = quantity-eq-net_quantity divide no_fees fills "AAPL"

realized_pnl-eq-fifo_example :
    (get (run divide no_fees fills Book.empty) "AAPL").realized_pnl
    ≡ realized_pnl_fifo (Accounts.run fills Lots.empty) "AAPL"
unfolding get update filled recompute_unrealized unrealized closing ◌+ℤ◌ ◌-ℤ◌ ◌*ℤ◌
realized_pnl-eq-fifo_example =
    realized_pnl-eq-fifo divide no_fees fills "AAPL"
      ((λ e. refl), ((λ e. refl), ((λ e. refl), ((λ e. cc), tt)))) refl

abbrev long_ten : Position
long_ten = record (blank "AAPL") { quantity = pos 10; avg_entry_price = pos 100 }

carried-filled_example :
    carried (filled divide long_ten (pos 10) (pos 110) (pos 1))
    ≡ carried long_ten +ℤ pos 10 *ℤ pos 110
unfolding ◌+ℤ◌ ◌*ℤ◌
carried-filled_example = carried-filled divide long_ten (pos 10) (pos 110) (pos 1) (λ e. refl)

-- The first three of the fills leave 5 short, since the third.
abbrev short_fills : List Fill
short_fills =
    fill (pos 10) (pos 100) 1 ∷ fill (pos 10) (pos 110) 2 ∷ fill (negsuc 24) (pos 120) 3 ∷ []

abbrev short_book : PositionStore
short_book = run divide no_fees short_fills Book.empty

opened_at_ns-run_example :
    ((is_zero (get short_book "AAPL").quantity ≡ true) × (opened_at_ns short_book "AAPL" ≡ none))
    ⊎ ((t : ℕ) × (is_zero (get short_book "AAPL").quantity ≡ false)
        × (opened_at_ns short_book "AAPL" ≡ some t)
        × Began divide no_fees "AAPL" t Book.empty short_fills)
opened_at_ns-run_example = opened_at_ns-run divide no_fees short_fills "AAPL"

short-opened : opened_at_ns short_book "AAPL" ≡ some 3
unfolding opened_at_ns update get filled recompute_unrealized unrealized closing ◌+ℤ◌ ◌-ℤ◌ ◌*ℤ◌
short-opened = refl

-- Two strategies on both sides of a symbol: 10 long and 4 short.
abbrev two : List Fill
two =
    record (fill (pos 10) (pos 100) 1) { strategy_id = "a" }
    ∷ record (fill (negsuc 3) (pos 120) 2) { strategy_id = "b" }
    ∷ []

two-run :
    (get_aggregate divide (Aggregate.run divide no_fees two Strategies.empty) "AAPL").quantity
    ≡ pos 6
unfolding get_aggregate total_of Strategies.update get_store get update filled recompute_unrealized
    unrealized ◌+ℤ◌ ◌-ℤ◌ ◌*ℤ◌
two-run = refl

get_aggregate-eq-net_quantity_example :
    (get_aggregate divide (Aggregate.run divide no_fees two Strategies.empty) "AAPL").quantity
    ≡ net_quantity (Accounts.run two Lots.empty) "AAPL"
get_aggregate-eq-net_quantity_example = get_aggregate-eq-net_quantity divide no_fees two "AAPL"

update-isolates_example :
    (Strategies.get
      (Strategies.update divide Strategies.empty "a" "AAPL" (pos 10) (pos 100) (pos 1) (some 1)).0
      "b"
      "AAPL").1
    ≡ (Strategies.get Strategies.empty "b" "AAPL").1
update-isolates_example =
    update-isolates divide Strategies.empty "a" "b" "AAPL" "AAPL" (pos 10) (pos 100) (pos 1)
      (some 1) refl
