-- ===== src/Examples/Ledger.antt =====
-- Fills of src/feelies/core/lot_ledger.py at concrete inputs.
use feelies.Kit.{ℕ, ◌≡◌, refl, true, List, [], ◌∷◌, nat_eq, string_Eq}
use feelies.Kit.Int.{ℤ, pos, negsuc, ◌+ℤ◌, ◌-ℤ◌, ◌*ℤ◌, is_zero}
use feelies.Lots.{
  Lot, Fill, empty, net, reduce, fill_lots, apply_fill, lots_of, net_quantity, open_lot_count,
  realized_pnl_fifo,
}
use feelies.Lots.Conserve.{basis}
use feelies.Lots.Accounts.{run, paid, realized_pnl-run}
use feelies.Lots.Sides.{OneSided, fill_lots-OneSided}
use feelies.Lots.Runs.{run-OneSided}

abbrev fill : ℤ → ℤ → ℕ → Fill
fill q p t = record {
  symbol = "AAPL";
  signed_qty = q;
  price = p;
  timestamp_ns = t;
  strategy_id = "s";
  intent = "";
}

-- Buy 10 at 100, buy 5 at 110, sell 20 at 120: both lots go and 5 shares are short.
abbrev fills : List Fill
fills = fill (pos 10) (pos 100) 1 ∷ fill (pos 5) (pos 110) 2 ∷ fill (negsuc 19) (pos 120) 3 ∷ []

fills-run : realized_pnl_fifo (run fills empty) "AAPL" ≡ pos 250
unfolding realized_pnl_fifo apply_fill fill_lots reduce net ◌+ℤ◌ ◌-ℤ◌ ◌*ℤ◌
fills-run = refl

realized_pnl-run_example :
    realized_pnl_fifo (run fills empty) "AAPL"
    ≡ basis (lots_of (run fills empty) "AAPL") -ℤ paid "AAPL" fills
realized_pnl-run_example = realized_pnl-run fills "AAPL"

abbrev held : List Lot
held =
    record { quantity = pos 4; price = pos 7; opened_at_ns = 3; strategy_id = "s"; intent = "" }
    ∷ []

fill_lots-OneSided_example : OneSided (fill_lots (fill (negsuc 8) (pos 9) 5) held).0
fill_lots-OneSided_example =
    fill_lots-OneSided (fill (negsuc 8) (pos 9) 5) held refl (true, (refl, tt))

run-OneSided_example :
    OneSided (lots_of (run fills empty) "AAPL")
    × (is_zero (net_quantity (run fills empty) "AAPL")
        ≡ nat_eq (open_lot_count (run fills empty) "AAPL") 0)
run-OneSided_example = run-OneSided fills "AAPL"
