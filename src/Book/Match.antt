-- ===== src/Book/Match.antt =====
-- The average-cost book (src/feelies/portfolio/memory_position_store.py) beside the lot ledger
-- (src/feelies/core/lot_ledger.py), fed with the same fills.
use feelies.Kit.{
  String, ◌≡◌, refl, inl, inr, true, some, List, [], ◌∷◌, ap, ◌∙◌, sym, string_Eq, if◌then◌else◌,
  Bool-cases,
}
use feelies.Kit.Int.{ℤ, pos, pos_part, neg_part, ◌+ℤ◌, ◌-ℤ◌, ◌*ℤ◌, is_zero, int_laws}
use feelies.Kit.Ring.{mul-zero}
use feelies.Kit.Dict.{lookup-insert}
use feelies.Lots
use feelies.Lots.{Fill, net_quantity, realized_pnl_fifo, lots_of}
use feelies.Lots.Accounts.{shares, paid, net_quantity-run, realized_pnl-run}
use feelies.Lots.Accounts
use feelies.Lots.Runs.{flat-basis}
use feelies.Book.{
  PositionStore, or_blank, get, filled, recompute_unrealized, unrealized, update, same_sign,
}
use feelies.Book
use feelies.Book.Carried.{carried, Exact, carried-filled, eq_zero}

module _ (div : ℤ → ℤ → ℤ) (fees : Fill → ℤ) where
  -- `store.update(symbol, signed_qty, price, fees, timestamp_ns)` for each fill.
  abbrev pub fed : Fill → PositionStore → PositionStore
  fed f s = (update div s f.symbol f.signed_qty f.price (fees f) (some f.timestamp_ns)).0

  abbrev pub run : List Fill → PositionStore → PositionStore
  run [] s = s
  run (f ∷ fs) s = run fs (fed f s)

  -- Every average that the run computes is exact.
  abbrev pub ExactRun : List Fill → PositionStore → Type 0
  ExactRun [] s = Unit
  ExactRun (f ∷ fs) s =
      let p = get s f.symbol in
      (same_sign p.quantity f.signed_qty ≡ true → Exact div p f.signed_qty f.price)
      × ExactRun fs (fed f s)

  pub get-fed :
      (f : Fill) (s : PositionStore) (j : String)
      → get (fed f s) j ≡ (
          if string_Eq.eqb f.symbol j
          then recompute_unrealized s (filled div (get s f.symbol) f.signed_qty f.price (fees f))
          else get s j)
  unfolding get update
  get-fed f s j =
      rw (lookup-insert f.symbol j _ s.positions)
        (elim (Bool-cases (string_Eq.eqb f.symbol j)) [ inl same ↦ rw same | inr other ↦ rw other ])

  pub quantity-fed :
      (f : Fill) (s : PositionStore) (j : String)
      → (get (fed f s) j).quantity
        ≡ (get s j).quantity +ℤ (if string_Eq.eqb f.symbol j then f.signed_qty else pos 0)
  unfolding filled recompute_unrealized
  quantity-fed f s j = rw (get-fed f s j) (elim (Bool-cases (string_Eq.eqb f.symbol j)) [
    | inl same ↦ rw (same, (string_Eq.eqb_iff f.symbol j).0 same)
    | inr other ↦ rw other (omega int_laws)
  ])

  carried-fed :
      (f : Fill) (s : PositionStore) (j : String)
      → (same_sign (get s f.symbol).quantity f.signed_qty ≡ true
          → Exact div (get s f.symbol) f.signed_qty f.price)
      → carried (get (fed f s) j)
        ≡ carried (get s j) +ℤ (if string_Eq.eqb f.symbol j then f.signed_qty *ℤ f.price else pos 0)
  unfolding recompute_unrealized
  carried-fed f s j exact = rw (get-fed f s j) (elim (Bool-cases (string_Eq.eqb f.symbol j)) [
    | inl same ↦
        rw (same, ← (string_Eq.eqb_iff f.symbol j).0 same)
          (carried-filled div (get s f.symbol) f.signed_qty f.price (fees f) exact)
    | inr other ↦ rw other (omega int_laws)
  ])

  quantity-run :
      (fs : List Fill) (s : PositionStore) (j : String)
      → (get (run fs s) j).quantity ≡ (get s j).quantity +ℤ shares j fs
  unfolding shares
  quantity-run [] s j = omega int_laws
  quantity-run (f ∷ fs) s j = quantity-run fs (fed f s) j ∙ rw (quantity-fed f s j) (omega int_laws)

  carried-run :
      (fs : List Fill) (s : PositionStore) (j : String)
      → ExactRun fs s
      → carried (get (run fs s) j) ≡ carried (get s j) +ℤ paid j fs
  unfolding paid
  carried-run [] s j h = omega int_laws
  carried-run (f ∷ fs) s j h =
      carried-run fs (fed f s) j h.1 ∙ rw (carried-fed f s j h.0) (omega int_laws)

  -- After any fills the book's quantity of a symbol is the net quantity of the lot ledger that
  -- was given the same fills, whatever the quotients are.
  pub quantity-eq-net_quantity :
      (fs : List Fill) (j : String)
      → (get (run fs Book.empty) j).quantity ≡ net_quantity (Accounts.run fs Lots.empty) j
  unfolding get
  quantity-eq-net_quantity fs j =
      quantity-run fs Book.empty j ∙ omega int_laws ∙ sym (net_quantity-run fs j)

  carried-blank : (j : String) → carried (get Book.empty j) ≡ pos 0
  unfolding get ◌-ℤ◌ ◌*ℤ◌
  carried-blank j = refl

  -- Average-cost and FIFO profits differ while a position is open, but whenever it is flat they
  -- agree, provided that the averages were computed exactly.
  pub realized_pnl-eq-fifo :
      (fs : List Fill) (j : String)
      → ExactRun fs Book.empty
      → is_zero (get (run fs Book.empty) j).quantity ≡ true
      → (get (run fs Book.empty) j).realized_pnl ≡ realized_pnl_fifo (Accounts.run fs Lots.empty) j
  realized_pnl-eq-fifo fs j exact flat =
      let p = get (run fs Book.empty) j in
      let cost : p.avg_entry_price *ℤ p.quantity ≡ pos 0 =
        ap (λ t. p.avg_entry_price *ℤ t) (eq_zero p.quantity flat) ∙ mul-zero p.avg_entry_price in
      let average = carried-run fs Book.empty j exact in
      let start = carried-blank j in
      let fifo = realized_pnl-run fs j in
      let lots = flat-basis fs j (ap is_zero (sym (quantity-eq-net_quantity fs j)) ∙ flat) in
      omega (
        int_laws,
        ap pos_part cost,
        ap neg_part cost,
        ap pos_part average,
        ap neg_part average,
        ap pos_part start,
        ap neg_part start,
        ap pos_part fifo,
        ap neg_part fifo,
        ap pos_part lots,
        ap neg_part lots,
      )
