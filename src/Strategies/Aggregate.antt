-- ===== src/Strategies/Aggregate.antt =====
-- The aggregate of the strategies' books (src/feelies/portfolio/strategy_position_store.py) beside
-- one lot ledger (src/feelies/core/lot_ledger.py) that sees all their fills.
use feelies.Kit.{
  ℕ, String, ◌≡◌, refl, false, Option, none, some, List, [], ◌∷◌, ap, ◌∙◌, sym, string_Eq,
  if◌then◌else◌, Bool-cases, inl, inr,
}
use feelies.Kit.Int.{ℤ, pos, ◌+ℤ◌, ◌-ℤ◌, is_zero, int_laws}
use feelies.Kit.Dict.{Dict, lookup, insert, lookup-insert}
use feelies.Lots
use feelies.Lots.{Fill, net_quantity}
use feelies.Lots.Accounts.{shares, net_quantity-run}
use feelies.Lots.Accounts
use feelies.Book
use feelies.Book.{PositionStore}
use feelies.Book.Carried.{eq_zero}
use feelies.Book.Match.{quantity-fed}
use feelies.Book.Match
use feelies.Strategies.{
  StrategyPositionStore, empty, or_new, get_store, get, update, total_of, figure_or_zero, held_qty,
  get_aggregate,
}

total_of-insert :
    (figure : PositionStore → ℤ) (k : String) (v : PositionStore) (d : Dict String PositionStore)
    → total_of figure (insert k v d)
      ≡ total_of figure d +ℤ (figure v -ℤ figure_or_zero figure (lookup k d))
unfolding total_of
total_of-insert figure k v [] = omega int_laws
total_of-insert figure k v ((j, w) ∷ d) = elim (Bool-cases (string_Eq.eqb j k)) [
  | inl same ↦ rw same (omega int_laws)
  | inr other ↦ rw (other, total_of-insert figure k v d) (omega int_laws)
]

held_qty-eq : (j : String) (store : PositionStore) → held_qty j store ≡ (Book.get store j).quantity
held_qty-eq j store = elim (Bool-cases (is_zero (Book.get store j).quantity)) [
  | inl flat ↦ rw flat (sym (eq_zero (Book.get store j).quantity flat))
  | inr open_one ↦ rw open_one
]

module _ (div : ℤ → ℤ → ℤ) (fees : Fill → ℤ) where
  -- `store.update(strategy_id, symbol, signed_qty, price, fees, timestamp_ns)` for each fill.
  abbrev pub fed : Fill → StrategyPositionStore → StrategyPositionStore
  fed f s =
      (update div s f.strategy_id f.symbol f.signed_qty f.price (fees f) (some f.timestamp_ns)).0

  abbrev pub run : List Fill → StrategyPositionStore → StrategyPositionStore
  run [] s = s
  run (f ∷ fs) s = run fs (fed f s)

  stores-fed :
      (f : Fill) (s : StrategyPositionStore)
      → let store = or_new (lookup f.strategy_id s.stores) in
        (fed f s).stores
        ≡ insert f.strategy_id (Match.fed div fees f store) (insert f.strategy_id store s.stores)
  unfolding update get_store
  stores-fed f s = refl

  qty_or_new :
      (j : String) (found : Option PositionStore)
      → figure_or_zero (held_qty j) found ≡ held_qty j (or_new found)
  unfolding Book.get
  qty_or_new j none = refl
  qty_or_new j (some store) = refl

  aggregate-fed :
      (f : Fill) (s : StrategyPositionStore) (j : String)
      → (get_aggregate div (fed f s) j).quantity
        ≡ (get_aggregate div s j).quantity
          +ℤ (if string_Eq.eqb f.symbol j then f.signed_qty else pos 0)
  unfolding get_aggregate
  aggregate-fed f s j =
      let store = or_new (lookup f.strategy_id s.stores) in
      let fed_store = Match.fed div fees f store in
      ap (total_of (held_qty j)) (stores-fed f s)
      ∙ total_of-insert (held_qty j) f.strategy_id fed_store (insert f.strategy_id store s.stores)
      ∙ rw
          (
            total_of-insert (held_qty j) f.strategy_id store s.stores,
            lookup-insert f.strategy_id f.strategy_id store s.stores,
            (string_Eq.eqb_iff f.strategy_id f.strategy_id).1 refl,
            qty_or_new j (lookup f.strategy_id s.stores),
            held_qty-eq j fed_store,
            held_qty-eq j store,
            quantity-fed div fees f store j,
          )
          (omega int_laws)

  aggregate-run :
      (fs : List Fill) (s : StrategyPositionStore) (j : String)
      → (get_aggregate div (run fs s) j).quantity ≡ (get_aggregate div s j).quantity +ℤ shares j fs
  unfolding shares
  aggregate-run [] s j = omega int_laws
  aggregate-run (f ∷ fs) s j =
      aggregate-run fs (fed f s) j ∙ rw (aggregate-fed f s j) (omega int_laws)

  aggregate-empty : (j : String) → (get_aggregate div empty j).quantity ≡ pos 0
  unfolding get_aggregate total_of
  aggregate-empty j = refl

  -- After any fills, each booked by its own strategy, the aggregate quantity of a symbol is the
  -- net quantity of one lot ledger that was given all of them, whatever the quotients are.
  pub get_aggregate-eq-net_quantity :
      (fs : List Fill) (j : String)
      → (get_aggregate div (run fs empty) j).quantity ≡ net_quantity (Accounts.run fs Lots.empty) j
  get_aggregate-eq-net_quantity fs j =
      aggregate-run fs empty j
      ∙ rw (aggregate-empty j) (omega int_laws)
      ∙ sym (net_quantity-run fs j)

module _ (div : ℤ → ℤ → ℤ) where
  -- A fill of one strategy leaves every position of another strategy as it was.
  pub update-isolates :
      (s : StrategyPositionStore) (strategy_id other symbol j : String) (delta price paid : ℤ)
      (timestamp : Option ℕ)
      → string_Eq.eqb strategy_id other ≡ false
      → (get (update div s strategy_id symbol delta price paid timestamp).0 other j).1
        ≡ (get s other j).1
  unfolding get update get_store
  update-isolates s strategy_id other symbol j delta price paid timestamp apart =
      let store = or_new (lookup strategy_id s.stores) in
      rw (
        lookup-insert strategy_id other _ (insert strategy_id store s.stores),
        apart,
        lookup-insert strategy_id other store s.stores,
        apart,
      )
