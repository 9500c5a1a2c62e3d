-- ===== src/DayTrades/Pruning.antt =====
-- What a fill adds to the count of round trips
-- (src/feelies/execution/regulatory/pdt_constraint.py: `record_fill`, `_prune`).
use feelies.Kit.{
  ℕ, suc, ◌-◌, ◌/◌, ◌≤◌, ◌≡◌, refl, String, Bool, false, not, ◌&&◌, ◌||◌, Option, List, [], ◌∷◌,
  ◌++◌, arith, ltb, leb, if◌then◌else◌, Bool-cases, inl, inr, eqb_self, string_Eq, pair_Eq,
}
use feelies.Kit.Int.{ℤ, is_zero, is_pos, abs, ltb_ℤ}
use feelies.Kit.Dict.{Dict, lookup, lookup-insert}
use feelies.DayTrades.{
  Holding, PdtConstraint, business_days_between, recent, prune_age, recorded, trips_of, traded,
  is_day, counted, record_fill, round_trip_count,
}

-- A trip that is pruned was outside of the window of at most ten business days already.
pruned_out :
    (day later window d : ℕ)
    → day ≤ later
    → window ≤ 10
    → leb (day - d) prune_age ≡ false
    → ltb (business_days_between d later) window ≡ false
unfolding business_days_between
pruned_out day later window d h w old =
    let after : leb later d ≡ false = ground (arith, h, old) in
    let far : 15 ≤ later - d = ground (arith, h, old) in
    let weeks : 2 ≤ (later - d) / 7 = omega (arith, far) in rw after (ground (arith, weeks, w))

recent-counted :
    (day later window : ℕ) (ds : List ℕ)
    → day ≤ later
    → window ≤ 10
    → counted window later (recent day ds) ≡ counted window later ds
unfolding business_days_between
recent-counted day later window [] h w = refl
recent-counted day later window (d ∷ ds) h w =
    ground (arith, recent-counted day later window ds h w, pruned_out day later window d h w)

append-counted :
    (window later day : ℕ) (ds : List ℕ)
    → counted window later (ds ++ (day ∷ [])) ≡ (
        if ltb (business_days_between day later) window
        then suc (counted window later ds)
        else counted window later ds)
unfolding business_days_between
append-counted window later day [] = refl
append-counted window later day (d ∷ ds) = ground (arith, append-counted window later day ds)

-- A fill that brings a position nearer to flat, or through it.
abbrev pub shrinks : ℤ → ℤ → Bool
shrinks prev new =
    not (is_zero prev)
    && (ltb_ℤ (abs new) (abs prev) || (if is_pos prev then not (is_pos new) else is_pos new))

traded-shrinks :
    (opened : Option ℕ) (key : Holding) (day : ℕ) (prev new : ℤ) (dates : Dict Holding ℕ)
    → (traded opened key day prev new dates).1 ≡ shrinks prev new && is_day opened day
unfolding traded
traded-shrinks opened key day prev new dates = ground arith

recorded-counted :
    (account : String) (day later window : ℕ) (trips : Dict String (List ℕ))
    → day ≤ later
    → window ≤ 10
    → let old = counted window later (trips_of (lookup account trips)) in
      counted window later (trips_of (lookup account (recorded account day trips)))
      ≡ (if ltb (business_days_between day later) window then suc old else old)
unfolding recorded
recorded-counted account day later window trips h w =
    let ds = trips_of (lookup account trips) in
    rw
      (
        lookup-insert account account (recent day (ds ++ (day ∷ []))) trips,
        eqb_self account,
        recent-counted day later window (ds ++ (day ∷ [])) h w,
      )
      (append-counted window later day ds)

-- With a window of at most ten business days, a fill adds one round trip to those counted at a
-- later time if it brings a position nearer to flat, or through it, on the day that it was opened
-- and this day is still in the window, and it adds none otherwise. What it prunes never counts.
pub record_fill-count :
    (trading_date : ℕ → ℕ) (account symbol : String) (prev new : ℤ) (timestamp_ns now_ns : ℕ)
    (c : PdtConstraint)
    → trading_date timestamp_ns ≤ trading_date now_ns
    → c.config.window_business_days ≤ 10
    → let day = trading_date timestamp_ns in
      let old = round_trip_count trading_date account now_ns c in
      let closes = shrinks prev new && is_day (lookup (account, symbol) c.open_trade_date) day in
      let in_window =
        ltb (business_days_between day (trading_date now_ns)) c.config.window_business_days in
      round_trip_count trading_date account now_ns
        (record_fill trading_date account symbol prev new timestamp_ns c)
      ≡ (if closes && in_window then suc old else old)
unfolding record_fill round_trip_count
record_fill-count trading_date account symbol prev new timestamp_ns now_ns c h w =
    let day = trading_date timestamp_ns in
    let key : Holding = (account, symbol) in
    let opened = lookup key c.open_trade_date in
    elim (Bool-cases (shrinks prev new && is_day opened day)) [
      | inl closes ↦
          rw (traded-shrinks opened key day prev new c.open_trade_date, closes)
            (recorded-counted account day (trading_date now_ns) c.config.window_business_days
              c.round_trips h w)
      | inr keeps ↦ rw (traded-shrinks opened key day prev new c.open_trade_date, keeps) refl
    ]
