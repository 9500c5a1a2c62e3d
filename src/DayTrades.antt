-- ===== src/DayTrades.antt =====
-- src/feelies/execution/regulatory/pdt_constraint.py: the count of same-day round trips of an
-- account, and the suppression of entries. A date is its ordinal number, as Python's `toordinal`
-- gives it; `trading_date` is the date in New York of a timestamp, which rests on the time zone
-- database. Money is an integer number of the smallest unit in play.
pub mod Weeks
pub mod Pruning
use feelies.Kit.{
  ℕ, zero, suc, ◌+◌, ◌-◌, ◌*◌, ◌/◌, ◌%◌, String, Bool, true, false, not, ◌&&◌, Option, none, some,
  List, [], ◌∷◌, ◌++◌, ltb, leb, nat_eq, if◌then◌else◌, string_Eq, pair_Eq,
}
use feelies.Kit.Int.{ℤ, pos, is_zero, is_pos, abs, ltb_ℤ, leb_ℤ}
use feelies.Kit.Dict.{Dict, lookup, insert, erase}

pub data AccountType : Type 0 where
  margin_25k margin_under_25k cash : AccountType

pub record PdtConfig : Type 0 where
  pub account_type : AccountType
  pub account_id : String
  pub min_equity : ℤ
  pub flag_round_trip_threshold : ℕ
  pub window_business_days : ℕ

abbrev pub Holding : Type 0
Holding = String × String

pub record PdtConstraint : Type 0 where
  pub config : PdtConfig
  pub open_trade_date : Dict Holding ℕ
  pub round_trips : Dict String (List ℕ)

unfoldable pub create : PdtConfig → PdtConstraint
create config = record { config = config; open_trade_date = []; round_trips = [] }

-- `date.weekday()`: Monday is 0; the ordinal 1 is a Monday.
abbrev pub weekday : ℕ → ℕ
weekday d = (d + 6) % 7

-- The business days among the first `remainder` days after a weekday.
abbrev pub partial_week : ℕ → ℕ → ℕ
partial_week start zero = 0
partial_week start (suc n) =
    let rest = partial_week start n in if ltb ((start + suc n) % 7) 5 then suc rest else rest

-- `_business_days_between`
unfoldable pub business_days_between : ℕ → ℕ → ℕ
business_days_between from to =
    let total = to - from in
    if leb to from then 0 else total / 7 * 5 + partial_week (weekday from) (total % 7)

-- `_PRUNE_AGE_CALENDAR_DAYS`
abbrev pub prune_age : ℕ
prune_age = 14

abbrev pub recent : ℕ → List ℕ → List ℕ
recent today [] = []
recent today (d ∷ ds) =
    let rest = recent today ds in if leb (today - d) prune_age then d ∷ rest else rest

abbrev pub trips_of : Option (List ℕ) → List ℕ
trips_of none = []
trips_of (some ds) = ds

-- `_prune`, and `round_trips.setdefault(account_id, []).append(day)` before it.
unfoldable pub recorded : String → ℕ → Dict String (List ℕ) → Dict String (List ℕ)
recorded account day trips =
    insert account (recent day (trips_of (lookup account trips) ++ (day ∷ []))) trips

abbrev pub is_day : Option ℕ → ℕ → Bool
is_day none day = false
is_day (some d) day = nat_eq d day

abbrev opens : Option ℕ → Holding → ℕ → Dict Holding ℕ → Dict Holding ℕ
opens none key day d = insert key day d
opens (some opened) key day d = d

-- The opening dates after a fill, and whether it closes a round trip of the day.
unfoldable pub traded : Option ℕ → Holding → ℕ → ℤ → ℤ → Dict Holding ℕ → Dict Holding ℕ × Bool
traded opened key day prev new dates =
    if is_zero prev
    then (if is_zero new then (dates, false) else (insert key day dates, false))
    else if is_zero new
    then (erase key dates, is_day opened day)
    else if (if is_pos prev then not (is_pos new) else is_pos new)
    then (insert key day dates, is_day opened day)
    else if ltb_ℤ (abs new) (abs prev)
    then (dates, is_day opened day)
    else (opens opened key day dates, false)

abbrev pub counted : ℕ → ℕ → List ℕ → ℕ
unfolding business_days_between
counted window today [] = 0
counted window today (d ∷ ds) =
    let rest = counted window today ds in
    if ltb (business_days_between d today) window then suc rest else rest

module _ (trading_date : ℕ → ℕ) where
  unfoldable pub record_fill : String → String → ℤ → ℤ → ℕ → PdtConstraint → PdtConstraint
  unfolding traded recorded
  record_fill account symbol prev new timestamp_ns c =
      let day = trading_date timestamp_ns in
      let key : Holding = (account, symbol) in
      let (dates, closed_today) =
        traded (lookup key c.open_trade_date) key day prev new c.open_trade_date in
      record c {
        open_trade_date = dates;
        round_trips = if closed_today then recorded account day c.round_trips else c.round_trips;
      }

  unfoldable pub round_trip_count : String → ℕ → PdtConstraint → ℕ
  round_trip_count account now_ns c =
      counted c.config.window_business_days (trading_date now_ns)
        (trips_of (lookup account c.round_trips))

  unfoldable pub is_flagged : String → ℕ → PdtConstraint → Bool
  unfolding round_trip_count
  is_flagged account now_ns c =
      leb c.config.flag_round_trip_threshold (round_trip_count account now_ns c)

  abbrev is_margin_25k : AccountType → Bool
  is_margin_25k margin_25k = true
  is_margin_25k _ = false

  unfoldable pub should_suppress_entry : String → ℤ → ℕ → PdtConstraint → Bool
  unfolding is_flagged
  should_suppress_entry account equity now_ns c =
      if not (is_margin_25k c.config.account_type)
      then false
      else if leb_ℤ c.config.min_equity equity
      then false
      else is_flagged account now_ns c
