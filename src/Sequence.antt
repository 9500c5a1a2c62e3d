-- ===== src/Sequence.antt =====
-- src/feelies/core/identifiers.py: sequence numbers, correlation ids and order ids. A sequence
-- generator hands out its numbers under a lock, so a call is one step of the state.
use feelies.Kit.{ℕ, zero, suc, ◌+◌, ◌/◌, ◌%◌, String, nat_eq, if◌then◌else◌}
use Prim.Native.String.{◌++◌ as append, slice}

-- `str(n)`: at most `n + 1` digits.
digit : ℕ → String
digit n =
    if nat_eq n 0
    then "0"
    else if nat_eq n 1
    then "1"
    else if nat_eq n 2
    then "2"
    else if nat_eq n 3
    then "3"
    else if nat_eq n 4
    then "4"
    else if nat_eq n 5
    then "5"
    else if nat_eq n 6
    then "6"
    else if nat_eq n 7
    then "7"
    else if nat_eq n 8
    then "8"
    else "9"

digits : ℕ → ℕ → String → String
unfolding digit
digits zero n acc = acc
digits (suc fuel) n acc =
    let more = digits fuel (n / 10) (append (digit (n % 10)) acc) in
    if nat_eq (n / 10) 0 then append (digit n) acc else more

unfoldable pub decimal : ℕ → String
unfolding digits
decimal n = digits (suc n) n ""

unfoldable pub make_correlation_id : String → ℕ → ℕ → String
unfolding decimal
make_correlation_id symbol exchange_timestamp_ns sequence =
    append symbol
      (append ":" (append (decimal exchange_timestamp_ns) (append ":" (decimal sequence))))

-- `hashlib.sha256(seed.encode()).hexdigest()[:16]`, where `hexdigest` is the library's.
unfoldable pub derive_order_id : (String → String) → String → String
derive_order_id hexdigest seed = slice (hexdigest seed) 0 16

pub record SequenceGenerator : Type 0 where
  pub start : ℕ
  pub counter : ℕ

abbrev pub create_sequence : ℕ → SequenceGenerator
create_sequence start = record { start = start; counter = start }

unfoldable pub reset : SequenceGenerator → SequenceGenerator
reset g = record g { counter = g.start }

-- The generator after `next`, and the number that it returns.
abbrev pub next : SequenceGenerator → SequenceGenerator × ℕ
next g = (record g { counter = g.counter + 1 }, g.counter)
