-- ===== src/Lots/Accounts.antt =====
-- The ledger after any number of fills (src/feelies/core/lot_ledger.py): shares and money are
-- accounted for.
use feelies.Kit.{
  String, ◌≡◌, refl, true, false, List, [], ◌∷◌, if◌then◌else◌, string_Eq, Bool-cases, inl, inr, ap,
  ◌∙◌,
}
use feelies.Kit.Int.{ℤ, pos, pos_part, neg_part, ◌+ℤ◌, ◌-ℤ◌, ◌*ℤ◌, is_zero, int_laws}
use feelies.Kit.Ring.{zero-*ℤ}
use feelies.Kit.Dict.{Dict, lookup, lookup-insert}
use feelies.Lots.{
  Fill, LotLedger, empty, net, fill_lots, or_zero, booked, apply_fill, lots_of, net_quantity,
  realized_pnl_fifo,
}
use feelies.Lots.Conserve.{basis, net-fill_lots, basis-fill_lots, eq_zero}

-- Fills from the oldest to the newest.
abbrev pub run : List Fill → LotLedger → LotLedger
run [] l = l
run (f ∷ fs) l = run fs (apply_fill f l)

-- The shares that the fills of a symbol bring in, and the money that they pay out.
unfoldable pub shares : String → List Fill → ℤ
shares s [] = pos 0
shares s (f ∷ fs) = (if string_Eq.eqb f.symbol s then f.signed_qty else pos 0) +ℤ shares s fs

unfoldable pub paid : String → List Fill → ℤ
paid s [] = pos 0
paid s (f ∷ fs) = (if string_Eq.eqb f.symbol s then f.signed_qty *ℤ f.price else pos 0) +ℤ paid s fs

-- What a fill does to the lots and to the profit of each symbol.
pub lots-apply_fill :
    (f : Fill) (l : LotLedger) (s : String)
    → is_zero f.signed_qty ≡ false
    → lots_of (apply_fill f l) s
      ≡ (if string_Eq.eqb f.symbol s then (fill_lots f (lots_of l s)).0 else lots_of l s)
unfolding lots_of apply_fill
lots-apply_fill f l s nz =
    rw (nz, lookup-insert f.symbol s _ l.book)
      (elim (Bool-cases (string_Eq.eqb f.symbol s)) [
        | inl same ↦ rw (same, (string_Eq.eqb_iff f.symbol s).0 same)
        | inr other ↦ rw other
      ])

lookup-booked :
    (k s : String) (r : ℤ) (d : Dict String ℤ)
    → or_zero (lookup s (booked k r d))
      ≡ or_zero (lookup s d) +ℤ (if string_Eq.eqb k s then r else pos 0)
lookup-booked k s r d = elim (Bool-cases (is_zero r)) [
  | inl nothing ↦
      rw (nothing, eq_zero r nothing)
        (elim (Bool-cases (string_Eq.eqb k s)) [
          | inl same ↦ rw same (omega int_laws)
          | inr other ↦ rw other (omega int_laws)
        ])
  | inr some_profit ↦
      rw (some_profit, lookup-insert k s _ d)
        (elim (Bool-cases (string_Eq.eqb k s)) [
          | inl same ↦ rw (same, (string_Eq.eqb_iff k s).0 same)
          | inr other ↦ rw other (omega int_laws)
        ])
]

realized-apply_fill :
    (f : Fill) (l : LotLedger) (s : String)
    → is_zero f.signed_qty ≡ false
    → realized_pnl_fifo (apply_fill f l) s
      ≡ realized_pnl_fifo l s
        +ℤ (if string_Eq.eqb f.symbol s then (fill_lots f (lots_of l s)).1 else pos 0)
unfolding realized_pnl_fifo lots_of apply_fill
realized-apply_fill f l s nz = rw nz (
    lookup-booked f.symbol s _ l.realized_fifo ∙ elim (Bool-cases (string_Eq.eqb f.symbol s)) [
      | inl same ↦ rw (same, (string_Eq.eqb_iff f.symbol s).0 same)
      | inr other ↦ rw other
    ])

pub skip_empty : (f : Fill) (l : LotLedger) → is_zero f.signed_qty ≡ true → apply_fill f l ≡ l
unfolding apply_fill
skip_empty f l z = rw z

net-apply_fill :
    (f : Fill) (l : LotLedger) (s : String)
    → net_quantity (apply_fill f l) s
      ≡ net_quantity l s +ℤ (if string_Eq.eqb f.symbol s then f.signed_qty else pos 0)
unfolding net_quantity
net-apply_fill f l s = elim (Bool-cases (is_zero f.signed_qty)) [
  | inl z ↦
      rw (skip_empty f l z, eq_zero f.signed_qty z)
        (elim (Bool-cases (string_Eq.eqb f.symbol s)) [
          | inl same ↦ rw same (omega int_laws)
          | inr other ↦ rw other (omega int_laws)
        ])
  | inr nz ↦ rw (lots-apply_fill f l s nz) (elim (Bool-cases (string_Eq.eqb f.symbol s)) [
    | inl same ↦ rw same (net-fill_lots f (lots_of l s))
    | inr other ↦ rw other (omega int_laws)
  ])
]

-- What the open lots of a symbol cost, less the profit realized on it.
abbrev pub carried : LotLedger → String → ℤ
carried l s = basis (lots_of l s) -ℤ realized_pnl_fifo l s

carried-apply_fill :
    (f : Fill) (l : LotLedger) (s : String)
    → carried (apply_fill f l) s
      ≡ carried l s +ℤ (if string_Eq.eqb f.symbol s then f.signed_qty *ℤ f.price else pos 0)
carried-apply_fill f l s = elim (Bool-cases (is_zero f.signed_qty)) [
  | inl z ↦
      rw (skip_empty f l z, eq_zero f.signed_qty z, zero-*ℤ f.price)
        (elim (Bool-cases (string_Eq.eqb f.symbol s)) [
          | inl same ↦ rw same (omega int_laws)
          | inr other ↦ rw other (omega int_laws)
        ])
  | inr nz ↦
      rw (lots-apply_fill f l s nz, realized-apply_fill f l s nz)
        (elim (Bool-cases (string_Eq.eqb f.symbol s)) [
          | inl same ↦ rw same (regroup _ _ _ _ _ (basis-fill_lots f (lots_of l s)))
          | inr other ↦ rw other (omega int_laws)
        ])
]
  where
    regroup : (b' r' b q r : ℤ) → b' -ℤ r' ≡ b +ℤ q → b' -ℤ (r +ℤ r') ≡ b -ℤ r +ℤ q
    regroup b' r' b q r h = omega (int_laws, ap pos_part h, ap neg_part h)

net-run :
    (fs : List Fill) (l : LotLedger) (s : String)
    → net_quantity (run fs l) s ≡ net_quantity l s +ℤ shares s fs
unfolding shares
net-run [] l s = omega int_laws
net-run (f ∷ fs) l s = net-run fs (apply_fill f l) s ∙ rw (net-apply_fill f l s) (omega int_laws)

carried-run :
    (fs : List Fill) (l : LotLedger) (s : String) → carried (run fs l) s ≡ carried l s +ℤ paid s fs
unfolding paid
carried-run [] l s = omega int_laws
carried-run (f ∷ fs) l s =
    carried-run fs (apply_fill f l) s ∙ rw (carried-apply_fill f l s) (omega int_laws)

nothing_carried : (s : String) → carried empty s ≡ pos 0
unfolding basis lots_of realized_pnl_fifo ◌-ℤ◌
nothing_carried s = refl

-- After any fills the open lots of every symbol add up to the shares that its fills brought in:
-- matching, splitting and crossing through zero lose and invent no share.
pub net_quantity-run : (fs : List Fill) (s : String) → net_quantity (run fs empty) s ≡ shares s fs
unfolding net_quantity lots_of net
net_quantity-run fs s = net-run fs empty s ∙ omega int_laws

-- After any fills the profit realized on a symbol is what its open lots cost less the money that
-- its fills paid out: every unit of money is in an open lot or in the realized profit.
pub realized_pnl-run :
    (fs : List Fill) (s : String)
    → realized_pnl_fifo (run fs empty) s ≡ basis (lots_of (run fs empty) s) -ℤ paid s fs
realized_pnl-run fs s =
    let e = carried-run fs empty s in
    let z = nothing_carried s in
    omega (int_laws, ap pos_part e, ap neg_part e, ap pos_part z, ap neg_part z)
