-- ===== src/Book/Carried.antt =====
-- Fills conserve money in the average-cost book
-- (src/feelies/portfolio/memory_position_store.py).
use feelies.Kit.{◌≡◌, inl, inr, true, false, arith, ap, ◌∙◌, if◌then◌else◌, Bool-cases}
use mathlib.Core.Path.{subst₃}
use feelies.Kit.Int.{
  ℤ, pos, pos_part, neg_part, ◌+ℤ◌, ◌-ℤ◌, ◌*ℤ◌, is_pos, is_zero, abs, minℤ, ltb_ℤ, int_laws,
}
use feelies.Kit.Ring.{
  *ℤ_comm, mul-neg, mul-+ℤ, mul-zero, diff-mul, diff-mul_neg, abs_of_pos, abs_of_not_pos,
}
use feelies.Market.{Position}
use feelies.Book.{same_sign, closing, average, filled}

-- What a position cost, less the profit realized on it.
abbrev pub carried : Position → ℤ
carried p = p.avg_entry_price *ℤ p.quantity -ℤ p.realized_pnl

-- The one quotient that a fill may take has no remainder, as `Decimal` gives it wherever it fits
-- the context's precision.
abbrev pub Exact : (ℤ → ℤ → ℤ) → Position → ℤ → ℤ → Type 0
Exact div p delta price =
    let total = p.avg_entry_price *ℤ abs p.quantity +ℤ price *ℤ abs delta in
    let shares = abs (p.quantity +ℤ delta) in div total shares *ℤ shares ≡ total

closing_all :
    (p : Position) (delta price : ℤ)
    → ltb_ℤ (abs p.quantity) (abs delta) ≡ true
    → closing p delta price ≡ p.quantity *ℤ price -ℤ p.quantity *ℤ p.avg_entry_price
unfolding closing
closing_all p delta price h = rw (least p.quantity delta h) (elim (Bool-cases (is_pos p.quantity)) [
  | inl long ↦ rw (long, abs_of_pos p.quantity long) (diff-mul price p.avg_entry_price p.quantity)
  | inr short ↦
      rw (short, abs_of_not_pos p.quantity short) (diff-mul_neg p.avg_entry_price price p.quantity)
])
  where
    least : (a b : ℤ) → ltb_ℤ (abs a) (abs b) ≡ true → minℤ (abs b) (abs a) ≡ abs a
    least a b h = ground arith

closing_part :
    (p : Position) (delta price : ℤ)
    → is_zero p.quantity ≡ false
    → same_sign p.quantity delta ≡ false
    → ltb_ℤ (abs p.quantity) (abs delta) ≡ false
    → closing p delta price ≡ delta *ℤ p.avg_entry_price -ℤ delta *ℤ price
unfolding closing
closing_part p delta price nz g h =
    rw (least p.quantity delta h) (elim (Bool-cases (is_pos p.quantity)) [
      | inl long ↦
          rw (long, abs_of_not_pos delta (sells p.quantity delta g long))
            (diff-mul_neg price p.avg_entry_price delta)
      | inr short ↦
          rw (short, buys p.quantity delta nz g short) (diff-mul p.avg_entry_price price delta)
    ])
  where
    least : (a b : ℤ) → ltb_ℤ (abs a) (abs b) ≡ false → minℤ (abs b) (abs a) ≡ abs b
    least a b h = ground arith

    sells : (a b : ℤ) → same_sign a b ≡ false → is_pos a ≡ true → is_pos b ≡ false
    sells a b g l = ground arith

    buys : (a b : ℤ) → is_zero a ≡ false → same_sign a b ≡ false → is_pos a ≡ false → abs b ≡ b
    buys a b nz g l = ground arith

-- An exact average over the shares of one side, with the side's sign.
spread_out :
    (v x y a b : ℤ)
    → same_sign a b ≡ true
    → v *ℤ abs (a +ℤ b) ≡ x *ℤ abs a +ℤ y *ℤ abs b
    → v *ℤ (a +ℤ b) ≡ x *ℤ a +ℤ y *ℤ b
unfolding ◌+ℤ◌ ◌-ℤ◌
spread_out v x y a b g h = elim (Bool-cases (is_pos a)) [
  | inl long ↦
      subst₃ (λ c d e. v *ℤ c ≡ x *ℤ d +ℤ y *ℤ e) (sum_long a b g long) (abs_of_pos a long)
        (other_long a b g long) h
  | inr short ↦
      let e : pos 0 -ℤ v *ℤ (a +ℤ b) ≡ (pos 0 -ℤ x *ℤ a) +ℤ (pos 0 -ℤ y *ℤ b) =
        subst₃ (λ c d e. c ≡ d +ℤ e) (mul-neg v (a +ℤ b)) (mul-neg x a) (mul-neg y b)
          (subst₃ (λ c d e. v *ℤ c ≡ x *ℤ d +ℤ y *ℤ e) (sum_short a b g short)
            (abs_of_not_pos a short) (other_short a b g short) h) in
      omega (int_laws, ap pos_part e, ap neg_part e)
]
  where
    sum_long : (a b : ℤ) → same_sign a b ≡ true → is_pos a ≡ true → abs (a +ℤ b) ≡ a +ℤ b
    sum_long a b g l = ground arith

    other_long : (a b : ℤ) → same_sign a b ≡ true → is_pos a ≡ true → abs b ≡ b
    other_long a b g l = ground arith

    sum_short :
        (a b : ℤ) → same_sign a b ≡ true → is_pos a ≡ false → abs (a +ℤ b) ≡ pos 0 -ℤ (a +ℤ b)
    sum_short a b g l = ground arith

    other_short : (a b : ℤ) → same_sign a b ≡ true → is_pos a ≡ false → abs b ≡ pos 0 -ℤ b
    other_short a b g l = ground arith

pub eq_zero : (x : ℤ) → is_zero x ≡ true → x ≡ pos 0
eq_zero x h = ground arith

-- The average times the shares, whether or not the fill leaves the position flat.
flat_or : (v n : ℤ) → (if is_zero n then pos 0 else v) *ℤ n ≡ v *ℤ n
flat_or v n = elim (Bool-cases (is_zero n)) [
  | inl z ↦ rw (z, eq_zero n z, mul-zero v, mul-zero (pos 0))
  | inr nz ↦ rw nz
]

-- A fill that opens, reduces, closes or crosses through zero raises what the position carries by the
-- money that it pays out, and so does one that adds, provided that the new average is exact.
pub carried-filled :
    (div : ℤ → ℤ → ℤ) (p : Position) (delta price fees : ℤ)
    → (same_sign p.quantity delta ≡ true → Exact div p delta price)
    → carried (filled div p delta price fees) ≡ carried p +ℤ delta *ℤ price
unfolding filled
carried-filled div p delta price fees exact =
    rw (flat_or (average div p delta price) (p.quantity +ℤ delta))
      (elim (Bool-cases (is_zero p.quantity)) [
        | inl flat ↦
            let none_held : (x : ℤ) → x *ℤ p.quantity ≡ pos 0 =
              λ x. ap (λ t. x *ℤ t) (eq_zero p.quantity flat) ∙ mul-zero x in
            rw
              (
                flat,
                mul-+ℤ price p.quantity delta,
                none_held price,
                none_held p.avg_entry_price,
                *ℤ_comm delta price,
              )
              (omega int_laws)
        | inr held ↦ elim (Bool-cases (same_sign p.quantity delta)) [
          | inl adds ↦
              rw
                (
                  held,
                  adds,
                  still p.quantity delta adds,
                  spread_out (div _ _) p.avg_entry_price price p.quantity delta adds (exact adds),
                  *ℤ_comm delta price,
                )
                (omega int_laws)
          | inr against ↦ elim (Bool-cases (ltb_ℤ (abs p.quantity) (abs delta))) [
            | inl crosses ↦
                rw
                  (
                    held,
                    against,
                    crosses,
                    closing_all p delta price crosses,
                    mul-+ℤ price p.quantity delta,
                    *ℤ_comm price p.quantity,
                    *ℤ_comm p.avg_entry_price p.quantity,
                    *ℤ_comm price delta,
                  )
                  (omega int_laws)
            | inr reduces ↦
                rw
                  (
                    held,
                    against,
                    reduces,
                    closing_part p delta price held against reduces,
                    mul-+ℤ p.avg_entry_price p.quantity delta,
                    *ℤ_comm p.avg_entry_price delta,
                  )
                  (omega int_laws)
          ]
        ]
      ])
  where
    still : (a b : ℤ) → same_sign a b ≡ true → is_zero (a +ℤ b) ≡ false
    still a b g = unfold ◌+ℤ◌ in ground arith
