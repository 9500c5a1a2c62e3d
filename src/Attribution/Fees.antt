-- ===== src/Attribution/Fees.antt =====
-- The fees of a fill, split among its parts
-- (src/feelies/core/fill_attribution.py: `split_fees`).
use feelies.Kit.{
  ℕ, zero, suc, ◌+◌, ◌<◌, ◌≡◌, refl, Bool, true, false, Option, none, some, List, [], ◌∷◌, arith,
  ap, ◌∙◌, length, if◌then◌else◌, Bool-cases, inl, inr,
}
use feelies.Kit.Int.{ℤ, pos, negsuc, ◌+ℤ◌, ◌-ℤ◌, is_pos, is_zero, pos_part, neg_part, int_laws}
use feelies.Attribution.{sum, allocated, allot, zeros, settle, split_fees}
use feelies.Attribution.Sums.{Splits, bump-Splits}

abbrev InRange : Option ℕ → ℕ → Type 0
InRange none n = Unit
InRange (some i) n = i < n

abbrev is_some : Option ℕ → Bool
is_some none = false
is_some (some i) = true

moved : (place : Option ℕ) (m n : ℕ) → m ≡ n → InRange place m → InRange place n
moved none m n e h = tt
moved (some i) m n e h = omega (arith, e, h)

module _ (share : ℤ → ℤ → ℤ → ℤ) (fees total : ℤ) where
  -- The loop keeps what it handed out and what is left to the fees, and its place in range.
  allot-keeps :
      (idx : ℕ) (remainder : ℤ) (last : Option ℕ) (allocations : List ℤ)
      → InRange last idx
      → let (out, left, place) = allot share fees total idx remainder last allocations in
        (length out ≡ length allocations)
        × (sum out +ℤ left ≡ remainder)
        × InRange place (idx + length allocations)
  unfolding allot sum
  allot-keeps idx remainder last [] h =
      (refl, omega int_laws, moved last idx (idx + 0) (omega arith) h)
  allot-keeps idx remainder last (a ∷ rest) h =
      let s = if is_pos a then share fees a total else pos 0 in
      let (size, kept, range) =
        allot-keeps (suc idx) (remainder -ℤ s) (if is_pos a then some idx else last) rest
          (next a last idx h) in
      (
        ap suc size,
        omega (int_laws, ap pos_part kept, ap neg_part kept),
        moved _ (suc idx + length rest) (idx + suc (length rest)) (omega arith) range,
      )
    where
      next :
          (a : ℤ) (last : Option ℕ) (idx : ℕ)
          → InRange last idx
          → InRange (if is_pos a then some idx else last) (suc idx)
      next a last idx h = ground arith

  -- A place is found as soon as some allocation is positive.
  allot-place :
      (idx : ℕ) (remainder : ℤ) (last : Option ℕ) (allocations : List ℤ)
      → (is_some last ≡ false → is_pos (allocated allocations) ≡ true)
      → is_some (allot share fees total idx remainder last allocations).2 ≡ true
  unfolding allot allocated
  allot-place idx remainder none [] h = h refl
  allot-place idx remainder (some i) [] h = refl
  allot-place idx remainder last (a ∷ rest) h =
      allot-place (suc idx) _ (if is_pos a then some idx else last) rest
        (elim (Bool-cases (is_pos a)) [
          | inl taken ↦ rw taken (λ e. cc)
          | inr skipped ↦
              rw skipped
                (λ e. onward (is_pos a) (a +ℤ allocated rest) (allocated rest) skipped (h e))
        ])
    where
      onward :
          (b : Bool) (x y : ℤ) → b ≡ false → is_pos (if b then x else y) ≡ true → is_pos y ≡ true
      onward true x y e h = cc
      onward false x y e h = h

settle-Splits :
    (out : List ℤ) (remainder : ℤ) (place : Option ℕ) (n : ℕ) (fees : ℤ)
    → length out ≡ n
    → sum out +ℤ remainder ≡ fees
    → InRange place n
    → is_some place ≡ true
    → Splits (settle out remainder place) n fees
settle-Splits out remainder none n fees size kept range found = cc
settle-Splits out remainder (some i) n fees size kept range found =
    let (parts, done, size', total) = bump-Splits remainder out i (omega (arith, size, range)) in
    elim (Bool-cases (is_zero remainder)) [
      | inl nothing ↦ rw nothing (out, refl, size, all_out out remainder nothing kept)
      | inr some_left ↦ rw some_left (parts, done, size' ∙ size, total ∙ kept)
    ]
  where
    all_out :
        {fees : ℤ} (out : List ℤ) (remainder : ℤ)
        → is_zero remainder ≡ true
        → sum out +ℤ remainder ≡ fees
        → sum out ≡ fees
    all_out out (pos zero) z kept = omega (int_laws, ap pos_part kept, ap neg_part kept)
    all_out out (pos (suc n)) z kept = cc
    all_out out (negsuc n) z kept = cc

length-zeros : (allocations : List ℤ) → length (zeros allocations) ≡ length allocations
length-zeros [] = refl
length-zeros (a ∷ rest) = ap suc (length-zeros rest)

sum-zeros : (allocations : List ℤ) → sum (zeros allocations) ≡ pos 0
unfolding sum
sum-zeros [] = refl
sum-zeros (a ∷ rest) = rw (sum-zeros rest) (omega int_laws)

-- Whatever the shares are rounded to, the fees of a fill are split into as many parts as there are
-- allocations, and the parts add up to exactly the fees when some allocation is positive, and to
-- zero otherwise.
pub split_fees-Splits :
    (share : ℤ → ℤ → ℤ → ℤ) (fees : ℤ) (allocations : List ℤ)
    → Splits
        (split_fees share fees allocations)
        (length allocations)
        (if is_pos (allocated allocations) then fees else pos 0)
unfolding split_fees
split_fees-Splits share fees allocations =
    let total = allocated allocations in
    let (out, left, place) = allot share fees total 0 fees none allocations in
    let (size, kept, range) = allot-keeps share fees total 0 fees none allocations tt in
    elim (Bool-cases (is_pos (allocated allocations))) [
      | inl some_taken ↦ rw some_taken (
          settle-Splits out left place (length allocations) fees size kept
            (moved place (0 + length allocations) (length allocations) (omega arith) range)
            (allot-place share fees total 0 fees none allocations (λ e. some_taken)))
      | inr none_taken ↦
          rw none_taken (zeros allocations, refl, length-zeros allocations, sum-zeros allocations)
    ]
