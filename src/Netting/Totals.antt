-- ===== src/Netting/Totals.antt =====
-- The net quantity of src/feelies/core/portfolio_netter.py.
use feelies.Kit.{
  ℕ, String, ◌≡◌, refl, sym, ap, ◌∙◌, Bool, true, false, not, ◌&&◌, Option, none, some, List, [],
  ◌∷◌, arith, Bool-cases, inl, inr, if◌then◌else◌, string_Eq, pair_Eq,
}
use mathlib.Core.List.{Permᴰ}
use mathlib.Core.List.Permᴰ.{nil, cons, swap, trans}
use feelies.Kit.Int.{ℤ, pos, negsuc, ◌+ℤ◌, negℤ, is_pos, is_neg, abs, leb_ℤ, ◌≤ℤ◌, int_laws}
use feelies.Kit.Floats.{Floats}
use feelies.Kit.Sort.{sorted, insert_sorted}
use feelies.Netting.{
  StandingTarget, TargetBook, Key, past, net, live_targets, live, is_live, capped, clamp, clamp_all,
  total_of, by_strategy,
}

-- A target is fresh up to the time of its expiry, included.
abbrev pub is_fresh : Option ℤ → ℕ → Bool
is_fresh none now = true
is_fresh (some expiry) now = leb_ℤ (pos now) expiry

past-fresh : (expiry : Option ℤ) (now : ℕ) → not (past expiry now) ≡ is_fresh expiry now
past-fresh none now = refl
past-fresh (some expiry) now = ground arith

-- A quantity within a limit on its size: itself if it is, and else the limit on its side. A limit
-- below zero leaves the size of the limit.
abbrev pub within : Option ℤ → ℤ → ℤ
within none x = x
within (some l) x = if leb_ℤ (abs x) l then x else if is_pos x && not (is_neg l) then l else negℤ l

capped-within : (limit : Option ℤ) (x : ℤ) → capped limit x ≡ within limit x
unfolding negℤ
capped-within none x = refl
capped-within (some (pos n)) (pos m) = ground arith
capped-within (some (pos n)) (negsuc m) = ground arith
capped-within (some (negsuc n)) (pos m) = ground arith
capped-within (some (negsuc n)) (negsuc m) = ground arith

module _ {R : Type 0} where
  -- What one standing target adds to the net of a symbol: nothing for another symbol or after its
  -- expiry, and else its quantity within its budget.
  abbrev pub share : String → ℕ → String → StandingTarget R → ℤ
  share symbol now sym t =
      if string_Eq.eqb sym symbol && is_fresh t.expiry_ns now
      then within t.max_abs_qty t.target_qty
      else pos 0

  -- The sum of the shares, in the order of the book.
  abbrev pub shares : String → ℕ → TargetBook R → ℤ
  shares symbol now [] = pos 0
  shares symbol now ((key, t) ∷ book) = share symbol now key.1 t +ℤ shares symbol now book

  live-fresh :
      (symbol : String) (now : ℕ) (key : Key) (t : StandingTarget R)
      → is_live symbol now key t ≡ (string_Eq.eqb key.1 symbol && is_fresh t.expiry_ns now)
  live-fresh symbol now key t =
      ap (λ b. string_Eq.eqb key.1 symbol && b) (past-fresh t.expiry_ns now)

  shares-Perm :
      (symbol : String) (now : ℕ) {book other : TargetBook R}
      → Permᴰ book other
      → shares symbol now book ≡ shares symbol now other
  shares-Perm symbol now nil = refl
  shares-Perm symbol now (cons {a = a} e p) = rw (e, shares-Perm symbol now p) refl
  shares-Perm symbol now (swap {a = a} {b = b} {l = l} e f) = rw (e, f) (omega (int_laws))
  shares-Perm symbol now (trans p q) = shares-Perm symbol now p ∙ shares-Perm symbol now q

  insert-total :
      (t : StandingTarget R) (ts : List (StandingTarget R))
      → total_of (clamp_all (insert_sorted by_strategy t ts))
        ≡ capped t.max_abs_qty t.target_qty +ℤ total_of (clamp_all ts)
  unfolding insert_sorted
  insert-total t [] = refl
  insert-total t (u ∷ us) = elim (Bool-cases (by_strategy u t)) [
    | inl after ↦ rw (after, insert-total t us) (omega int_laws)
    | inr here ↦ rw here refl
  ]

  sorted-total :
      (ts : List (StandingTarget R))
      → total_of (clamp_all (sorted by_strategy ts)) ≡ total_of (clamp_all ts)
  unfolding sorted
  sorted-total [] = refl
  sorted-total (t ∷ ts) =
      insert-total t (sorted by_strategy ts)
      ∙ ap (λ x. capped t.max_abs_qty t.target_qty +ℤ x) (sorted-total ts)

  live-total :
      (symbol : String) (now : ℕ) (book : TargetBook R)
      → total_of (clamp_all (live symbol now book)) ≡ shares symbol now book
  live-total symbol now [] = refl
  live-total symbol now ((key, t) ∷ book) =
      let same = sym (live-fresh symbol now key t) in
      elim (Bool-cases (is_live symbol now key t)) [
        | inl alive ↦
            rw
              (
                alive,
                same ∙ alive,
                live-total symbol now book,
                capped-within t.max_abs_qty t.target_qty,
              )
              refl
        | inr gone ↦ rw (gone, same ∙ gone, live-total symbol now book) (omega int_laws)
      ]

  book-total :
      (symbol : String) (now : ℕ) (book : TargetBook R)
      → total_of (clamp_all (live_targets symbol now book)) ≡ shares symbol now book
  unfolding live_targets
  book-total symbol now book = sorted-total (live symbol now book) ∙ live-total symbol now book

clamp-low : (x l : ℤ) → is_neg l ≡ false → negℤ l ≤ℤ clamp x l
unfolding negℤ
clamp-low x l h = ground arith

clamp-high : (x l : ℤ) → is_neg l ≡ false → clamp x l ≤ℤ l
unfolding negℤ
clamp-high x l h = ground arith

-- The net quantity for a symbol is the sum, kept within the portfolio's cap, of what the standing
-- targets of the book add, each kept within its own budget: a target for another symbol or past its
-- expiry adds nothing. For a book with the same entries in any other order it is the same.
pub net-shares :
    (fl : Floats) (book other : TargetBook fl.Float) (portfolio_max : Option ℤ) (symbol : String)
    (now : ℕ)
    → Permᴰ book other
    → (net fl other portfolio_max symbol now).target_qty
      ≡ within portfolio_max (shares symbol now book)
unfolding net
net-shares fl book other portfolio_max symbol now p =
    capped-within portfolio_max _
    ∙ ap (within portfolio_max) (book-total symbol now other ∙ sym (shares-Perm symbol now p))

-- With a cap that is not negative the net quantity stays within it, whatever the targets.
pub net-bounds :
    (fl : Floats) (book : TargetBook fl.Float) (limit : ℤ) (symbol : String) (now : ℕ)
    → is_neg limit ≡ false
    → (negℤ limit ≤ℤ (net fl book (some limit) symbol now).target_qty)
      × ((net fl book (some limit) symbol now).target_qty ≤ℤ limit)
unfolding net
net-bounds fl book limit symbol now h =
    let total = total_of (clamp_all (live_targets symbol now book)) in
    (clamp-low total limit h, clamp-high total limit h)
