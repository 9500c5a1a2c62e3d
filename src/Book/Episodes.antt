-- ===== src/Book/Episodes.antt =====
-- The open episode of a position (src/feelies/portfolio/memory_position_store.py: `opened_at_ns`).
use feelies.Kit.{
  ℕ, suc, String, ◌≡◌, refl, inl, inr, Bool, true, false, not, Option, none, some, List, [], ◌∷◌,
  arith, ap, ◌∙◌, ◌⊎◌, sym, string_Eq, if◌then◌else◌, Bool-cases, Option-cases, ◌||◌,
}
use feelies.Kit.Int.{ℤ, pos, negsuc, ◌+ℤ◌, is_zero}
use feelies.Kit.Dict.{Dict, lookup, lookup-insert, lookup-erase}
use feelies.Market.{Position}
use feelies.Lots.{Fill}
use feelies.Book.{
  PositionStore, or_blank, get, filled, recompute_unrealized, update, same_sign, episode,
  still_open, opened_at_ns,
}
use feelies.Book
use feelies.Book.Match.{fed, run, get-fed}

abbrev pub is_some : {A : Type 0} → Option A → Bool
is_some none = false
is_some (some a) = true

-- Two positions that are both long or both short.
abbrev pub one_side : ℤ → ℤ → Bool
one_side (pos (suc a)) (pos (suc b)) = true
one_side (negsuc a) (negsuc b) = true
one_side _ _ = false

same_sign-one_side : (a b : ℤ) → same_sign a b ≡ one_side a b
same_sign-one_side a b = ground arith

-- A symbol has a start of its episode exactly when it has an open position.
abbrev Tracked : PositionStore → Type 0
Tracked s = (j : String) → is_some (lookup j s.opened_at) ≡ not (is_zero (get s j).quantity)

episode-tracks :
    (symbol j : String) (old new : ℤ) (t : ℕ) (opened : Dict String ℕ) (held : ℤ)
    → is_some (lookup symbol opened) ≡ not (is_zero old)
    → is_some (lookup j opened) ≡ not (is_zero held)
    → is_some (lookup j (episode symbol old new (some t) opened))
      ≡ not (is_zero (if string_Eq.eqb symbol j then new else held))
episode-tracks symbol j old new t opened held h k = ground (
  arith,
  lookup-erase symbol j opened,
  lookup-insert symbol j t opened,
  string_Eq.eqb_iff symbol j,
)

episode-lookup :
    (symbol j : String) (old new : ℤ) (t : ℕ) (opened : Dict String ℕ)
    → lookup j (episode symbol old new (some t) opened) ≡ (
        if string_Eq.eqb symbol j
        then (if is_zero new
            then none
            else if is_zero old || not (same_sign old new)
            then some t
            else lookup j opened)
        else lookup j opened)
episode-lookup symbol j old new t opened =
    ground (arith, lookup-erase symbol j opened, lookup-insert symbol j t opened)

restarted :
    (old new : ℤ) (now t : ℕ) (before : Option ℕ)
    → (if is_zero new
        then none
        else if is_zero old || not (same_sign old new)
        then some now
        else before)
      ≡ some t
    → ((now ≡ t) × (one_side old new ≡ false)) ⊎ ((before ≡ some t) × (one_side old new ≡ true))
restarted old new now t before e = ground (arith, same_sign-one_side old new)

one_side_self :
    (held : ℤ) (t : ℕ) (before : Option ℕ)
    → is_some before ≡ not (is_zero held)
    → before ≡ some t
    → one_side held held ≡ true
one_side_self held t before h e = ground arith

flat_of : (o : Option ℕ) (q : ℤ) → is_some o ≡ not (is_zero q) → o ≡ none → is_zero q ≡ true
flat_of o q h e = ground arith

open_of :
    (o : Option ℕ) (q : ℤ) (t : ℕ) → is_some o ≡ not (is_zero q) → o ≡ some t → is_zero q ≡ false
open_of o q t h e = ground arith

-- Where the start of an episode comes from: from this fill, which takes the position to another side,
-- or from before it.
opening :
    (symbol j : String) (old new held : ℤ) (now t : ℕ) (opened : Dict String ℕ)
    → (symbol ≡ j → held ≡ old)
    → is_some (lookup j opened) ≡ not (is_zero held)
    → lookup j (episode symbol old new (some now) opened) ≡ some t
    → let after = if string_Eq.eqb symbol j then new else held in
      ((symbol ≡ j) × (now ≡ t) × (one_side held after ≡ false))
      ⊎ ((lookup j opened ≡ some t) × (one_side held after ≡ true))
opening symbol j old new held now t opened at tracked e =
    let found = sym (episode-lookup symbol j old new now opened) ∙ e in
    elim (Bool-cases (string_Eq.eqb symbol j)) [
      | inl same ↦
          let name = (string_Eq.eqb_iff symbol j).0 same in
          let found' : (if is_zero new
                then none
                else if is_zero old || not (same_sign old new)
                then some now
                else lookup j opened)
              ≡ some t =
            ground (arith, found, same) in
          rw (same, at name)
            (elim (restarted old new now t (lookup j opened) found') [
              | inl (time, crossed) ↦ inl (name, time, crossed)
              | inr kept ↦ inr kept
            ])
      | inr other ↦
          let found' : lookup j opened ≡ some t = ground (arith, found, other) in
          rw other (inr (found', one_side_self held t (lookup j opened) tracked found'))
    ]

module _ (div : ℤ → ℤ → ℤ) (fees : Fill → ℤ) where
  quantity-at :
      (f : Fill) (s : PositionStore) (j : String)
      → (get (fed div fees f s) j).quantity ≡ (
          if string_Eq.eqb f.symbol j
          then (get s f.symbol).quantity +ℤ f.signed_qty
          else (get s j).quantity)
  unfolding filled recompute_unrealized
  quantity-at f s j =
      rw (get-fed div fees f s j)
        (elim (Bool-cases (string_Eq.eqb f.symbol j)) [ inl same ↦ rw same | inr other ↦ rw other ])

  opened_at-fed :
      (f : Fill) (s : PositionStore)
      → (fed div fees f s).opened_at
        ≡ episode f.symbol
            (get s f.symbol).quantity
            ((get s f.symbol).quantity +ℤ f.signed_qty)
            (some f.timestamp_ns)
            s.opened_at
  unfolding update
  opened_at-fed f s = refl

  fed-Tracked : (f : Fill) (s : PositionStore) → Tracked s → Tracked (fed div fees f s)
  fed-Tracked f s h j =
      let old = (get s f.symbol).quantity in
      ap (λ d. is_some (lookup j d)) (opened_at-fed f s)
      ∙ episode-tracks f.symbol j old (old +ℤ f.signed_qty) f.timestamp_ns s.opened_at
          (get s j).quantity (h f.symbol) (h j)
      ∙ ap (λ q. not (is_zero q)) (sym (quantity-at f s j))

  run-Tracked : (fs : List Fill) (s : PositionStore) → Tracked s → Tracked (run div fees fs s)
  run-Tracked [] s h = h
  run-Tracked (f ∷ fs) s h = run-Tracked fs (fed div fees f s) (fed-Tracked f s h)

  empty-Tracked : Tracked Book.empty
  unfolding get
  empty-Tracked j = refl

  opened_at_ns-lookup :
      (ts : Option ℕ) (p : Option Position) (j : String)
      → is_some ts ≡ not (is_zero (or_blank p j).quantity)
      → still_open ts p ≡ ts
  opened_at_ns-lookup ts p j h = ground arith

  -- At every one of the fills the position stays on its side of zero.
  abbrev pub Unbroken : String → List Fill → PositionStore → Type 0
  Unbroken j [] s = Unit
  Unbroken j (f ∷ fs) s =
      (one_side (get s j).quantity (get (fed div fees f s) j).quantity ≡ true)
      × Unbroken j fs (fed div fees f s)

  -- One of the fills, a fill of the symbol at time `t`, brings the position to a side of zero on
  -- which it was not before, and the ones after it leave it on that side.
  pub data Began (j : String) (t : ℕ) : PositionStore → List Fill → Type 0 where
    here :
        {s : PositionStore} {f : Fill} {fs : List Fill}
        → f.symbol ≡ j
        → f.timestamp_ns ≡ t
        → one_side (get s j).quantity (get (fed div fees f s) j).quantity ≡ false
        → Unbroken j fs (fed div fees f s)
        → Began j t s (f ∷ fs)
    later :
        {s : PositionStore} {f : Fill} {fs : List Fill}
        → Began j t (fed div fees f s) fs
        → Began j t s (f ∷ fs)

  opened-fed :
      (f : Fill) (s : PositionStore) (j : String) (t : ℕ)
      → Tracked s
      → lookup j (fed div fees f s).opened_at ≡ some t
      → ((f.symbol ≡ j)
          × (f.timestamp_ns ≡ t)
          × (one_side (get s j).quantity (get (fed div fees f s) j).quantity ≡ false))
        ⊎ ((lookup j s.opened_at ≡ some t)
            × (one_side (get s j).quantity (get (fed div fees f s) j).quantity ≡ true))
  opened-fed f s j t h e = rw (quantity-at f s j) (
      opening f.symbol j (get s f.symbol).quantity ((get s f.symbol).quantity +ℤ f.signed_qty)
        (get s j).quantity f.timestamp_ns t s.opened_at (λ p. ap (λ i. (get s i).quantity) (sym p))
        (h j) (ap (lookup j) (sym (opened_at-fed f s)) ∙ e))

  run-opened :
      (fs : List Fill) (s : PositionStore) (j : String) (t : ℕ)
      → Tracked s
      → lookup j (run div fees fs s).opened_at ≡ some t
      → Began j t s fs ⊎ ((lookup j s.opened_at ≡ some t) × Unbroken j fs s)
  run-opened [] s j t h e = inr (e, tt)
  run-opened (f ∷ fs) s j t h e =
      elim (run-opened fs (fed div fees f s) j t (fed-Tracked f s h) e) [
        | inl began ↦ inl (later began)
        | inr (before, unbroken) ↦ elim (opened-fed f s j t h before) [
          | inl (same, time, crossed) ↦ inl (here same time crossed unbroken)
          | inr (kept, side) ↦ inr (kept, (side, unbroken))
        ]
      ]

  -- When every fill comes with its time, and with any fills from an empty book: a flat symbol has no
  -- start of an open episode; one that is not flat has the time of the fill that brought its
  -- position from flat, or from the other side of zero, to the side on which all later fills leave
  -- it.
  pub opened_at_ns-run :
      (fs : List Fill) (j : String)
      → let s = run div fees fs Book.empty in
        ((is_zero (get s j).quantity ≡ true) × (opened_at_ns s j ≡ none))
        ⊎ ((t : ℕ) × (is_zero (get s j).quantity ≡ false)
            × (opened_at_ns s j ≡ some t)
            × Began j t Book.empty fs)
  unfolding opened_at_ns get
  opened_at_ns-run fs j =
      let s = run div fees fs Book.empty in
      let tracked = run-Tracked fs Book.empty empty-Tracked j in
      let as_stored = opened_at_ns-lookup (lookup j s.opened_at) (lookup j s.positions) j tracked in
      elim (Option-cases (lookup j s.opened_at)) [
        | inl missing ↦
            inl (
              flat_of (lookup j s.opened_at) (get s j).quantity tracked missing,
              as_stored ∙ missing,
            )
        | inr (t, found) ↦ elim (run-opened fs Book.empty j t empty-Tracked found) [
          | inl began ↦ inr (
            t,
            open_of (lookup j s.opened_at) (get s j).quantity t tracked found,
            as_stored ∙ found,
            began,
          )
          | inr (before, _) ↦ cc
        ]
      ]
