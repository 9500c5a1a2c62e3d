-- ===== src/EventLog/Search.antt =====
-- The binary search of a replay (src/feelies/storage/memory_event_log.py: `bisect`).
use feelies.Kit.{
  ℕ, zero, suc, ◌+◌, ◌/◌, ◌≤◌, ◌<◌, ◌≡◌, Bool, true, false, List, [], ◌∷◌, arith, Bool-cases, inl,
  inr, ltb, if◌then◌else◌, length,
}
use feelies.EventLog.{Event, sequence_of, sequence_at, bisect}

module _ {P : Type 0} where
  -- Sequence numbers from `n` on, in order.
  abbrev pub Ascends : ℕ → List (Event P) → Type 0
  Ascends n [] = Unit
  Ascends n (e ∷ es) = (n ≤ sequence_of e) × Ascends (sequence_of e) es

  -- How many events at the front pass a test.
  abbrev pub leading : (ℕ → Bool) → List (Event P) → ℕ
  leading left [] = 0
  leading left (e ∷ es) =
      let rest = suc (leading left es) in if left (sequence_of e) then rest else 0

  pub leading-length : (left : ℕ → Bool) (es : List (Event P)) → leading left es ≤ length es
  leading-length left [] = omega arith
  leading-length left (e ∷ es) = ground (arith, leading-length left es)

  before-leading :
      (left : ℕ → Bool) (es : List (Event P)) (i : ℕ)
      → i < leading left es
      → left (sequence_at es i) ≡ true
  before-leading left [] i h = ground arith
  before-leading left (e ∷ es) zero h = ground arith
  before-leading left (e ∷ es) (suc i) h = ground (arith, before-leading left es i)

  module _ (left : ℕ → Bool) (down : (m n : ℕ) → m ≤ n → left m ≡ false → left n ≡ false) where
    none-beyond :
        (n : ℕ) (es : List (Event P)) (i : ℕ)
        → Ascends n es
        → left n ≡ false
        → i < length es
        → left (sequence_at es i) ≡ false
    none-beyond n [] i a h k = ground arith
    none-beyond n (e ∷ es) zero a h k = down n (sequence_of e) a.0 h
    none-beyond n (e ∷ es) (suc i) a h k =
        none-beyond (sequence_of e) es i a.1 (down n (sequence_of e) a.0 h) (omega (arith, k))

    beyond-leading :
        (n : ℕ) (es : List (Event P)) (i : ℕ)
        → Ascends n es
        → leading left es ≤ i
        → i < length es
        → left (sequence_at es i) ≡ false
    beyond-leading n [] i a h k = ground arith
    beyond-leading n (e ∷ es) zero a h k = ground arith
    beyond-leading n (e ∷ es) (suc i) a h k = elim (Bool-cases (left (sequence_of e))) [
      | inl here ↦
          beyond-leading (sequence_of e) es i a.1 (ground (arith, h, here)) (omega (arith, k))
      | inr past ↦ none-beyond (sequence_of e) es i a.1 past (omega (arith, k))
    ]

    -- The search ends at the first event that fails the test, if its range holds that place and
    -- its fuel covers the range.
    pub bisect-leading :
        (n : ℕ) (es : List (Event P)) (fuel lo hi : ℕ)
        → Ascends n es
        → lo ≤ leading left es
        → leading left es ≤ hi
        → hi ≤ length es
        → hi ≤ lo + fuel
        → bisect left es fuel lo hi ≡ leading left es
    bisect-leading n es zero lo hi a low high within enough = omega (arith, low, high, enough)
    bisect-leading n es (suc fuel) lo hi a low high within enough =
        let mid = (lo + hi) / 2 in
        let above : (i : ℕ)
            → left (sequence_at es i) ≡ true
            → i < length es
            → suc i ≤ leading left es =
          λ i up inside. ground (arith, beyond-leading n es i a, up, inside) in
        let below : (i : ℕ) → left (sequence_at es i) ≡ false → leading left es ≤ i =
          λ i stop. ground (arith, before-leading left es i, stop) in
        elim (Bool-cases (ltb lo hi)) [
          | inr done ↦ rw done (ground (arith, low, high, done))
          | inl more ↦ elim (Bool-cases (left (sequence_at es mid))) [
            | inl up ↦
                rw (more, up)
                  (bisect-leading n es fuel (suc mid) hi a
                    (above mid up (ground (arith, more, within))) high within
                    (omega (arith, enough)))
            | inr stop ↦
                rw (more, stop)
                  (bisect-leading n es fuel lo mid a low (below mid stop)
                    (ground (arith, more, within)) (ground (arith, more, enough)))
          ]
        ]
