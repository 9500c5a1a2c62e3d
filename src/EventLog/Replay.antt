-- ===== src/EventLog/Replay.antt =====
-- A replay between two sequence numbers (src/feelies/storage/memory_event_log.py: `replay`).
use feelies.Kit.{
  ℕ, zero, suc, ◌≤◌, ◌≡◌, refl, sym, ap, Bool, true, false, not, ◌&&◌, Option, none, some, List, [],
  ◌∷◌, arith, Bool-cases, inl, inr, ltb, leb, if◌then◌else◌, length, drop,
}
use feelies.EventLog.{Event, EventLog, sequence_of, take, replay, start_index, end_index}
use feelies.EventLog.Search.{Ascends, leading, leading-length, bisect-leading}

leb-ltb : (m n : ℕ) → leb n m ≡ not (ltb m n)
leb-ltb m n = ground arith

above_start : (start m n : ℕ) → m ≤ n → ltb m start ≡ false → ltb n start ≡ false
above_start start m n h k = ground arith

above_end : (end m n : ℕ) → m ≤ n → leb m end ≡ false → leb n end ≡ false
above_end end m n h k = ground arith

abbrev pub until : Option ℕ → ℕ → Bool
until none n = true
until (some end) n = leb n end

module _ {P : Type 0} where
  start_index-leading :
      (es : List (Event P)) (start : ℕ)
      → Ascends 0 es
      → start_index es start ≡ leading (λ n. ltb n start) es
  start_index-leading es start a =
      let left : ℕ → Bool = λ n. ltb n start in
      bisect-leading left (above_start start) 0 es (length es) 0 (length es) a (omega arith)
        (leading-length left es) (omega arith) (omega arith)

  end_index-leading :
      (es : List (Event P)) (end : ℕ)
      → Ascends 0 es
      → end_index es (some end) ≡ leading (λ n. leb n end) es
  end_index-leading es end a =
      let left : ℕ → Bool = λ n. leb n end in
      bisect-leading left (above_end end) 0 es (length es) 0 (length es) a (omega arith)
        (leading-length left es) (omega arith) (omega arith)

  -- The events of a range, by a test of each one.
  abbrev pub selected : ℕ → Option ℕ → List (Event P) → List (Event P)
  selected start end [] = []
  selected start end (e ∷ es) =
      let rest = selected start end es in
      if leb start (sequence_of e) && until end (sequence_of e) then e ∷ rest else rest

  take_all : (es : List (Event P)) → take (length es) es ≡ es
  take_all [] = refl
  take_all (e ∷ es) = ap (λ es. e ∷ es) (take_all es)

  none_after :
      (start end n : ℕ) (es : List (Event P))
      → Ascends n es
      → leb n end ≡ false
      → selected start (some end) es ≡ []
  none_after start end n [] a h = refl
  none_after start end n (e ∷ es) a h = ground (
    arith,
    a.0,
    none_after start end (sequence_of e) es a.1 (above_end end n (sequence_of e) a.0 h),
  )

  all_from :
      (start n : ℕ) (es : List (Event P))
      → Ascends n es
      → leb start n ≡ true
      → selected start none es ≡ es
  all_from start n [] a h = refl
  all_from start n (e ∷ es) a h =
      let later : leb start (sequence_of e) ≡ true = ground (arith, a.0, h) in
      rw (later, all_from start (sequence_of e) es a.1 later) refl

  drop-selected :
      (start n : ℕ) (es : List (Event P))
      → Ascends n es
      → drop (leading (λ n. ltb n start) es) es ≡ selected start none es
  drop-selected start n [] a = refl
  drop-selected start n (e ∷ es) a = elim (Bool-cases (ltb (sequence_of e) start)) [
    | inl earlier ↦
        rw (earlier, leb-ltb (sequence_of e) start, earlier)
          (drop-selected start (sequence_of e) es a.1)
    | inr later ↦
        rw (later, leb-ltb (sequence_of e) start, later)
          (ap (λ es. e ∷ es) (sym (all_from start (sequence_of e) es a.1 (ground (arith, later)))))
  ]

  taken-selected :
      (start end n : ℕ) (es : List (Event P))
      → Ascends n es
      → leb start n ≡ true
      → take (leading (λ n. leb n end) es) es ≡ selected start (some end) es
  taken-selected start end n [] a h = refl
  taken-selected start end n (e ∷ es) a h =
      let later : leb start (sequence_of e) ≡ true = ground (arith, a.0, h) in
      elim (Bool-cases (leb (sequence_of e) end)) [
        | inl inside ↦
            rw (later, inside)
              (ap (λ es. e ∷ es) (taken-selected start end (sequence_of e) es a.1 later))
        | inr past ↦ rw (later, past) (sym (none_after start end (sequence_of e) es a.1 past))
      ]

  drop-nil : (n : ℕ) → drop {A = Event P} n [] ≡ []
  drop-nil zero = refl
  drop-nil (suc n) = refl

  drop_none :
      (start end : ℕ) (e : Event P) (es : List (Event P))
      → Ascends (sequence_of e) es
      → leb (sequence_of e) end ≡ false
      → drop
          (leading (λ n. ltb n start) (e ∷ es))
          (take (leading (λ n. leb n end) (e ∷ es)) (e ∷ es))
        ≡ selected start (some end) (e ∷ es)
  drop_none start end e es a past =
      rw
        (
          past,
          drop-nil (leading (λ n. ltb n start) (e ∷ es)),
          none_after start end (sequence_of e) es a past,
        )
        (ground arith)

  range-selected :
      (start end n : ℕ) (es : List (Event P))
      → Ascends n es
      → drop (leading (λ n. ltb n start) es) (take (leading (λ n. leb n end) es) es)
        ≡ selected start (some end) es
  range-selected start end n [] a = refl
  range-selected start end n (e ∷ es) a = elim (Bool-cases (leb (sequence_of e) end)) [
    | inr past ↦ drop_none start end e es a.1 past
    | inl inside ↦ elim (Bool-cases (ltb (sequence_of e) start)) [
      | inl earlier ↦
          rw (inside, leb-ltb (sequence_of e) start, earlier)
            (range-selected start end (sequence_of e) es a.1)
      | inr later ↦
          rw (inside, leb-ltb (sequence_of e) start, later)
            (ap (λ es. e ∷ es)
              (taken-selected start end (sequence_of e) es a.1 (ground (arith, later))))
    ]
  ]

  -- Where the sequence numbers of a log do not fall, a replay gives exactly the events whose number
  -- is in the range, in the order of the log: the binary searches find both ends.
  pub replay-selected :
      (log : EventLog P) (start : ℕ) (end : Option ℕ)
      → Ascends 0 log.events
      → replay start end log ≡ selected start end log.events
  unfolding replay
  replay-selected log start none a =
      rw (start_index-leading log.events start a, take_all log.events)
        (drop-selected start 0 log.events a)
  replay-selected log start (some end) a =
      rw (start_index-leading log.events start a, end_index-leading log.events end a)
        (range-selected start end 0 log.events a)
