-- ===== src/EventLog/Batches.antt =====
-- Batches of events (src/feelies/storage/memory_event_log.py: `append_batch`, `replace_events`).
use feelies.Kit.{
  ◌≡◌, refl, ap, Bool, ◌&&◌, Option, none, some, List, [], ◌∷◌, ◌++◌, map, arith, Bool-cases, inl,
  inr, ◌⊎◌, length,
}
use feelies.Kit.Sort.{sorted}
use feelies.EventLog.{
  Key, MarketEvent, Event, market, other, EventLog, CausalityViolation, merges_before,
  event_merge_sort_key, behind, enforce_each, market_of, refill, stabilize_market_slice,
  append_batch, replace_events, resequence_event_list, create, kept,
}
use feelies.EventLog.Order.{Follows, sorted-Follows, sorted-id, sorted-length, resequence-Follows}

module _ {P : Type 0} where
  -- Events whose market part is in order raise nothing.
  each-passes :
      (enabled : Bool) (es : List (Event P)) (last : Option Key)
      → Follows last (market_of es)
      → (enforce_each enabled es last).0 ≡ none
  each-passes enabled [] last f = refl
  each-passes enabled (other n p ∷ es) last f = each-passes enabled es last f
  each-passes enabled (market e ∷ es) last f =
      ground (arith, f.0, each-passes enabled es (some (event_merge_sort_key e)) f.1)

  market-refill :
      (es : List (Event P)) (ms : List (MarketEvent P))
      → length ms ≡ length (market_of es)
      → market_of (refill es ms) ≡ ms
  market-refill [] [] h = refl
  market-refill [] (m ∷ ms) h = ground arith
  market-refill (other n p ∷ es) ms h = market-refill es ms h
  market-refill (market e ∷ es) [] h = ground arith
  market-refill (market e ∷ es) (m ∷ ms) h =
      ap (λ ms. m ∷ ms) (market-refill es ms (omega (arith, h)))

  stabilized-Follows : (es : List (Event P)) → Follows none (market_of (stabilize_market_slice es))
  unfolding stabilize_market_slice
  stabilized-Follows es =
      let ms = sorted merges_before (market_of es) in
      rw (market-refill es ms (sorted-length (market_of es))) (sorted-Follows (market_of es))

  -- A batch in order that raises does so at its first market event, before any key is remembered.
  each-first :
      (enabled : Bool) (es : List (Event P)) (last : Option Key)
      → Follows none (market_of es)
      → let (raised, last') = enforce_each enabled es last in (raised ≡ none) ⊎ (last' ≡ last)
  each-first enabled [] last f = inl refl
  each-first enabled (other n p ∷ es) last f = each-first enabled es last f
  each-first enabled (market e ∷ es) last f =
      elim (Bool-cases (enabled && behind (event_merge_sort_key e) last)) [
        | inl late ↦ inr (ground (arith, late))
        | inr fine ↦
            inl (ground (arith, fine, each-passes enabled es (some (event_merge_sort_key e)) f.1))
      ]

  -- What a batch leaves, from what its loop raised.
  kept-whole :
      (log : EventLog P) (result : Option CausalityViolation × Option Key) (events : List (Event P))
      → (result.0 ≡ none) ⊎ (result.1 ≡ log.last_market_key)
      → let (raised, log') = kept log result events in
        (raised ≡ none) × (log'.events ≡ events) ⊎ (log' ≡ log)
  kept-whole log (none, last) events h = inl (refl, refl)
  kept-whole log (some error, last) events (inl h) = cc
  kept-whole log (some error, last) events (inr h) =
      inr (ap (λ k. record log { last_market_key = k }) h)

  pub append_batch-whole :
      (es : List (Event P)) (log : EventLog P)
      → let (raised, log') = append_batch es log in
        (raised ≡ none) × (log'.events ≡ log.events ++ stabilize_market_slice es) ⊎ (log' ≡ log)
  unfolding append_batch
  append_batch-whole es log =
      let ev = stabilize_market_slice es in
      kept-whole log (enforce_each log.enforce_market_order_enabled ev log.last_market_key)
        (log.events ++ ev)
        (each-first log.enforce_market_order_enabled ev log.last_market_key (stabilized-Follows es))

  kept-none :
      (log : EventLog P) (result : Option CausalityViolation × Option Key) (events : List (Event P))
      → result.0 ≡ none
      → let (raised, log') = kept log result events in (raised ≡ none) × (log'.events ≡ events)
  kept-none log (none, last) events h = (refl, refl)
  kept-none log (some error, last) events h = cc

  -- Replacing the stream never raises, in whatever order the events come.
  pub replace_events-total :
      (es : List (Event P)) (log : EventLog P)
      → let (raised, log') = replace_events es log in
        (raised ≡ none) × (log'.events ≡ stabilize_market_slice es)
  unfolding replace_events
  replace_events-total es log =
      let ev = stabilize_market_slice es in
      kept-none log (enforce_each log.enforce_market_order_enabled ev none) ev
        (each-passes log.enforce_market_order_enabled ev none (stabilized-Follows es))

  market_of-map : (ms : List (MarketEvent P)) → market_of (map market ms) ≡ ms
  market_of-map [] = refl
  market_of-map (m ∷ ms) = ap (λ ms. m ∷ ms) (market_of-map ms)

  refill-map : (ms : List (MarketEvent P)) → refill (map market ms) ms ≡ map market ms
  refill-map [] = refl
  refill-map (m ∷ ms) = ap (λ es. market m ∷ es) (refill-map ms)

  stabilize-ordered :
      (ms : List (MarketEvent P))
      → Follows none ms
      → stabilize_market_slice (map market ms) ≡ map market ms
  unfolding stabilize_market_slice
  stabilize-ordered ms f = rw (market_of-map ms, sorted-id none ms f) (refill-map ms)

  -- Market events in any order, once resequenced, are appended to a new log without an error and
  -- as they are.
  pub resequenced-appends :
      (ms : List (MarketEvent P)) (enabled : Bool)
      → let batch = map market (resequence_event_list ms) in
        let (raised, log) = append_batch batch (create enabled) in
        (raised ≡ none) × (log.events ≡ batch)
  unfolding append_batch create
  resequenced-appends ms enabled =
      let fresh = resequence_event_list ms in
      let ordered = resequence-Follows ms in
      rw (stabilize-ordered fresh ordered) (
        kept-none (create enabled) (enforce_each enabled (map market fresh) none) (map market fresh)
          (each-passes enabled (map market fresh) none (rw (market_of-map fresh) ordered)))
