-- ===== src/EventLog/Order.antt =====
-- The order of the market events (src/feelies/storage/event_resequence.py).
use feelies.Kit.{
  ℕ, suc, String, ◌≡◌, refl, ap, ◌∙◌, true, false, Option, none, some, List, [], ◌∷◌, arith,
  Bool-cases, inl, inr, string_Eq, length,
}
use Prim.Native.String.{compare, ◌∷◌ as text_cons, then as first_of}
use Prim.Native.String.compare
use Prim.Native.Char.{code}
use Prim.Native.Nat.{Ordering, compare as compare_ℕ}
use feelies.Kit.Sort.{sorted, insert_sorted, str_ltb}
use feelies.EventLog.{
  Key, key_ltb, MarketEvent, merges_before, event_merge_sort_key, numbered, behind,
  resequence_event_list,
}
use feelies.Sequence.{make_correlation_id}

flipped : Ordering → Ordering
flipped Ordering.lt = Ordering.gt
flipped Ordering.eq = Ordering.eq
flipped Ordering.gt = Ordering.lt

compare_ℕ-flip : (m n : ℕ) → compare_ℕ n m ≡ flipped (compare_ℕ m n)
unfolding flipped
compare_ℕ-flip m n = ground arith

flipped-then : (o p : Ordering) → flipped (first_of o p) ≡ first_of (flipped o) (flipped p)
unfolding flipped
flipped-then Ordering.lt p = refl
flipped-then Ordering.eq p = refl
flipped-then Ordering.gt p = refl

compare-flip : (s t : String) → compare t s ≡ flipped (compare s t)
unfolding flipped
compare-flip String.[] String.[] = rw compare.nil-nil refl
compare-flip String.[] (text_cons d t) = rw (compare.nil-cons d t, compare.cons-nil d t) refl
compare-flip (text_cons c s) String.[] = rw (compare.nil-cons c s, compare.cons-nil c s) refl
compare-flip (text_cons c s) (text_cons d t) = rw (
  compare.cons-cons c d s t,
  compare.cons-cons d c t s,
  flipped-then (compare_ℕ (code c) (code d)) (compare s t),
  compare_ℕ-flip (code c) (code d),
  compare-flip s t,
)

str_ltb-asym : (s t : String) → str_ltb s t ≡ true → str_ltb t s ≡ false
unfolding flipped
str_ltb-asym s t h = ground (arith, compare-flip s t)

key_ltb-asym : (a b : Key) → key_ltb a b ≡ true → key_ltb b a ≡ false
key_ltb-asym (t, s, r, n) (t', s', r', n') h =
    ground
      (arith, str_ltb-asym s s', str_ltb-asym s' s, string_Eq.eqb_iff s s', string_Eq.eqb_iff s' s)

module _ {P : Type 0} where
  -- No event is behind the one before.
  abbrev pub Follows : Option Key → List (MarketEvent P) → Type 0
  Follows last [] = Unit
  Follows last (e ∷ es) =
      (behind (event_merge_sort_key e) last ≡ false) × Follows (some (event_merge_sort_key e)) es

  insert-Follows :
      (last : Option Key) (a : MarketEvent P) (bs : List (MarketEvent P))
      → behind (event_merge_sort_key a) last ≡ false
      → Follows last bs
      → Follows last (insert_sorted merges_before a bs)
  unfolding insert_sorted
  insert-Follows last a [] h f = (h, tt)
  insert-Follows last a (b ∷ bs) h f = elim (Bool-cases (merges_before b a)) [
    | inl after ↦ rw after (
      f.0,
      insert-Follows (some (event_merge_sort_key b)) a bs
          (key_ltb-asym (event_merge_sort_key b) (event_merge_sort_key a) after) f.1,
    )
    | inr here ↦ rw here (h, (here, f.1))
  ]

  pub sorted-Follows : (es : List (MarketEvent P)) → Follows none (sorted merges_before es)
  unfolding sorted
  sorted-Follows [] = tt
  sorted-Follows (e ∷ es) = insert-Follows none e (sorted merges_before es) refl (sorted-Follows es)

  -- A list in order is its own sorting.
  pub sorted-id :
      (last : Option Key) (es : List (MarketEvent P))
      → Follows last es
      → sorted merges_before es ≡ es
  unfolding sorted insert_sorted
  sorted-id last [] f = refl
  sorted-id last (e ∷ []) f = refl
  sorted-id last (e ∷ d ∷ es) f =
      rw (sorted-id (some (event_merge_sort_key e)) (d ∷ es) f.1, f.1.0) refl

  insert-length :
      (a : MarketEvent P) (bs : List (MarketEvent P))
      → length (insert_sorted merges_before a bs) ≡ suc (length bs)
  unfolding insert_sorted
  insert-length a [] = refl
  insert-length a (b ∷ bs) = elim (Bool-cases (merges_before b a)) [
    | inl after ↦ rw after (ap suc (insert-length a bs))
    | inr here ↦ rw here refl
  ]

  pub sorted-length : (es : List (MarketEvent P)) → length (sorted merges_before es) ≡ length es
  unfolding sorted
  sorted-length [] = refl
  sorted-length (e ∷ es) = insert-length e (sorted merges_before es) ∙ ap suc (sorted-length es)

  abbrev renumber : ℕ → MarketEvent P → MarketEvent P
  renumber n e = record e {
    sequence = n;
    correlation_id = make_correlation_id e.symbol e.exchange_timestamp_ns n;
  }

  renumber-ordered :
      (n : ℕ) (a b : MarketEvent P)
      → merges_before b a ≡ false
      → merges_before (renumber (suc n) b) (renumber n a) ≡ false
  renumber-ordered n a b h = ground arith

  numbered-Follows :
      (n : ℕ) (a : MarketEvent P) (es : List (MarketEvent P))
      → Follows (some (event_merge_sort_key a)) es
      → Follows (some (event_merge_sort_key (renumber n a))) (numbered (suc n) es)
  numbered-Follows n a [] f = tt
  numbered-Follows n a (e ∷ es) f = (renumber-ordered n a e f.0, numbered-Follows (suc n) e es f.1)

  numbered-start : (es : List (MarketEvent P)) → Follows none es → Follows none (numbered 0 es)
  numbered-start [] f = tt
  numbered-start (e ∷ es) f = (refl, numbered-Follows 0 e es f.1)

  -- Fresh sequence numbers keep the order.
  pub resequence-Follows : (es : List (MarketEvent P)) → Follows none (resequence_event_list es)
  unfolding resequence_event_list
  resequence-Follows es = numbered-start (sorted merges_before es) (sorted-Follows es)
