-- ===== src/Exits/Closes.antt =====
-- What a published requirement asks for (src/feelies/risk/stop_exit.py,
-- src/feelies/risk/hazard_exit.py, src/feelies/risk/deferral_cap.py).
use feelies.Kit.{ℕ, zero, suc, String, ◌≡◌, refl, false, Option, some, arith}
use feelies.Kit.Int.{ℤ, pos, negsuc, ◌+ℤ◌, negℤ, is_zero, abs}
use feelies.Kit.Floats.{Floats}
use feelies.Market.{Side, buy, sell}
use feelies.Exits.{DeRiskRequirement, Holdings, closing_side}
use feelies.Exits.Stop.{Quote, StopExits, on_quote}
use feelies.Exits.Hazard
use feelies.Exits.Hazard.{HazardPolicy, HazardReason, HazardExits}
use feelies.Exits.Deferral
use feelies.Exits.Deferral.{DeferralPolicy, DeferralCaps, Slice}

abbrev pub delta : Side → ℤ → ℤ
delta buy q = q
delta sell q = negℤ q

-- The requirement is for the strategy's position in the symbol, which is open, and filling it
-- takes that position to exactly zero.
abbrev pub Closes : String → String → ℤ → DeRiskRequirement → Type 0
Closes strategy_id symbol held r =
    (r.strategy_id ≡ strategy_id)
    × (r.symbol ≡ symbol)
    × (is_zero held ≡ false)
    × (held +ℤ delta r.side r.quantity ≡ pos 0)

pub against : (q : ℤ) → q +ℤ delta (closing_side q) (abs q) ≡ pos 0
unfolding ◌+ℤ◌ negℤ
against (pos zero) = refl
against (pos (suc n)) = ground arith
against (negsuc n) = ground arith

module _ {W : Type 0} (publish : DeRiskRequirement → W → W) (hexdigest : String → String) where
  -- A stop or session exit is for the quote's symbol and names no strategy, and it closes exactly the
  -- whole position, which is open, that the store shows for that symbol.
  pub on_quote-Closes :
      (fl : Floats) (to_float : ℤ → fl.Float) (half : ℤ → ℤ) (view : W → Holdings String)
      (bounds : Option (ℕ → ℤ)) (q : Quote) (c : StopExits fl.Float) (w : W) {r : DeRiskRequirement}
      → (on_quote fl to_float half view publish hexdigest bounds q c w).2 ≡ some r
      → Closes "" q.symbol ((view w).get q.symbol).quantity r
  unfolding on_quote
  on_quote-Closes fl to_float half view bounds q c w h =
      ground (arith, against ((view w).get q.symbol).quantity)

  pub hazard-Closes :
      {R : Type 0} (view : W → Holdings String) (p : HazardPolicy R) (sid symbol : String) (now : ℕ)
      (correlation_id : String) (reason : HazardReason) (c : HazardExits R) (w : W)
      {r : DeRiskRequirement}
      → (Hazard.maybe_emit_exit view publish hexdigest p sid symbol now correlation_id reason c w).2
        ≡ some r
      → Closes sid symbol ((view w).get symbol).quantity r
  unfolding Hazard.maybe_emit_exit
  hazard-Closes view p sid symbol now correlation_id reason c w h =
      ground (arith, against ((view w).get symbol).quantity)

  -- A deferral exit is for the strategy and the symbol of the slice, and it closes exactly the whole
  -- position, which is open, that the store shows for that slice.
  pub deferral-Closes :
      (rth_close_ns : ℕ → ℤ) (view : W → Holdings Slice) (p : DeferralPolicy) (key : Slice)
      (now : ℕ) (correlation_id : String) (c : DeferralCaps) (w : W) {r : DeRiskRequirement}
      → (Deferral.maybe_emit_exit rth_close_ns view publish hexdigest p key now correlation_id c
          w).2
        ≡ some r
      → Closes key.0 key.1 ((view w).get key).quantity r
  unfolding Deferral.maybe_emit_exit
  deferral-Closes rth_close_ns view p key now correlation_id c w h =
      ground (arith, against ((view w).get key).quantity)
