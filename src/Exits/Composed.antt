-- ===== src/Exits/Composed.antt =====
-- When a book is closed, and by what order (src/feelies/risk/exit_composer.py).
use feelies.Kit.{String, ◌≡◌, Bool, true, false, not, ◌&&◌, ◌||◌, some, arith}
use feelies.Exits.{DeRiskRequirement}
use feelies.Exits.Closes.{Closes, against}
use feelies.Exits.Composer.{
  BookState, SafetyPermission, StoryPermission, story_on, story_off, unknown, compose_exit, is_exit,
  is_flat, is_off, ExitComposer, Slices, SafetyChange, on_safety_state_change,
}

abbrev pub is_story_off : StoryPermission → Bool
is_story_off story_off = true
is_story_off story_on = false
is_story_off unknown = false

abbrev pub is_unknown : StoryPermission → Bool
is_unknown unknown = true
is_unknown story_on = false
is_unknown story_off = false

-- An open book is closed exactly if a cap was hit, or the story is off, or safety is off and
-- either failed closed or leaves a configured story unknown. On no side of the book is one closed
-- that the other side would hold.
pub compose_exit-conditions :
    (book : BookState) (safe : SafetyPermission) (story : StoryPermission)
    (caps_hit configured fail_closed : Bool)
    → is_exit (compose_exit book safe story caps_hit configured fail_closed)
      ≡ not (is_flat book)
        && (caps_hit
            || (is_story_off story
                || is_off safe && (fail_closed || is_unknown story && configured)))
unfolding compose_exit
compose_exit-conditions book safe story caps_hit configured fail_closed = ground arith

module _ {W : Type 0} (view : W → Slices) (publish : DeRiskRequirement → W → W)
    (hexdigest : String → String) where
  -- What the composer publishes on a safety change closes the whole slice that the store shows.
  pub on_safety_state_change-Closes :
      (e : SafetyChange) (c : ExitComposer) (w : W) {r : DeRiskRequirement}
      → (on_safety_state_change view publish hexdigest e c w).2 ≡ some r
      → Closes e.strategy_id e.symbol ((view w).get (e.strategy_id, e.symbol)).quantity r
  unfolding on_safety_state_change
  on_safety_state_change-Closes e c w h =
      ground (arith, against ((view w).get (e.strategy_id, e.symbol)).quantity)
