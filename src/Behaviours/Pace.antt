-- ===== src/Behaviours/Pace.antt =====
-- The engine ticks the tree at a rate: the times of its ticks (app/execution/engine.py, `start`).
use hmta_service.Prelude.{ℕ, ◌+◌, ◌≤◌, List, [], ◌∷◌}

-- Each tick comes after the one before it, and at most `gap` later.
abbrev pub AreTicks : ℕ → ℕ → List ℕ → Type 0
AreTicks gap before [] = Unit
AreTicks gap before (now ∷ rest) = (before ≤ now) × ((now ≤ before + gap) × AreTicks gap now rest)

abbrev pub last_tick : ℕ → List ℕ → ℕ
last_tick before [] = before
last_tick before (now ∷ rest) = last_tick now rest
