-- ===== src/Oee/Spans.antt =====
-- Spans of time in order: what they cover of a window is at most the window.
use microbroker_mqtt_edge.Prelude.{ℕ, ◌+◌, ◌-◌, ◌≤◌, ◌≡◌, List, [], ◌∷◌, ltb, if◌then◌else◌, arith}

pub record Span : Type 0 where
  pub first : ℕ
  pub last : ℕ

-- The part of a span inside [from, to), as a length.
unfoldable pub covered : ℕ → ℕ → Span → ℕ
covered from to s =
    (if ltb s.last to then s.last else to) - (if ltb s.first from then from else s.first)

unfoldable pub covered_sum : ℕ → ℕ → List Span → ℕ
covered_sum from to [] = 0
covered_sum from to (s ∷ ss) = covered from to s + covered_sum from to ss

-- Each span begins when the one before it has ended, and none before `lo`.
abbrev pub Ordered : ℕ → List Span → Type 0
Ordered lo [] = Unit
Ordered lo (s ∷ ss) = (lo ≤ s.first) × (s.first ≤ s.last) × Ordered s.last ss

-- Spans in order from `lo` on cover at most what the window has behind `lo`.
covered_sum-le :
    (lo from to : ℕ) (ss : List Span)
    → Ordered lo ss
    → covered_sum from to ss ≤ to - (if ltb lo from then from else lo)
unfolding covered_sum covered
covered_sum-le lo from to [] o = omega arith
covered_sum-le lo from to (s ∷ ss) o = ground (arith, covered_sum-le s.last from to ss o.2)

pub covered_sum-le-window :
    (lo from to : ℕ) (ss : List Span) → Ordered lo ss → covered_sum from to ss ≤ to - from
covered_sum-le-window lo from to ss o = ground (arith, covered_sum-le lo from to ss o)

-- A window cut in two covers the same.
pub covered-split :
    (from mid to : ℕ) (s : Span)
    → from ≤ mid
    → mid ≤ to
    → s.first ≤ s.last
    → covered from to s ≡ covered from mid s + covered mid to s
unfolding covered
covered-split from mid to s h k o = ground arith
