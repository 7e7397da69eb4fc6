-- ===== src/Window/Hit.antt =====
-- `window_at` of src/window.c: the hit test finds the topmost mapped window under a point.
use crystalline_lattice.Common.{
  ℕ, zero, suc, ◌≡◌, refl, ap, ◌∙◌, Bool, true, false, ◌&&◌, Option, none, some, List, [], ◌∷◌,
  ◌++◌, arith, length, if◌then◌else◌, Bool-cases, inl, inr, All, ℤ,
}
use crystalline_lattice.Window
use crystalline_lattice.Window.{Window, WindowStack, contains, at_below}

module _ (gx gy : ℤ) where
  -- A window that takes part in hit testing, and whose rectangle holds the point.
  abbrev pub is_hit : Window → Bool
  is_hit v = v.mapped && contains v gx gy

  -- The topmost hit, by recursion from the bottom.
  unfoldable pub top_hit : List Window → Option Window
  top_hit [] = none
  top_hit (v ∷ ws) = elim (top_hit ws) [
    | some u ↦ some u
    | none ↦ if is_hit v then some v else none
  ]

  at_below-cons :
      (n : ℕ) (v : Window) (ws : List Window)
      → at_below (suc n) (v ∷ ws) gx gy
        ≡ elim (at_below n ws gx gy) [ some u ↦ some u | none ↦ if is_hit v then some v else none ]
  unfolding at_below
  at_below-cons zero v ws = refl
  at_below-cons (suc n) v ws = ground (arith, at_below-cons n v ws)

  at_below-top_hit : (ws : List Window) → at_below (length ws) ws gx gy ≡ top_hit ws
  unfolding top_hit
  at_below-top_hit [] = unfold at_below in refl
  at_below-top_hit (v ∷ ws) = at_below-cons (length ws) v ws ∙ rw (at_below-top_hit ws) refl

  abbrev pub Misses : List Window → Type 0
  Misses = All (λ v. is_hit v ≡ false)

  -- What the test answers, for each answer.
  abbrev pub Answers : List Window → Option Window → Type 0
  Answers ws none = Misses ws
  Answers ws (some v) =
      (below : List Window) × (above : List Window) × (ws ≡ below ++ v ∷ above)
      × (is_hit v ≡ true)
      × Misses above

  answers-cons :
      (v : Window) (ws : List Window) (o : Option Window)
      → Answers ws o
      → Answers (v ∷ ws) (elim o [ some u ↦ some u | none ↦ if is_hit v then some v else none ])
  answers-cons v ws none a = elim (Bool-cases (is_hit v)) [
    | inl h ↦ rw h ([], ws, refl, h, a)
    | inr h ↦ rw h (h, a)
  ]
  answers-cons v ws (some u) (below, above, e, h, a) = (v ∷ below, above, ap (◌∷◌ v) e, h, a)

  top_hit-Answers : (ws : List Window) → Answers ws (top_hit ws)
  unfolding top_hit
  top_hit-Answers [] = tt
  top_hit-Answers (v ∷ ws) = answers-cons v ws (top_hit ws) (top_hit-Answers ws)

  pub at-top_hit : (s : WindowStack) → Window.at s gx gy ≡ top_hit s.windows
  unfolding Window.at
  at-top_hit s = at_below-top_hit s.windows

  pub at-Answers : (s : WindowStack) → Answers s.windows (Window.at s gx gy)
  unfolding Window.at
  at-Answers s = rw (at_below-top_hit s.windows) (top_hit-Answers s.windows)
