-- ===== src/Window/Array.antt =====
-- The shift loops of src/window.c against the removal of one entry.
use crystalline_lattice.Common.{
  ℕ, zero, suc, ◌+◌, ◌-◌, ◌<◌, ◌≡◌, refl, ap, ◌∙◌, some, List, [], ◌∷◌, ◌++◌, arith, length,
  get_elem?, set, take, take-append, set-append, length-set, Option-cases, inl, inr,
}
use crystalline_lattice.Window.{Window, copy, shift_down, shift_up}

module _ {ℓ} {A : Type ℓ} where
  -- The list without the element at an index.
  abbrev pub remove_at : ℕ → List A → List A
  remove_at i [] = []
  remove_at zero (x ∷ xs) = xs
  remove_at (suc i) (x ∷ xs) = x ∷ remove_at i xs

  pub length-remove_at :
      (i : ℕ) (xs : List A) → i < length xs → length (remove_at i xs) ≡ length xs - 1
  length-remove_at i [] h = absurd (omega arith)
  length-remove_at zero (x ∷ xs) h = omega arith
  length-remove_at (suc i) (x ∷ xs) h = omega (arith, length-remove_at i xs (omega arith))

  pub remove_at-last :
      (i : ℕ) (xs : List A) (v : A)
      → length xs ≡ suc i
      → get_elem? xs i ≡ some v
      → remove_at i xs ++ v ∷ [] ≡ xs
  remove_at-last i [] v h e = absurd (omega arith)
  remove_at-last zero (x ∷ []) v h e = ground arith
  remove_at-last zero (x ∷ y ∷ xs) v h e = absurd (omega arith)
  remove_at-last (suc i) (x ∷ xs) v h e = ap (◌∷◌ x) (remove_at-last i xs v (omega arith) e)

copy-cons :
    (i j : ℕ) (x : Window) (ws : List Window) → copy (x ∷ ws) (suc i) (suc j) ≡ x ∷ copy ws i j
unfolding copy
copy-cons i j x ws = ground arith

shift_down-cons :
    (n i : ℕ) (x : Window) (ws : List Window)
    → shift_down n (suc i) (x ∷ ws) ≡ x ∷ shift_down n i ws
unfolding shift_down
shift_down-cons zero i x ws = refl
shift_down-cons (suc n) i x ws = rw copy-cons (shift_down-cons n (suc i) x (copy ws i (suc i)))

-- After the shift the entry is gone, and one stale entry is left at the end.
shift_down_lem :
    (i n : ℕ) (ws : List Window)
    → length ws ≡ suc (i + n)
    → (z : Window) × (shift_down n i ws ≡ remove_at i ws ++ z ∷ [])
unfolding shift_down copy
shift_down_lem zero zero [] h = absurd (omega arith)
shift_down_lem zero zero (x ∷ []) h = (x, refl)
shift_down_lem zero zero (x ∷ y ∷ ws) h = absurd (omega arith)
shift_down_lem zero (suc n) [] h = absurd (omega arith)
shift_down_lem zero (suc n) (x ∷ []) h = absurd (omega arith)
shift_down_lem zero (suc n) (x ∷ y ∷ ws) h =
    let (z, e) = shift_down_lem zero n (y ∷ ws) (omega arith) in
    (z, shift_down-cons n zero y (y ∷ ws) ∙ ap (◌∷◌ y) e)
shift_down_lem (suc i) n [] h = absurd (omega arith)
shift_down_lem (suc i) n (x ∷ ws) h =
    let (z, e) = shift_down_lem i n ws (omega arith) in (z, shift_down-cons n i x ws ∙ ap (◌∷◌ x) e)

module _ (i : ℕ) (ws : List Window) (inside : i < length ws) where
  rest-len : length (remove_at i ws) ≡ length ws - 1
  rest-len = length-remove_at i ws inside

  shifted : (z : Window) × (shift_down (length ws - 1 - i) i ws ≡ remove_at i ws ++ z ∷ [])
  shifted = shift_down_lem i (length ws - 1 - i) ws (omega arith)

  -- Dropping the stale entry removes one entry.
  pub take-shift_down : take (length ws - 1) (shift_down (length ws - 1 - i) i ws) ≡ remove_at i ws
  take-shift_down = rw (shifted.1, ← rest-len) (take-append (remove_at i ws) (shifted.0 ∷ []))

  -- Overwriting the stale entry moves one entry to the end.
  pub set-shift_down :
      (v : Window)
      → set (shift_down (length ws - 1 - i) i ws) (length ws - 1) v ≡ remove_at i ws ++ v ∷ []
  set-shift_down v = rw (shifted.1, ← rest-len) (set-append (remove_at i ws) shifted.0 v)

length-copy : (ws : List Window) (i j : ℕ) → length (copy ws i j) ≡ length ws
unfolding copy
length-copy ws i j = elim (Option-cases (get_elem? ws j)) [
  | inl e ↦ rw (e, copy)
  | inr (v, e) ↦ rw (e, copy) (length-set ws i v)
]

remove_at-copy :
    (i : ℕ) (ws : List Window)
    → suc i < length ws
    → remove_at i (copy ws (suc i) i) ≡ remove_at (suc i) ws
unfolding copy
remove_at-copy i [] h = absurd (omega arith)
remove_at-copy zero (x ∷ []) h = absurd (omega arith)
remove_at-copy zero (x ∷ y ∷ ws) h = refl
remove_at-copy (suc i) (x ∷ ws) h =
    rw (copy-cons (suc i) i x ws) (ap (◌∷◌ x) (remove_at-copy i ws (omega arith)))

-- The other shift, with the entry written at the bottom.
pub set-shift_up :
    (i : ℕ) (ws : List Window) (v : Window)
    → i < length ws
    → set (shift_up i ws) 0 v ≡ v ∷ remove_at i ws
unfolding shift_up
set-shift_up zero [] v h = absurd (omega arith)
set-shift_up zero (x ∷ ws) v h = refl
set-shift_up (suc i) ws v h =
    set-shift_up i (copy ws (suc i) i) v (omega (arith, length-copy ws (suc i) i))
    ∙ ap (◌∷◌ v) (remove_at-copy i ws h)
