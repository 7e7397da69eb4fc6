-- ===== src/Window/Lookup.antt =====
-- The lookups of src/window.c by index, and what is done at the index, against recursion on the
-- list of windows.
use crystalline_lattice.Common.{
  ℕ, zero, suc, ◌+◌, ◌-◌, ◌<◌, ◌≡◌, refl, sym, ap, ◌∙◌, Option, none, some, List, [], ◌∷◌, ◌++◌,
  arith, length, get_elem?, set, ◌==◌, if◌then◌else◌, Bool-cases, inl, inr, leb,
}
use crystalline_lattice.Window.{
  Window, WindowStack, count, index_from, index, by_id, update, raise, lower, move_to_top,
  move_to_bottom, destroy, top_id,
}
use crystalline_lattice.Window.Array.{
  remove_at, take-shift_down, set-shift_down, set-shift_up, remove_at-last,
}

-- The bottommost window with the id.
unfoldable pub find : ℕ → List Window → Option Window
find id [] = none
find id (v ∷ ws) = if v.id == id then some v else find id ws

-- The windows without that one.
unfoldable pub without : ℕ → List Window → List Window
without id [] = []
without id (v ∷ ws) = if v.id == id then ws else v ∷ without id ws

-- The windows with that one changed.
unfoldable pub revise : ℕ → (Window → Window) → List Window → List Window
revise id f [] = []
revise id f (v ∷ ws) = if v.id == id then f v ∷ ws else v ∷ revise id f ws

-- What `index_from` finds, told by the functions above.
pub data Located (k id : ℕ) (ws : List Window) : Type 0 where
  absent :
      index_from k ws id ≡ none
      → find id ws ≡ none
      → without id ws ≡ ws
      → ((f : Window → Window) → revise id f ws ≡ ws)
      → Located k id ws
  present :
      (i : ℕ) (v : Window)
      → index_from k ws id ≡ some (k + i)
      → i < length ws
      → get_elem? ws i ≡ some v
      → find id ws ≡ some v
      → remove_at i ws ≡ without id ws
      → ((f : Window → Window) → set ws i (f v) ≡ revise id f ws)
      → Located k id ws

pub locate : (k id : ℕ) (ws : List Window) → Located k id ws
unfolding index_from find without revise
locate k id [] = absent refl refl refl (λ f. refl)
locate k id (v ∷ ws) = elim (Bool-cases (v.id == id)) [
  | inl here ↦
      present zero v (rw (here) (ap some (omega arith))) (omega arith) refl (rw here) (rw here)
        (λ f. rw here)
  | inr there ↦ elim (locate (suc k) id ws) [
    | absent a b c d ↦
        absent (rw (there) a) (rw (there) b) (rw (there) (ap (◌∷◌ v) c))
          (λ f. rw there (ap (◌∷◌ v) (d f)))
    | present i u a l b c d e ↦
        present (suc i) u (rw (there) (a ∙ ap some (omega arith))) (omega arith) b (rw there c)
          (rw there (ap (◌∷◌ v) d)) (λ f. rw there (ap (◌∷◌ v) (e f)))
  ]
]

module _ (s : WindowStack) (id : ℕ) where
  index_absent : index_from 0 s.windows id ≡ none → index s id ≡ none
  unfolding index
  index_absent e = e

  index_present : {i : ℕ} → index_from 0 s.windows id ≡ some (0 + i) → index s id ≡ some i
  unfolding index
  index_present e = e ∙ ap some (omega arith)

  -- `window_by_id` is `find`.
  pub by_id-find : by_id s id ≡ find id s.windows
  unfolding by_id
  by_id-find = elim (locate 0 id s.windows) [
    | absent a b c d ↦ rw (index_absent a, by_id) (sym b)
    | present i v a l b c d e ↦ rw (index_present a, by_id) (b ∙ sym c)
  ]

  -- A write through the pointer changes the window that `find` finds.
  pub update-revise :
      (f : Window → Window) → update s id f ≡ record s { windows = revise id f s.windows }
  unfolding update
  update-revise f = elim (locate 0 id s.windows) [
    | absent a b c d ↦ rw (index_absent a, update, d f)
    | present i v a l b c d e ↦ rw (index_present a, update, b, e f)
  ]

  -- `window_destroy` takes the window out, and keeps the others in their order.
  pub destroy-without : destroy s id ≡ elim (find id s.windows) [
    | none ↦ s
    | some v ↦ record s {
      windows = without id s.windows;
      focus_id = if s.focus_id == id then top_id (without id s.windows) else s.focus_id;
    }
  ]
  unfolding destroy
  destroy-without = elim (locate 0 id s.windows) [
    | absent a b c d ↦ rw (index_absent a, destroy, b)
    | present i v a l b c d e ↦ rw (index_present a, destroy, c, take-shift_down i s.windows l, d)
  ]

  -- `window_raise` takes the window out and puts it on top.
  pub raise-without : raise s id ≡ elim (find id s.windows) [
    | none ↦ s
    | some v ↦ record s { windows = without id s.windows ++ v ∷ [] }
  ]
  unfolding raise move_to_top
  raise-without = elim (locate 0 id s.windows) [
    | absent a b c d ↦ rw (index_absent a, b)
    | present i v a l b c d e ↦ elim (Bool-cases (leb (count s - 1) i)) [
      | inl last ↦
          rw (index_present a, last, c, ← d)
            (ap (λ (ws : List Window). record s { windows = ws })
              (sym (remove_at-last i s.windows v (ground arith) b)))
      | inr inner ↦ rw (index_present a, inner, b, c, set-shift_down i s.windows l v, d)
    ]
  ]

  -- `window_lower` takes the window out and puts it at the bottom.
  pub lower-without : lower s id ≡ elim (find id s.windows) [
    | none ↦ s
    | some v ↦ record s { windows = v ∷ without id s.windows }
  ]
  unfolding lower move_to_bottom
  lower-without = elim (locate 0 id s.windows) [
    | absent a b c d ↦ rw (index_absent a, b)
    | present i v a l b c d e ↦ lowered i v a l b c d
  ]
    where
      lowered :
          (i : ℕ) (v : Window)
          → index_from 0 s.windows id ≡ some (0 + i)
          → i < length s.windows
          → get_elem? s.windows i ≡ some v
          → find id s.windows ≡ some v
          → remove_at i s.windows ≡ without id s.windows
          → lower s id ≡ elim (find id s.windows) [
            | none ↦ s
            | some u ↦ record s { windows = u ∷ without id s.windows }
          ]
      lowered zero v a l b c d =
          rw (index_present {i = zero} a, c, ← d)
            (ap (λ (ws : List Window). record s { windows = ws }) (bottom s.windows b))
        where
          bottom : (ws : List Window) → get_elem? ws 0 ≡ some v → ws ≡ v ∷ remove_at 0 ws
          bottom [] e = absurd (cc)
          bottom (u ∷ ws) e = ground arith
      lowered (suc i) v a l b c d = elim (Bool-cases (leb (count s) (suc i))) [
        | inl out ↦ absurd (ground arith)
        | inr inner ↦
            rw (index_present {i = suc i} a, inner, b, c, set-shift_up (suc i) s.windows v l, d)
              (ground arith)
      ]
