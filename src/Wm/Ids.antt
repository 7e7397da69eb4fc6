-- ===== src/Wm/Ids.antt =====
-- The window manager of src/wm.c creates no window: the id counter stays.
use crystalline_lattice.Common.{
  ℕ, ◌≡◌, refl, ◌∙◌, false, not, ◌&&◌, ◌||◌, arith, ◌==◌, Bool-cases, Option-cases, inl, inr, ℤ,
  pos, ◌-ℤ◌, leb_ℤ,
}
use crystalline_lattice.Window
use crystalline_lattice.Window.{Window, WindowStack, has_ssd, decor_titlebar_h}
use crystalline_lattice.Window.Lookup.{update-revise}
use crystalline_lattice.Window.Reach.{next_id-focus, next_id-focus_cycle}
use crystalline_lattice.Wm.{
  Wm, drag_grabbed, pointer_motion, pointer_motion_abs, pointer_button, press, press_on, grab_title,
  grab, release, snap_on_release, snap_target, save_rect, key, key_tab, clear_snapped,
}
use crystalline_lattice.Wm.Invariant.{Event, motion, motion_abs, button, key_event, handle}

pub next_id-update :
    (s : WindowStack) (id : ℕ) (f : Window → Window) → (Window.update s id f).next_id ≡ s.next_id
next_id-update s id f = rw update-revise refl

pub next_id-set_geometry :
    (s : WindowStack) (id : ℕ) (x y w h : ℤ)
    → (Window.set_geometry s id x y w h).next_id ≡ s.next_id
unfolding Window.set_geometry
next_id-set_geometry s id x y w h = next_id-update s id _

next_id-drag_grabbed : (wm : Wm) → (drag_grabbed wm).stack.next_id ≡ wm.stack.next_id
unfolding drag_grabbed Window.move
next_id-drag_grabbed wm = elim (Bool-cases wm.moving) [
  | inl on ↦ simp (on, drag_grabbed) (next_id-update wm.stack wm.move_id _)
  | inr off ↦ simp (off, drag_grabbed) refl
]

next_id-snap_on_release :
    (wm : Wm) (id : ℕ) → (snap_on_release wm id).stack.next_id ≡ wm.stack.next_id
unfolding snap_on_release
next_id-snap_on_release wm id = elim (Option-cases (Window.by_id wm.stack id)) [
  | inl e ↦ rw (e, snap_on_release)
  | inr (u, e) ↦ elim (Bool-cases (not (has_ssd u))) [
    | inl plain ↦ rw (e, plain, snap_on_release)
    | inr ssd ↦ elim (Option-cases (snap_target wm)) [
      | inl away ↦ rw (e, ssd, away, snap_on_release)
      | inr (r, edge) ↦
          rw (e, ssd, edge, snap_on_release)
            (next_id-set_geometry (Window.update wm.stack id save_rect) id r.x r.y r.w r.h
              ∙ next_id-update wm.stack id save_rect)
    ]
  ]
]

next_id-release : (wm : Wm) → (release wm).stack.next_id ≡ wm.stack.next_id
unfolding release
next_id-release wm = elim (Bool-cases wm.moving) [
  | inl on ↦
      simp (on, release)
        (next_id-snap_on_release (record wm { moving = false; move_id = 0 }) wm.move_id)
  | inr off ↦ simp (off, release) refl
]

next_id-grab_title :
    (wm : Wm) (id : ℕ) (u : Window) → (grab_title wm id u).stack.next_id ≡ wm.stack.next_id
unfolding grab_title grab
next_id-grab_title wm id u = elim (Bool-cases u.snapped) [
  | inl snapped ↦
      rw (snapped, grab_title)
        (next_id-update _ id clear_snapped ∙ next_id-set_geometry wm.stack id _ _ _ _)
  | inr floating ↦ rw (floating, grab_title) refl
]

next_id-press_on : (wm : Wm) (id : ℕ) → (press_on wm id).stack.next_id ≡ wm.stack.next_id
unfolding press_on
next_id-press_on wm id =
    let wm' : Wm = record wm { stack = Window.focus wm.stack id } in
    let kept = next_id-focus wm.stack id in
    elim (Option-cases (Window.by_id (Window.focus wm.stack id) id)) [
      | inl e ↦ rw (e, press_on) kept
      | inr (u, e) ↦
          elim (Bool-cases (not (has_ssd u) || leb_ℤ (pos decor_titlebar_h) (wm.cursor_y -ℤ u.y))) [
            | inl content ↦ rw (e, content, press_on) kept
            | inr title ↦ rw (e, title, press_on) (next_id-grab_title wm' id u ∙ kept)
          ]
    ]

next_id-press : (wm : Wm) → (press wm).stack.next_id ≡ wm.stack.next_id
unfolding press
next_id-press wm = elim (Option-cases (Window.at wm.stack wm.cursor_x wm.cursor_y)) [
  | inl e ↦ rw (e, press) refl
  | inr (u, e) ↦ rw (e, press) (next_id-press_on wm u.id)
]

pub next_id-handle :
    {Double : Type 0} (to_int : Double → ℤ) (e : Event Double) (wm : Wm)
    → (handle to_int e wm).stack.next_id ≡ wm.stack.next_id
unfolding handle pointer_motion pointer_motion_abs pointer_button key
next_id-handle to_int (motion dx dy) wm = next_id-drag_grabbed _
next_id-handle to_int (motion_abs ax ay) wm = next_id-drag_grabbed _
next_id-handle to_int (button code pressed) wm =
    ground (arith, next_id-press wm, next_id-release wm)
next_id-handle to_int (key_event keysym pressed alt_down) wm =
    elim (Bool-cases (pressed && alt_down && keysym == key_tab)) [
      | inl tab ↦ rw (tab, handle, key) (next_id-focus_cycle wm.stack (pos 1))
      | inr other ↦ rw (other, handle, key) refl
    ]
