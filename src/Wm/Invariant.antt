-- ===== src/Wm/Invariant.antt =====
-- What holds of the window manager of src/wm.c between two input events.
use crystalline_lattice.Common.{
  ℕ, ◌≡◌, refl, Bool, false, not, ◌&&◌, ◌||◌, List, [], ◌∷◌, arith, ◌==◌, Bool-cases, Option-cases,
  inl, inr, ℤ, pos, ◌-ℤ◌, leb_ℤ, ◌<ℤ◌,
}
use crystalline_lattice.Window
use crystalline_lattice.Window.{Window, WindowStack, has_ssd, place, decor_titlebar_h}
use crystalline_lattice.Window.Invariant
use crystalline_lattice.Window.Invariant.{
  update-IsValid, focus-IsValid, focus_cycle-IsValid, move-IsValid, set_geometry-IsValid,
}
use crystalline_lattice.Wm
use crystalline_lattice.Wm.{
  Wm, drag_grabbed, pointer_motion, pointer_motion_abs, pointer_button, press, press_on, grab_title,
  grab, release, snap_on_release, snap_target, save_rect, clear_snapped, btn_left, key, key_tab,
  at_least_zero,
}
use crystalline_lattice.Wm.Cursor.{OnScreen, HasScreen, init-OnScreen, clamped-OnScreen}

pub record IsValid (wm : Wm) : Type 0 where
  pub stack : Invariant.IsValid wm.stack
  pub screen : HasScreen wm
  pub cursor : OnScreen wm
  pub idle : wm.moving ≡ false → wm.move_id ≡ 0

-- A change of everything but the screen and the cursor.
pub restacked-IsValid :
    (wm : Wm)
    → IsValid wm
    → (wm' : Wm) → Invariant.IsValid wm'.stack
    → (wm'.screen_w ≡ wm.screen_w)
    → (wm'.screen_h ≡ wm.screen_h)
    → (wm'.cursor_x ≡ wm.cursor_x)
    → (wm'.cursor_y ≡ wm.cursor_y)
    → (wm'.moving ≡ false → wm'.move_id ≡ 0)
    → IsValid wm'
restacked-IsValid wm v wm' st a b c d idle = record {
  stack = st;
  screen = ground arith;
  cursor = ground arith;
  idle = idle;
}

drag_grabbed-IsValid : (wm : Wm) → IsValid wm → IsValid (drag_grabbed wm)
unfolding drag_grabbed
drag_grabbed-IsValid wm v = elim (Bool-cases wm.moving) [
  | inl on ↦
      rw (on, drag_grabbed)
        (restacked-IsValid wm v _ (move-IsValid wm.stack v.stack _ _ _) refl refl refl refl
          (λ e. cc))
  | inr off ↦ simp (off, drag_grabbed) v
]

snap_on_release-IsValid :
    (wm : Wm) (id : ℕ) → IsValid wm → wm.move_id ≡ 0 → IsValid (snap_on_release wm id)
unfolding snap_on_release
snap_on_release-IsValid wm id v idle = elim (Option-cases (Window.by_id wm.stack id)) [
  | inl e ↦ rw (e, snap_on_release) v
  | inr (u, e) ↦ elim (Bool-cases (not (has_ssd u))) [
    | inl plain ↦ rw (e, plain, snap_on_release) v
    | inr ssd ↦ elim (Option-cases (snap_target wm)) [
      | inl away ↦ rw (e, ssd, away, snap_on_release) v
      | inr (r, edge) ↦
          rw (e, ssd, edge, snap_on_release)
            (restacked-IsValid wm v _
              (set_geometry-IsValid _
                (update-IsValid wm.stack v.stack id save_rect
                  (λ t. unfold save_rect in ground arith))
                id r.x r.y r.w r.h)
              refl refl refl refl (λ _. idle))
    ]
  ]
]

release-IsValid : (wm : Wm) → IsValid wm → IsValid (release wm)
unfolding release
release-IsValid wm v = elim (Bool-cases wm.moving) [
  | inl on ↦
      rw (on, release)
        (snap_on_release-IsValid (record wm { moving = false; move_id = 0 }) wm.move_id
          (restacked-IsValid wm v _ v.stack refl refl refl refl (λ _. refl)) refl)
  | inr off ↦ simp (off, release) v
]

grab_title-IsValid : (wm : Wm) (id : ℕ) (u : Window) → IsValid wm → IsValid (grab_title wm id u)
unfolding grab_title grab
grab_title-IsValid wm id u v = elim (Bool-cases u.snapped) [
  | inl snapped ↦
      rw (snapped, grab_title)
        (restacked-IsValid wm v _
          (update-IsValid _ (set_geometry-IsValid wm.stack v.stack id _ _ _ _) id clear_snapped
            (λ t. refl))
          refl refl refl refl (λ e. cc))
  | inr floating ↦
      rw (floating, grab_title) (restacked-IsValid wm v _ v.stack refl refl refl refl (λ e. cc))
]

press_on-IsValid : (wm : Wm) (id : ℕ) → IsValid wm → IsValid (press_on wm id)
unfolding press_on
press_on-IsValid wm id v =
    let wm' : Wm = record wm { stack = Window.focus wm.stack id } in
    let v' : IsValid wm' =
      restacked-IsValid wm v wm' (focus-IsValid wm.stack v.stack id) refl refl refl refl v.idle in
    elim (Option-cases (Window.by_id (Window.focus wm.stack id) id)) [
      | inl e ↦ rw (e, press_on) v'
      | inr (u, e) ↦
          elim (Bool-cases (not (has_ssd u) || leb_ℤ (pos decor_titlebar_h) (wm.cursor_y -ℤ u.y))) [
            | inl content ↦ rw (e, content, press_on) v'
            | inr title ↦ rw (e, title, press_on) (grab_title-IsValid wm' id u v')
          ]
    ]

press-IsValid : (wm : Wm) → IsValid wm → IsValid (press wm)
unfolding press
press-IsValid wm v = elim (Option-cases (Window.at wm.stack wm.cursor_x wm.cursor_y)) [
  | inl e ↦ rw (e, press) v
  | inr (u, e) ↦ rw (e, press) (press_on-IsValid wm u.id v)
]

-- An input event, as the server hands it to the window manager.
pub data Event (Double : Type 0) : Type 0 where
  motion : Double → Double → Event Double
  motion_abs : Double → Double → Event Double
  button : ℕ → Bool → Event Double
  key_event : ℕ → Bool → Bool → Event Double

module _ {Double : Type 0} (to_int : Double → ℤ) where
  unfoldable pub handle : Event Double → Wm → Wm
  handle (motion dx dy) wm = pointer_motion to_int wm dx dy
  handle (motion_abs ax ay) wm = pointer_motion_abs to_int wm ax ay
  handle (button code pressed) wm = pointer_button wm code pressed
  handle (key_event keysym pressed alt_down) wm = (key wm keysym pressed alt_down).1

  unfoldable pub run : List (Event Double) → Wm → Wm
  run [] wm = wm
  run (e ∷ es) wm = run es (handle e wm)

  pub handle-IsValid : (e : Event Double) (wm : Wm) → IsValid wm → IsValid (handle e wm)
  unfolding handle pointer_motion pointer_motion_abs pointer_button key
  handle-IsValid (motion dx dy) wm v = drag_grabbed-IsValid _ (record {
    stack = v.stack;
    screen = record { wide = v.screen.wide; high = v.screen.high };
    cursor = clamped-OnScreen wm v.screen _ _;
    idle = v.idle;
  })
  handle-IsValid (motion_abs ax ay) wm v = drag_grabbed-IsValid _ (record {
    stack = v.stack;
    screen = record { wide = v.screen.wide; high = v.screen.high };
    cursor = clamped-OnScreen wm v.screen _ _;
    idle = v.idle;
  })
  handle-IsValid (button code pressed) wm v =
      ground (arith, press-IsValid wm v, release-IsValid wm v, v)
  handle-IsValid (key_event keysym pressed alt_down) wm v =
      elim (Bool-cases (pressed && alt_down && keysym == key_tab)) [
        | inl tab ↦
            rw (tab, handle, key)
              (restacked-IsValid wm v _ (focus_cycle-IsValid wm.stack v.stack (pos 1)) refl refl
                refl refl v.idle)
        | inr other ↦ rw (other, handle, key) v
      ]

  run-IsValid : (es : List (Event Double)) (wm : Wm) → IsValid wm → IsValid (run es wm)
  unfolding run
  run-IsValid [] wm v = v
  run-IsValid (e ∷ es) wm v = run-IsValid es (handle e wm) (handle-IsValid e wm v)

  -- From `wm_init` over a valid stack and a screen with a pixel, any input events, with any pointer
  -- values, leave the stack valid and the cursor on the screen, and remember a dragged window only
  -- while a drag is on.
  pub run-init-IsValid :
      (es : List (Event Double)) (memory : Wm) (s : WindowStack) (w h : ℤ)
      → Invariant.IsValid s
      → pos 0 <ℤ w
      → pos 0 <ℤ h
      → IsValid (run es (Wm.init memory s w h))
  unfolding Wm.init
  run-init-IsValid es memory s w h valid wide high = run-IsValid es (Wm.init memory s w h) (record {
    stack = valid;
    screen = record { wide = wide; high = high };
    cursor = init-OnScreen memory s w h wide high;
    idle = λ _. refl;
  })
