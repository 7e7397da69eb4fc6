-- ===== src/Server/Invariant.antt =====
-- What the handlers of src/server.c leave of the window manager's invariant.
use crystalline_lattice.Common.{
  ℕ, zero, suc, ◌≡◌, ◌⊎◌, refl, ap, ◌∙◌, Bool, true, ◌&&◌, arith, ◌==◌, Bool-cases, Option-cases,
  inl, inr, ℤ, pos, ◌-ℤ◌, leb_ℤ, ◌<ℤ◌, get_elem?, -ℤ_parts, ◌≤ℤ◌, if◌then◌else◌,
}
use crystalline_lattice.Window
use crystalline_lattice.Window.{Window, WindowStack, desktop, normal, is_desktop, count}
use crystalline_lattice.Window.Invariant
use crystalline_lattice.Window.Invariant.{set_geometry-IsValid}
use crystalline_lattice.Wm.{Wm, key}
use crystalline_lattice.Wm.Ids.{next_id-set_geometry}
use crystalline_lattice.Wm.Invariant.{Event, motion, motion_abs, button, key_event, handle, IsValid}
use crystalline_lattice.Server.{
  InputEvent, input_motion, input_motion_abs, input_button, input_key, Server, moved, clicked,
  track_modifiers, typed, on_input, refit, resize,
}

-- What the window manager makes of an input event.
abbrev pub event_of : {Double : Type 0} → InputEvent Double → Event Double
event_of (input_motion dx dy) = motion dx dy
event_of (input_motion_abs ax ay) = motion_abs ax ay
event_of (input_button code pressed) = button code pressed
event_of (input_key keysym keycode pressed alt_down) = key_event keysym pressed alt_down

wm-track_modifiers :
    (keycode : ℕ) (pressed : Bool) (s : Server) → (track_modifiers keycode pressed s).wm ≡ s.wm
unfolding track_modifiers
wm-track_modifiers keycode pressed s = ground arith

wm-typed :
    (s : Server) (keysym keycode : ℕ) (pressed alt_down : Bool)
    → ((typed s keysym keycode pressed alt_down).0.wm ≡ (key s.wm keysym pressed alt_down).1)
      ⊎ ((typed s keysym keycode pressed alt_down).0.wm ≡ s.wm)
unfolding typed
wm-typed s keysym keycode pressed alt_down =
    elim (Bool-cases (pressed && s.ctrl_held && s.alt_held && keycode == 20)) [
      | inl e ↦ inr (simp (e, typed) refl)
      | inr e ↦ elim (Bool-cases (pressed && keysym == 0xff1b)) [
        | inl f ↦ inr (simp (e, f, typed) refl)
        | inr f ↦ elim (Bool-cases (key s.wm keysym pressed alt_down).0) [
          | inl g ↦ inl (simp (e, f, g, typed) refl)
          | inr g ↦ inl (simp (e, f, g, typed) refl)
        ]
      ]
    ]

module _ {Double : Type 0} (to_int : Double → ℤ) where
  -- An input event does to the window manager what the window manager does with it, or, for the
  -- server's own shortcuts, nothing.
  pub wm-on_input :
      (e : InputEvent Double) (s : Server)
      → ((on_input to_int e s).0.wm ≡ handle to_int (event_of e) s.wm)
        ⊎ ((on_input to_int e s).0.wm ≡ s.wm)
  unfolding on_input moved clicked typed handle
  wm-on_input (input_motion dx dy) s = inl refl
  wm-on_input (input_motion_abs ax ay) s = inl refl
  wm-on_input (input_button code pressed) s = inl refl
  wm-on_input (input_key keysym keycode pressed alt_down) s =
      let s' : Server = track_modifiers keycode pressed (record s { activity = true }) in
      let same : s'.wm ≡ s.wm = wm-track_modifiers keycode pressed (record s { activity = true }) in
      elim (wm-typed s' keysym keycode pressed alt_down) [
        | inl e ↦ inl (e ∙ ap (λ (wm : Wm). (key wm keysym pressed alt_down).1) same)
        | inr e ↦ inr (e ∙ same)
      ]

refit-IsValid :
    (n i : ℕ) (nw nh : ℤ) (s : WindowStack)
    → Invariant.IsValid s
    → Invariant.IsValid (refit n i nw nh s) × ((refit n i nw nh s).next_id ≡ s.next_id)
unfolding refit
refit-IsValid zero i nw nh s valid = (valid, refl)
refit-IsValid (suc n) i nw nh s valid = elim (Option-cases (get_elem? s.windows i)) [
  | inl e ↦ rw (e, refit) (refit-IsValid n (suc i) nw nh s valid)
  | inr (w, e) ↦ elim (Bool-cases (is_desktop w.role)) [
    | inr other ↦ rw (e, other, refit) (refit-IsValid n (suc i) nw nh s valid)
    | inl wallpaper ↦
        let (fitted, same) =
          refit-IsValid n (suc i) nw nh (Window.set_geometry s w.id (pos 0) (pos 0) nw nh)
            (set_geometry-IsValid s valid w.id (pos 0) (pos 0) nw nh) in
        rw (e, wallpaper, refit) (fitted, same ∙ next_id-set_geometry s w.id (pos 0) (pos 0) nw nh)
  ]
]

fit_bounds :
    (c n : ℤ)
    → pos 0 ≤ℤ c
    → pos 0 <ℤ n
    → (pos 0 ≤ℤ (if leb_ℤ n c then n -ℤ pos 1 else c))
      × ((if leb_ℤ n c then n -ℤ pos 1 else c) <ℤ n)
fit_bounds c n low some_pixel = ground (arith, -ℤ_parts n (pos 1))

-- A new screen with a pixel has the cursor on it.
pub resize-IsValid :
    (wm : Wm) (nw nh : ℤ) → IsValid wm → pos 0 <ℤ nw → pos 0 <ℤ nh → IsValid (resize wm nw nh)
unfolding resize
resize-IsValid wm nw nh valid wide high = record {
  stack = (refit-IsValid (count wm.stack) 0 nw nh wm.stack valid.stack).0;
  screen = record { wide = wide; high = high };
  cursor = record {
    left = (fit_bounds wm.cursor_x nw valid.cursor.left wide).0;
    right = (fit_bounds wm.cursor_x nw valid.cursor.left wide).1;
    top = (fit_bounds wm.cursor_y nh valid.cursor.top high).0;
    bottom = (fit_bounds wm.cursor_y nh valid.cursor.top high).1;
  };
  idle = valid.idle;
}

pub next_id-resize :
    (wm : Wm) (nw nh : ℤ) → IsValid wm → (resize wm nw nh).stack.next_id ≡ wm.stack.next_id
unfolding resize
next_id-resize wm nw nh valid = (refit-IsValid (count wm.stack) 0 nw nh wm.stack valid.stack).1
