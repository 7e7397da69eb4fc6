-- ===== src/Wm/Cursor.antt =====
-- The cursor of src/wm.c stays on the virtual screen, and drags the grabbed window with it.
use mathlib.Core.Option
use crystalline_lattice.Common.{
  ℕ, ◌≡◌, refl, arith, ◌==◌, if◌then◌else◌, Bool-cases, inl, inr, ℤ, pos, ◌-ℤ◌, ◌/ℤ◌, ◌≤ℤ◌, ◌<ℤ◌,
  -ℤ_parts,
}
use crystalline_lattice.Window
use crystalline_lattice.Window.{Window, WindowStack}
use crystalline_lattice.Window.Effects.{by_id-update}
use crystalline_lattice.Wm
use crystalline_lattice.Wm.{Wm, clampi, drag_grabbed, pointer_motion, pointer_motion_abs}

pub record OnScreen (wm : Wm) : Type 0 where
  pub left : pos 0 ≤ℤ wm.cursor_x
  pub right : wm.cursor_x <ℤ wm.screen_w
  pub top : pos 0 ≤ℤ wm.cursor_y
  pub bottom : wm.cursor_y <ℤ wm.screen_h

-- A screen with at least one pixel.
pub record HasScreen (wm : Wm) : Type 0 where
  pub wide : pos 0 <ℤ wm.screen_w
  pub high : pos 0 <ℤ wm.screen_h

pub clampi_bounds :
    (v hi : ℤ)
    → pos 0 <ℤ hi
    → (pos 0 ≤ℤ clampi v (pos 0) (hi -ℤ pos 1)) × (clampi v (pos 0) (hi -ℤ pos 1) <ℤ hi)
unfolding clampi
clampi_bounds v hi h = ground (arith, -ℤ_parts hi (pos 1))

pub half_bounds : (v : ℤ) → pos 0 <ℤ v → (pos 0 ≤ℤ v /ℤ 2) × (v /ℤ 2 <ℤ v)
unfolding ◌/ℤ◌
half_bounds v h = ground arith

-- `wm_init` puts the cursor on a screen that has a pixel.
pub init-OnScreen :
    (wm : Wm) (s : WindowStack) (w h : ℤ) → pos 0 <ℤ w → pos 0 <ℤ h → OnScreen (Wm.init wm s w h)
unfolding Wm.init
init-OnScreen wm s w h p q =
    let (a, b) = half_bounds w p in
    let (c, d) = half_bounds h q in record { left = a; right = b; top = c; bottom = d }

-- The cursor at any clamped place.
pub clamped-OnScreen :
    (wm : Wm)
    → HasScreen wm
    → (x y : ℤ)
    → OnScreen (record wm {
      cursor_x = clampi x (pos 0) (wm.screen_w -ℤ pos 1);
      cursor_y = clampi y (pos 0) (wm.screen_h -ℤ pos 1);
    })
clamped-OnScreen wm screen x y =
    let (a, b) = clampi_bounds x wm.screen_w screen.wide in
    let (c, d) = clampi_bounds y wm.screen_h screen.high in
    record { left = a; right = b; top = c; bottom = d }

-- While a drag is on, `drag_grabbed` puts the grabbed window where its grabbed point is under the
-- cursor, and moves no other; with no drag on it moves none.
by_id-drag_grabbed :
    (wm : Wm) (j : ℕ)
    → Window.by_id (drag_grabbed wm).stack j ≡ (
        if wm.moving
        then (if wm.move_id == j
            then Option.map
                (λ (v : Window). record v {
                  x = wm.cursor_x -ℤ wm.grab_dx;
                  y = wm.cursor_y -ℤ wm.grab_dy;
                })
                (Window.by_id wm.stack j)
            else Window.by_id wm.stack j)
        else Window.by_id wm.stack j)
unfolding drag_grabbed Window.move
by_id-drag_grabbed wm j = elim (Bool-cases wm.moving) [
  | inl on ↦ rw on (
      by_id-update wm.stack wm.move_id j
        (λ v. record v { x = wm.cursor_x -ℤ wm.grab_dx; y = wm.cursor_y -ℤ wm.grab_dy })
        (λ v. refl))
  | inr off ↦ rw off
]
