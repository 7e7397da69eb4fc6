-- ===== src/Wm/Drag.antt =====
-- A press of the left button in src/wm.c: what starts a drag, and that a drag carries the window.
use crystalline_lattice.Common.{
  ◌≡◌, refl, ◌∙◌, true, false, not, ◌||◌, some, arith, ℤ, pos, ◌+ℤ◌, ◌-ℤ◌, leb_ℤ, ◌<ℤ◌, ◌≤ℤ◌,
  int_laws,
}
use crystalline_lattice.Window
use crystalline_lattice.Window.{Window, WindowStack, has_ssd, decor_titlebar_h}
use crystalline_lattice.Window.Invariant
use crystalline_lattice.Window.Hit.{at-Answers, Answers}
use crystalline_lattice.Window.Effects.{by_id-focus, by_id_of-split, by_id-update}
use crystalline_lattice.Wm.{
  Wm, drag_grabbed, pointer_motion_abs, pointer_button, press, press_on, grab_title, grab, btn_left,
  clampi,
}

-- The window that the hit test answers with is the one that its id names.
pub by_id-at :
    (s : WindowStack) (gx gy : ℤ) (v : Window)
    → Invariant.IsValid s
    → Window.at s gx gy ≡ some v
    → Window.by_id s v.id ≡ some v
by_id-at s gx gy v valid e =
    let (below, above, split, hit, misses) = answer in
    by_id_of-split s valid.distinct below above v split
  where
    answer : Answers gx gy s.windows (some v)
    answer = rw e at (at-Answers gx gy s)

regroup : (a b c : ℤ) → a -ℤ (b -ℤ c) ≡ c +ℤ (a -ℤ b)
regroup a b c = omega int_laws

module _ (wm : Wm) (v : Window) (valid : Invariant.IsValid wm.stack)
    (under : Window.at wm.stack wm.cursor_x wm.cursor_y ≡ some v) where
  focused_stays : Window.by_id (Window.focus wm.stack v.id) v.id ≡ some v
  focused_stays =
      by_id-focus wm.stack valid v.id v.id ∙ by_id-at wm.stack wm.cursor_x wm.cursor_y v valid under

  pressed : pointer_button wm btn_left true ≡ press_on wm v.id
  unfolding pointer_button press
  pressed = rw (under, press)

  -- On a valid stack, a left press on a window that draws its own title bar, or below a title bar
  -- that the server draws, focuses the window and does nothing more: no drag starts, and no size
  -- changes.
  press-content :
      (has_ssd v ≡ true → pos decor_titlebar_h ≤ℤ wm.cursor_y -ℤ v.y)
      → pointer_button wm btn_left true ≡ record wm { stack = Window.focus wm.stack v.id }
  unfolding press_on
  press-content below =
      let test : (not (has_ssd v) || leb_ℤ (pos decor_titlebar_h) (wm.cursor_y -ℤ v.y)) ≡ true =
        ground arith in
      rw (pressed, focused_stays, press_on, test)

  module _ (ssd : has_ssd v ≡ true) (near : wm.cursor_y -ℤ v.y <ℤ pos decor_titlebar_h) where
    press-grabs :
        pointer_button wm btn_left true
        ≡ grab_title (record wm { stack = Window.focus wm.stack v.id }) v.id v
    unfolding press_on
    press-grabs =
        let test : (not (has_ssd v) || leb_ℤ (pos decor_titlebar_h) (wm.cursor_y -ℤ v.y)) ≡ false =
          ground arith in
        rw (pressed, focused_stays, press_on, test)

    press-title :
        v.snapped ≡ false
        → pointer_button wm btn_left true ≡ record wm {
          stack = Window.focus wm.stack v.id;
          moving = true;
          move_id = v.id;
          grab_dx = wm.cursor_x -ℤ v.x;
          grab_dy = wm.cursor_y -ℤ v.y;
        }
    unfolding grab_title grab
    press-title floating = rw (press-grabs, floating, grab_title)

    -- On a valid stack, after a left press on the server-drawn title bar of a window that is not
    -- snapped, an absolute motion carries the window by as much as the cursor moves, and keeps
    -- its size.
    pub drag-follows :
        {Double : Type 0} (to_int : Double → ℤ) (ax ay : Double)
        → v.snapped ≡ false
        → let wm' = pointer_motion_abs to_int (pointer_button wm btn_left true) ax ay in
          Window.by_id wm'.stack v.id
          ≡ some (record v {
            x = v.x +ℤ (wm'.cursor_x -ℤ wm.cursor_x);
            y = v.y +ℤ (wm'.cursor_y -ℤ wm.cursor_y);
          })
    unfolding pointer_motion_abs drag_grabbed Window.move
    drag-follows to_int ax ay floating =
        let cx = clampi (to_int ax) (pos 0) (wm.screen_w -ℤ pos 1) in
        let cy = clampi (to_int ay) (pos 0) (wm.screen_h -ℤ pos 1) in
        let moved =
          by_id-update (Window.focus wm.stack v.id) v.id v.id
            (λ t. record t { x = cx -ℤ (wm.cursor_x -ℤ v.x); y = cy -ℤ (wm.cursor_y -ℤ v.y) })
            (λ t. refl) in
        rw (press-title floating) (
          ground
            (arith, focused_stays, moved, regroup cx wm.cursor_x v.x, regroup cy wm.cursor_y v.y))
