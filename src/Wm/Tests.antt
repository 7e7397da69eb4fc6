-- ===== src/Wm/Tests.antt =====
-- The theorems on src/wm.c, each at a concrete screen.
use crystalline_lattice.Common.{
  ◌≡◌, refl, true, false, none, some, [], ◌∷◌, arith, ℤ, pos, negsuc, ◌+ℤ◌, ◌-ℤ◌, ◌/ℤ◌,
}
use crystalline_lattice.Window
use crystalline_lattice.Window.{Window, WindowStack, normal, desktop, taskbar, new_window}
use crystalline_lattice.Window.Ids.{has}
use crystalline_lattice.Window.Invariant
use crystalline_lattice.Wm
use crystalline_lattice.Wm.{
  Wm, Rect, pointer_button, pointer_motion_abs, btn_left, snap_target, save_rect, work_area,
  drag_grabbed,
}
use crystalline_lattice.Wm.WorkArea.{Inside, work_area-Inside}
use crystalline_lattice.Wm.Drag.{drag-follows}
use crystalline_lattice.Wm.Snap.{AsksFor, at_left, release-snaps}
use crystalline_lattice.Wm.Invariant.{motion_abs, button, IsValid, run, run-init-IsValid}

-- A window with a server-drawn title bar, at (30, 20) and of 50 by 40.
abbrev bare : Window
bare = new_window 2 normal (pos 30) (pos 20) (pos 50) (pos 40) 0 none

-- The same window while it covers the left half of the screen.
abbrev halved : Window
halved = record bare {
  x = pos 0;
  y = pos 0;
  w = pos 100;
  h = pos 150;
  snapped = true;
  saved_x = pos 30;
  saved_y = pos 20;
  saved_w = pos 50;
  saved_h = pos 40;
}

abbrev bar : Window
bar = new_window 1 taskbar (pos 0) (pos 140) (pos 200) (pos 10) 0 none

abbrev over : Window → WindowStack
over v = record { windows = bar ∷ v ∷ []; focus_id = 0; next_id = 3 }

abbrev screen_of : Window → ℤ → ℤ → Wm
screen_of v x y = record {
  stack = over v;
  screen_w = pos 200;
  screen_h = pos 150;
  cursor_x = x;
  cursor_y = y;
  moving = false;
  move_id = 0;
  grab_dx = pos 0;
  grab_dy = pos 0;
  reconfigured_id = 0;
}

bare_stack-IsValid : Invariant.IsValid (over bare)
unfolding new_window has
bare_stack-IsValid = ground arith

run-init-IsValid_example : IsValid (
    run
      (λ (n : ℤ). n)
      (motion_abs (pos 40) (pos 25) ∷ button btn_left true ∷ motion_abs (negsuc 4) (pos 500) ∷ [])
      (Wm.init (screen_of bare (pos 0) (pos 0)) (over bare) (pos 200) (pos 150)))
run-init-IsValid_example =
    run-init-IsValid (λ (n : ℤ). n)
      (motion_abs (pos 40) (pos 25) ∷ button btn_left true ∷ motion_abs (negsuc 4) (pos 500) ∷ [])
      (screen_of bare (pos 0) (pos 0)) (over bare) (pos 200) (pos 150) bare_stack-IsValid
      (omega arith) (omega arith)

bare_under : Window.at (over bare) (pos 40) (pos 25) ≡ some bare
unfolding Window.at Window.at_below Window.contains ◌+ℤ◌ new_window
bare_under = refl

drag-follows_example :
    let wm' =
      pointer_motion_abs
        (λ (n : ℤ). n)
        (pointer_button (screen_of bare (pos 40) (pos 25)) btn_left true)
        (pos 90)
        (negsuc 0) in
    Window.by_id wm'.stack 2
    ≡ some (record bare {
      x = pos 30 +ℤ (wm'.cursor_x -ℤ pos 40);
      y = pos 20 +ℤ (wm'.cursor_y -ℤ pos 25);
    })
unfolding new_window ◌-ℤ◌ Window.has_ssd
drag-follows_example =
    drag-follows (screen_of bare (pos 40) (pos 25)) bare bare_stack-IsValid bare_under refl
      (omega arith) (λ (n : ℤ). n) (pos 90) (negsuc 0) refl

-- A drag of window 2 that ends at the left edge.
abbrev at_edge : Wm
at_edge = record (screen_of bare (pos 3) (pos 80)) { moving = true; move_id = 2 }

abbrev left_half : Rect
left_half = record { x = pos 0; y = pos 0; w = pos 100; h = pos 140 }

at_edge_target : AsksFor at_edge left_half
unfolding work_area Wm.dock_first Wm.dock Wm.three_quarters ◌+ℤ◌ ◌-ℤ◌ ◌/ℤ◌ new_window
at_edge_target = at_left (omega arith) (omega arith)

release-snaps_example :
    let wm' = pointer_button at_edge btn_left false in
    (Window.by_id wm'.stack 2
      ≡ some (record bare {
        x = pos 0;
        y = pos 0;
        w = pos 100;
        h = pos 140;
        snapped = true;
        saved_x = bare.x;
        saved_y = bare.y;
        saved_w = bare.w;
        saved_h = bare.h;
      }))
    × (wm'.moving ≡ false)
    × (wm'.move_id ≡ 0)
    × (wm'.reconfigured_id ≡ 2)
unfolding Window.by_id Window.index Window.index_from new_window Window.has_ssd
release-snaps_example =
    release-snaps at_edge bare left_half refl refl refl at_edge_target (omega arith) (omega arith)

-- The same drag, in the middle of the screen.
abbrev inland : Wm
inland = record at_edge { cursor_x = pos 90 }

work_area-Inside_example : Inside (pos 200) (pos 150) (work_area at_edge)
unfolding new_window
work_area-Inside_example =
    work_area-Inside at_edge (omega arith) (omega arith) (λ e. omega arith, (λ e. omega arith, tt))

-- A taskbar over the whole screen.
abbrev flooded : Wm
flooded = record at_edge {
  stack = record (over bare) { windows = record bar { y = pos 0; h = pos 150 } ∷ [] };
}
