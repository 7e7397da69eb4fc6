-- ===== src/Compositor/Tests.antt =====
-- The theorems on the compositor of src/server.c, at a concrete framebuffer.
use crystalline_lattice.Common.{◌≡◌, refl, true, false, none, some, [], ◌∷◌, pos, negsuc}
use crystalline_lattice.Window.{Window, normal, taskbar, new_window, has_ssd}
use crystalline_lattice.Wm.{Wm}
use crystalline_lattice.Transport.{Cursor}
use crystalline_lattice.Compositor.{Frame, fill_rect, composite}
use crystalline_lattice.Compositor.Fill.{Painted, in_rect, fill_rect-Painted}
use crystalline_lattice.Compositor.Safety.{IsSafe, composite-IsSafe}
use crystalline_lattice.Compositor.Scene.{seen_at, composite-seen}

abbrev small : Frame
small = record { w = pos 20; h = pos 10; pixels = λ x y. 0 }

fill_rect-Painted_example :
    Painted small
      (in_rect (negsuc 2) (pos 4) (pos 30) (pos 50) small)
      5
      (fill_rect (negsuc 2) (pos 4) (pos 30) (pos 50) 5 small)
fill_rect-Painted_example = fill_rect-Painted (negsuc 2) (pos 4) (pos 30) (pos 50) 5 small

-- A window that sticks out of the screen on three sides, with a buffer that is larger than it.
abbrev wide : Window
wide = record (new_window 1 normal (negsuc 4) (pos 3) (pos 40) (pos 60) 7 none) {
  buf = some 4096;
  buf_w = pos 100;
  buf_h = pos 100;
  buf_stride = pos 400;
}

abbrev scene : Wm
scene = record {
  stack = record { windows = wide ∷ []; focus_id = 1; next_id = 2 };
  screen_w = pos 20;
  screen_h = pos 10;
  cursor_x = pos 18;
  cursor_y = pos 0;
  moving = false;
  move_id = 0;
  grab_dx = pos 0;
  grab_dy = pos 0;
  reconfigured_id = 0;
}

composite-IsSafe_example : IsSafe small (composite (λ base offset. base) scene none small)
composite-IsSafe_example = composite-IsSafe (λ base offset. base) scene none small

-- Two windows that overlap, the upper one with a title bar.
abbrev pair : Wm
pair = record scene {
  stack = record {
    windows =
        new_window 1 taskbar (pos 0) (pos 0) (pos 20) (pos 5) 9 none
        ∷ new_window 2 normal (pos 4) (pos 2) (pos 10) (pos 40) 7 none
        ∷ [];
    focus_id = 2;
    next_id = 3;
  };
}

abbrev unseen : Cursor
unseen = record {
  custom = false;
  hidden = true;
  w = pos 0;
  h = pos 0;
  hotspot_x = pos 0;
  hotspot_y = pos 0;
  argb = [];
}

composite-seen_example :
    (f' : Frame) × (composite (λ base offset. base) pair (some unseen) small ≡ some f')
    × (f'.pixels (pos 5) (pos 3) ≡ seen_at pair (pos 5) (pos 3))
unfolding has_ssd new_window
composite-seen_example =
    composite-seen (λ base offset. base) pair unseen small (pos 5) (pos 3) refl
      ((refl, refl), ((refl, refl), tt)) refl
