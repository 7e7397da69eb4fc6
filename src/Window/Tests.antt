-- ===== src/Window/Tests.antt =====
-- The theorems on src/window.c, each at a concrete stack.
use crystalline_lattice.Common.{
  ℕ, ◌<◌, ◌≤◌, ◌≡◌, refl, true, false, none, some, List, [], ◌∷◌, ◌++◌, ◌&&◌, arith, pos, get_elem?,
  ◌%ℤ◌, ◌+ℤ◌,
}
use crystalline_lattice.Window
use crystalline_lattice.Window.{
  Window, WindowStack, normal, desktop, taskbar, count, place, new_window, is_desktop, is_candidate,
  cycle_index, start_of, index, win_max,
}
use crystalline_lattice.Window.Lookup.{without}
use crystalline_lattice.Window.Invariant.{IsValid}
use crystalline_lattice.Window.Reach.{
  Call, create, destroy, raise, focus, run, perform, run-IsValid,
}
use crystalline_lattice.Window.Round.{places_round}
use crystalline_lattice.Window.Effects.{by_id-create}
use crystalline_lattice.Window.Cycle.{focus_cycle_lem}

-- A wallpaper and two windows, of which the lower one was focused.
abbrev calls : List Call
calls =
    create desktop (pos 0) (pos 0) (pos 100) (pos 80) 0 none
    ∷ create normal (pos 10) (pos 10) (pos 50) (pos 40) 0 none
    ∷ create normal (pos 30) (pos 20) (pos 50) (pos 40) 0 none
    ∷ focus 2
    ∷ raise 3
    ∷ []

abbrev desk : WindowStack
desk = run calls Window.init

abbrev window_a : Window
window_a = new_window 2 normal (pos 10) (pos 10) (pos 50) (pos 40) 0 none

desk-IsValid : IsValid desk
desk-IsValid = run-IsValid calls (omega arith)

run-IsValid_example : IsValid (run (destroy 2 ∷ calls) Window.init)
run-IsValid_example = run-IsValid (destroy 2 ∷ calls) (omega arith)

by_id-create_example :
    (Window.by_id desk 4 ≡ none)
    × (Window.by_id (Window.create desk taskbar (pos 0) (pos 70) (pos 100) (pos 10) 0 none).1 4
        ≡ some (record {
          id = 4;
          role = taskbar;
          x = pos 0;
          y = pos 70;
          w = pos 100;
          h = pos 10;
          mapped = true;
          color = 0;
          title = [];
          buf = none;
          buf_w = pos 0;
          buf_h = pos 0;
          buf_stride = pos 0;
          snapped = false;
          saved_x = pos 0;
          saved_y = pos 0;
          saved_w = pos 0;
          saved_h = pos 0;
          app_decorated = false;
        }))
unfolding run perform Window.create Window.init Window.focus Window.raise Window.by_id Window.index
    Window.index_from Window.move_to_top Window.shift_down Window.copy Window.new_window
by_id-create_example =
    by_id-create desk desk-IsValid taskbar (pos 0) (pos 70) (pos 100) (pos 10) 0 none 4
      (omega arith)

-- Entry 1 of the stack is window 2.
focus_cycle_lem_example :
    let visited = λ (n : ℕ). places_round true 3 n 1 in
    (m : ℕ) × (u : Window) × (0 < m)
    × (m ≤ 3)
    × (get_elem? desk.windows (visited m) ≡ some u)
    × (u.role ≡ normal)
    × (u.mapped ≡ true)
    × ((k : ℕ) (t : Window)
        → 0 < k
        → k < m
        → get_elem? desk.windows (visited k) ≡ some t
        → (Window.is_normal t.role && t.mapped) ≡ false)
    × (Window.focused (Window.focus_cycle desk (pos 1)) ≡ some u)
    × ((Window.focus_cycle desk (pos 1)).windows ≡ without u.id desk.windows ++ u ∷ [])
unfolding run perform Window.create Window.init Window.focus Window.raise Window.by_id Window.index
    Window.index_from Window.move_to_top Window.shift_down Window.copy Window.new_window
focus_cycle_lem_example = focus_cycle_lem desk (pos 1) 1 window_a desk-IsValid refl refl

-- Alt-Tab goes from window 2 to window 3, above it.
focus_cycle_from_2 : (Window.focus_cycle desk (pos 1)).focus_id ≡ 3
unfolding run perform Window.create Window.init Window.focus Window.raise Window.by_id Window.index
    Window.index_from Window.move_to_top Window.shift_down Window.copy Window.new_window
    Window.focus_cycle Window.cycle_from Window.cycle_index ◌%ℤ◌ ◌+ℤ◌
focus_cycle_from_2 = refl
