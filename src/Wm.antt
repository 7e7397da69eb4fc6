-- ===== src/Wm.antt =====
-- include/wm.h and src/wm.c: window-manager policy over the window stack. A function that updates
-- `*wm` returns the new record. A `double` is of a type given as a parameter, with the conversion
-- `(int)` of it.
pub mod Tests
pub mod Ids
pub mod Cursor
pub mod WorkArea
pub mod Drag
pub mod Snap
pub mod Invariant
use crystalline_lattice.Common.{
  ℕ, ◌+◌, Bool, true, false, not, ◌&&◌, ◌||◌, Option, none, some, List, [], ◌∷◌, ◌==◌,
  if◌then◌else◌, ℤ, pos, ◌+ℤ◌, ◌-ℤ◌, ◌/ℤ◌, ltb_ℤ, leb_ℤ,
}
use crystalline_lattice.Window
use crystalline_lattice.Window.{Window, WindowStack, has_ssd, is_taskbar, decor_titlebar_h}

-- `struct wm`; the stack that it points to is part of it. `reconfigured_id` is 0 for none.
pub record Wm : Type 0 where
  pub stack : WindowStack
  pub screen_w : ℤ
  pub screen_h : ℤ
  pub cursor_x : ℤ
  pub cursor_y : ℤ
  pub moving : Bool
  pub move_id : ℕ
  pub grab_dx : ℤ
  pub grab_dy : ℤ
  pub reconfigured_id : ℕ

abbrev pub btn_left : ℕ
btn_left = 0x110

abbrev pub key_tab : ℕ
key_tab = 0xff09

abbrev pub snap_edge : ℕ
snap_edge = 16

unfoldable pub clampi : ℤ → ℤ → ℤ → ℤ
clampi v lo hi = if ltb_ℤ v lo then lo else if ltb_ℤ hi v then hi else v

-- The memory that `wm` points to is written over, but for the fields that the code leaves alone.
unfoldable pub init : Wm → WindowStack → ℤ → ℤ → Wm
init wm stack screen_w screen_h = record wm {
  stack = stack;
  screen_w = screen_w;
  screen_h = screen_h;
  cursor_x = screen_w /ℤ 2;
  cursor_y = screen_h /ℤ 2;
  moving = false;
  move_id = 0;
  grab_dx = pos 0;
  grab_dy = pos 0;
}

unfoldable pub drag_grabbed : Wm → Wm
drag_grabbed wm =
    if wm.moving
    then record wm {
      stack =
          Window.move wm.stack wm.move_id (wm.cursor_x -ℤ wm.grab_dx) (wm.cursor_y -ℤ wm.grab_dy);
    }
    else wm

module _ {Double : Type 0} (to_int : Double → ℤ) where
  unfoldable pub pointer_motion : Wm → Double → Double → Wm
  pointer_motion wm dx dy = drag_grabbed (record wm {
    cursor_x = clampi (wm.cursor_x +ℤ to_int dx) (pos 0) (wm.screen_w -ℤ pos 1);
    cursor_y = clampi (wm.cursor_y +ℤ to_int dy) (pos 0) (wm.screen_h -ℤ pos 1);
  })

  unfoldable pub pointer_motion_abs : Wm → Double → Double → Wm
  pointer_motion_abs wm ax ay = drag_grabbed (record wm {
    cursor_x = clampi (to_int ax) (pos 0) (wm.screen_w -ℤ pos 1);
    cursor_y = clampi (to_int ay) (pos 0) (wm.screen_h -ℤ pos 1);
  })

pub record Rect : Type 0 where
  pub x : ℤ
  pub y : ℤ
  pub w : ℤ
  pub h : ℤ

-- `side * 3 / 4`
unfoldable pub three_quarters : ℤ → ℤ
three_quarters side = (side +ℤ side +ℤ side) /ℤ 4

-- What a taskbar docked to an edge takes from the area.
unfoldable pub dock : ℤ → ℤ → Window → Rect → Rect
dock screen_w screen_h t r =
    let full_w = leb_ℤ (three_quarters screen_w) t.w in
    let full_h = leb_ℤ (three_quarters screen_h) t.h in
    let b = t.y +ℤ t.h in
    let right = t.x +ℤ t.w in
    if full_w && leb_ℤ t.y (pos 0)
    then (if ltb_ℤ r.y b then record r { y = b; h = r.h -ℤ (b -ℤ r.y) } else r)
    else if full_w
    then (if ltb_ℤ t.y (r.y +ℤ r.h) then record r { h = t.y -ℤ r.y } else r)
    else if full_h && leb_ℤ t.x (pos 0)
    then (if ltb_ℤ r.x right then record r { x = right; w = r.w -ℤ (right -ℤ r.x) } else r)
    else if full_h
    then (if ltb_ℤ t.x (r.x +ℤ r.w) then record r { w = t.x -ℤ r.x } else r)
    else r

abbrev pub is_docked : Window → Bool
is_docked t = is_taskbar t.role && t.mapped

-- The loop looks at the bottommost mapped taskbar alone.
unfoldable pub dock_first : ℤ → ℤ → List Window → Rect → Rect
dock_first screen_w screen_h [] r = r
dock_first screen_w screen_h (t ∷ ws) r =
    if is_docked t then dock screen_w screen_h t r else dock_first screen_w screen_h ws r

unfoldable pub work_area : Wm → Rect
work_area wm =
    let r =
      dock_first wm.screen_w wm.screen_h wm.stack.windows
        (record { x = pos 0; y = pos 0; w = wm.screen_w; h = wm.screen_h }) in
    record r {
      w = if ltb_ℤ r.w (pos 1) then wm.screen_w else r.w;
      h = if ltb_ℤ r.h (pos 1) then wm.screen_h else r.h;
    }

-- The rectangle that the cursor's edge asks for; `none` away from the edges.
unfoldable pub snap_target : Wm → Option Rect
snap_target wm =
    let a = work_area wm in
    let half = a.w /ℤ 2 in
    if leb_ℤ wm.cursor_y (pos snap_edge)
    then some a
    else if leb_ℤ wm.cursor_x (pos snap_edge)
    then some (record { x = a.x; y = a.y; w = half; h = a.h })
    else if leb_ℤ (wm.screen_w -ℤ pos snap_edge) wm.cursor_x
    then some (record { x = a.x +ℤ a.w -ℤ half; y = a.y; w = half; h = a.h })
    else none

-- The pre-snap rectangle is kept by the first snap alone.
unfoldable pub save_rect : Window → Window
save_rect v =
    if v.snapped
    then v
    else record v { saved_x = v.x; saved_y = v.y; saved_w = v.w; saved_h = v.h; snapped = true }

unfoldable pub snap_on_release : Wm → ℕ → Wm
snap_on_release wm id = elim (Window.by_id wm.stack id) [
  | none ↦ wm
  | some v ↦ if not (has_ssd v) then wm else elim (snap_target wm) [
    | none ↦ wm
    | some r ↦ record wm {
      stack = Window.set_geometry (Window.update wm.stack id save_rect) id r.x r.y r.w r.h;
      reconfigured_id = id;
    }
  ]
]

-- The release of the left button.
unfoldable pub release : Wm → Wm
release wm =
    if wm.moving then snap_on_release (record wm { moving = false; move_id = 0 }) wm.move_id else wm

abbrev pub at_least_zero : ℤ → ℤ
at_least_zero v = if ltb_ℤ v (pos 0) then pos 0 else v

-- The start of a drag of a window that is not snapped.
unfoldable pub grab : Wm → ℕ → ℤ → ℤ → Wm
grab wm id wx wy = record wm {
  moving = true;
  move_id = id;
  grab_dx = wm.cursor_x -ℤ wx;
  grab_dy = wm.cursor_y -ℤ wy;
}

abbrev pub clear_snapped : Window → Window
clear_snapped v = record v { snapped = false }

-- The press on the title bar of `v`, whose id is `id`.
unfoldable pub grab_title : Wm → ℕ → Window → Wm
grab_title wm id v =
    let nw = if ltb_ℤ (pos 0) v.saved_w then v.saved_w else v.w in
    let nh = if ltb_ℤ (pos 0) v.saved_h then v.saved_h else v.h in
    let wx = at_least_zero (wm.cursor_x -ℤ nw /ℤ 2) in
    let wy = at_least_zero (wm.cursor_y -ℤ pos decor_titlebar_h /ℤ 2) in
    if v.snapped
    then grab
        (record wm {
          stack = Window.update (Window.set_geometry wm.stack id wx wy nw nh) id clear_snapped;
          reconfigured_id = id;
        })
        id wx wy
    else grab wm id v.x v.y

-- The press of the left button: `id` is the window under the cursor.
unfoldable pub press_on : Wm → ℕ → Wm
press_on wm id =
    let wm' = record wm { stack = Window.focus wm.stack id } in
    elim (Window.by_id wm'.stack id) [
      | none ↦ wm'
      | some v ↦
          if not (has_ssd v) || leb_ℤ (pos decor_titlebar_h) (wm.cursor_y -ℤ v.y)
          then wm'
          else grab_title wm' id v
    ]

unfoldable pub press : Wm → Wm
press wm = elim (Window.at wm.stack wm.cursor_x wm.cursor_y) [
  | none ↦ wm
  | some v ↦ press_on wm v.id
]

unfoldable pub pointer_button : Wm → ℕ → Bool → Wm
pointer_button wm button pressed =
    if not (button == btn_left) then wm else if pressed then press wm else release wm

unfoldable pub key : Wm → ℕ → Bool → Bool → Bool × Wm
key wm keysym pressed alt_down =
    if pressed && alt_down && keysym == key_tab
    then (true, record wm { stack = Window.focus_cycle wm.stack (pos 1) })
    else (false, wm)
